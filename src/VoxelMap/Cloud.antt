-- ===== src/VoxelMap/Cloud.antt =====
-- `InsertPointCloud` of `MultipleResolutionVoxelMap` (include/ct_icp/map.h): the points go into the map of
-- each resolution, the oldest clouds are dropped, and the changed blocks get their normals.
use ct_icp_comment.Common.{
  ◌≡◌, ◌<◌, ltb, get_elem?, check, require, ◌>>=◌, ◌>>◌, arith, false, true, ℕ, ◌+◌, List, [], ◌∷◌,
  ◌++◌, map, length, Option, none, some, Double, leb, if◌then◌else◌, Outcome, ok, empty_frame,
}
use ct_icp_comment.Geometry.{Vectors, Voxel}
use ct_icp_comment.Grid.{Grid}
use ct_icp_comment.Pose.{Pose}
use ct_icp_comment.Trajectory.{Algorithms, create}
use ct_icp_comment.Trajectory.Consistency.{AreLinked, create-AreLinked}
use ct_icp_comment.VoxelMap.{
  PointType, ResolutionParam, VoxelHashMap, MapFrame, VoxelMap, is_listed, first_column,
  other_columns, find_frame, drop_old, new_point, insert_point_in_voxel_map,
}

module _ {D V : Type 0} ⦃d : Double D⦄ ⦃v : Vectors D V⦄ where
  -- one point into the map of each resolution, with the voxels that it went into
  unfoldable pub insert_in_all :
      List (ResolutionParam D)
      → D
      → PointType D V
      → List (VoxelHashMap D V)
      → List (VoxelHashMap D V) × List (Option Voxel)
  insert_in_all [] largest p hs = (hs, [])
  insert_in_all (r ∷ rs) largest p [] = ([], [])
  insert_in_all (r ∷ rs) largest p (h ∷ hs) =
      let (voxel, h') = insert_point_in_voxel_map r largest p h in
      let (hs', voxels) = insert_in_all rs largest p hs in (h' ∷ hs', voxel ∷ voxels)

  -- the loop over the points; the voxels that were changed are listed with the point's index
  unfoldable pub insert_points :
      List (ResolutionParam D)
      → D
      → ℕ
      → ℕ
      → List (V × D)
      → List (VoxelHashMap D V)
      → List (VoxelHashMap D V) × List (List (Option Voxel))
  insert_points rs largest fidx pidx [] hs = (hs, [])
  insert_points rs largest fidx pidx (e ∷ es) hs =
      let (hs', voxels) = insert_in_all rs largest (new_point e.0 e.1 fidx pidx) hs in
      let (hs'', rest) = insert_points rs largest fidx (pidx + 1) es hs' in (hs'', voxels ∷ rest)

  -- The normal of a point of a block with normal n: it is turned towards the place that its frame was
  -- taken from, if the frame is known.
  unfoldable pub orient : V → List (ℕ × MapFrame D V) → PointType D V → PointType D V
  orient n frames p = elim (find_frame p.frame_id frames) [
    | none ↦ record p { normal = n; is_normal_computed = true; is_normal_oriented = false }
    | some f ↦ record p {
      normal = if d.lt (d.decimal 0 0) (v.dot (v.minus p.xyz f.begin_tr) n) then v.negate n else n;
      is_normal_computed = true;
      is_normal_oriented = true;
    }
  ]

  -- `normal_of` is the normal that `ComputeNeighborhood` finds for the points of a block.
  unfoldable pub update_block :
      (List V → V) → List (ℕ × MapFrame D V) → List (PointType D V) → List (PointType D V)
  update_block normal_of frames block =
      if leb 5 (length block)
      then map (orient (normal_of (map (λ p. p.xyz) block)) frames) block
      else block

  -- the blocks of the changed voxels of one resolution get their normals
  unfoldable pub update_normals :
      (List V → V)
      → List (ℕ × MapFrame D V)
      → List (Option Voxel)
      → Grid (List (PointType D V))
      → Grid (List (PointType D V))
  update_normals normal_of frames changed [] = []
  update_normals normal_of frames changed ((k, block) ∷ g) =
      (k, if is_listed k changed then update_block normal_of frames block else block)
      ∷ update_normals normal_of frames changed g

  unfoldable pub update_all_normals :
      (List V → V)
      → List (ℕ × MapFrame D V)
      → List (List (Option Voxel))
      → List (VoxelHashMap D V)
      → List (VoxelHashMap D V)
  update_all_normals normal_of frames rows [] = []
  update_all_normals normal_of frames rows (h ∷ hs) =
      record h { blocks = update_normals normal_of frames (first_column rows) h.blocks }
      ∷ update_all_normals normal_of frames (other_columns rows) hs

  -- `InsertPointCloud` on the world points and their instants, where the first pose of the frame's
  -- trajectory has the translation `begin_tr`
  unfoldable pub insert_cloud_at : D → (List V → V) → List (V × D) → V → VoxelMap D V → VoxelMap D V
  insert_cloud_at largest normal_of cloud begin_tr m =
      let fidx = m.frame_id_count in
      let frames : List (ℕ × MapFrame D V) =
        (fidx, record { pointcloud = some cloud; begin_tr = begin_tr }) ∷ m.frame_id_to_frame in
      let (hs, rows) = insert_points m.options.resolutions largest fidx 0 cloud m.voxel_maps in
      let (indices, frames') =
        drop_old m.options.max_frames_to_keep v.vec_zero (m.frame_indices ++ fidx ∷ []) frames in
      record m {
        frame_id_count = fidx + 1;
        frame_indices = indices;
        frame_id_to_frame = frames';
        voxel_maps = update_all_normals normal_of frames rows hs;
      }

module _ {D V Q : Type 0} ⦃d : Double D⦄ ⦃v : Vectors D V⦄ where
  -- `InsertPointCloud`: the poses make a trajectory, sorted and checked by `Create`, and the instants of
  -- the points have a least and a greatest one only where there is a point (`*min_it`, `*max_it`).
  unfoldable pub insert_point_cloud :
      Algorithms D V Q
      → (List V → V)
      → List (V × D)
      → List (Pose D V Q)
      → VoxelMap D V
      → Outcome (VoxelMap D V)
  insert_point_cloud a normal_of cloud poses m = do
    check (ltb 0 (length poses)) empty_frame
    trajectory ← create a poses true
    front ← require (get_elem? trajectory.poses 0) empty_frame
    check (ltb 0 (length cloud)) empty_frame
    ok (insert_cloud_at a.largest normal_of cloud front.pose.tr m)

  pub insert_point_cloud-insert_cloud_at :
      (a : Algorithms D V Q) (normal_of : List V → V) (cloud : List (V × D))
      (poses : List (Pose D V Q)) (m : VoxelMap D V) (first : Pose D V Q) (rest : List (Pose D V Q))
      → 0 < length poses
      → 0 < length cloud
      → a.sort poses ≡ first ∷ rest
      → AreLinked first.ref_frame_id first rest
      → insert_point_cloud a normal_of cloud poses m
        ≡ ok (insert_cloud_at a.largest normal_of cloud first.pose.tr m)
  unfolding insert_point_cloud
  insert_point_cloud-insert_cloud_at a normal_of cloud poses m first rest filled points sorted
        linked =
      let (t, e, same) = create-AreLinked a poses first rest sorted linked in ground arith
