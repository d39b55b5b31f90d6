-- ===== src/VoxelMap/Invariant.antt =====
-- The invariant of the whole map, over the points of a cloud and the normals.
use ct_icp_comment.Common.{
  ◌<◌, ℕ, ◌+◌, ◌≡◌, refl, List, [], ◌∷◌, map, length, length-map, Option, Double, IsOrdered, arith,
  All, Bool-cases, inl, inr, leb, Succeeds, subst, sym,
}
use ct_icp_comment.Geometry.{coordinates, Vectors, Voxel}
use ct_icp_comment.Grid.{Grid, IsApart, IsGrid, AllEntries}
use ct_icp_comment.Pose.{Pose}
use ct_icp_comment.Trajectory.{Algorithms}
use ct_icp_comment.Trajectory.Consistency.{AreLinked}
use ct_icp_comment.VoxelMap.{
  PointType, ResolutionParam, MapFrame, VoxelHashMap, VoxelMap, is_listed, first_column,
  other_columns, new_point, remove_far,
}
use ct_icp_comment.VoxelMap.Cloud.{
  insert_in_all, insert_points, orient, update_block, update_normals, update_all_normals,
  insert_cloud_at, insert_point_cloud, insert_point_cloud-insert_cloud_at,
}
use ct_icp_comment.VoxelMap.Insertion.{
  total, IsBlock, IsSeparated, IsApartFrom, IsHashMap, insert_point-IsHashMap,
}
use ct_icp_comment.VoxelMap.Removal.{remove_far-IsHashMap}

module _ {D V : Type 0} ⦃d : Double D⦄ ⦃v : Vectors D V⦄ where
  -- one hash map for each resolution, each with its invariant
  abbrev pub AreHashMaps : List (ResolutionParam D) → List (VoxelHashMap D V) → Type 0
  AreHashMaps [] [] = Unit
  AreHashMaps [] (h ∷ hs) = ⊥
  AreHashMaps (r ∷ rs) [] = ⊥
  AreHashMaps (r ∷ rs) (h ∷ hs) = IsHashMap r h × AreHashMaps rs hs

  orient-xyz :
      (n : V) (frames : List (ℕ × MapFrame D V)) (p : PointType D V)
      → (orient n frames p).xyz ≡ p.xyz
  unfolding orient
  orient-xyz n frames p = ground (arith, p)

  All-orient :
      (P : V → Type 0) (n : V) (frames : List (ℕ × MapFrame D V)) (b : List (PointType D V))
      → All (λ q. P q.xyz) b
      → All (λ q. P q.xyz) (map (orient n frames) b)
  All-orient P n frames [] a = tt
  All-orient P n frames (p ∷ ps) a =
      (subst P (sym (orient-xyz n frames p)) a.0, All-orient P n frames ps a.1)

  IsSeparated-orient :
      (r : ResolutionParam D) (n : V) (frames : List (ℕ × MapFrame D V)) (b : List (PointType D V))
      → IsSeparated r b
      → IsSeparated r (map (orient n frames) b)
  IsSeparated-orient r n frames [] s = tt
  IsSeparated-orient r n frames (p ∷ ps) s = (
    subst (λ (x : V). All (λ q. IsApartFrom r q.xyz x) (map (orient n frames) ps))
        (sym (orient-xyz n frames p)) (All-orient (λ x. IsApartFrom r x p.xyz) n frames ps s.0),
    IsSeparated-orient r n frames ps s.1,
  )

  length-update_block :
      (normal_of : List V → V) (frames : List (ℕ × MapFrame D V)) (b : List (PointType D V))
      → length (update_block normal_of frames b) ≡ length b
  unfolding update_block
  length-update_block normal_of frames b =
      ground (arith, length-map (orient (normal_of (map (λ p. p.xyz) b)) frames) b)

  IsBlock-update_block :
      (r : ResolutionParam D) (normal_of : List V → V) (frames : List (ℕ × MapFrame D V))
      (k : Voxel) (b : List (PointType D V))
      → IsBlock r k b
      → IsBlock r k (update_block normal_of frames b)
  unfolding update_block
  IsBlock-update_block r normal_of frames k b i =
      let n = normal_of (map (λ p. p.xyz) b) in
      elim (Bool-cases (leb 5 (length b))) [
        | inl e ↦ rw e (record {
          filled = rw (length-map (orient n frames) b) i.filled;
          bounded = rw (length-map (orient n frames) b) i.bounded;
          placed = All-orient (λ x. coordinates x r.resolution ≡ k) n frames b i.placed;
          separated = IsSeparated-orient r n frames b i.separated;
        })
        | inr e ↦ rw e i
      ]

  total-update_normals :
      (normal_of : List V → V) (frames : List (ℕ × MapFrame D V)) (changed : List (Option Voxel))
      (g : Grid (List (PointType D V)))
      → total (update_normals normal_of frames changed g) ≡ total g
  unfolding update_normals
  total-update_normals normal_of frames changed [] = omega arith
  total-update_normals normal_of frames changed ((k, b) ∷ g) = ground (
    arith,
    length-update_block normal_of frames b,
    total-update_normals normal_of frames changed g,
  )

  IsApart-update_normals :
      (normal_of : List V → V) (frames : List (ℕ × MapFrame D V)) (changed : List (Option Voxel))
      (j : Voxel) (g : Grid (List (PointType D V)))
      → IsApart j g
      → IsApart j (update_normals normal_of frames changed g)
  unfolding update_normals
  IsApart-update_normals normal_of frames changed j [] a = tt
  IsApart-update_normals normal_of frames changed j ((k, b) ∷ g) a =
      (a.0, IsApart-update_normals normal_of frames changed j g a.1)

  IsGrid-update_normals :
      (normal_of : List V → V) (frames : List (ℕ × MapFrame D V)) (changed : List (Option Voxel))
      (g : Grid (List (PointType D V)))
      → IsGrid g
      → IsGrid (update_normals normal_of frames changed g)
  unfolding update_normals
  IsGrid-update_normals normal_of frames changed [] a = tt
  IsGrid-update_normals normal_of frames changed ((k, b) ∷ g) a = (
    IsApart-update_normals normal_of frames changed k g a.0,
    IsGrid-update_normals normal_of frames changed g a.1,
  )

  AllEntries-update_normals :
      (r : ResolutionParam D) (normal_of : List V → V) (frames : List (ℕ × MapFrame D V))
      (changed : List (Option Voxel)) (g : Grid (List (PointType D V)))
      → AllEntries (IsBlock r) g
      → AllEntries (IsBlock r) (update_normals normal_of frames changed g)
  unfolding update_normals
  AllEntries-update_normals r normal_of frames changed [] a = tt
  AllEntries-update_normals r normal_of frames changed ((k, b) ∷ g) a =
      let rest = AllEntries-update_normals r normal_of frames changed g a.1 in
      elim (Bool-cases (is_listed k changed)) [
        | inl e ↦ rw e (IsBlock-update_block r normal_of frames k b a.0, rest)
        | inr e ↦ rw e (a.0, rest)
      ]

  update_all_normals-AreHashMaps :
      (normal_of : List V → V) (frames : List (ℕ × MapFrame D V))
      (rows : List (List (Option Voxel))) (rs : List (ResolutionParam D))
      (hs : List (VoxelHashMap D V))
      → AreHashMaps rs hs
      → AreHashMaps rs (update_all_normals normal_of frames rows hs)
  unfolding update_all_normals
  update_all_normals-AreHashMaps normal_of frames rows [] [] i = tt
  update_all_normals-AreHashMaps normal_of frames rows [] (h ∷ hs) i = elim i [ ]
  update_all_normals-AreHashMaps normal_of frames rows (r ∷ rs) [] i = elim i [ ]
  update_all_normals-AreHashMaps normal_of frames rows (r ∷ rs) (h ∷ hs) i =
      let changed = first_column rows in
      (
        record {
          keys = IsGrid-update_normals normal_of frames changed h.blocks i.0.keys;
          entries = AllEntries-update_normals r normal_of frames changed h.blocks i.0.entries;
          counted = rw (total-update_normals normal_of frames changed h.blocks) i.0.counted;
        },
        update_all_normals-AreHashMaps normal_of frames (other_columns rows) rs hs i.1,
      )

  remove_far-AreHashMaps :
      (location : V) (distance : D) (rs : List (ResolutionParam D)) (hs : List (VoxelHashMap D V))
      → AreHashMaps rs hs
      → AreHashMaps rs (map (remove_far location distance) hs)
  remove_far-AreHashMaps location distance [] [] i = tt
  remove_far-AreHashMaps location distance [] (h ∷ hs) i = elim i [ ]
  remove_far-AreHashMaps location distance (r ∷ rs) [] i = elim i [ ]
  remove_far-AreHashMaps location distance (r ∷ rs) (h ∷ hs) i = (
    (remove_far-IsHashMap r location distance h i.0).0,
    remove_far-AreHashMaps location distance rs hs i.1,
  )

  module _ (laws : IsOrdered D) where
    insert_in_all-AreHashMaps :
        (largest : D) (p : PointType D V) (rs : List (ResolutionParam D))
        (hs : List (VoxelHashMap D V))
        → AreHashMaps rs hs
        → AreHashMaps rs (insert_in_all rs largest p hs).0
    unfolding insert_in_all
    insert_in_all-AreHashMaps largest p [] [] i = tt
    insert_in_all-AreHashMaps largest p [] (h ∷ hs) i = elim i [ ]
    insert_in_all-AreHashMaps largest p (r ∷ rs) [] i = elim i [ ]
    insert_in_all-AreHashMaps largest p (r ∷ rs) (h ∷ hs) i = (
      insert_point-IsHashMap laws r largest p h i.0,
      insert_in_all-AreHashMaps largest p rs hs i.1,
    )

    insert_points-AreHashMaps :
        (rs : List (ResolutionParam D)) (largest : D) (fidx pidx : ℕ) (es : List (V × D))
        (hs : List (VoxelHashMap D V))
        → AreHashMaps rs hs
        → AreHashMaps rs (insert_points rs largest fidx pidx es hs).0
    unfolding insert_points
    insert_points-AreHashMaps rs largest fidx pidx [] hs i = i
    insert_points-AreHashMaps rs largest fidx pidx (e ∷ es) hs i =
        insert_points-AreHashMaps rs largest fidx (pidx + 1) es _
          (insert_in_all-AreHashMaps largest (new_point e.0 e.1 fidx pidx) rs hs i)

    insert_cloud_at-AreHashMaps :
        (largest : D) (normal_of : List V → V) (cloud : List (V × D)) (begin_tr : V)
        (m : VoxelMap D V)
        → AreHashMaps m.options.resolutions m.voxel_maps
        → let n = insert_cloud_at largest normal_of cloud begin_tr m in
          AreHashMaps n.options.resolutions n.voxel_maps
          × (n.frame_id_count ≡ m.frame_id_count + 1)
          × (n.options ≡ m.options)
    unfolding insert_cloud_at
    insert_cloud_at-AreHashMaps largest normal_of cloud begin_tr m i = (
      update_all_normals-AreHashMaps normal_of _ _ m.options.resolutions _ (
          insert_points-AreHashMaps m.options.resolutions largest m.frame_id_count 0 cloud
            m.voxel_maps i),
      refl,
      refl,
    )

module _ {D V Q : Type 0} ⦃d : Double D⦄ ⦃v : Vectors D V⦄ (laws : IsOrdered D) where
  -- Where the doubles are ordered, there are poses and points, and the poses, once sorted, have one
  -- reference frame and are each of the frame of the pose before or not earlier, the insertion of a
  -- cloud succeeds, keeps the invariant of the hash map of every resolution, whatever normals are
  -- computed, counts the frame and leaves the options.
  pub insert_point_cloud-AreHashMaps :
      (a : Algorithms D V Q) (normal_of : List V → V) (cloud : List (V × D))
      (poses : List (Pose D V Q)) (m : VoxelMap D V) (first : Pose D V Q) (rest : List (Pose D V Q))
      → AreHashMaps m.options.resolutions m.voxel_maps
      → 0 < length poses
      → 0 < length cloud
      → a.sort poses ≡ first ∷ rest
      → AreLinked first.ref_frame_id first rest
      → Succeeds
          (λ n.
            AreHashMaps n.options.resolutions n.voxel_maps
            × (n.frame_id_count ≡ m.frame_id_count + 1)
            × (n.options ≡ m.options))
          (insert_point_cloud a normal_of cloud poses m)
  insert_point_cloud-AreHashMaps a normal_of cloud poses m first rest i filled points sorted
        linked =
      rw
        (insert_point_cloud-insert_cloud_at a normal_of cloud poses m first rest filled points
          sorted linked)
        (insert_cloud_at-AreHashMaps laws a.largest normal_of cloud first.pose.tr m i)
