-- ===== src/VoxelMap.antt =====
-- `MultipleResolutionVoxelMap` (include/ct_icp/map.h): points in hashed voxels at several resolutions.
-- A point cloud that comes in has its world points and instants.
pub mod Insertion
pub mod Removal
pub mod Frames
pub mod Cloud
pub mod Invariant
pub mod Search
pub mod Nearest
pub mod Cube
pub mod Candidates
pub mod Export
use ct_icp_comment.Common.{
  ℕ, zero, suc, ◌+◌, ◌-◌, Bool, true, false, not, ◌&&◌, ◌||◌, List, [], ◌∷◌, ◌++◌, map, length,
  replicate, Option, none, some, Double, ltb, leb, ℤ, to_size, if◌then◌else◌, ◌==◌, Outcome, ok,
  fail, ◌>>=◌, ◌>>◌, check, empty_frame,
}
use ct_icp_comment.Geometry.{Vectors, Voxel, eq_voxel, coordinates}
use ct_icp_comment.Grid.{Grid, find_voxel, put}

pub record PointType (D V : Type 0) : Type 0 where
  pub xyz : V
  pub normal : V
  pub timestamp : D
  pub frame_id : ℕ
  pub point_id : ℕ
  pub is_normal_computed : Bool
  pub is_normal_oriented : Bool

pub record ResolutionParam (D : Type 0) : Type 0 where
  pub resolution : D
  pub min_distance_between_points : D
  pub max_num_points : ℤ

pub record MapOptions (D : Type 0) : Type 0 where
  pub resolutions : List (ResolutionParam D)
  pub select_valid_normals_direction : Bool
  pub max_frames_to_keep : ℕ
  pub default_radius : D

pub record VoxelHashMap (D V : Type 0) : Type 0 where
  pub num_points : ℕ
  pub blocks : Grid (List (PointType D V))

-- A stored frame: the points of its cloud, unless they were dropped, and where it was taken from.
pub record MapFrame (D V : Type 0) : Type 0 where
  pub pointcloud : Option (List (V × D))
  pub begin_tr : V

-- `frame_id_to_frame` has its newest entry of an index first.
pub record VoxelMap (D V : Type 0) : Type 0 where
  pub options : MapOptions D
  pub frame_id_count : ℕ
  pub frame_indices : List ℕ
  pub frame_id_to_frame : List (ℕ × MapFrame D V)
  pub voxel_maps : List (VoxelHashMap D V)

unfoldable pub is_listed : Voxel → List (Option Voxel) → Bool
is_listed k [] = false
is_listed k (none ∷ ks) = is_listed k ks
is_listed k (some j ∷ ks) = eq_voxel j k || is_listed k ks

-- the changed voxels at the first resolution, and those at the others
unfoldable pub first_column : List (List (Option Voxel)) → List (Option Voxel)
first_column [] = []
first_column ([] ∷ rows) = first_column rows
first_column ((x ∷ xs) ∷ rows) = x ∷ first_column rows

unfoldable pub other_columns : List (List (Option Voxel)) → List (List (Option Voxel))
other_columns [] = []
other_columns ([] ∷ rows) = other_columns rows
other_columns ((x ∷ xs) ∷ rows) = xs ∷ other_columns rows

module _ {D V : Type 0} where
  abbrev pub empty_hash_map : VoxelHashMap D V
  empty_hash_map = record { num_points = 0; blocks = [] }

  unfoldable pub new_voxel_map : MapOptions D → VoxelMap D V
  new_voxel_map options = record {
    options = options;
    frame_id_count = 0;
    frame_indices = [];
    frame_id_to_frame = [];
    voxel_maps = replicate (length options.resolutions) empty_hash_map;
  }

  -- `Reset(options, false)`; the indices of the frames are not cleared
  unfoldable pub reset_map : MapOptions D → VoxelMap D V → VoxelMap D V
  reset_map options m = record m {
    options = options;
    voxel_maps = replicate (length options.resolutions) empty_hash_map;
    frame_id_count = 0;
    frame_id_to_frame = [];
  }

  unfoldable pub clear_map : VoxelMap D V → VoxelMap D V
  clear_map m = reset_map m.options m

  unfoldable pub find_frame : ℕ → List (ℕ × MapFrame D V) → Option (MapFrame D V)
  find_frame i [] = none
  find_frame i ((j, f) ∷ fs) = if j == i then some f else find_frame i fs

  -- `frame_id_to_frame[i].pointcloud = nullptr`; an index that is not there is added by the code
  unfoldable pub drop_cloud : ℕ → V → List (ℕ × MapFrame D V) → List (ℕ × MapFrame D V)
  drop_cloud i origin [] = (i, record { pointcloud = none; begin_tr = origin }) ∷ []
  drop_cloud i origin ((j, f) ∷ fs) =
      if j == i then (j, record f { pointcloud = none }) ∷ fs else (j, f) ∷ drop_cloud i origin fs

  -- `while (frame_indices_.size() > max_frames_to_keep)`: the list shortens in every round
  unfoldable pub drop_old :
      ℕ → V → List ℕ → List (ℕ × MapFrame D V) → List ℕ × List (ℕ × MapFrame D V)
  drop_old most origin [] frames = ([], frames)
  drop_old most origin (i ∷ is) frames =
      let rest = drop_old most origin is (drop_cloud i origin frames) in
      if ltb most (length (i ∷ is)) then rest else (i ∷ is, frames)

module _ {D V : Type 0} ⦃d : Double D⦄ ⦃v : Vectors D V⦄ where
  -- the loop over the points of a block
  unfoldable pub min_sq_dist : V → List (PointType D V) → D → D
  min_sq_dist point [] least = least
  min_sq_dist point (p ∷ ps) least =
      let sq_dist : D = v.squared_norm (v.minus p.xyz point) in
      min_sq_dist point ps (if d.lt sq_dist least then sq_dist else least)

  abbrev pub new_point : V → D → ℕ → ℕ → PointType D V
  new_point point timestamp frame_idx pidx = record {
    xyz = point;
    normal = v.vec_zero;
    timestamp = timestamp;
    frame_id = frame_idx;
    point_id = pidx;
    is_normal_computed = false;
    is_normal_oriented = false;
  }

  -- whether a block has room for a point and no point too near; `largest` is the largest double
  unfoldable pub accepts : ResolutionParam D → D → V → List (PointType D V) → Bool
  accepts r largest point block =
      ltb (length block) (to_size r.max_num_points)
      && d.lt (d.mul r.min_distance_between_points r.min_distance_between_points)
          (min_sq_dist point block largest)

  -- `reserve(max_num_points)` throws where the number is negative, which is left out here.
  unfoldable pub insert_point_in_voxel_map :
      ResolutionParam D → D → PointType D V → VoxelHashMap D V → Option Voxel × VoxelHashMap D V
  insert_point_in_voxel_map r largest p h =
      let voxel = coordinates p.xyz r.resolution in
      elim (find_voxel voxel h.blocks) [
        | none ↦ (
          some voxel,
          record { num_points = h.num_points + 1; blocks = put voxel (p ∷ []) h.blocks },
        )
        | some block ↦
            if accepts r largest p.xyz block
            then (
              some voxel,
              record {
                num_points = h.num_points + 1;
                blocks = put voxel (block ++ p ∷ []) h.blocks;
              },
            )
            else (none, h)
      ]

  -- whether a block is to be removed: its first point is far; an empty block is removed too
  unfoldable pub is_far : V → D → List (PointType D V) → Bool
  is_far location distance [] = true
  is_far location distance (p ∷ ps) = d.lt distance (v.norm (v.minus p.xyz location))

  -- the blocks that are kept, and the number of points in the others
  unfoldable pub keep_near : V → D → Grid (List (PointType D V)) → Grid (List (PointType D V)) × ℕ
  keep_near location distance [] = ([], 0)
  keep_near location distance ((k, block) ∷ g) =
      let (kept, removed) = keep_near location distance g in
      if is_far location distance block
      then (kept, length block + removed)
      else ((k, block) ∷ kept, removed)

  unfoldable pub remove_far : V → D → VoxelHashMap D V → VoxelHashMap D V
  remove_far location distance h =
      let (kept, removed) = keep_near location distance h.blocks in
      record { num_points = h.num_points - removed; blocks = kept }

  unfoldable pub remove_elements_far_from_location : V → D → VoxelMap D V → VoxelMap D V
  remove_elements_far_from_location location distance m = record m {
    voxel_maps = map (remove_far location distance) m.voxel_maps;
  }
