-- ===== src/Tests/Maps.antt =====
-- Hash maps of voxels, samplings and queues at concrete values.
use ct_icp_comment.Common.{
  length, ◌≤◌, ◌<◌, ◌+◌, All, inl, ℕ, ◌≡◌, refl, true, false, List, [], ◌∷◌, some, arith, Succeeds,
  pos, ℕ-IsOrdered, fixed_double,
}
use ct_icp_comment.Geometry.{coordinates, Voxel, WPoint, line_vectors}
use ct_icp_comment.Grid.{put, find_voxel, IsGrid, AllEntries}
use ct_icp_comment.Sampling.{
  index_points, add_index, collect_grid, collect_voxel, GridSamplingOptions, sample_points_in_grid,
  grid_max, keep_first,
}
use ct_icp_comment.Sampling.Indices.{sample_points_in_grid_bounds}
use ct_icp_comment.Sampling.Frames.{keep_first_lem, first_in}
use ct_icp_comment.Pose.{Pose}
use ct_icp_comment.Trajectory.{Algorithms}
use ct_icp_comment.VoxelMap.{
  min_sq_dist, accepts, find_frame, keep_near, PointType, ResolutionParam, MapOptions, VoxelHashMap,
  VoxelMap, new_point, insert_point_in_voxel_map, remove_far, is_far, empty_hash_map,
}
use ct_icp_comment.VoxelMap.Cloud.{insert_point_cloud}
use ct_icp_comment.VoxelMap.Insertion.{IsHashMap, insert_point-IsHashMap}
use ct_icp_comment.VoxelMap.Removal.{remove_far-IsHashMap}
use ct_icp_comment.VoxelMap.Invariant.{AreHashMaps, insert_point_cloud-AreHashMaps}
use ct_icp_comment.VoxelMap.Frames.{IsWindow, insert_point_cloud-IsWindow}
use ct_icp_comment.Queue.{
  trim, BlockingQueue, pushed, popped, Run, next, done, step_push, step_pop, push, pop,
}
use ct_icp_comment.Queue.Runs.{IsSublist, Run-IsSublist}

abbrev pub meter : ResolutionParam ℕ
meter = record {
  resolution = 1_000_000;
  min_distance_between_points = 100_000;
  max_num_points = pos 2;
}

abbrev pub point_at : ℕ → PointType ℕ ℕ
point_at x = new_point x 0 0 0

abbrev pub one_block : VoxelHashMap ℕ ℕ
one_block = record {
  num_points = 1;
  blocks = (record { x = pos 1; y = pos 1; z = pos 1 }, point_at 1_200_000 ∷ []) ∷ [];
}

pub one_block-IsHashMap : IsHashMap meter one_block
unfolding coordinates
one_block-IsHashMap = record {
  keys = (tt, tt);
  entries = (
    record {
      filled = omega arith;
      bounded = omega arith;
      placed = (refl, tt);
      separated = (tt, tt);
    },
    tt,
  );
  counted = refl;
}

insert_point-IsHashMap_example :
    IsHashMap meter
      (insert_point_in_voxel_map meter 1_000_000_000_000 (point_at 1_700_000) one_block).1
insert_point-IsHashMap_example =
    insert_point-IsHashMap ℕ-IsOrdered meter 1_000_000_000_000 (point_at 1_700_000) one_block
      one_block-IsHashMap

insert_point_test :
    (insert_point_in_voxel_map meter 1_000_000_000_000 (point_at 1_700_000) one_block).1.num_points
    ≡ 2
unfolding insert_point_in_voxel_map coordinates find_voxel accepts min_sq_dist
insert_point_test = refl

remove_far-IsHashMap_example :
    IsHashMap meter (remove_far 0 1_000_000 one_block)
    × AllEntries (λ k b. is_far 0 1_000_000 b ≡ false) (remove_far 0 1_000_000 one_block).blocks
    × ((k : Voxel) (b : List (PointType ℕ ℕ))
        → find_voxel k one_block.blocks ≡ some b
        → is_far 0 1_000_000 b ≡ false
        → find_voxel k (remove_far 0 1_000_000 one_block).blocks ≡ some b)
remove_far-IsHashMap_example = remove_far-IsHashMap meter 0 1_000_000 one_block one_block-IsHashMap

remove_far_test : remove_far 0 1_000_000 one_block ≡ record { num_points = 0; blocks = [] }
unfolding remove_far keep_near is_far
remove_far_test = refl

abbrev pub two_levels : MapOptions ℕ
two_levels = record {
  resolutions =
      meter
      ∷ record {
        resolution = 5_000_000;
        min_distance_between_points = 500_000;
        max_num_points = pos 1;
      }
      ∷ [];
  select_valid_normals_direction = true;
  max_frames_to_keep = 1;
  default_radius = 800_000;
}

-- the new map after one cloud
abbrev pub seen : VoxelMap ℕ ℕ
seen = record {
  options = two_levels;
  frame_id_count = 1;
  frame_indices = 0 ∷ [];
  frame_id_to_frame = (0, record { pointcloud = some []; begin_tr = 0 }) ∷ [];
  voxel_maps = one_block ∷ empty_hash_map ∷ [];
}

abbrev as_they_come : Algorithms ℕ ℕ (Unit {0})
as_they_come = record {
  sort = λ poses. poses;
  lower_bound = λ before poses. 0;
  largest = 1_000_000_000_000;
  smallest = 0;
}

abbrev begins : Pose ℕ ℕ (Unit {0})
begins = record {
  pose = record { quat = tt; tr = 0 };
  ref_timestamp = 0;
  dest_timestamp = 0;
  ref_frame_id = 0;
  dest_frame_id = 1;
}

abbrev ends : Pose ℕ ℕ (Unit {0})
ends = record begins { dest_timestamp = 100_000 }

insert_point_cloud-AreHashMaps_example :
    Succeeds
      (λ n.
        AreHashMaps n.options.resolutions n.voxel_maps
        × (n.frame_id_count ≡ 2)
        × (n.options ≡ two_levels))
      (insert_point_cloud as_they_come
        (λ ps. 1_000_000)
        ((1_700_000, 0) ∷ (9_000_000, 50_000) ∷ [])
        (begins ∷ ends ∷ [])
        seen)
insert_point_cloud-AreHashMaps_example =
    insert_point_cloud-AreHashMaps ℕ-IsOrdered as_they_come (λ ps. 1_000_000)
      ((1_700_000, 0) ∷ (9_000_000, 50_000) ∷ []) (begins ∷ ends ∷ []) seen begins (ends ∷ [])
      (one_block-IsHashMap, (record { keys = tt; entries = tt; counted = refl }, tt)) (omega arith)
      (omega arith) refl (refl, inl refl, tt)

seen-IsWindow : IsWindow seen
unfolding find_frame
seen-IsWindow = record {
  bounded = omega arith;
  below = (omega arith, tt);
  distinct = (refl, tt);
  held = λ i. ground arith;
}

insert_point_cloud-IsWindow_example : Succeeds IsWindow (
    insert_point_cloud as_they_come
      (λ ps. 1_000_000)
      ((1_700_000, 0) ∷ [])
      (begins ∷ ends ∷ [])
      seen)
insert_point_cloud-IsWindow_example =
    insert_point_cloud-IsWindow as_they_come (λ ps. 1_000_000) ((1_700_000, 0) ∷ [])
      (begins ∷ ends ∷ []) seen begins (ends ∷ []) seen-IsWindow (omega arith) (omega arith) refl
      (refl, inl refl, tt)

abbrev samples : GridSamplingOptions ℕ
samples = record { grid_size = 1_000_000; num_points_per_voxel = pos 1; max_num_points = pos 1 }

abbrev on_line : List ℕ
on_line = 1_100_000 ∷ 1_300_000 ∷ 2_500_000 ∷ 3_500_000 ∷ []

-- one more than the largest number
sample_points_in_grid_test : sample_points_in_grid (λ g. g) on_line samples ≡ 0 ∷ 2 ∷ []
unfolding sample_points_in_grid index_points add_index coordinates find_voxel put collect_grid
    collect_voxel grid_max
sample_points_in_grid_test = refl

abbrev wpoint_at : ℕ → WPoint ℕ ℕ (Unit {0})
wpoint_at x = record { raw_point = x; timestamp = 0; world_point = x; index_frame = 0 }

keep_first_lem_example :
    IsGrid (keep_first 1_000_000 (wpoint_at 1_200_000 ∷ wpoint_at 1_900_000 ∷ []) [])
    × ((k : Voxel)
        → find_voxel k (keep_first 1_000_000 (wpoint_at 1_200_000 ∷ wpoint_at 1_900_000 ∷ []) [])
          ≡ first_in 1_000_000 k (wpoint_at 1_200_000 ∷ wpoint_at 1_900_000 ∷ []))
keep_first_lem_example = keep_first_lem 1_000_000 (wpoint_at 1_200_000 ∷ wpoint_at 1_900_000 ∷ [])

-- a queue with room for two items
abbrev full : BlockingQueue ℕ
full = record { max_capacity = 2; queue = 1 ∷ 2 ∷ [] }

two_steps : Run full (pushed 3 ∷ popped (some 2) ∷ []) (record { max_capacity = 2; queue = 3 ∷ [] })
unfolding pop push trim
two_steps = next (step_push 3 full) (
    next (step_pop (record { max_capacity = 2; queue = 2 ∷ 3 ∷ [] }))
      (done (record { max_capacity = 2; queue = 3 ∷ [] })))

Run-IsSublist_example : IsSublist {A = ℕ} (2 ∷ 3 ∷ []) (1 ∷ 2 ∷ 3 ∷ [])
Run-IsSublist_example = Run-IsSublist two_steps

sample_points_in_grid_bounds_example :
    (length (sample_points_in_grid (λ g. g) on_line samples) ≤ grid_max samples + 1)
    × All (λ i. i < 4) (sample_points_in_grid (λ g. g) on_line samples)
sample_points_in_grid_bounds_example =
    sample_points_in_grid_bounds (λ g. g) on_line samples (λ P g a. a)
