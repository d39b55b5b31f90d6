-- ===== src/Tests/Searches.antt =====
-- Searches in a map and its exports at concrete values.
use ct_icp_comment.Common.{ℕ, ◌≡◌, refl, false, none, arith, pos, negsuc, ok, Succeeds}
use ct_icp_comment.Common.{narrow_short, Finishes, fixed_double, ℕ-IsOrdered}
use ct_icp_comment.Geometry.{Voxel, coordinates, line_vectors}
use ct_icp_comment.VoxelMap.Search.{
  SearchParams, radius_search, search_params_from_radius_search, resolutions_upto, visited_voxels,
}
use ct_icp_comment.VoxelMap.Candidates.{candidates, IsNearestPoints, radius_search-nearest}
use ct_icp_comment.VoxelMap.Cube.{visited_voxels-endless, cube}
use ct_icp_comment.VoxelMap.Export.{
  get_map_points, get_visible_map_points, all_points, visible_points, get_map_points-all,
}
use ct_icp_comment.Tests.Maps.{meter, one_block, one_block-IsHashMap, two_levels, seen}

abbrev near : SearchParams ℕ
near = record {
  radius = 1_500_000;
  voxel_resolution = 1_000_000;
  map_id = 0;
  voxel_neighborhood = pos 2;
}

near_params : search_params_from_radius_search 1_500_000 two_levels ≡ ok near
unfolding search_params_from_radius_search resolutions_upto
near_params = refl

abbrev center : Voxel
center = record { x = pos 1; y = pos 1; z = pos 1 }

radius_search-nearest_example :
    Finishes
      (Succeeds (
        IsNearestPoints 3
          (candidates false none 1_300_000 1_500_000 one_block.blocks (cube center 2))))
      (radius_search 1_300_000 1_500_000 (pos 3) none seen)
unfolding coordinates
radius_search-nearest_example =
    radius_search-nearest ℕ-IsOrdered 1_300_000 1_500_000 3 2 none seen near one_block (omega arith)
      near_params refl refl (omega arith, omega arith) (omega arith, omega arith)
      (omega arith, omega arith)

get_map_points-all_example :
    (get_map_points 0 seen ≡ ok (all_points one_block.blocks))
    × (get_visible_map_points 0 0 seen ≡ ok (visible_points 0 one_block.blocks))
get_map_points-all_example = get_map_points-all meter 0 0 seen one_block refl one_block-IsHashMap

-- After the greatest `short` comes the least.
wraps : narrow_short (pos 0x8000) ≡ negsuc 0x7fff
wraps = refl

visited_voxels-endless_example :
    visited_voxels (record { x = pos 32766; y = pos 0; z = pos 0 }) (pos 1) ≡ none
visited_voxels-endless_example =
    visited_voxels-endless (record { x = pos 32766; y = pos 0; z = pos 0 }) 1 (omega arith)
