-- ===== src/Sampling.antt =====
-- The samplings of points by voxels: `sub_sample_frame` and `grid_sampling` (src/ct_icp/ct_icp.cpp),
-- `SamplePointsInGrid` (include/SlamCore/algorithm/grid_sampling.h) and `AdaptiveSamplePointsInGrid`
-- (include/ct_icp/algorithm/sampling.h). The order of a hash map's traversal is a parameter.
pub mod Frames
pub mod Indices
use ct_icp_comment.Common.{
  ℕ, suc, zero, ◌+◌, ◌-◌, Bool, true, false, ◌&&◌, List, [], ◌∷◌, ◌++◌, map, length, get_elem?, set,
  replicate, get_last?, Option, none, some, Double, Outcome, ok, fail, ◌>>=◌, ◌>>◌, check, require,
  bad_index, ltb, ltb_ℤ, ℤ, pos, to_size, if◌then◌else◌,
}
use ct_icp_comment.Geometry.{Vectors, Voxel, coordinates, WPoint}
use ct_icp_comment.Grid.{Grid, find_voxel, put}

module _ {D V Q : Type 0} ⦃d : Double D⦄ ⦃v : Vectors D V⦄ where
  -- the voxel of a point by casts to `short`
  unfoldable pub short_voxel : D → WPoint D V Q → Voxel
  short_voxel size p = record {
    x = d.to_short (d.div (v.x p.raw_point) size);
    y = d.to_short (d.div (v.y p.raw_point) size);
    z = d.to_short (d.div (v.z p.raw_point) size);
  }

  -- the loop over the frame: the first point of each voxel is kept
  unfoldable pub keep_first : D → List (WPoint D V Q) → Grid (WPoint D V Q) → Grid (WPoint D V Q)
  keep_first size [] grid = grid
  keep_first size (p ∷ ps) grid = keep_first size ps (elim (find_voxel (short_voxel size p) grid) [
    | none ↦ put (short_voxel size p) p grid
    | some _ ↦ grid
  ])

  unfoldable pub sub_sample_frame :
      (Grid (WPoint D V Q) → Grid (WPoint D V Q)) → List (WPoint D V Q) → D → List (WPoint D V Q)
  sub_sample_frame traverse frame size_voxel =
      map (λ e. e.1) (traverse (keep_first size_voxel frame []))

  -- The copies of the frame and of the result are left out.
  unfoldable pub grid_sampling :
      (Grid (WPoint D V Q) → Grid (WPoint D V Q)) → List (WPoint D V Q) → D → List (WPoint D V Q)
  grid_sampling traverse frame size_voxel_subsampling =
      sub_sample_frame traverse frame size_voxel_subsampling

-- an index is added to the indices of its voxel, unless there are enough
unfoldable pub add_index : ℕ → Voxel → ℕ → Grid (List ℕ) → Grid (List ℕ)
add_index num_points_per_voxel voxel idx grid = elim (find_voxel voxel grid) [
  | none ↦ put voxel (idx ∷ []) grid
  | some indices ↦
      if ltb (length indices) num_points_per_voxel
      then put voxel (indices ++ idx ∷ []) grid
      else grid
]

-- the loop over the indices of one voxel, with its `break`
unfoldable pub collect_voxel : ℕ → List ℕ → List ℕ → List ℕ
collect_voxel max_num_points [] out = out
collect_voxel max_num_points (i ∷ is) out =
    let rest = collect_voxel max_num_points is (out ++ i ∷ []) in
    if ltb max_num_points (length out) then out else rest

-- the loop over the voxels, with its `break`
unfoldable pub collect_grid : ℕ → Grid (List ℕ) → List ℕ → List ℕ
collect_grid max_num_points [] out = out
collect_grid max_num_points ((k, indices) ∷ g) out =
    let out' = collect_voxel max_num_points indices out in
    let rest = collect_grid max_num_points g out' in
    if ltb max_num_points (length out') then out' else rest

pub record GridSamplingOptions (D : Type 0) : Type 0 where
  pub grid_size : D
  pub num_points_per_voxel : ℤ
  pub max_num_points : ℤ

pub record AdaptiveGridSamplingOptions (D : Type 0) : Type 0 where
  pub num_points_per_voxel : ℤ
  pub max_num_points : ℤ
  pub distance_voxel_size : List (D × D)

-- the loop over the indices of all the grids, with its `break`
unfoldable pub collect_grids : ℕ → List (Grid (List ℕ)) → List ℕ → List ℕ
collect_grids max_num_points [] out = out
collect_grids max_num_points (g ∷ gs) out =
    let out' = collect_grid max_num_points g out in
    let rest = collect_grids max_num_points gs out' in
    if ltb max_num_points (length out') then out' else rest

module _ {D : Type 0} ⦃d : Double D⦄ where
  -- the largest `size_t`, or the option
  unfoldable pub grid_max : GridSamplingOptions D → ℕ
  grid_max o =
      if ltb_ℤ o.max_num_points (pos 0) then 0xffff_ffff_ffff_ffff else to_size o.max_num_points

  -- `std::lower_bound`: the number of leading rings whose distance is below the given one
  unfoldable pub rings_below : D → List (D × D) → ℕ
  rings_below dist [] = 0
  rings_below dist ((first, size) ∷ rings) =
      let rest = rings_below dist rings in if d.lt first dist then suc rest else 0

  unfoldable pub adaptive_max : AdaptiveGridSamplingOptions D → ℕ
  adaptive_max o = if ltb_ℤ (pos 0) o.max_num_points then to_size o.max_num_points else 0x7fff_ffff

module _ {D V : Type 0} ⦃d : Double D⦄ ⦃v : Vectors D V⦄ where
  unfoldable pub index_points : GridSamplingOptions D → List V → ℕ → Grid (List ℕ) → Grid (List ℕ)
  index_points o [] idx grid = grid
  index_points o (p ∷ ps) idx grid =
      index_points o ps (idx + 1)
        (add_index (to_size o.num_points_per_voxel) (coordinates p o.grid_size) idx grid)

  unfoldable pub sample_points_in_grid :
      (Grid (List ℕ) → Grid (List ℕ)) → List V → GridSamplingOptions D → List ℕ
  sample_points_in_grid traverse points o =
      collect_grid (grid_max o) (traverse (index_points o points 0 [])) []

  -- The index is put into the grid of the last ring below the point's distance.
  unfoldable pub add_to_ring :
      AdaptiveGridSamplingOptions D
      → V
      → ℕ
      → List (Grid (List ℕ))
      → ℕ
      → Outcome (List (Grid (List ℕ)))
  add_to_ring o point idx grids lw = do
    check (ltb 0 lw) bad_index
    ring ← require (get_elem? o.distance_voxel_size (lw - 1)) bad_index
    grid ← require (get_elem? grids (lw - 1)) bad_index
    let voxel : Voxel = coordinates point ring.1
    ok (set grids (lw - 1) (add_index (to_size o.num_points_per_voxel) voxel idx grid))

  -- One round of the loop. A distance that equals the first ring's leads to the index -1.
  unfoldable pub add_adaptive :
      AdaptiveGridSamplingOptions D → V → ℕ → List (Grid (List ℕ)) → Outcome (List (Grid (List ℕ)))
  add_adaptive o point idx grids = do
    let dist : D = v.norm point
    front ← require (get_elem? o.distance_voxel_size 0) bad_index
    back ← require (get_last? o.distance_voxel_size) bad_index
    let lw = rings_below dist o.distance_voxel_size
    if d.le front.0 dist && d.lt dist back.0 then add_to_ring o point idx grids lw else ok grids

  unfoldable pub index_adaptive :
      AdaptiveGridSamplingOptions D
      → List V
      → ℕ
      → List (Grid (List ℕ))
      → Outcome (List (Grid (List ℕ)))
  index_adaptive o [] idx grids = ok grids
  index_adaptive o (p ∷ ps) idx grids = add_adaptive o p idx grids >>= index_adaptive o ps (idx + 1)

  unfoldable pub adaptive_sample_points_in_grid :
      (Grid (List ℕ) → Grid (List ℕ)) → List V → AdaptiveGridSamplingOptions D → Outcome (List ℕ)
  adaptive_sample_points_in_grid traverse points o = do
    grids ← index_adaptive o points 0 (replicate (length o.distance_voxel_size) [])
    ok (collect_grids (adaptive_max o) (map traverse grids) [])
