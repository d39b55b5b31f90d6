-- ===== src/VoxelMap/Search.antt =====
-- The radius search of `MultipleResolutionVoxelMap` (include/ct_icp/map.h). The priority queue is its
-- entries from the greatest distance to the least; the standard library leaves the order of equal
-- distances open, and here a new entry comes before those that are equal to it. The coordinates of
-- the visited voxels are of type `short`; their sums are `int`s that do not overflow.
use mathlib.Core.Option
use ct_icp_comment.Common.{
  ℕ, zero, suc, ◌-◌, Bool, true, false, ◌&&◌, ◌||◌, Option, none, some, List, [], ◌∷◌, ◌++◌, map,
  ◌==◌, if◌then◌else◌, length, get_elem?, ℤ, pos, ltb_ℤ, leb_ℤ, to_size, add_ℕ, ◌+ℤ◌, Outcome, ok,
  fail, check, require, ◌>>=◌, ◌>>◌, bad_index,
}
use ct_icp_comment.Common.{◌-ℤ◌, narrow_short, Double}
use ct_icp_comment.Geometry.{Vectors, Voxel, coordinates}
use ct_icp_comment.Grid.{Grid, find_voxel}
use ct_icp_comment.VoxelMap.{PointType, ResolutionParam, MapOptions, VoxelMap}

pub record SearchParams (D : Type 0) : Type 0 where
  pub radius : D
  pub voxel_resolution : D
  pub map_id : ℕ
  pub voxel_neighborhood : ℤ

-- `pair_distance_t`
pub record Neighbor (D V : Type 0) : Type 0 where
  pub distance : D
  pub point : V
  pub voxel : Voxel

-- The values of the `short` of a loop up to `last`, for a number of rounds.
unfoldable pub short_range : ℕ → ℤ → ℤ → Option (List ℤ)
short_range zero k last = none
short_range (suc rounds) k last =
    let rest = short_range rounds (narrow_short (add_ℕ k 1)) last in
    elim (ltb_ℤ k last) [ true ↦ Option.map (λ ks. k ∷ ks) rest | false ↦ some [] ]

-- A `short` has 65536 values: a loop that has not ended after all of them does not end.
abbrev pub short_rounds : ℕ
short_rounds = 0x10001

unfoldable pub axis : ℤ → ℤ → Option (List ℤ)
axis k nb = short_range short_rounds (narrow_short (k -ℤ nb)) (k +ℤ nb +ℤ pos 1)

abbrev pub and_then {ℓ κ} : {A : Type ℓ} {B : Type κ} → Option A → (A → Option B) → Option B
and_then none next = none
and_then (some a) next = next a

-- A loop over the values of an axis.
unfoldable pub over {ℓ} : {A : Type ℓ} → List ℤ → (ℤ → Option (List A)) → Option (List A)
over [] body = some []
over (k ∷ ks) body =
    let rest = over ks body in
    and_then (body k) λ first. Option.map (λ others. first ++ others) rest

unfoldable pub visited_voxels : Voxel → ℤ → Option (List Voxel)
visited_voxels voxel nb = and_then (axis voxel.x nb) λ kxs. over kxs λ kxx.
    and_then (axis voxel.y nb) λ kys.
      over kys
        λ kyy. Option.map (map (λ kzz. record { x = kxx; y = kyy; z = kzz })) (axis voxel.z nb)

module _ {D : Type 0} ⦃d : Double D⦄ where
  -- `std::lower_bound`: the number of leading resolutions up to the radius
  unfoldable pub resolutions_upto : D → List (ResolutionParam D) → ℕ
  resolutions_upto radius [] = 0
  resolutions_upto radius (r ∷ rs) =
      let rest = resolutions_upto radius rs in if d.le r.resolution radius then suc rest else 0

  unfoldable pub search_params_from_radius_search : D → MapOptions D → Outcome (SearchParams D)
  search_params_from_radius_search radius o = do
    let idx = resolutions_upto radius o.resolutions - 1
    r ← require (get_elem? o.resolutions idx) bad_index
    ok (record {
      radius = radius;
      voxel_resolution = r.resolution;
      map_id = idx;
      voxel_neighborhood = d.ceil (d.div radius r.resolution);
    })

module _ {D V : Type 0} ⦃d : Double D⦄ where
  -- `priority_queue.emplace`
  unfoldable pub emplace_neighbor : Neighbor D V → List (Neighbor D V) → List (Neighbor D V)
  emplace_neighbor e [] = e ∷ []
  emplace_neighbor e (f ∷ queue) =
      if d.lt e.distance f.distance then f ∷ emplace_neighbor e queue else e ∷ f ∷ queue

  -- a candidate and a queue of at most `most` neighbors; `top` of an empty queue is undefined
  unfoldable pub offer : ℕ → Neighbor D V → List (Neighbor D V) → Outcome (List (Neighbor D V))
  offer most e queue =
      if length queue == most
      then elim queue [
        | [] ↦ fail bad_index
        | top ∷ rest ↦
            ok (if d.lt e.distance top.distance then emplace_neighbor e rest else top ∷ rest)
      ]
      else ok (emplace_neighbor e queue)

abbrev pub pair_up {ℓ κ} : {A : Type ℓ} {B : Type κ} → List A → List B → List (A × B)
pair_up [] ys = []
pair_up (x ∷ xs) [] = []
pair_up (x ∷ xs) (y ∷ ys) = (x, y) ∷ pair_up xs ys

module _ {V : Type 0} where
  -- one result after another, where both a search and the rest end
  abbrev pub next_result :
      Option (Outcome (List V))
      → Option (Outcome (List (List V)))
      → Option (Outcome (List (List V)))
  next_result first rest =
      and_then first
        λ run. Option.map (λ others. run >>= λ points. others >>= λ more. ok (points ∷ more)) rest

module _ {D V : Type 0} ⦃d : Double D⦄ ⦃v : Vectors D V⦄ where
  -- the test of the normal
  abbrev pub faces_away : Bool → Option V → V → PointType D V → Bool
  faces_away select none query p = false
  faces_away select (some sensor) query p =
      select
      && (p.is_normal_oriented
          && (p.is_normal_computed && d.lt (v.dot (v.minus sensor query) p.normal) (d.decimal 0 0)))

  abbrev pub neighbor_of : V → Voxel → PointType D V → Neighbor D V
  neighbor_of query voxel p = record {
    distance = v.norm (v.minus p.xyz query);
    point = p.xyz;
    voxel = voxel;
  }

  -- whether a point is passed over
  abbrev pub is_skipped : Bool → Option V → V → D → PointType D V → Bool
  is_skipped select sensor query radius p =
      faces_away select sensor query p || d.lt radius (v.norm (v.minus p.xyz query))

  unfoldable pub search_block :
      Bool
      → Option V
      → V
      → D
      → ℕ
      → Voxel
      → List (PointType D V)
      → List (Neighbor D V)
      → Outcome (List (Neighbor D V))
  search_block select sensor query radius most voxel [] queue = ok queue
  search_block select sensor query radius most voxel (p ∷ ps) queue = do
    queue' ←
        if is_skipped select sensor query radius p
        then ok queue
        else offer most (neighbor_of query voxel p) queue
    search_block select sensor query radius most voxel ps queue'

  unfoldable pub search_voxels :
      Bool
      → Option V
      → V
      → D
      → ℕ
      → Grid (List (PointType D V))
      → List Voxel
      → List (Neighbor D V)
      → Outcome (List (Neighbor D V))
  search_voxels select sensor query radius most blocks [] queue = ok queue
  search_voxels select sensor query radius most blocks (voxel ∷ voxels) queue = do
    queue' ← elim (find_voxel voxel blocks) [
      | none ↦ ok queue
      | some block ↦ search_block select sensor query radius most voxel block queue
    ]
    search_voxels select sensor query radius most blocks voxels queue'

  -- the loops with what they read; `reserve` throws for a number that is negative
  unfoldable pub search_in :
      V → ℤ → Option V → VoxelMap D V → SearchParams D → List Voxel → Outcome (List V)
  search_in query max_num_neighbors sensor m params voxels = do
    check (leb_ℤ (pos 0) max_num_neighbors) bad_index
    h ← require (get_elem? m.voxel_maps params.map_id) bad_index
    queue ←
        search_voxels m.options.select_valid_normals_direction sensor query params.radius
          (to_size max_num_neighbors) h.blocks voxels []
    ok (map (λ n. n.point) queue)

  abbrev pub search_with :
      V → ℤ → Option V → VoxelMap D V → Outcome (SearchParams D) → Option (Outcome (List V))
  search_with query max_num_neighbors sensor m (fail why) = some (fail why)
  search_with query max_num_neighbors sensor m (ok params) =
      Option.map (search_in query max_num_neighbors sensor m params)
        (visited_voxels (coordinates query params.voxel_resolution) params.voxel_neighborhood)

  -- `none` where the loops over the voxels do not end
  unfoldable pub radius_search : V → D → ℤ → Option V → VoxelMap D V → Option (Outcome (List V))
  radius_search query radius max_num_neighbors sensor m =
      search_with query max_num_neighbors sensor m
        (search_params_from_radius_search radius m.options)

  abbrev pub compute_neighborhood_in_place : V → ℤ → VoxelMap D V → Option (Outcome (List V))
  compute_neighborhood_in_place query max_num_neighbors m =
      radius_search query m.options.default_radius max_num_neighbors none m

  unfoldable pub compute_neighborhoods :
      List V → ℤ → VoxelMap D V → Option (Outcome (List (List V)))
  compute_neighborhoods [] max_num_neighbors m = some (ok [])
  compute_neighborhoods (query ∷ queries) max_num_neighbors m =
      let rest = compute_neighborhoods queries max_num_neighbors m in
      next_result (compute_neighborhood_in_place query max_num_neighbors m) rest

  -- a radius for each query
  unfoldable pub search_each :
      List (V × D) → ℤ → Option V → VoxelMap D V → Option (Outcome (List (List V)))
  search_each [] max_num_neighbors sensor m = some (ok [])
  search_each ((query, radius) ∷ queries) max_num_neighbors sensor m =
      let rest = search_each queries max_num_neighbors sensor m in
      next_result (radius_search query radius max_num_neighbors sensor m) rest

  unfoldable pub compute_neighborhoods_within :
      List V → List D → ℤ → Option V → VoxelMap D V → Option (Outcome (List (List V)))
  compute_neighborhoods_within queries radiuses max_num_neighbors sensor m =
      if length radiuses == length queries
      then search_each (pair_up queries radiuses) max_num_neighbors sensor m
      else some (fail bad_index)
