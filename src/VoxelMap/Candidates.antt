-- ===== src/VoxelMap/Candidates.antt =====
-- The result of a radius search (include/ct_icp/map.h): the nearest of the points in the visited voxels
-- that are within the radius and do not face away from the sensor.
use mathlib.Core.Option
use ct_icp_comment.Common.{
  ℕ, ◌-◌, ◌<◌, ◌≡◌, refl, sym, ap, ◌∙◌, subst, inl, inr, Bool, true, Option, none, some, List, [],
  ◌∷◌, ◌++◌, map, arith, if◌then◌else◌, Bool-cases, Option-cases, get_elem?, ℤ, pos, leb_ℤ, ok,
  require, ◌>>=◌, Succeeds, Succeeds->>=, >>=-cong, >>=_assoc, >>=-ok, bad_index,
}
use ct_icp_comment.Common.{Double, IsOrdered, Finishes}
use ct_icp_comment.Geometry.{Vectors, Voxel, coordinates}
use ct_icp_comment.Grid.{Grid, find_voxel}
use ct_icp_comment.VoxelMap.{PointType, MapOptions, VoxelHashMap, VoxelMap}
use ct_icp_comment.VoxelMap.Search.{
  SearchParams, Neighbor, offer, is_skipped, neighbor_of, search_block, search_voxels, search_in,
  search_with, radius_search, resolutions_upto, search_params_from_radius_search, visited_voxels,
}
use ct_icp_comment.VoxelMap.Nearest.{IsNearest, offer_all, offer_all-IsNearest}
use ct_icp_comment.VoxelMap.Cube.{cube, FitsShort, visited_voxels-cube}

module _ {D V : Type 0} ⦃d : Double D⦄ where
  offer_all-append :
      (most : ℕ) (es fs queue : List (Neighbor D V))
      → offer_all most (es ++ fs) queue ≡ (offer_all most es queue >>= offer_all most fs)
  unfolding offer_all
  offer_all-append most [] fs queue = refl
  offer_all-append most (e ∷ es) fs queue =
      >>=-cong (offer most e queue) (offer_all most (es ++ fs)) _
        (λ q. offer_all-append most es fs q)
      ∙ sym (>>=_assoc (offer most e queue) (offer_all most es) (offer_all most fs))

module _ {D V : Type 0} ⦃d : Double D⦄ ⦃v : Vectors D V⦄ (select : Bool) (sensor : Option V)
    (query : V) (radius : D) where
  -- The points of a voxel that are not passed over, and those of several voxels.
  abbrev pub block_candidates : Voxel → List (PointType D V) → List (Neighbor D V)
  block_candidates voxel [] = []
  block_candidates voxel (p ∷ ps) =
      let rest = block_candidates voxel ps in
      if is_skipped select sensor query radius p then rest else neighbor_of query voxel p ∷ rest

  abbrev pub candidates : Grid (List (PointType D V)) → List Voxel → List (Neighbor D V)
  candidates blocks [] = []
  candidates blocks (voxel ∷ voxels) =
      let rest = candidates blocks voxels in
      elim (find_voxel voxel blocks) [
        | none ↦ rest
        | some block ↦ block_candidates voxel block ++ rest
      ]

  search_block-offer_all :
      (most : ℕ) (voxel : Voxel) (ps : List (PointType D V)) (queue : List (Neighbor D V))
      → search_block select sensor query radius most voxel ps queue
        ≡ offer_all most (block_candidates voxel ps) queue
  unfolding search_block offer_all
  search_block-offer_all most voxel [] queue = refl
  search_block-offer_all most voxel (p ∷ ps) queue =
      elim (Bool-cases (is_skipped select sensor query radius p)) [
        | inl h ↦ rw (h, if◌then◌else◌) (search_block-offer_all most voxel ps queue)
        | inr h ↦
            rw (h, if◌then◌else◌)
              (>>=-cong (offer most (neighbor_of query voxel p) queue) _ _
                (λ q. search_block-offer_all most voxel ps q))
      ]

  search_voxels-offer_all :
      (most : ℕ) (blocks : Grid (List (PointType D V))) (voxels : List Voxel)
      (queue : List (Neighbor D V))
      → search_voxels select sensor query radius most blocks voxels queue
        ≡ offer_all most (candidates blocks voxels) queue
  unfolding search_voxels offer_all
  search_voxels-offer_all most blocks [] queue = refl
  search_voxels-offer_all most blocks (voxel ∷ voxels) queue =
      elim (Option-cases (find_voxel voxel blocks)) [
        | inl h ↦ rw (h, candidates) (search_voxels-offer_all most blocks voxels queue)
        | inr (block, h) ↦
            rw (h, candidates, search_block-offer_all most voxel block queue)
              (>>=-cong (offer_all most (block_candidates voxel block) queue) _ _
                  (λ q. search_voxels-offer_all most blocks voxels q)
                ∙ sym (
                    offer_all-append most (block_candidates voxel block) (candidates blocks voxels)
                      queue))
      ]

search_params-radius :
    {D : Type 0} ⦃d : Double D⦄ (radius : D) (o : MapOptions D) (params : SearchParams D)
    → search_params_from_radius_search radius o ≡ ok params
    → params.radius ≡ radius
unfolding search_params_from_radius_search
search_params-radius radius o params h =
    let (r, found, made) =
      >>=-ok
        (require (get_elem? o.resolutions (resolutions_upto radius o.resolutions - 1)) bad_index) _
        h in
    cc made

module _ {D V : Type 0} ⦃d : Double D⦄ where
  -- The points of a nearest queue.
  pub record IsNearestPoints (most : ℕ) (from : List (Neighbor D V)) (points : List V)
      : Type 0 where
    pub queue : List (Neighbor D V)
    pub nearest : IsNearest most from queue
    pub same : points ≡ map (λ n. n.point) queue

module _ {D V : Type 0} ⦃d : Double D⦄ ⦃v : Vectors D V⦄ (o : IsOrdered D) where
  -- On doubles that are not NaN, a radius search for a positive number of neighbors, at the resolution
  -- that the map chooses for the radius, whose voxels stay within the values of a `short`, ends and is
  -- not stopped. Its points, from far to near, are the nearest of the candidates: the points in the
  -- cube of voxels around the query within the radius that do not face away from the sensor. No more
  -- than that number is given, and all candidates are given where there are no more.
  pub radius_search-nearest :
      (query : V) (radius : D) (most n : ℕ) (sensor : Option V) (m : VoxelMap D V)
      (params : SearchParams D) (h : VoxelHashMap D V)
      → let center = coordinates query params.voxel_resolution in
        0 < most
        → search_params_from_radius_search radius m.options ≡ ok params
        → params.voxel_neighborhood ≡ pos n
        → get_elem? m.voxel_maps params.map_id ≡ some h
        → FitsShort center.x n
        → FitsShort center.y n
        → FitsShort center.z n
        → Finishes
            (Succeeds (
              IsNearestPoints most (
                candidates m.options.select_valid_normals_direction sensor query radius h.blocks
                  (cube center n))))
            (radius_search query radius (pos most) sensor m)
  unfolding radius_search search_in
  radius_search-nearest query radius most n sensor m params h pos_most hp hn hh fx fy fz =
      let center = coordinates query params.voxel_resolution in
      let select = m.options.select_valid_normals_direction in
      let found = candidates select sensor query radius h.blocks (cube center n) in
      let not_negative : leb_ℤ (pos 0) (pos most) ≡ true = ground arith in
      let visits =
        subst (λ (z : ℤ). visited_voxels center z ≡ some (cube center n)) (sym hn)
          (visited_voxels-cube center n fx fy fz) in
      let run =
        ap (search_with query (pos most) sensor m) hp
        ∙ ap (Option.map (search_in query (pos most) sensor m params)) visits in
      subst (Finishes (Succeeds (IsNearestPoints most found))) (sym run) (
        rw
          (
            not_negative,
            hh,
            search_params-radius radius m.options params hp,
            search_voxels-offer_all select sensor query radius most h.blocks (cube center n) [],
          )
          (Succeeds->>= (IsNearest most found) (IsNearestPoints most found)
            (offer_all most found []) _ (offer_all-IsNearest o most found pos_most)
            λ queue near. record { queue = queue; nearest = near; same = refl }))
