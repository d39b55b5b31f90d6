-- ===== src/VoxelMap/Insertion.antt =====
-- The invariant of one hash map of voxels, and the insertion of a point.
use ct_icp_comment.Common.{
  ℕ, ◌+◌, ◌≤◌, ◌<◌, ◌≡◌, refl, true, List, [], ◌∷◌, ◌++◌, length, length-append, Option, none, some,
  Double, IsOrdered, arith, All, All-append, Bool-cases, Option-cases, inl, inr, to_size, max,
  if◌then◌else◌,
}
use ct_icp_comment.Geometry.{Vectors, Voxel, coordinates}
use ct_icp_comment.Grid.{
  Grid, find_voxel, put, IsGrid, IsGrid-put, AllEntries, AllEntries-put, AllEntries-find,
}
use ct_icp_comment.VoxelMap.{
  PointType, ResolutionParam, VoxelHashMap, min_sq_dist, accepts, insert_point_in_voxel_map,
}

module _ {D V : Type 0} where
  -- the number of points in the blocks
  abbrev pub total : Grid (List (PointType D V)) → ℕ
  total [] = 0
  total ((k, block) ∷ g) = length block + total g

  abbrev pub length_of : Option (List (PointType D V)) → ℕ
  length_of none = 0
  length_of (some block) = length block

  total-put :
      (k : Voxel) (b : List (PointType D V)) (g : Grid (List (PointType D V)))
      → total (put k b g) + length_of (find_voxel k g) ≡ total g + length b
  unfolding put find_voxel
  total-put k b [] = omega arith
  total-put k b ((j, c) ∷ g) = ground (arith, total-put k b g)

module _ {D V : Type 0} ⦃d : Double D⦄ ⦃v : Vectors D V⦄ where
  -- the squared distance of two points is above the square of the smallest distance
  abbrev pub IsApartFrom : ResolutionParam D → V → V → Type 0
  IsApartFrom r point x =
      d.lt (d.mul r.min_distance_between_points r.min_distance_between_points)
        (v.squared_norm (v.minus x point))
      ≡ true

  abbrev pub IsSeparated : ResolutionParam D → List (PointType D V) → Type 0
  IsSeparated r [] = Unit
  IsSeparated r (p ∷ ps) = All (λ q. IsApartFrom r q.xyz p.xyz) ps × IsSeparated r ps

  -- A block is not empty, holds no more points than allowed (but one at least), and its points lie in its
  -- voxel and apart.
  pub record IsBlock (r : ResolutionParam D) (k : Voxel) (block : List (PointType D V))
      : Type 0 where
    pub filled : 0 < length block
    pub bounded : length block ≤ max 1 (to_size r.max_num_points)
    pub placed : All (λ p. coordinates p.xyz r.resolution ≡ k) block
    pub separated : IsSeparated r block

  pub record IsHashMap (r : ResolutionParam D) (h : VoxelHashMap D V) : Type 0 where
    pub keys : IsGrid h.blocks
    pub entries : AllEntries (IsBlock r) h.blocks
    pub counted : h.num_points ≡ total h.blocks

  IsSeparated-append :
      (r : ResolutionParam D) (p : PointType D V) (block : List (PointType D V))
      → IsSeparated r block
      → All (λ q. IsApartFrom r p.xyz q.xyz) block
      → IsSeparated r (block ++ p ∷ [])
  IsSeparated-append r p [] s a = (tt, tt)
  IsSeparated-append r p (x ∷ xs) s a = (
    All-append (λ q. IsApartFrom r q.xyz x.xyz) xs (p ∷ []) s.0 (a.0, tt),
    IsSeparated-append r p xs s.1 a.1,
  )

  module _ (laws : IsOrdered D) where
    open laws use {lt_trans, not_lt_trans}

    min_sq_dist-below :
        (m : D) (point : V) (block : List (PointType D V)) (least : D)
        → d.lt m (min_sq_dist point block least) ≡ true
        → (d.lt m least ≡ true)
          × All (λ p. d.lt m (v.squared_norm (v.minus p.xyz point)) ≡ true) block
    unfolding min_sq_dist
    min_sq_dist-below m point [] least h = (h, tt)
    min_sq_dist-below m point (p ∷ ps) least h =
        let sq = v.squared_norm (v.minus p.xyz point) in
        let (acc, rest) = min_sq_dist-below m point ps (if d.lt sq least then sq else least) h in
        (ground (arith, lt_trans m sq least), (ground (arith, not_lt_trans m sq least), rest))

    IsBlock-append :
        (r : ResolutionParam D) (largest : D) (p : PointType D V) (block : List (PointType D V))
        (k : Voxel)
        → coordinates p.xyz r.resolution ≡ k
        → IsBlock r k block
        → accepts r largest p.xyz block ≡ true
        → IsBlock r k (block ++ p ∷ [])
    unfolding accepts
    IsBlock-append r largest p block k placed old h =
        let apart =
          min_sq_dist-below (d.mul r.min_distance_between_points r.min_distance_between_points)
            p.xyz block largest (ground arith) in
        record {
          filled = ground (arith, length-append block (p ∷ []), old.filled);
          bounded = ground (arith, length-append block (p ∷ []));
          placed =
              All-append (λ q. coordinates q.xyz r.resolution ≡ k) block (p ∷ []) old.placed
                (placed, tt);
          separated = IsSeparated-append r p block old.separated apart.1;
        }

    -- Where the doubles are ordered, the insertion of a point keeps the invariant of its hash map: one block for a voxel, the bound on
    -- its points, their places and their smallest distance, and the count of all points.
    pub insert_point-IsHashMap :
        (r : ResolutionParam D) (largest : D) (p : PointType D V) (h : VoxelHashMap D V)
        → IsHashMap r h
        → IsHashMap r (insert_point_in_voxel_map r largest p h).1
    unfolding insert_point_in_voxel_map
    insert_point-IsHashMap r largest p h i =
        let k = coordinates p.xyz r.resolution in
        let sums = λ (b : List (PointType D V)). total-put k b h.blocks in
        elim (Option-cases (find_voxel k h.blocks)) [
          | inl e ↦
              let fresh : IsBlock r k (p ∷ []) = record {
                filled = omega arith;
                bounded = omega arith;
                placed = (refl, tt);
                separated = (tt, tt);
              } in
              rw (e, insert_point_in_voxel_map)
                (record {
                  keys = IsGrid-put k (p ∷ []) h.blocks i.keys;
                  entries = AllEntries-put (IsBlock r) k (p ∷ []) h.blocks fresh i.entries;
                  counted = ground (arith, sums (p ∷ []), i.counted);
                })
          | inr (block, e) ↦
              let old : IsBlock r k block = AllEntries-find (IsBlock r) k h.blocks i.entries e in
              elim (Bool-cases (accepts r largest p.xyz block)) [
                | inl f ↦
                    let more = IsBlock-append r largest p block k refl old f in
                    rw (e, insert_point_in_voxel_map, f)
                      (record {
                        keys = IsGrid-put k (block ++ p ∷ []) h.blocks i.keys;
                        entries =
                            AllEntries-put (IsBlock r) k (block ++ p ∷ []) h.blocks more i.entries;
                        counted = ground (
                          arith,
                          sums (block ++ p ∷ []),
                          i.counted,
                          length-append block (p ∷ []),
                          e,
                        );
                      })
                | inr f ↦ rw (e, insert_point_in_voxel_map, f) i
              ]
        ]
