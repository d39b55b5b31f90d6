-- ===== src/Sampling/Indices.antt =====
-- The indices that a sampling by voxels gives: how many, and of which points.
use ct_icp_comment.Common.{
  ℕ, zero, suc, ◌+◌, ◌≤◌, ◌<◌, ◌≡◌, refl, subst, List, [], ◌∷◌, ◌++◌, length, length-append,
  get_elem?, some, Double, arith, All, All-append, Bool-cases, Option-cases, inl, inr, ltb, max,
  to_size,
}
use ct_icp_comment.Geometry.{Vectors, Voxel, coordinates}
use ct_icp_comment.Grid.{Grid, find_voxel, AllEntries, AllEntries-put, AllEntries-find}
use ct_icp_comment.Sampling.{
  GridSamplingOptions, add_index, collect_voxel, collect_grid, collect_grids, grid_max,
  index_points, sample_points_in_grid,
}

length-collect_voxel :
    (m : ℕ) (is out : List ℕ) → length out ≤ m + 1 → length (collect_voxel m is out) ≤ m + 1
unfolding collect_voxel
length-collect_voxel m [] out h = h
length-collect_voxel m (i ∷ is) out h =
    ground (arith, length-append out (i ∷ []), length-collect_voxel m is (out ++ i ∷ []))

length-collect_grid :
    (m : ℕ) (g : Grid (List ℕ)) (out : List ℕ)
    → length out ≤ m + 1
    → length (collect_grid m g out) ≤ m + 1
unfolding collect_grid
length-collect_grid m [] out h = h
length-collect_grid m ((k, is) ∷ g) out h =
    let here = length-collect_voxel m is out h in
    ground (arith, length-collect_grid m g (collect_voxel m is out))

-- From at most one index more than the largest number, the indices of all the grids are at most one more, since the test that ends
-- the loops is a strict one.
pub length-collect_grids :
    (m : ℕ) (gs : List (Grid (List ℕ))) (out : List ℕ)
    → length out ≤ m + 1
    → length (collect_grids m gs out) ≤ m + 1
unfolding collect_grids
length-collect_grids m [] out h = h
length-collect_grids m (g ∷ gs) out h =
    let here = length-collect_grid m g out h in
    ground (arith, length-collect_grids m gs (collect_grid m g out))

collect_voxel-All :
    (P : ℕ → Type 0) (m : ℕ) (is out : List ℕ)
    → All P is
    → All P out
    → All P (collect_voxel m is out)
unfolding collect_voxel
collect_voxel-All P m [] out a b = b
collect_voxel-All P m (i ∷ is) out a b = elim (Bool-cases (ltb m (length out))) [
  | inl e ↦ rw e b
  | inr e ↦
      rw e (collect_voxel-All P m is (out ++ i ∷ []) a.1 (All-append P out (i ∷ []) b (a.0, tt)))
]

collect_grid-All :
    (P : ℕ → Type 0) (m : ℕ) (g : Grid (List ℕ)) (out : List ℕ)
    → AllEntries (λ k is. All P is) g
    → All P out
    → All P (collect_grid m g out)
unfolding collect_grid
collect_grid-All P m [] out a b = b
collect_grid-All P m ((k, is) ∷ g) out a b =
    let here = collect_voxel-All P m is out a.0 b in
    elim (Bool-cases (ltb m (length (collect_voxel m is out)))) [
      | inl e ↦ rw e here
      | inr e ↦ rw e (collect_grid-All P m g (collect_voxel m is out) a.1 here)
    ]

-- Indices that have what P says for their voxel, and of which there are some, but not too many.
pub record IsCell (P : Voxel → ℕ → Type 0) (n : ℕ) (k : Voxel) (is : List ℕ) : Type 0 where
  pub filled : 0 < length is
  pub bounded : length is ≤ max 1 n
  pub placed : All (P k) is

add_index-IsCell :
    (P : Voxel → ℕ → Type 0) (n : ℕ) (k : Voxel) (i : ℕ) (g : Grid (List ℕ))
    → P k i
    → AllEntries (IsCell P n) g
    → AllEntries (IsCell P n) (add_index n k i g)
unfolding add_index
add_index-IsCell P n k i g p a = elim (Option-cases (find_voxel k g)) [
  | inl e ↦
      rw (e, add_index)
        (AllEntries-put (IsCell P n) k (i ∷ []) g
          (record { filled = omega arith; bounded = omega arith; placed = (p, tt) }) a)
  | inr (is, e) ↦
      let old : IsCell P n k is = AllEntries-find (IsCell P n) k g a e in
      elim (Bool-cases (ltb (length is) n)) [
        | inl f ↦
            let new : IsCell P n k (is ++ i ∷ []) = record {
              filled = ground (arith, length-append is (i ∷ []));
              bounded = ground (arith, length-append is (i ∷ []));
              placed = All-append (P k) is (i ∷ []) old.placed (p, tt);
            } in
            rw (e, add_index, f) (AllEntries-put (IsCell P n) k (is ++ i ∷ []) g new a)
        | inr f ↦ rw (e, add_index, f) a
      ]
]

All-map : (P Q : ℕ → Type 0) (f : (i : ℕ) → P i → Q i) (is : List ℕ) → All P is → All Q is
All-map P Q f [] a = tt
All-map P Q f (i ∷ is) a = (f i a.0, All-map P Q f is a.1)

pub get_elem?-below :
    {V : Type 0} (xs : List V) (j : ℕ) (p : V) → get_elem? xs j ≡ some p → 0 + j < length xs
get_elem?-below [] j p e = cc
get_elem?-below (x ∷ xs) zero p e = omega arith
get_elem?-below (x ∷ xs) (suc j) p e = omega (arith, get_elem?-below xs j p e)

AllEntries-placed :
    (P : Voxel → ℕ → Type 0) (Q : ℕ → Type 0) (n : ℕ) (f : (k : Voxel) (i : ℕ) → P k i → Q i)
    (g : Grid (List ℕ))
    → AllEntries (IsCell P n) g
    → AllEntries (λ k is. All Q is) g
AllEntries-placed P Q n f [] a = tt
AllEntries-placed P Q n f ((k, is) ∷ g) a =
    (All-map (P k) Q (f k) is a.0.placed, AllEntries-placed P Q n f g a.1)

module _ {D V : Type 0} ⦃d : Double D⦄ ⦃v : Vectors D V⦄ where
  -- If P holds of the voxel and the index of every point, then each voxel of the grid holds only indices
  -- of which P holds with it: one at least, and no more than `num_points_per_voxel` (or one).
  pub index_points-IsCell :
      (P : Voxel → ℕ → Type 0) (o : GridSamplingOptions D) (points : List V) (idx : ℕ)
      (g : Grid (List ℕ))
      → ((j : ℕ) (p : V) → get_elem? points j ≡ some p → P (coordinates p o.grid_size) (idx + j))
      → AllEntries (IsCell P (to_size o.num_points_per_voxel)) g
      → AllEntries (IsCell P (to_size o.num_points_per_voxel)) (index_points o points idx g)
  unfolding index_points
  index_points-IsCell P o [] idx g h a = a
  index_points-IsCell P o (p ∷ ps) idx g h a =
      let k = coordinates p o.grid_size in
      let here : P k idx = subst (P k) (omega arith) (h 0 p refl) in
      index_points-IsCell P o ps (idx + 1) (add_index (to_size o.num_points_per_voxel) k idx g)
        (λ j q e. subst (P (coordinates q o.grid_size)) (omega arith) (h (suc j) q e))
        (add_index-IsCell P (to_size o.num_points_per_voxel) k idx g here a)

  -- Whatever traversal of the hash map is made, as long as it visits only cells of it, a sampling gives indices of points, and at most
  -- one more than the largest number.
  pub sample_points_in_grid_bounds :
      (traverse : Grid (List ℕ) → Grid (List ℕ)) (points : List V) (o : GridSamplingOptions D)
      → ((P : Voxel → List ℕ → Type 0) (g : Grid (List ℕ))
          → AllEntries P g
          → AllEntries P (traverse g))
      → (length (sample_points_in_grid traverse points o) ≤ grid_max o + 1)
        × All (λ i. i < length points) (sample_points_in_grid traverse points o)
  unfolding sample_points_in_grid
  sample_points_in_grid_bounds traverse points o h =
      let cells = h _ _ (
        index_points-IsCell (λ k i. i < length points) o points 0 []
          (λ j p e. get_elem?-below points j p e) tt) in
      (
        length-collect_grid (grid_max o) (traverse (index_points o points 0 [])) [] (omega arith),
        collect_grid-All (λ i. i < length points) (grid_max o)
            (traverse (index_points o points 0 [])) []
            (AllEntries-placed _ _ _ (λ k i b. b) _ cells) tt,
      )
