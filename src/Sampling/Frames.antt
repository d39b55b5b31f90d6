-- ===== src/Sampling/Frames.antt =====
-- The points that `sub_sample_frame` keeps.
use ct_icp_comment.Common.{
  ◌≡◌, List, [], ◌∷◌, Option, none, some, Double, arith, Option-cases, inl, inr, if◌then◌else◌,
}
use ct_icp_comment.Geometry.{Vectors, Voxel, eq_voxel, eq_voxel_iff, WPoint}
use ct_icp_comment.Grid.{Grid, find_voxel, find_voxel-put, put, IsGrid, IsGrid-put}
use ct_icp_comment.Sampling.{short_voxel, keep_first}

-- a value, or the other one if there is none
abbrev or_else {ℓ} : {A : Type ℓ} → Option A → Option A → Option A
or_else none o = o
or_else (some a) o = some a

module _ {D V Q : Type 0} ⦃d : Double D⦄ ⦃v : Vectors D V⦄ where
  -- the first point of a frame in a voxel
  unfoldable pub first_in : D → Voxel → List (WPoint D V Q) → Option (WPoint D V Q)
  first_in size k [] = none
  first_in size k (p ∷ ps) = if eq_voxel (short_voxel size p) k then some p else first_in size k ps

  keep_first-first_in :
      (size : D) (frame : List (WPoint D V Q)) (grid : Grid (WPoint D V Q)) (k : Voxel)
      → find_voxel k (keep_first size frame grid)
        ≡ or_else (find_voxel k grid) (first_in size k frame)
  unfolding keep_first first_in
  keep_first-first_in size [] grid k = ground arith
  keep_first-first_in size (p ∷ ps) grid k =
      let j = short_voxel size p in
      ground (
        arith,
        eq_voxel_iff j k,
        find_voxel-put j k p grid,
        keep_first-first_in size ps (put j p grid) k,
        keep_first-first_in size ps grid k,
      )

  keep_first-IsGrid :
      (size : D) (frame : List (WPoint D V Q)) (grid : Grid (WPoint D V Q))
      → IsGrid grid
      → IsGrid (keep_first size frame grid)
  unfolding keep_first
  keep_first-IsGrid size [] grid g = g
  keep_first-IsGrid size (p ∷ ps) grid g =
      let j = short_voxel size p in
      elim (Option-cases (find_voxel j grid)) [
        | inl e ↦
            rw (e, keep_first) (keep_first-IsGrid size ps (put j p grid) (IsGrid-put j p grid g))
        | inr (q, e) ↦ rw (e, keep_first) (keep_first-IsGrid size ps grid g)
      ]

  -- The grid that a frame is sampled into has every voxel once, and holds for it the first point of the
  -- frame in that voxel, or nothing if there is none.
  pub keep_first_lem :
      (size : D) (frame : List (WPoint D V Q))
      → IsGrid (keep_first size frame [])
        × ((k : Voxel) → find_voxel k (keep_first size frame []) ≡ first_in size k frame)
  unfolding find_voxel
  keep_first_lem size frame =
      (keep_first-IsGrid size frame [] tt, λ k. keep_first-first_in size frame [] k)
