-- ===== src/VoxelMap/Cube.antt =====
-- The voxels that the radius search visits (include/ct_icp/map.h): its loops over `short` coordinates.
use mathlib.Core.Option
use ct_icp_comment.Common.{
  diff_parts, ℕ, zero, suc, ◌+◌, ◌*◌, ◌≤◌, ◌<◌, ◌≡◌, refl, ap, ◌∙◌, true, false, Option, none, some,
  List, [], ◌∷◌, ◌++◌, map, arith, ℤ, pos, negsuc, pos_part, neg_part, ltb_ℤ, leb_ℤ, add_ℕ, ◌+ℤ◌,
}
use ct_icp_comment.Common.{◌-ℤ◌, narrow_short, diff_parts, add_ℕ_parts}
use ct_icp_comment.Geometry.{Voxel}
use ct_icp_comment.VoxelMap.Search.{short_range, short_rounds, axis, over, visited_voxels}

-- The `n` integers from `k` on.
abbrev pub integers : ℤ → ℕ → List ℤ
integers k zero = []
integers k (suc n) = k ∷ integers (add_ℕ k 1) n

abbrev pub concat_map {ℓ} : {A : Type ℓ} → (ℤ → List A) → List ℤ → List A
concat_map f [] = []
concat_map f (k ∷ ks) = f k ++ concat_map f ks

-- The voxels within `n` of another along each axis, in the order of the loops.
abbrev pub cube : Voxel → ℕ → List Voxel
cube v n =
    let side = λ (k : ℤ). integers (k -ℤ pos n) (2 * n + 1) in
    concat_map
      (λ kxx.
        concat_map (λ kyy. map (λ kzz. record { x = kxx; y = kyy; z = kzz }) (side v.z)) (side v.y))
      (side v.x)

-- A coordinate whose loop stays within the values of a `short`.
abbrev pub FitsShort : ℤ → ℕ → Type 0
FitsShort k n = (neg_part k + n ≤ 0x8000 + pos_part k) × (pos_part k + n < 0x7fff + neg_part k)

narrow_short_same :
    (k : ℤ) → leb_ℤ (negsuc 0x7fff) k ≡ true → leb_ℤ k (pos 0x7fff) ≡ true → narrow_short k ≡ k
narrow_short_same (pos n) lo hi = ground arith
narrow_short_same (negsuc n) lo hi = ground arith

short_range_step :
    (rounds : ℕ) (k last : ℤ)
    → ltb_ℤ k last ≡ true
    → short_range (suc rounds) k last
      ≡ Option.map (λ ks. k ∷ ks) (short_range rounds (narrow_short (add_ℕ k 1)) last)
unfolding short_range
short_range_step rounds k last h = rw (h, short_range) refl

short_range_lem :
    (n rounds : ℕ) (k last : ℤ)
    → n < rounds
    → pos_part last + neg_part k ≡ pos_part k + neg_part last + n
    → leb_ℤ (negsuc 0x7fff) k ≡ true
    → leb_ℤ last (pos 0x7fff) ≡ true
    → short_range rounds k last ≡ some (integers k n)
unfolding short_range
short_range_lem n zero k last h e lo hi = absurd (omega arith)
short_range_lem zero (suc rounds) k last h e lo hi =
    let ends : ltb_ℤ k last ≡ false = ground arith in rw (ends, short_range) refl
short_range_lem (suc n) (suc rounds) k last h e lo hi =
    let goes : ltb_ℤ k last ≡ true = ground arith in
    let parts = add_ℕ_parts k 1 in
    let same = narrow_short_same (add_ℕ k 1) (ground (arith, parts)) (ground (arith, parts)) in
    short_range_step rounds k last goes
    ∙ ap (λ j. Option.map (λ ks. k ∷ ks) (short_range rounds j last)) same
    ∙ ap (Option.map (λ ks. k ∷ ks)) (
        short_range_lem n rounds (add_ℕ k 1) last (omega arith) (ground (arith, parts))
          (ground (arith, parts)) hi)

axis-integers :
    (k : ℤ) (n : ℕ)
    → FitsShort k n
    → 2 * n + 1 < 0x1_0001
    → axis k (pos n) ≡ some (integers (k -ℤ pos n) (2 * n + 1))
unfolding axis
axis-integers k n (lo, hi) h =
    let below = diff_parts (pos_part k + 0) (neg_part k + n) in
    let above = diff_parts (pos_part k + n) (neg_part k + 0) in
    let last = diff_parts (pos_part (k +ℤ pos n) + 1) (neg_part (k +ℤ pos n) + 0) in
    let same =
      narrow_short_same (k -ℤ pos n) (ground (arith, below, lo, hi))
        (ground (arith, below, lo, hi)) in
    ap (λ j. short_range short_rounds j (k +ℤ pos n +ℤ pos 1)) same
    ∙ short_range_lem (2 * n + 1) short_rounds (k -ℤ pos n) (k +ℤ pos n +ℤ pos 1) h
        (omega (arith, below, above, last)) (ground (arith, below, lo, hi))
        (ground (arith, above, last, lo, hi))

over-integers {ℓ} :
    {A : Type ℓ} (ks : List ℤ) (body : ℤ → Option (List A)) (f : ℤ → List A)
    → ((k : ℤ) → body k ≡ some (f k))
    → over ks body ≡ some (concat_map f ks)
unfolding over
over-integers [] body f h = refl
over-integers (k ∷ ks) body f h = rw (h k, over-integers ks body f h) refl

-- Where the loops stay within the values of a `short`, they end, and visit the cube.
pub visited_voxels-cube :
    (v : Voxel) (n : ℕ)
    → FitsShort v.x n
    → FitsShort v.y n
    → FitsShort v.z n
    → visited_voxels v (pos n) ≡ some (cube v n)
unfolding visited_voxels
visited_voxels-cube v n fx fy fz =
    let ex = axis-integers v.x n fx (omega arith) in
    let ey = axis-integers v.y n fy (omega arith) in
    let ez = axis-integers v.z n fz (omega arith) in
    rw (ex, ey, ez) (over-integers _ _ _ λ x. over-integers _ _ _ λ y. refl)

narrow_short-le : (k : ℤ) → leb_ℤ (narrow_short k) (pos 0x7fff) ≡ true
narrow_short-le (pos n) = ground arith
narrow_short-le (negsuc n) = ground arith

short_range_endless :
    (rounds : ℕ) (k last : ℤ)
    → leb_ℤ k (pos 0x7fff) ≡ true
    → ltb_ℤ (pos 0x7fff) last ≡ true
    → short_range rounds k last ≡ none
unfolding short_range
short_range_endless zero k last lo hi = refl
short_range_endless (suc rounds) k last lo hi =
    short_range_step rounds k last (ground (arith, lo, hi))
    ∙ ap (Option.map (λ ks. k ∷ ks)) (
        short_range_endless rounds (narrow_short (add_ℕ k 1)) last (narrow_short-le (add_ℕ k 1)) hi)

-- Where a voxel is so far along the first axis that the loop's bound exceeds every `short`, the loop
-- does not end.
pub visited_voxels-endless :
    (v : Voxel) (n : ℕ) → 0x7fff + neg_part v.x ≤ pos_part v.x + n → visited_voxels v (pos n) ≡ none
unfolding visited_voxels axis
visited_voxels-endless v n h =
    let above = diff_parts (pos_part v.x + n) (neg_part v.x + 0) in
    let last = diff_parts (pos_part (v.x +ℤ pos n) + 1) (neg_part (v.x +ℤ pos n) + 0) in
    let none_left =
      short_range_endless short_rounds (narrow_short (v.x -ℤ pos n)) (v.x +ℤ pos n +ℤ pos 1)
        (narrow_short-le (v.x -ℤ pos n)) (ground (arith, above, last, h)) in
    rw none_left refl
