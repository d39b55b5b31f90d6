-- ===== src/Grid.antt =====
-- The hash maps keyed by a `Voxel` (`std::unordered_map`, `tsl::robin_map`), as association lists: a new
-- key is put at the end. What depends on the order of a traversal takes the order as a parameter.
use ct_icp_comment.Common.{
  false, List, [], ◌∷◌, Option, none, some, if◌then◌else◌, ◌≡◌, refl, arith, sym, subst, Bool-cases,
  inl, inr,
}
use mathlib.Core.Option.{some-injective}
use ct_icp_comment.Geometry.{Voxel, eq_voxel, eq_voxel_iff}

abbrev pub Grid {ℓ} : Type ℓ → Type ℓ
Grid A = List (Voxel × A)

module _ {ℓ} {A : Type ℓ} where
  unfoldable pub find_voxel : Voxel → Grid A → Option A
  find_voxel k [] = none
  find_voxel k ((j, a) ∷ g) = if eq_voxel j k then some a else find_voxel k g

  -- `grid[k] = a`
  unfoldable pub put : Voxel → A → Grid A → Grid A
  put k a [] = (k, a) ∷ []
  put k a ((j, b) ∷ g) = if eq_voxel j k then (j, a) ∷ g else (j, b) ∷ put k a g

  -- The keys differ.
  abbrev pub IsApart : Voxel → Grid A → Type 0
  IsApart k [] = Unit
  IsApart k ((j, a) ∷ g) = (eq_voxel j k ≡ false) × IsApart k g

  abbrev pub IsGrid : Grid A → Type 0
  IsGrid [] = Unit
  IsGrid ((j, a) ∷ g) = IsApart j g × IsGrid g

  -- What holds of the keys and values.
  abbrev pub AllEntries {κ} : (Voxel → A → Type κ) → Grid A → Type κ
  AllEntries P [] = Unit
  AllEntries P ((j, a) ∷ g) = P j a × AllEntries P g

module _ {ℓ} {A : Type ℓ} where
  pub find_voxel-put :
      (k j : Voxel) (a : A) (g : Grid A)
      → find_voxel j (put k a g) ≡ (if eq_voxel k j then some a else find_voxel j g)
  unfolding find_voxel put
  find_voxel-put k j a [] = refl
  find_voxel-put k j a ((i, b) ∷ g) =
      ground (arith, eq_voxel_iff i k, eq_voxel_iff i j, eq_voxel_iff k j, find_voxel-put k j a g)

  IsApart-put :
      (k j : Voxel) (a : A) (g : Grid A)
      → eq_voxel k j ≡ false
      → IsApart j g
      → IsApart j (put k a g)
  unfolding put
  IsApart-put k j a [] h p = (h, tt)
  IsApart-put k j a ((i, b) ∷ g) h p = elim (Bool-cases (eq_voxel i k)) [
    | inl e ↦ rw e p
    | inr e ↦ rw e (p.0, IsApart-put k j a g h p.1)
  ]

  pub IsGrid-put : (k : Voxel) (a : A) (g : Grid A) → IsGrid g → IsGrid (put k a g)
  unfolding put
  IsGrid-put k a [] p = (tt, tt)
  IsGrid-put k a ((i, b) ∷ g) p = elim (Bool-cases (eq_voxel i k)) [
    | inl e ↦ rw e p
    | inr e ↦
        let e' : eq_voxel k i ≡ false = ground (arith, eq_voxel_iff i k, eq_voxel_iff k i) in
        rw e (IsApart-put k i a g e' p.0, IsGrid-put k a g p.1)
  ]

  pub AllEntries-put {κ} :
      (P : Voxel → A → Type κ) (k : Voxel) (a : A) (g : Grid A)
      → P k a
      → AllEntries P g
      → AllEntries P (put k a g)
  unfolding put
  AllEntries-put P k a [] h p = (h, tt)
  AllEntries-put P k a ((i, b) ∷ g) h p = elim (Bool-cases (eq_voxel i k)) [
    | inl e ↦ rw e (subst (λ j. P j a) (sym ((eq_voxel_iff i k).0 e)) h, p.1)
    | inr e ↦ rw e (p.0, AllEntries-put P k a g h p.1)
  ]

  pub AllEntries-find {κ} :
      (P : Voxel → A → Type κ) (k : Voxel) (g : Grid A) {a : A}
      → AllEntries P g
      → find_voxel k g ≡ some a
      → P k a
  unfolding find_voxel
  AllEntries-find P k [] p h = cc
  AllEntries-find P k ((i, b) ∷ g) {a} p h = elim (Bool-cases (eq_voxel i k)) [
    | inl e ↦
        let same : b ≡ a = some-injective _ _ (rw e at h) in
        subst (λ c. P k c) same (subst (λ j. P j b) ((eq_voxel_iff i k).0 e) p.0)
    | inr e ↦ AllEntries-find P k g p.1 (rw e at h)
  ]
