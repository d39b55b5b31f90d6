-- ===== src/Datasets/Catalog/Lookup.antt =====
-- What a custom dataset finds under a name (src/ct_icp/dataset.cpp).
use Prim.Native.Nat.{Ordering}
use Prim.Native.String.{String, compare}
use text.Mathlib.Text.{◌==◌ as same_name}
use text.Mathlib.TextEquality.{path_by_compare, eq_iff}
use text.Mathlib.TextPositions.{compare_refl}
use ct_icp_comment.Common.{
  ℕ, suc, ◌+◌, ◌≡◌, refl, sym, ◌∙◌, subst, true, Option, none, some, List, [], ◌∷◌, map, get_elem?,
  if◌then◌else◌, ok, check, require, ◌>>=◌, ◌>>◌, missing_name, bad_index, Bool-cases, inl, inr,
  arith,
}
use ct_icp_comment.Buffers.Schema.{NameMap, find_name, put_name, is_some}
use ct_icp_comment.Datasets.Catalog.{
  Sequences, name_ids, number_infos, infos_with_ground_truth, sequences_at,
  all_sequences_with_ground_truth, has_sequence, get_sequence, build_custom_dataset,
}

-- Two names that are each the same as a third do not differ in their order.
same_order :
    {A : Type 0} (name key k : String)
    → same_name key name ≡ true
    → same_name k name ≡ true
    → compare key k ≡ Ordering.gt
    → A
same_order name key k p r e =
    let same = (eq_iff key name).0 p ∙ sym ((eq_iff k name).0 r) in
    let back : compare key k ≡ Ordering.eq =
      subst (λ x. compare key x ≡ Ordering.eq) same (compare_refl key) in
    absurd (cc (e, back))

put_step :
    {V : Type 0} (name key : String) (v : V) (k : String) (old : V) (entries : NameMap V)
    (o : Ordering)
    → compare key k ≡ o
    → find_name name (put_name key v entries)
      ≡ (if same_name key name then some v else find_name name entries)
    → find_name name (put_name key v ((k, old) ∷ entries))
      ≡ (if same_name key name then some v else find_name name ((k, old) ∷ entries))
put_step name key v k old entries Ordering.lt e rest = rw (put_name, e) refl
put_step name key v k old entries Ordering.eq e rest = elim (Bool-cases (same_name k name)) [
  | inl h ↦ rw (put_name, e, path_by_compare key k e, h) refl
  | inr h ↦ rw (put_name, e, path_by_compare key k e, h) refl
]
put_step name key v k old entries Ordering.gt e rest = elim (Bool-cases (same_name k name)) [
  | inl h ↦ elim (Bool-cases (same_name key name)) [
    | inl g ↦ same_order name key k g h e
    | inr g ↦ rw (put_name, e, h, g) refl
  ]
  | inr h ↦ rw (put_name, e, h) rest
]

-- A name in a map after an entry is put
find_name-put_name :
    {V : Type 0} (name key : String) (v : V) (entries : NameMap V)
    → find_name name (put_name key v entries)
      ≡ (if same_name key name then some v else find_name name entries)
find_name-put_name name key v [] = refl
find_name-put_name name key v ((k, old) ∷ entries) =
    put_step name key v k old entries (compare key k) refl (find_name-put_name name key v entries)

-- An id and the sequence that has it
abbrev Finds : {S : Type 0} → List S → Option ℕ → Option S → Type 0
Finds all none none = Unit {0}
Finds all (some id) (some s) = get_elem? all id ≡ some s
Finds all none (some s) = ⊥
Finds all (some id) none = ⊥

found_outcome :
    {S : Type 0} (all : List S) (r : Option ℕ) (o : Option S)
    → Finds all r o
    → (is_some r ≡ is_some o)
      × ((check (is_some r) missing_name
            >> (require r missing_name >>= λ id. require (get_elem? all id) bad_index))
          ≡ require o missing_name)
found_outcome all none none h = (refl, refl)
found_outcome all (some id) (some s) h = (refl, rw h refl)
found_outcome all none (some s) h = elim h [ ]
found_outcome all (some id) none h = elim h [ ]

module _ {S Q : Type 0} (q : Sequences S Q) where
  -- The last sequence of a name
  abbrev pub last_named : String → Option S → List S → Option S
  last_named name last [] = last
  last_named name last (s ∷ rest) =
      last_named name (if same_name (q.get_info s).sequence_name name then some s else last) rest

  abbrev pub with_ground_truth : List S → List S
  with_ground_truth [] = []
  with_ground_truth (s ∷ rest) =
      if (q.get_info s).with_ground_truth
      then s ∷ with_ground_truth rest
      else with_ground_truth rest

  put_name-Finds :
      (name : String) (all : List S) (s : S) (ids : NameMap ℕ) (last : Option S) (i : ℕ)
      → get_elem? all i ≡ some s
      → Finds all (find_name name ids) last
      → Finds all
          (find_name name (put_name (q.get_info s).sequence_name i ids))
          (if same_name (q.get_info s).sequence_name name then some s else last)
  put_name-Finds name all s ids last i here found =
      elim (Bool-cases (same_name (q.get_info s).sequence_name name)) [
        | inl h ↦ rw (find_name-put_name name (q.get_info s).sequence_name i ids, h) here
        | inr h ↦ rw (find_name-put_name name (q.get_info s).sequence_name i ids, h) found
      ]

  name_ids-Finds :
      (name : String) (all rest : List S) (ids : NameMap ℕ) (last : Option S) (i : ℕ)
      → ((j : ℕ) (s : S) → get_elem? rest j ≡ some s → get_elem? all (i + j) ≡ some s)
      → Finds all (find_name name ids) last
      → Finds all
          (find_name name (name_ids i (map q.get_info rest) ids))
          (last_named name last rest)
  unfolding name_ids
  name_ids-Finds name all [] ids last i places found = found
  name_ids-Finds name all (s ∷ rest) ids last i places found =
      let here : get_elem? all i ≡ some s =
        subst (λ j. get_elem? all j ≡ some s) (omega arith) (places 0 s refl) in
      name_ids-Finds name all rest _ _ (i + 1)
        (λ j x h. subst (λ k. get_elem? all k ≡ some x) (omega arith) (places (suc j) x h))
        (put_name-Finds name all s ids last i here found)

  -- A custom dataset has the names of its sequences, and GetSequence gives the last sequence of the
  -- name; without one it fails.
  pub get_sequence-last_named :
      (name : String) (sequences : List S)
      → (has_sequence name (build_custom_dataset q sequences)
          ≡ is_some (last_named name none sequences))
        × (get_sequence name (build_custom_dataset q sequences)
            ≡ require (last_named name none sequences) missing_name)
  unfolding has_sequence get_sequence build_custom_dataset
  get_sequence-last_named name sequences =
      let found =
        name_ids-Finds name sequences sequences [] none 0
          (λ j s h. subst (λ k. get_elem? sequences k ≡ some s) (omega arith) h) tt in
      found_outcome sequences _ _ found

  numbered-at :
      (all rest : List S) (i : ℕ)
      → ((j : ℕ) (s : S) → get_elem? rest j ≡ some s → get_elem? all (i + j) ≡ some s)
      → sequences_at all (infos_with_ground_truth (number_infos i (map q.get_info rest)))
        ≡ ok (with_ground_truth rest)
  unfolding sequences_at infos_with_ground_truth number_infos
  numbered-at all [] i places = refl
  numbered-at all (s ∷ rest) i places =
      let here : get_elem? all i ≡ some s =
        subst (λ j. get_elem? all j ≡ some s) (omega arith) (places 0 s refl) in
      let others =
        numbered-at all rest (i + 1)
          (λ j x h. subst (λ k. get_elem? all k ≡ some x) (omega arith) (places (suc j) x h)) in
      elim (Bool-cases (q.get_info s).with_ground_truth) [
        | inl h ↦ rw (h, here, others) refl
        | inr h ↦ rw (h, others) refl
      ]

  -- AllSequencesWithGroundTruth of a custom dataset does not fail, and gives the sequences with a
  -- ground truth in their order, also where several have the same name.
  pub all_sequences_with_ground_truth_lem :
      (sequences : List S)
      → all_sequences_with_ground_truth (build_custom_dataset q sequences)
        ≡ ok (with_ground_truth sequences)
  unfolding all_sequences_with_ground_truth build_custom_dataset
  all_sequences_with_ground_truth_lem sequences =
      numbered-at sequences sequences 0
        (λ j s h. subst (λ k. get_elem? sequences k ≡ some s) (omega arith) h)
