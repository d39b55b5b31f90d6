-- ===== src/Buffers/Layout.antt =====
-- The check of the memory layout of an element, `ElementInfo::CheckMemoryLayout`
-- (src/SlamCore/data/schema.cxx), and what it accepts.
use ct_icp_comment.Common.{
  ℕ, zero, suc, ◌+◌, ◌≤◌, ◌<◌, ◌≡◌, refl, sym, ap, ◌∙◌, subst, ◌↔◌, inl, inr, Bool, true, false,
  ◌&&◌, some, List, [], ◌∷◌, arith, ltb, ◌==◌, if◌then◌else◌, Bool-cases, ltb→lt, length, get_elem?,
  set, replicate, length-set, get_elem?_total, ℤ, pos, negsuc, pos_part, ltb_ℤ, leb_ℤ, to_size,
  ◌+ℤ◌, Outcome, ok, fail, check, ◌>>=◌, bad_layout,
}
use ct_icp_comment.Buffers.Schema.{
  new_bytes, element_size, ElementInfo, check_memory_layout, all_true, mark_properties, info_size,
  PropertyInfo, mark_bytes,
}

-- How often the `n` bytes from `i` hold the byte `j`.
abbrev pub within : ℤ → ℕ → ℤ → ℕ
within i n j = if leb_ℤ i j && ltb_ℤ j (i +ℤ pos n) then 1 else 0

-- How many of the properties hold the byte `j`.
abbrev pub holders : List PropertyInfo → ℤ → ℕ
holders [] j = 0
holders (p ∷ ps) j = within p.offset_in_elem (pos_part (info_size p)) j + holders ps j

-- The bits of the check, as numbers.
abbrev mark_at : List Bool → ℕ → ℕ
mark_at [] j = 0
mark_at (b ∷ bs) zero = if b then 1 else 0
mark_at (b ∷ bs) (suc j) = mark_at bs j

abbrev marked : List Bool → ℤ → ℕ
marked bytes (pos j) = mark_at bytes j
marked bytes (negsuc j) = 0

-- A run that marks the bytes that `holds` counts, or finds one that it cannot mark.
abbrev Marks : (ℤ → ℕ) → List Bool → Outcome (List Bool) → Type 0
Marks holds bytes (ok bytes') =
    (length bytes' ≡ length bytes) × ((j : ℤ) → marked bytes' j ≡ marked bytes j + holds j)
Marks holds bytes (fail why) =
    (j : ℤ) × (within (pos 0) (length bytes) j < marked bytes j + holds j)

mark_at-le : (bytes : List Bool) (j : ℕ) → mark_at bytes j ≤ within (pos 0) (length bytes) (pos j)
mark_at-le [] j = omega arith
mark_at-le (b ∷ bs) zero = ground arith
mark_at-le (b ∷ bs) (suc j) = ground (arith, mark_at-le bs j)

mark_at-set :
    (bytes : List Bool) (k j : ℕ)
    → get_elem? bytes k ≡ some false
    → mark_at (set bytes k true) j ≡ mark_at bytes j + (if j == k then 1 else 0)
mark_at-set [] k j h = cc
mark_at-set (b ∷ bs) zero zero h = ground arith
mark_at-set (b ∷ bs) zero (suc j) h = ground arith
mark_at-set (b ∷ bs) (suc k) zero h = ground arith
mark_at-set (b ∷ bs) (suc k) (suc j) h = ground (arith, mark_at-set bs k j h)

mark_at-get : (bytes : List Bool) (k : ℕ) → get_elem? bytes k ≡ some true → mark_at bytes k ≡ 1
mark_at-get [] k h = cc
mark_at-get (b ∷ bs) zero h = ground arith
mark_at-get (b ∷ bs) (suc k) h = mark_at-get bs k h

marked-set :
    (n k : ℕ) (bytes : List Bool) (j : ℤ)
    → get_elem? bytes k ≡ some false
    → marked (set bytes k true) j + within (pos (k + 1)) n j
      ≡ marked bytes j + within (pos k) (suc n) j
marked-set n k bytes (pos j) e = ground (arith, mark_at-set bytes k j e)
marked-set n k bytes (negsuc j) e = ground arith

Marks-step :
    (n k : ℕ) (bytes : List Bool) (run : Outcome (List Bool))
    → get_elem? bytes k ≡ some false
    → Marks (within (pos (k + 1)) n) (set bytes k true) run
    → Marks (within (pos k) (suc n)) bytes run
Marks-step n k bytes (ok bytes') e (l, m) =
    (l ∙ length-set bytes k true, λ j. m j ∙ marked-set n k bytes j e)
Marks-step n k bytes (fail why) e (j, m) =
    (j, rw (← marked-set n k bytes j e, ← length-set bytes k true) m)

leb_ℤ-pos : (k : ℕ) → leb_ℤ (pos 0) (pos k) ≡ true
leb_ℤ-pos k = ground arith

leb_ℤ-negsuc : (k : ℕ) → leb_ℤ (pos 0) (negsuc k) ≡ false
leb_ℤ-negsuc k = ground arith

mark_bytes-Marks :
    (n k : ℕ) (bytes : List Bool) → Marks (within (pos k) n) bytes (mark_bytes n (pos k) bytes)
unfolding mark_bytes
mark_bytes-Marks zero k bytes = (refl, λ j. ground arith)
mark_bytes-Marks (suc n) k bytes = elim (Bool-cases (ltb k (length bytes))) [
  | inl h ↦
      let (b, e) = get_elem?_total bytes k (ltb→lt _ _ h) in
      elim (Bool-cases b) [
        | inl t ↦
            rw (h, leb_ℤ-pos k, e, t)
              (pos k, ground (arith, mark_at-get bytes k (e ∙ ap some t), mark_at-le bytes k))
        | inr t ↦
            rw (h, leb_ℤ-pos k, e, t)
              (Marks-step n k bytes _ (e ∙ ap some t)
                (mark_bytes-Marks n (k + 1) (set bytes k true)))
      ]
  | inr h ↦ rw h (pos k, ground arith)
]

-- A byte before the element is refused at once, if there is one to mark.
mark_bytes_neg :
    (n i : ℕ) (bytes : List Bool)
    → Marks (within (negsuc i) n) bytes (mark_bytes n (negsuc i) bytes)
unfolding mark_bytes
mark_bytes_neg zero i bytes = (refl, λ j. ground arith)
mark_bytes_neg (suc n) i bytes = elim (Bool-cases (ltb (to_size (negsuc i)) (length bytes))) [
  | inl h ↦ rw (h, leb_ℤ-negsuc i) (negsuc i, ground arith)
  | inr h ↦ rw h (negsuc i, ground arith)
]

mark_bytes_lem :
    (n : ℕ) (i : ℤ) (bytes : List Bool) → Marks (within i n) bytes (mark_bytes n i bytes)
mark_bytes_lem n (pos k) bytes = mark_bytes-Marks n k bytes
mark_bytes_lem n (negsuc k) bytes = mark_bytes_neg n k bytes

-- One run after another marks what both hold.
Marks->>= :
    (first then_ : ℤ → ℕ) (bytes : List Bool) (run : Outcome (List Bool))
    (continue : List Bool → Outcome (List Bool))
    → Marks first bytes run
    → ((bytes' : List Bool) → Marks then_ bytes' (continue bytes'))
    → Marks (λ j. first j + then_ j) bytes (run >>= continue)
Marks->>= first then_ bytes (fail why) continue (j, m) h = (j, omega arith)
Marks->>= first then_ bytes (ok bytes') continue (l, m) h = join (continue bytes') (h bytes')
  where
    join :
        (run : Outcome (List Bool))
        → Marks then_ bytes' run
        → Marks (λ j. first j + then_ j) bytes run
    join (ok bytes'') (l', m') = (l' ∙ l, λ j. omega (arith, m j, m' j))
    join (fail why) (j, m') = (j, rw (← l) omega (arith, m j))

mark_properties-Marks :
    (ps : List PropertyInfo) (bytes : List Bool)
    → Marks (holders ps) bytes (mark_properties ps bytes)
unfolding mark_properties
mark_properties-Marks [] bytes = (refl, λ j. omega arith)
mark_properties-Marks (p ∷ ps) bytes =
    Marks->>= _ (holders ps) bytes _ (mark_properties ps) (mark_bytes_lem _ p.offset_in_elem bytes)
      (mark_properties-Marks ps)

-- The last test of the check.
all_true→marked :
    (bs : List Bool) (j : ℕ)
    → all_true bs ≡ true
    → mark_at bs j ≡ within (pos 0) (length bs) (pos j)
all_true→marked [] j h = ground arith
all_true→marked (b ∷ bs) zero h = ground arith
all_true→marked (b ∷ bs) (suc j) h = ground (arith, all_true→marked bs j)

marked→all_true :
    (bs : List Bool)
    → ((j : ℕ) → mark_at bs j ≡ within (pos 0) (length bs) (pos j))
    → all_true bs ≡ true
marked→all_true [] h = refl
marked→all_true (b ∷ bs) h =
    ground (arith, h 0, marked→all_true bs (λ j. ground (arith, h (suc j))))

mark_at-replicate : (n j : ℕ) → mark_at (replicate n false) j ≡ 0
mark_at-replicate zero j = refl
mark_at-replicate (suc n) zero = refl
mark_at-replicate (suc n) (suc j) = mark_at-replicate n j

length-replicate : (n : ℕ) → length (replicate n false) ≡ n
length-replicate zero = refl
length-replicate (suc n) = ap suc (length-replicate n)

marked-replicate : (n : ℕ) (j : ℤ) → marked (replicate n false) j ≡ 0
marked-replicate n (pos j) = mark_at-replicate n j
marked-replicate n (negsuc j) = refl

-- Exactly one property holds each byte below `n`, and none any other byte.
abbrev pub Tiles : List PropertyInfo → ℕ → Type 0
Tiles ps n = (j : ℤ) → holders ps j ≡ within (pos 0) n j

Marks→tiles :
    (n : ℕ) (ps : List PropertyInfo) (run : Outcome (List Bool))
    → Marks (holders ps) (replicate n false) run
    → ((run >>= λ bytes. check (all_true bytes) bad_layout) ≡ ok tt) ↔ Tiles ps n
Marks→tiles n ps (fail why) (j, m) = (
  λ h. cc,
  λ h.
      absurd (
        omega
          (arith, h j, marked-replicate n j, ap (λ k. within (pos 0) k j) (length-replicate n))),
)
Marks→tiles n ps (ok bytes) (l, m) = (tiles, passes)
  where
    held : (j : ℤ) → holders ps j ≡ marked bytes j
    held j = omega (arith, m j, marked-replicate n j)

    size : length bytes ≡ n
    size = l ∙ length-replicate n

    tiles : check (all_true bytes) bad_layout ≡ ok tt → Tiles ps n
    tiles h (pos j) = rw (← size) (held (pos j) ∙ all_true→marked bytes j (ground arith))
    tiles h (negsuc j) = held (negsuc j) ∙ ground arith

    passes : Tiles ps n → check (all_true bytes) bad_layout ≡ ok tt
    passes h = rw (marked→all_true bytes (λ j. rw size (sym (held (pos j)) ∙ h (pos j)))) refl

-- CheckMemoryLayout passes exactly on the elements whose size is a number `n` that is not negative
-- and whose properties tile the bytes from 0 to `n`: one property holds each of them, and no
-- property holds a byte outside.
pub check_memory_layout_iff :
    (e : ElementInfo)
    → (check_memory_layout e ≡ ok tt) ↔ ((n : ℕ) × (element_size e ≡ pos n) × Tiles e.properties n)
unfolding check_memory_layout
check_memory_layout_iff e = by_size (element_size e) refl
  where
    by_size :
        (size : ℤ)
        → element_size e ≡ size
        → ((new_bytes size >>= λ bytes.
              mark_properties e.properties bytes >>= λ bytes'. check (all_true bytes') bad_layout)
            ≡ ok tt)
          ↔ ((n : ℕ) × (element_size e ≡ pos n) × Tiles e.properties n)
    by_size (pos n) q =
        let (to, from) =
          Marks→tiles n e.properties _ (mark_properties-Marks e.properties (replicate n false)) in
        (λ h. (n, q, to h), λ (k, q', t). from (subst (Tiles e.properties) (cc (q, q')) t))
    by_size (negsuc n) q = (λ h. cc, λ (k, q', t). cc)
