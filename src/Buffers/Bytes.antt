-- ===== src/Buffers/Bytes.antt =====
-- Lemmas on the lists of bytes.
use ct_icp_comment.Common.{
  ℕ, zero, suc, ◌+◌, ◌*◌, ◌≤◌, ◌≡◌, refl, sym, ap, ◌∙◌, none, some, List, [], ◌∷◌, ◌++◌,
  append_assoc, append-nil, arith, length, get_elem?, take, drop, replicate, All, length-append,
  get_elem?_total, ok,
}
use ct_icp_comment.Buffers.Buffer.{read_bytes, write_bytes, push_bytes, resize_bytes}

module _ {ℓ} {A : Type ℓ} where
  pub take-append : (n : ℕ) (xs ys : List A) → n ≤ length xs → take n (xs ++ ys) ≡ take n xs
  take-append zero xs ys h = refl
  take-append (suc n) [] ys h = absurd (omega arith)
  take-append (suc n) (x ∷ xs) ys h = ap (λ zs. x ∷ zs) (take-append n xs ys (omega arith))

  pub drop-append : (n : ℕ) (xs ys : List A) → n ≤ length xs → drop n (xs ++ ys) ≡ drop n xs ++ ys
  drop-append zero xs ys h = refl
  drop-append (suc n) [] ys h = absurd (omega arith)
  drop-append (suc n) (x ∷ xs) ys h = drop-append n xs ys (omega arith)

  pub length-take : (n : ℕ) (xs : List A) → n ≤ length xs → length (take n xs) ≡ n
  length-take zero xs h = refl
  length-take (suc n) [] h = absurd (omega arith)
  length-take (suc n) (x ∷ xs) h = ap suc (length-take n xs (omega arith))

  pub length-drop : (n : ℕ) (xs : List A) → n ≤ length xs → length (drop n xs) + n ≡ length xs
  length-drop zero xs h = omega arith
  length-drop (suc n) [] h = absurd (omega arith)
  length-drop (suc n) (x ∷ xs) h = omega (arith, length-drop n xs (omega arith))

  pub take-length : (xs : List A) → take (length xs) xs ≡ xs
  take-length [] = refl
  take-length (x ∷ xs) = ap (λ zs. x ∷ zs) (take-length xs)

  pub drop-length : (xs ys : List A) → drop (length xs) (xs ++ ys) ≡ ys
  drop-length [] ys = refl
  drop-length (x ∷ xs) ys = drop-length xs ys

  pub take-drop : (n : ℕ) (xs : List A) → take n xs ++ drop n xs ≡ xs
  take-drop zero xs = refl
  take-drop (suc n) [] = refl
  take-drop (suc n) (x ∷ xs) = ap (λ zs. x ∷ zs) (take-drop n xs)

  drop-nil : (n : ℕ) → drop {A = A} n [] ≡ []
  drop-nil zero = refl
  drop-nil (suc n) = refl

  pub drop-drop : (m n : ℕ) (xs : List A) → drop n (drop m xs) ≡ drop (m + n) xs
  drop-drop zero n xs = ap (λ k. drop k xs) (omega arith)
  drop-drop (suc m) n [] = drop-nil n ∙ sym (drop-nil (suc m + n))
  drop-drop (suc m) n (x ∷ xs) =
      let e : suc m + n ≡ suc (m + n) = omega arith in rw e (drop-drop m n xs)

  -- Below a cut the bytes are those of the whole.
  pub take-drop-take :
      (start n m : ℕ) (xs : List A)
      → start + n ≤ m
      → take n (drop start (take m xs)) ≡ take n (drop start xs)
  take-drop-take zero zero m xs h = refl
  take-drop-take zero (suc n) zero xs h = absurd (omega arith)
  take-drop-take zero (suc n) (suc m) [] h = refl
  take-drop-take zero (suc n) (suc m) (x ∷ xs) h =
      ap (λ zs. x ∷ zs) (take-drop-take zero n m xs (omega arith))
  take-drop-take (suc start) n zero xs h = absurd (omega arith)
  take-drop-take (suc start) zero (suc m) xs h = refl
  take-drop-take (suc start) (suc n) (suc m) [] h = refl
  take-drop-take (suc start) (suc n) (suc m) (x ∷ xs) h =
      take-drop-take start (suc n) m xs (omega arith)

-- A copy within the bytes succeeds, keeps their number, and puts the source after those before it.
pub write_bytes_lem :
    (start : ℕ) (source bytes : List ℕ)
    → start + length source ≤ length bytes
    → (bytes' : List ℕ) × (write_bytes start source bytes ≡ ok bytes')
      × (length bytes' ≡ length bytes)
      × (take (start + length source) bytes' ≡ take start bytes ++ source)
unfolding write_bytes
write_bytes_lem start source bytes h =
    let front = take start bytes ++ source in
    let rest = drop (start + length source) bytes in
    let size : length front ≡ start + length source =
      omega
        (arith, length-append (take start bytes) source, length-take start bytes (omega arith)) in
    (
      front ++ rest,
      ground (arith, h),
      omega (arith, size, length-append front rest, length-drop (start + length source) bytes h),
      ap (λ k. take k (front ++ rest)) (sym size)
          ∙ take-append (length front) front rest (omega arith)
          ∙ take-length front,
    )

pub read_bytes_lem :
    (start n : ℕ) (bytes : List ℕ)
    → start + n ≤ length bytes
    → read_bytes start n bytes ≡ ok (take n (drop start bytes))
unfolding read_bytes
read_bytes_lem start n bytes h = ground (arith, h)

pub push_zeros :
    (n i : ℕ) (bytes : List ℕ) → push_bytes n i none bytes ≡ ok (bytes ++ replicate n 0)
unfolding push_bytes
push_zeros zero i bytes = ap ok (sym (append-nil bytes))
push_zeros (suc n) i bytes =
    push_zeros n (i + 1) (bytes ++ 0 ∷ []) ∙ ap ok (append_assoc bytes (0 ∷ []) (replicate n 0))

-- Pushing from a source pushes its bytes.
pub push_source :
    (n i : ℕ) (source bytes : List ℕ)
    → i + n ≤ length source
    → push_bytes n i (some source) bytes ≡ ok (bytes ++ take n (drop i source))
unfolding push_bytes
push_source zero i source bytes h = ap ok (sym (append-nil bytes))
push_source (suc n) i source bytes h =
    let (byte, e) = get_elem?_total source i (omega arith) in
    let next : i + 1 ≡ suc i = omega arith in
    rw (e, take-get n i byte source e, ← next)
      (push_source n (i + 1) source (bytes ++ byte ∷ []) (omega arith)
        ∙ ap ok (append_assoc bytes (byte ∷ []) (take n (drop (i + 1) source))))
  where
    take-get :
        (n i : ℕ) (byte : ℕ) (xs : List ℕ)
        → get_elem? xs i ≡ some byte
        → take (suc n) (drop i xs) ≡ byte ∷ take n (drop (suc i) xs)
    take-get n i byte [] q = cc
    take-get n zero byte (x ∷ xs) q = ground (arith, q)
    take-get n (suc i) byte (x ∷ xs) q = take-get n i byte xs q

pub length-resize : (n : ℕ) (bytes : List ℕ) → length (resize_bytes n bytes) ≡ n
length-resize zero bytes = refl
length-resize (suc n) [] = ap suc (length-resize n [])
length-resize (suc n) (b ∷ bs) = ap suc (length-resize n bs)

pub resize-take : (n : ℕ) (bytes : List ℕ) → n ≤ length bytes → resize_bytes n bytes ≡ take n bytes
resize-take zero bytes h = refl
resize-take (suc n) [] h = absurd (omega arith)
resize-take (suc n) (b ∷ bs) h = ap (λ xs. b ∷ xs) (resize-take n bs (omega arith))

pub take-resize :
    (m n : ℕ) (bytes : List ℕ)
    → m ≤ n
    → m ≤ length bytes
    → take m (resize_bytes n bytes) ≡ take m bytes
take-resize zero n bytes h q = refl
take-resize (suc m) zero bytes h q = absurd (omega arith)
take-resize (suc m) (suc n) [] h q = absurd (omega arith)
take-resize (suc m) (suc n) (b ∷ bs) h q =
    ap (λ xs. b ∷ xs) (take-resize m n bs (omega arith) (omega arith))

-- The `i`-th of the pieces of `size` bytes that stand one after another.
abbrev pub join : List (List ℕ) → List ℕ
join [] = []
join (xs ∷ xss) = xs ++ join xss

pub length-join :
    (size : ℕ) (items : List (List ℕ))
    → All (λ item. length item ≡ size) items
    → length (join items) ≡ length items * size
length-join size [] u = omega arith
length-join size (item ∷ items) (e, u) =
    grind (arith, length-append item (join items), length-join size items u)

pub slice-join :
    (size i : ℕ) (items : List (List ℕ)) (item : List ℕ)
    → All (λ item. length item ≡ size) items
    → get_elem? items i ≡ some item
    → take size (drop (i * size) (join items)) ≡ item
slice-join size i [] item u h = cc
slice-join size zero (x ∷ xs) item (e, u) h =
    let none_before : 0 * size ≡ 0 = omega arith in
    rw (none_before, ← e)
      (take-append (length x) x (join xs) (omega arith) ∙ take-length x ∙ ground (arith, h))
slice-join size (suc i) (x ∷ xs) item (e, u) h =
    let next : suc i * size ≡ length x + i * size = grind (arith, e) in
    rw (next, ← drop-drop (length x) (i * size) (x ++ join xs), drop-length x (join xs))
      (slice-join size i xs item u h)
