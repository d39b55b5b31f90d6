-- ===== src/Buffers/Related.antt =====
-- Collections buffer by buffer: the loops of src/SlamCore/data/buffer_collection.cxx over the buffers,
-- and what a copy of the schema and a write of the bytes keep.
use ct_icp_comment.Common.{
  ℕ, ◌≡◌, refl, sym, ap, ◌∙◌, subst, none, some, List, [], ◌∷◌, arith, length, pos, ltb_ℤ, Outcome,
  ok, check, Succeeds, Succeeds->>=, >>=-ok, bad_layout,
}
use ct_icp_comment.Common.{◌/◌}
use ct_icp_comment.Buffers.Schema.{ItemSchema, Builder, build, get_builder, check_elements}
use ct_icp_comment.Buffers.Buffer.{
  ItemBuffer, num_items, buffer_bytes, stored_bytes, stored_items, has_bytes, Storage, vector_data,
  array_data, wrapped_data,
}
use ct_icp_comment.Buffers.Contents.{IsBuffer, IsStorage}
use ct_icp_comment.Buffers.Collection.{BufferCollection, for_buffers, num_items_in_schema}
use ct_icp_comment.Buffers.Select.{set_bytes, with_bytes}

-- No pointer is null, and each buffer is as `P` says.
abbrev pub AreAll : (ItemBuffer → Type 0) → BufferCollection → Type 0
AreAll P [] = Unit
AreAll P (none ∷ bs) = ⊥
AreAll P (some b ∷ bs) = P b × AreAll P bs

-- The buffers of two collections, in their order, are related by `R`.
abbrev pub AreRelated :
    (ItemBuffer → ItemBuffer → Type 0) → BufferCollection → BufferCollection → Type 0
AreRelated R [] [] = Unit
AreRelated R (some b ∷ bs) (some d ∷ ds) = R b d × AreRelated R bs ds
AreRelated R _ _ = ⊥

pub for_buffers-AreRelated :
    (P : ItemBuffer → Type 0) (R : ItemBuffer → ItemBuffer → Type 0)
    (change : ItemBuffer → Outcome ItemBuffer) (c : BufferCollection)
    → ((b : ItemBuffer) → P b → Succeeds (R b) (change b))
    → AreAll P c
    → Succeeds (AreRelated R c) (for_buffers change c)
unfolding for_buffers
for_buffers-AreRelated P R change [] h u = tt
for_buffers-AreRelated P R change (none ∷ bs) h u = absurd u
for_buffers-AreRelated P R change (some b ∷ bs) h (p, u) =
    Succeeds->>= (R b) (AreRelated R (some b ∷ bs)) (change b) _ (h b p) λ d r.
      Succeeds->>= (AreRelated R bs) (AreRelated R (some b ∷ bs)) (for_buffers change bs) _
        (for_buffers-AreRelated P R change bs h u) λ ds s. (r, s)

-- A step from each second buffer, related to the first.
pub AreRelated-then :
    (R T : ItemBuffer → ItemBuffer → Type 0) (c d : BufferCollection)
    (change : ItemBuffer → Outcome ItemBuffer)
    → AreRelated R c d
    → ((b x : ItemBuffer) → R b x → Succeeds (T b) (change x))
    → Succeeds (AreRelated T c) (for_buffers change d)
unfolding for_buffers
AreRelated-then R T [] [] change r h = tt
AreRelated-then R T (some b ∷ bs) (some x ∷ xs) change (p, r) h =
    Succeeds->>= (T b) (AreRelated T (some b ∷ bs)) (change x) _ (h b x p) λ y q.
      Succeeds->>= (AreRelated T bs) (AreRelated T (some b ∷ bs)) (for_buffers change xs) _
        (AreRelated-then R T bs xs change r h) λ ys s. (q, s)
AreRelated-then R T [] (x ∷ xs) change r h = absurd r
AreRelated-then R T (none ∷ bs) xs change r h = absurd r
AreRelated-then R T (some b ∷ bs) [] change r h = absurd r
AreRelated-then R T (some b ∷ bs) (none ∷ xs) change r h = absurd r

-- A schema that passed `Build` is built again from its own builder.
pub build-get_builder :
    (builder : Builder) (schema : ItemSchema)
    → build builder ≡ ok schema
    → build (get_builder schema) ≡ ok schema
unfolding build
build-get_builder builder schema h =
    let (u, positive, more) = >>=-ok (check (ltb_ℤ (pos 0) builder.item_size) bad_layout) _ h in
    let (w, checked, last) =
      >>=-ok (check_elements builder.item_size builder.element_infos) _ more in
    let same : record { element_infos = builder.element_infos; item_size = builder.item_size }
        ≡ schema =
      cc in
    subst (λ (s : ItemSchema). build (get_builder s) ≡ ok s) same (rw (positive, checked) refl)

-- A write that keeps the number of the bytes keeps the items' places.
has_bytes-length : (xs ys : List ℕ) → length xs ≡ length ys → has_bytes xs ≡ has_bytes ys
has_bytes-length [] [] h = refl
has_bytes-length [] (y ∷ ys) h = absurd (omega arith)
has_bytes-length (x ∷ xs) [] h = absurd (omega arith)
has_bytes-length (x ∷ xs) (y ∷ ys) h = refl

pub with_bytes-IsBuffer :
    (bytes : List ℕ) (b : ItemBuffer)
    → IsBuffer b
    → length bytes ≡ length (buffer_bytes b)
    → IsBuffer (with_bytes bytes b)
      × (num_items (with_bytes bytes b) ≡ num_items b)
      × (buffer_bytes (with_bytes bytes b) ≡ bytes)
with_bytes-IsBuffer bytes b v h =
    let (s, n, e) = by_storage b.storage v.stored h in
    (record { sized = v.sized; stored = s }, n, e)
  where
    by_storage :
        (s : Storage)
        → IsStorage b.item_info.item_size b.view_data_ptr s
        → length bytes ≡ length (stored_bytes s)
        → IsStorage b.item_info.item_size b.view_data_ptr (set_bytes bytes s)
          × (stored_items b.item_info.item_size (set_bytes bytes s)
              ≡ stored_items b.item_info.item_size s)
          × (stored_bytes (set_bytes bytes s) ≡ bytes)
    by_storage (vector_data old) (q, p) e = (
      (rw e q, p ∙ sym (has_bytes-length bytes old e)),
      ap (λ n. n / b.item_info.item_size) e,
      refl,
    )
    by_storage (array_data old allocated capacity) (k, c, p) e = ((k, omega arith, p), refl, refl)
    by_storage (wrapped_data old n) (q, p) e =
        ((omega arith, p ∙ sym (has_bytes-length bytes old e)), refl, refl)

pub AreAll-count :
    (P : ItemBuffer → Type 0) (c : BufferCollection) → AreAll P c → num_items_in_schema c ≡ length c
AreAll-count P [] u = refl
AreAll-count P (none ∷ bs) u = absurd u
AreAll-count P (some b ∷ bs) (p, u) = omega (arith, AreAll-count P bs u)
