-- ===== src/Buffers/Selection.antt =====
-- `SelectItems` of src/SlamCore/data/buffer_collection.cxx gives the chosen items.
mod Loop
use ct_icp_comment.Common.{
  ℕ, zero, suc, ◌+◌, ◌-◌, ◌*◌, ◌≤◌, ◌<◌, ◌≡◌, refl, sym, ap, ◌∙◌, subst, ◌≢◌, ◌↔◌, ◌⊎◌, inl, inr,
  Bool, true, false, not, ◌&&◌, ◌||◌, Option, none, some, List, [], ◌∷◌, ◌++◌, map, append_assoc,
  append-nil, arith, ltb, leb, ◌==◌, if◌then◌else◌, Bool-cases, Option-cases, tests, ltb→lt, lt→ltb,
  length, get_elem?, set, take, drop, replicate, All, length-append, length-set, length-map,
  get_elem?-append, get_elem?_total, All-append, ℤ, pos, negsuc, pos_part, neg_part, ltb_ℤ, leb_ℤ,
  to_size, add_ℕ, diff, ◌+ℤ◌, scale, Outcome, ok, fail, check, require, ◌>>=◌, ◌>>◌, Ensures,
  Succeeds, Succeeds->>=, Outcome-cases, Failure, Succeeds-map, >>=-ok, check-ok, require-ok,
  bad_layout, missing_name, not_implemented, bad_index, not_resizable,
}
use ct_icp_comment.Common.{null_buffer, ◌/◌}
use native.Mathlib.Nat.{mul-le-mul_right}
use ct_icp_comment.Buffers.Schema.{ItemSchema, build, get_builder}
use ct_icp_comment.Buffers.Buffer.{
  ItemInfo, ItemBuffer, num_items, buffer_bytes, read_bytes, write_bytes, new_vector_buffer, at,
  resize, is_resizable,
}
use ct_icp_comment.Buffers.Bytes.{
  read_bytes_lem, write_bytes_lem, take-drop-take, length-take, length-drop, join, length-join,
  slice-join,
}
use ct_icp_comment.Buffers.Contents.{
  contents, IsBuffer, Resizes, resize_lem, num_items-within, at_lem, new_vector_buffer-IsBuffer,
}
use ct_icp_comment.Buffers.Copies.{Holds, Holds-HasItems, HasItems}
use ct_icp_comment.Buffers.Bounds.{IsBuilt}
use ct_icp_comment.Buffers.Collection.{
  BufferCollection, for_buffers, new_collection, are_sizes_consistent, sizes_loop,
  num_items_in_schema, num_items_per_buffer, resize_collection, empty_copy, empty_buffer_like,
}
use ct_icp_comment.Buffers.Select.{with_bytes, copy_selected, select_buffers, select_items}
use ct_icp_comment.Buffers.Related.{
  AreAll, AreRelated, for_buffers-AreRelated, AreRelated-then, build-get_builder,
  with_bytes-IsBuffer, AreAll-count,
}
use ct_icp_comment.Buffers.Selection.Loop.{item_at, length-item_at, Selects, copy_selected_lem}

-- A buffer with `limit` items, whose schema can be built again.
pub record IsReady (limit : ℕ) (b : ItemBuffer) : Type 0 where
  pub built : IsBuilt b
  pub count : num_items b ≡ limit

-- A buffer of the chosen items of another, with its schema.
pub record SelectsItems (indices : List ℕ) (b d : ItemBuffer) : Type 0 where
  pub buffer : IsBuffer d
  pub info : d.item_info ≡ b.item_info
  pub count : num_items d ≡ length indices
  pub items :
      (k i : ℕ)
      → get_elem? indices k ≡ some i
      → at b.item_info.item_size k d ≡ at b.item_info.item_size i b

-- A buffer of `n` items with the schema of another.
record IsPrepared (n : ℕ) (b d : ItemBuffer) : Type 0 where
  buffer : IsBuffer d
  info : d.item_info ≡ b.item_info
  count : num_items d ≡ n

All-get : (P : ℕ → Type 0) (xs : List ℕ) (k x : ℕ) → All P xs → get_elem? xs k ≡ some x → P x
All-get P [] k x u h = cc
All-get P (y ∷ ys) zero x (p, u) h = let same : y ≡ x = cc in subst P same p
All-get P (y ∷ ys) (suc k) x (p, u) h = All-get P ys k x u h

get_elem?-map :
    (f : ℕ → List ℕ) (xs : List ℕ) (k x : ℕ)
    → get_elem? xs k ≡ some x
    → get_elem? (map f xs) k ≡ some (f x)
get_elem?-map f [] k x h = cc
get_elem?-map f (y ∷ ys) zero x h = cc
get_elem?-map f (y ∷ ys) (suc k) x h = get_elem?-map f ys k x h

at-item_at :
    (b : ItemBuffer) (i : ℕ)
    → IsBuffer b
    → i < num_items b
    → at b.item_info.item_size i b ≡ ok (item_at b i)
at-item_at b i v h =
    let size = b.item_info.item_size in
    let end : i * size + size ≤ num_items b * size = omega (arith, mul-le-mul_right size h) in
    at_lem i b v h
    ∙ ap ok (take-drop-take (i * size) size (num_items b * size) (buffer_bytes b) end)

All-length :
    (b : ItemBuffer) (indices : List ℕ)
    → IsBuffer b
    → All (λ i. i < num_items b) indices
    → All (λ x. length x ≡ b.item_info.item_size) (map (item_at b) indices)
All-length b [] v u = tt
All-length b (i ∷ indices) v (h, u) = (length-item_at b i v h, All-length b indices v u)

Selects-SelectsItems :
    (indices : List ℕ) (b d : ItemBuffer) (bytes : List ℕ)
    → IsBuffer b
    → All (λ i. i < num_items b) indices
    → IsPrepared (length indices) b d
    → Selects indices 0 b (buffer_bytes d) bytes
    → SelectsItems indices b (with_bytes bytes d)
Selects-SelectsItems indices b d bytes v u p s =
    let (valid, count, stored) = with_bytes-IsBuffer bytes d p.buffer s.kept in
    let size = b.item_info.item_size in
    let chosen = map (item_at b) indices in
    let same : d.item_info.item_size ≡ size = cc (p.info) in
    let none_more : 0 + length indices ≡ length indices = omega arith in
    let zero_bytes : 0 * size ≡ 0 = omega arith in
    let total : num_items (with_bytes bytes d) * d.item_info.item_size
        ≡ (0 + length indices) * size =
      cc (count, p.count, same, none_more) in
    let held : Holds size chosen (with_bytes bytes d) = record {
      buffer = valid;
      sized = same;
      count = count ∙ p.count ∙ sym (length-map (item_at b) indices);
      bytes =
          ap (λ n. take n (buffer_bytes (with_bytes bytes d))) total
          ∙ ap (λ xs. take ((0 + length indices) * size) xs) stored
          ∙ s.front
          ∙ ap (λ n. take n (buffer_bytes d) ++ join chosen) zero_bytes;
    } in
    let read = Holds-HasItems size chosen (with_bytes bytes d) (All-length b indices v u) held in
    record {
      buffer = valid;
      info = p.info;
      count = count ∙ p.count;
      items = λ k i e.
          read.1 k (item_at b i) (get_elem?-map (item_at b) indices k i e)
          ∙ sym (at-item_at b i v (All-get (λ i. i < num_items b) indices k i u e));
    }

select_buffers-AreRelated :
    (limit : ℕ) (indices : List ℕ) (c dest : BufferCollection)
    → All (λ i. i < limit) indices
    → AreAll (IsReady limit) c
    → AreRelated (IsPrepared (length indices)) c dest
    → Succeeds
        (AreRelated (SelectsItems indices) c)
        (select_buffers (length c) (ok limit) indices c dest)
unfolding select_buffers
select_buffers-AreRelated limit indices [] [] u r p = tt
select_buffers-AreRelated limit indices [] (d ∷ ds) u r p = absurd p
select_buffers-AreRelated limit indices (none ∷ bs) ds u r p = absurd r
select_buffers-AreRelated limit indices (some b ∷ bs) [] u r p = absurd p
select_buffers-AreRelated limit indices (some b ∷ bs) (none ∷ ds) u r p = absurd p
select_buffers-AreRelated limit indices (some b ∷ bs) (some d ∷ ds) u (ready, r) (p, q) =
    let u' = subst (λ n. All (λ i. i < n) indices) (sym ready.count) u in
    let room : (0 + length indices) * b.item_info.item_size ≤ length (buffer_bytes d) =
      let zeros : 0 + length indices ≡ length indices = omega arith in
      let same : (0 + length indices) * b.item_info.item_size
          ≡ num_items d * d.item_info.item_size =
        cc (zeros, p.count, p.info) in
      omega (arith, same, num_items-within d p.buffer) in
    Succeeds->>= (Selects indices 0 b (buffer_bytes d))
      (AreRelated (SelectsItems indices) (some b ∷ bs))
      (copy_selected (ok limit) indices 0 b (buffer_bytes d)) _
      (rw (← ready.count)
        (copy_selected_lem indices 0 b (buffer_bytes d) ready.built.buffer u' room))
      λ bytes s.
        Succeeds->>= (AreRelated (SelectsItems indices) bs)
          (AreRelated (SelectsItems indices) (some b ∷ bs)) _ _
          (select_buffers-AreRelated limit indices bs ds u r q)
          λ ds' t. (Selects-SelectsItems indices b d bytes ready.built.buffer u' p s, t)

-- The constructor never refuses buffers of which the first is there: its loop compares the size of the
-- first buffer with itself.
sizes_loop-true : (b : ItemBuffer) (bs : BufferCollection) → sizes_loop (num_items b) b bs ≡ true
sizes_loop-true b [] = refl
sizes_loop-true b (x ∷ bs) =
    let same : (num_items b == num_items b) ≡ true = ground arith in
    rw (same, if◌then◌else◌) (sizes_loop-true b bs)

new_collection-AreRelated :
    (R : ItemBuffer → ItemBuffer → Type 0) (c d : BufferCollection)
    → AreRelated R c d
    → new_collection d ≡ ok d
new_collection-AreRelated R c [] r = refl
new_collection-AreRelated R [] (x ∷ ds) r = absurd r
new_collection-AreRelated R (none ∷ bs) ds r = absurd r
new_collection-AreRelated R (some b ∷ bs) (none ∷ ds) r = absurd r
new_collection-AreRelated R (some b ∷ bs) (some d ∷ ds) r = rw (sizes_loop-true d ds) refl

-- A ready buffer and the empty vector with its schema.
abbrev IsEmptyLike : ℕ → ItemBuffer → ItemBuffer → Type 0
IsEmptyLike limit b d =
    IsReady limit b × (d ≡ new_vector_buffer b.item_info.item_schema b.item_info.item_size)

empty_copy-AreRelated :
    (limit : ℕ) (c : BufferCollection)
    → AreAll (IsReady limit) c
    → Succeeds (AreRelated (IsEmptyLike limit) c) (empty_copy c)
unfolding empty_copy
empty_copy-AreRelated limit c r =
    Succeeds->>= (AreRelated (IsEmptyLike limit) c) (AreRelated (IsEmptyLike limit) c)
      (for_buffers empty_buffer_like c) new_collection
      (for_buffers-AreRelated (IsReady limit) (IsEmptyLike limit) empty_buffer_like c
        (λ b v.
          rw (build-get_builder v.built.builder b.item_info.item_schema v.built.built) (v, refl))
        r)
      λ d e. rw (new_collection-AreRelated (IsEmptyLike limit) c d e) e

resize_collection-AreRelated :
    (n limit : ℕ) (c d : BufferCollection)
    → AreRelated (IsEmptyLike limit) c d
    → Succeeds (AreRelated (IsPrepared n) c) (resize_collection n d)
resize_collection-AreRelated n limit c d e =
    AreRelated-then (IsEmptyLike limit) (IsPrepared n) c d _ e λ b x (v, q).
      let empty = new_vector_buffer b.item_info.item_schema b.item_info.item_size in
      let valid =
        new_vector_buffer-IsBuffer b.item_info.item_schema b.item_info.item_size
          v.built.buffer.sized in
      rw q (
        Succeeds-map (Resizes n empty) (IsPrepared n b) (resize n empty)
          (resize_lem n empty valid tt)
          λ y z. record { buffer = z.buffer; info = z.info; count = z.items })

-- The loops read the number of items of the first buffer, and not at all where there is no buffer.
select_buffers-first :
    (indices : List ℕ) (limit : ℕ) (c dest : BufferCollection)
    → AreAll (IsReady limit) c
    → AreRelated (IsPrepared (length indices)) c dest
    → select_buffers (length c) (num_items_per_buffer c) indices c dest
      ≡ select_buffers (length c) (ok limit) indices c dest
unfolding select_buffers num_items_per_buffer
select_buffers-first indices limit [] dest r p = refl
select_buffers-first indices limit (none ∷ bs) dest r p = absurd r
select_buffers-first indices limit (some b ∷ bs) dest (v, r) p =
    ap (λ n. select_buffers (length (some b ∷ bs)) (ok n) indices (some b ∷ bs) dest) v.count

-- `SelectItems` on a collection without null pointers, whose buffers all have `limit` items and schemas
-- that pass `Build`, with indices below `limit`, succeeds: buffer by buffer it gives the chosen items,
-- in the order of the indices, with the same schema. The collection may have no buffer.
pub select_items-SelectsItems :
    (indices : List ℕ) (limit : ℕ) (c : BufferCollection)
    → AreAll (IsReady limit) c
    → All (λ i. i < limit) indices
    → Succeeds (AreRelated (SelectsItems indices) c) (select_items indices c)
unfolding select_items
select_items-SelectsItems indices limit c r u =
    let n = length indices in
    let goal = AreRelated (SelectsItems indices) c in
    Succeeds->>= (AreRelated (IsEmptyLike limit) c) goal (empty_copy c) _
      (empty_copy-AreRelated limit c r)
      λ d e.
        Succeeds->>= (AreRelated (IsPrepared n) c) goal (resize_collection n d) _
          (resize_collection-AreRelated n limit c d e)
          λ dest p.
            rw (AreAll-count (IsReady limit) c r, select_buffers-first indices limit c dest r p)
              (select_buffers-AreRelated limit indices c dest u r p)
