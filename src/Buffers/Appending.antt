-- ===== src/Buffers/Appending.antt =====
-- `Append` of src/SlamCore/data/buffer_collection.cxx puts the items of one collection after those of
-- another, buffer by buffer.
use ct_icp_comment.Common.{
  ℕ, suc, ◌+◌, ◌*◌, ◌<◌, ◌≡◌, refl, sym, ap, ◌∙◌, true, none, some, List, [], ◌∷◌, ◌++◌, arith,
  ◌==◌, if◌then◌else◌, length, take, ok, Succeeds, Succeeds->>=,
}
use native.Mathlib.Nat.{add-mul, mul_comm}
use ct_icp_comment.Buffers.Buffer.{
  ItemInfo, ItemBuffer, num_items, buffer_bytes, read_bytes, write_bytes, resize, is_resizable,
  Storage, vector_data, array_data, wrapped_data,
}
use ct_icp_comment.Buffers.Bytes.{read_bytes_lem, write_bytes_lem, length-take}
use ct_icp_comment.Buffers.Contents.{
  contents, IsBuffer, Resizes, resize_lem, num_items-within, HasCapacity,
}
use ct_icp_comment.Buffers.Collection.{
  BufferCollection, for_buffers, num_items_in_schema, num_items_per_buffer, resize_collection,
  collection_is_resizable,
}
use ct_icp_comment.Buffers.Select.{with_bytes, append_buffers, append, same_sizes, has_same_schema}
use ct_icp_comment.Buffers.Related.{with_bytes-IsBuffer}

-- Three collections, buffer by buffer.
abbrev pub AreJoined :
    (ItemBuffer → ItemBuffer → ItemBuffer → Type 0)
    → BufferCollection
    → BufferCollection
    → BufferCollection
    → Type 0
AreJoined R [] [] [] = Unit
AreJoined R (some b ∷ bs) (some o ∷ os) (some d ∷ ds) = R b o d × AreJoined R bs os ds
AreJoined R _ _ _ = ⊥

-- A buffer of `n` items with room for the `m` items of another, which have the same size.
pub record CanAppend (n m : ℕ) (b o : ItemBuffer) : Type 0 where
  pub buffer : IsBuffer b
  pub other : IsBuffer o
  pub count : num_items b ≡ n
  pub other_count : num_items o ≡ m
  pub sized : b.item_info.item_size ≡ o.item_info.item_size
  pub room : HasCapacity (n + m) b.storage

abbrev pub CanAppendAll : ℕ → ℕ → BufferCollection → BufferCollection → Type 0
CanAppendAll n m [] [] = Unit
CanAppendAll n m (some b ∷ bs) (some o ∷ os) = CanAppend n m b o × CanAppendAll n m bs os
CanAppendAll n m _ _ = ⊥

pub record Appends (b o d : ItemBuffer) : Type 0 where
  pub buffer : IsBuffer d
  pub info : d.item_info ≡ b.item_info
  pub count : num_items d ≡ num_items b + num_items o
  pub bytes : contents d ≡ contents b ++ contents o

record IsResized (n m : ℕ) (b o d : ItemBuffer) : Type 0 where
  before : CanAppend n m b o
  resized : Resizes (n + m) b d

HasCapacity-resizable : (n : ℕ) (b : ItemBuffer) → HasCapacity n b.storage → is_resizable b ≡ true
HasCapacity-resizable n b h = by_storage b.storage h
  where
    by_storage : (s : Storage) → HasCapacity n s → is_resizable (record b { storage = s }) ≡ true
    by_storage (vector_data bytes) h = refl
    by_storage (array_data bytes allocated capacity) h = refl
    by_storage (wrapped_data bytes k) h = absurd h

resize_collection-AreJoined :
    (n m : ℕ) (c other : BufferCollection)
    → CanAppendAll n m c other
    → Succeeds (AreJoined (IsResized n m) c other) (resize_collection (n + m) c)
unfolding for_buffers
resize_collection-AreJoined n m [] [] r = tt
resize_collection-AreJoined n m [] (o ∷ os) r = absurd r
resize_collection-AreJoined n m (none ∷ bs) os r = absurd r
resize_collection-AreJoined n m (some b ∷ bs) [] r = absurd r
resize_collection-AreJoined n m (some b ∷ bs) (none ∷ os) r = absurd r
resize_collection-AreJoined n m (some b ∷ bs) (some o ∷ os) (p, r) =
    let goal = AreJoined (IsResized n m) (some b ∷ bs) (some o ∷ os) in
    rw (HasCapacity-resizable (n + m) b p.room) (
      Succeeds->>= (Resizes (n + m) b) goal (resize (n + m) b) _
        (resize_lem (n + m) b p.buffer p.room)
        λ d s.
          Succeeds->>= (AreJoined (IsResized n m) bs os) goal (resize_collection (n + m) bs) _
            (resize_collection-AreJoined n m bs os r)
            λ ds t. (record { before = p; resized = s }, t))

-- One buffer of the loop.
append_one :
    (n m : ℕ) (b o d : ItemBuffer)
    → IsResized n m b o d
    → (bytes : List ℕ) × (read_bytes 0 (m * o.item_info.item_size) (buffer_bytes o)
        ≡ ok (contents o))
      × (write_bytes (d.item_info.item_size * n) (contents o) (buffer_bytes d) ≡ ok bytes)
      × Appends b o (with_bytes bytes d)
append_one n m b o d h =
    let p = h.before in
    let s = h.resized in
    let size = b.item_info.item_size in
    let same_size : d.item_info.item_size ≡ size = ap (λ (i : ItemInfo). i.item_size) s.info in
    let counted : num_items o * o.item_info.item_size ≡ m * o.item_info.item_size =
      ap (λ k. k * o.item_info.item_size) p.other_count in
    let source_length : length (contents o) ≡ m * size =
      length-take _ (buffer_bytes o) (num_items-within o p.other)
      ∙ counted
      ∙ ap (λ k. m * k) (sym p.sized) in
    let start : d.item_info.item_size * n ≡ n * size =
      ap (λ k. k * n) same_size ∙ mul_comm size n in
    let total : num_items d * d.item_info.item_size
        ≡ d.item_info.item_size * n + length (contents o) =
      cc (s.items, same_size, add-mul n m size, start, source_length) in
    let (bytes, written, same, front) =
      write_bytes_lem (d.item_info.item_size * n) (contents o) (buffer_bytes d)
        (omega (arith, total, num_items-within d s.buffer)) in
    let (valid, count, stored) = with_bytes-IsBuffer bytes d s.buffer same in
    let kept = s.kept n (omega arith) (omega (arith, p.count)) in
    (
      bytes,
      read_bytes_lem 0 (m * o.item_info.item_size) (buffer_bytes o)
            (omega (arith, counted, num_items-within o p.other))
          ∙ ap (λ k. ok (take k (buffer_bytes o))) (sym counted),
      written,
      record {
        buffer = valid;
        info = s.info;
        count = cc (count, s.items, p.count, p.other_count);
        bytes = cc (count, total, stored, front, start, kept, p.count);
      },
    )

append_buffers-AreJoined :
    (n m : ℕ) (c other d : BufferCollection)
    → AreJoined (IsResized n m) c other d
    → Succeeds (AreJoined Appends c other) (append_buffers (num_items_in_schema d) n m d other)
unfolding append_buffers
append_buffers-AreJoined n m [] [] [] r = tt
append_buffers-AreJoined n m (some b ∷ bs) (some o ∷ os) (some d ∷ ds) (p, r) =
    let (bytes, got, written, one) = append_one n m b o d p in
    let goal = AreJoined Appends (some b ∷ bs) (some o ∷ os) in
    rw (got, written)
      (Succeeds->>= (AreJoined Appends bs os) goal
        (append_buffers (num_items_in_schema ds) n m ds os) _
        (append_buffers-AreJoined n m bs os ds r) λ ds' t. (one, t))
append_buffers-AreJoined n m [] [] (d ∷ ds) r = absurd r
append_buffers-AreJoined n m [] (o ∷ os) d r = absurd r
append_buffers-AreJoined n m (none ∷ bs) os d r = absurd r
append_buffers-AreJoined n m (some b ∷ bs) [] d r = absurd r
append_buffers-AreJoined n m (some b ∷ bs) (none ∷ os) d r = absurd r
append_buffers-AreJoined n m (some b ∷ bs) (some o ∷ os) [] r = absurd r
append_buffers-AreJoined n m (some b ∷ bs) (some o ∷ os) (none ∷ ds) r = absurd r

-- The tests before the loops pass.
CanAppendAll-resizable :
    (n m : ℕ) (c other : BufferCollection)
    → CanAppendAll n m c other
    → collection_is_resizable c ≡ ok true
unfolding collection_is_resizable
CanAppendAll-resizable n m [] other r = refl
CanAppendAll-resizable n m (none ∷ bs) other r = absurd r
CanAppendAll-resizable n m (some b ∷ bs) [] r = absurd r
CanAppendAll-resizable n m (some b ∷ bs) (none ∷ os) r = absurd r
CanAppendAll-resizable n m (some b ∷ bs) (some o ∷ os) (p, r) =
    rw (HasCapacity-resizable (n + m) b p.room, if◌then◌else◌) (CanAppendAll-resizable n m bs os r)

CanAppendAll-sizes :
    (n m : ℕ) (c other : BufferCollection)
    → CanAppendAll n m c other
    → (num_items_in_schema other ≡ num_items_in_schema c)
      × (same_sizes (num_items_in_schema other) c other ≡ ok true)
unfolding same_sizes
CanAppendAll-sizes n m [] [] r = (refl, refl)
CanAppendAll-sizes n m [] (o ∷ os) r = absurd r
CanAppendAll-sizes n m (none ∷ bs) other r = absurd r
CanAppendAll-sizes n m (some b ∷ bs) [] r = absurd r
CanAppendAll-sizes n m (some b ∷ bs) (none ∷ os) r = absurd r
CanAppendAll-sizes n m (some b ∷ bs) (some o ∷ os) (p, r) =
    let (e, s) = CanAppendAll-sizes n m bs os r in
    let same : (b.item_info.item_size == o.item_info.item_size) ≡ true = ground (arith, p.sized) in
    (ap suc e, rw (same, if◌then◌else◌) s)

has_same_schema-true :
    (n m : ℕ) (c other : BufferCollection)
    → CanAppendAll n m c other
    → has_same_schema c other ≡ ok true
unfolding has_same_schema
has_same_schema-true n m c other r =
    let (e, s) = CanAppendAll-sizes n m c other r in
    let same : (num_items_in_schema other == num_items_in_schema c) ≡ true = ground (arith, e) in
    rw (same, if◌then◌else◌) s

-- `Append` of a collection to another that has a buffer, where the buffers stand in the same order with items of the
-- same sizes, no pointer is null, each collection has as many items in all of its buffers and the
-- buffers are resizable with room for all, succeeds without writing outside of a buffer: buffer by
-- buffer the items are those of the first and then those of the second.
pub append-Appends :
    (n m : ℕ) (c other : BufferCollection)
    → 0 < length c
    → CanAppendAll n m c other
    → Succeeds (AreJoined Appends c other) (append other c)
unfolding append num_items_per_buffer
append-Appends n m [] other h r = absurd (omega arith)
append-Appends n m (none ∷ bs) other h r = absurd r
append-Appends n m (some b ∷ bs) [] h r = absurd r
append-Appends n m (some b ∷ bs) (none ∷ os) h r = absurd r
append-Appends n m (some b ∷ bs) (some o ∷ os) h (p, r) =
    let c = some b ∷ bs in
    let other = some o ∷ os in
    rw
      (
        CanAppendAll-resizable n m c other (p, r),
        has_same_schema-true n m c other (p, r),
        p.count,
        p.other_count,
      )
      (Succeeds->>= (AreJoined (IsResized n m) c other) (AreJoined Appends c other)
        (resize_collection (n + m) c) _ (resize_collection-AreJoined n m c other (p, r))
        λ d q. append_buffers-AreJoined n m c other d q)
