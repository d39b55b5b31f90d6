-- ===== src/Buffers/Copies.antt =====
-- The copies of a `std::vector<T>` into a buffer and the wrappers of one, from
-- include/SlamCore/data/buffer.h. `size` is `sizeof(T)`, and the items are their bytes.
use ct_icp_comment.Common.{
  ℕ, zero, suc, ◌+◌, ◌*◌, ◌≤◌, ◌<◌, ◌≡◌, refl, sym, ap, ◌∙◌, subst, Bool, true, false, Option, some,
  List, [], ◌∷◌, ◌++◌, append_assoc, append-nil, arith, leb, ◌==◌, Succeeds-map, length, get_elem?,
  take, All, ℤ, pos, negsuc, Outcome, ok, fail, check, require, ◌>>=◌, ◌>>◌, Succeeds, Succeeds->>=,
  bad_layout, bad_index,
}
use ct_icp_comment.Common.{◌/◌}
use native.Mathlib.Nat.{div-mul-le_self}
use ct_icp_comment.Buffers.Schema.{ItemSchema}
use ct_icp_comment.Buffers.Buffer.{
  ItemInfo, ItemBuffer, buffer_bytes, num_items, new_vector_buffer, new_array_buffer,
  new_buffer_wrapper, insert_items, reserve, at, push_back_item, has_bytes,
}
use ct_icp_comment.Buffers.Bytes.{join, slice-join}
use ct_icp_comment.Buffers.Contents.{
  contents, IsBuffer, HasRoom, HasRoom-left, Inserts, insert_items_lem, at_lem, zero-div,
  new_vector_buffer-IsBuffer,
}

abbrev pub eq_ℤ_size : ℤ → ℕ → Bool
eq_ℤ_size (pos a) n = a == n
eq_ℤ_size (negsuc a) n = false

-- The loops of the two copies: `step` inserts an item.
unfoldable pub insert_each :
    (List ℕ → ItemBuffer → Outcome ItemBuffer) → List (List ℕ) → ItemBuffer → Outcome ItemBuffer
insert_each step [] b = ok b
insert_each step (item ∷ items) b = do b' ← step item b; insert_each step items b'

unfoldable pub vector_copy : ℕ → List (List ℕ) → ItemSchema → Outcome ItemBuffer
vector_copy size items schema = do
  check (eq_ℤ_size schema.item_size size) bad_layout
  buffer ← reserve (length items) (new_vector_buffer schema size)
  insert_each (λ item. insert_items 1 (some item)) items buffer

unfoldable pub array_copy : List ℕ → ℕ → List (List ℕ) → ItemSchema → Outcome ItemBuffer
array_copy fresh size items schema = do
  check (eq_ℤ_size schema.item_size size) bad_layout
  let empty = new_array_buffer fresh schema size
  check (leb (length items) (length fresh / size)) bad_index
  buffer ← reserve (length items) empty
  insert_each push_back_item items buffer

-- `BufferWrapper::Create` of a vector, and of a shared pointer to one, which `at(0)` stops where the
-- vector is empty.
abbrev pub wrap_vector : ℕ → List (List ℕ) → ItemSchema → ItemBuffer
wrap_vector size items schema =
    new_buffer_wrapper schema (has_bytes (join items)) (join items) (length items) size

abbrev pub wrap_shared : ℕ → Option (List (List ℕ)) → ItemSchema → Outcome ItemBuffer
wrap_shared size items_ptr schema = do
  items ← require items_ptr bad_layout
  first ← require (get_elem? items 0) bad_index
  ok (wrap_vector size items schema)

-- A buffer that holds these items of `size` bytes and no other.
pub record Holds (size : ℕ) (items : List (List ℕ)) (b : ItemBuffer) : Type 0 where
  pub buffer : IsBuffer b
  pub sized : b.item_info.item_size ≡ size
  pub count : num_items b ≡ length items
  pub bytes : contents b ≡ join items

-- Each item can be read back.
pub Holds-at :
    (size i : ℕ) (items : List (List ℕ)) (item : List ℕ) (b : ItemBuffer)
    → All (λ x. length x ≡ size) items
    → get_elem? items i ≡ some item
    → i < length items
    → Holds size items b
    → at size i b ≡ ok item
Holds-at size i items item b u e h holds =
    let read = at_lem i b holds.buffer (omega (arith, holds.count)) in
    let slice = slice-join size i items item u e in cc (read, slice, holds.sized, holds.bytes)

-- What the insertion of all items promises.
record Extends (items : List (List ℕ)) (b b' : ItemBuffer) : Type 0 where
  buffer : IsBuffer b'
  info : b'.item_info ≡ b.item_info
  count : num_items b' ≡ num_items b + length items
  bytes : contents b' ≡ contents b ++ join items

Inserts-Extends :
    (item : List ℕ) (items : List (List ℕ)) (b b' b'' : ItemBuffer)
    → Inserts 1 item b b'
    → Extends items b' b''
    → Extends (item ∷ items) b b''
Inserts-Extends item items b b' b'' f g = record {
  buffer = g.buffer;
  info = g.info ∙ f.info;
  count = omega (arith, f.items, g.count);
  bytes =
      g.bytes ∙ ap (λ xs. xs ++ join items) f.bytes ∙ append_assoc (contents b) item (join items);
}

-- A step that inserts an item of the right size where there is room.
abbrev IsStep : (List ℕ → ItemBuffer → Outcome ItemBuffer) → Type 0
IsStep step =
    (item : List ℕ) (b : ItemBuffer)
    → IsBuffer b
    → length item ≡ b.item_info.item_size
    → HasRoom 1 b.storage
    → Succeeds (Inserts 1 item b) (step item b)

insert_items-IsStep : IsStep (λ item. insert_items 1 (some item))
insert_items-IsStep item b v e room = insert_items_lem 1 item b v (omega (arith, e)) room

push_back_item-IsStep : IsStep push_back_item
unfolding push_back_item
push_back_item-IsStep item b v e room =
    let same : (length item == b.item_info.item_size) ≡ true = ground arith in
    rw same (insert_items-IsStep item b v e room)

insert_each-Extends :
    (step : List ℕ → ItemBuffer → Outcome ItemBuffer) (items : List (List ℕ)) (b : ItemBuffer)
    → IsStep step
    → IsBuffer b
    → All (λ x. length x ≡ b.item_info.item_size) items
    → HasRoom (length items) b.storage
    → Succeeds (Extends items b) (insert_each step items b)
unfolding insert_each
insert_each-Extends step [] b w v u room = record {
  buffer = v;
  info = refl;
  count = omega arith;
  bytes = sym (append-nil (contents b));
}
insert_each-Extends step (item ∷ items) b w v (e, u) room =
    let split : suc (length items) ≡ 1 + length items = omega arith in
    let room' = subst (λ k. HasRoom k b.storage) split room in
    Succeeds->>= (Inserts 1 item b) (Extends (item ∷ items) b) _ (insert_each step items)
      (w item b v e (HasRoom-left 1 (length items) b.storage room'))
      λ b' f.
        Succeeds-map (Extends items b') (Extends (item ∷ items) b) (insert_each step items b')
          (insert_each-Extends step items b' w f.buffer
            (subst (λ (info : ItemInfo). All (λ x. length x ≡ info.item_size) items) (sym f.info) u)
            (f.room (length items) room'))
          (λ b'' g. Inserts-Extends item items b b' b'' f g)

-- A copy into an empty buffer holds the items.
Extends-Holds :
    (size : ℕ) (items : List (List ℕ)) (b b' : ItemBuffer)
    → b.item_info.item_size ≡ size
    → num_items b ≡ 0
    → Extends items b b'
    → Holds size items b'
Extends-Holds size items b b' e z f = record {
  buffer = f.buffer;
  sized = cc (e, f.info);
  count = omega (arith, f.count);
  bytes = f.bytes ∙ ap (λ xs. xs ++ join items) (empty (num_items b) z);
}
  where
    empty : (n : ℕ) → n ≡ 0 → take (n * b.item_info.item_size) (buffer_bytes b) ≡ []
    empty n h =
        let none_left : n * b.item_info.item_size ≡ 0 = grind (arith, h) in rw none_left refl

eq_ℤ_size_refl : (z : ℤ) (n : ℕ) → z ≡ pos n → eq_ℤ_size z n ≡ true
eq_ℤ_size_refl z n e = rw e (ground arith)

get_elem?-lt :
    (items : List (List ℕ)) (i : ℕ) (item : List ℕ)
    → get_elem? items i ≡ some item
    → i < length items
get_elem?-lt [] i item h = cc
get_elem?-lt (x ∷ xs) zero item h = omega arith
get_elem?-lt (x ∷ xs) (suc i) item h = omega (arith, get_elem?-lt xs i item h)

-- A buffer of these items and no other, each of which `At` reads back.
abbrev pub HasItems : ℕ → List (List ℕ) → ItemBuffer → Type 0
HasItems size items b =
    (num_items b ≡ length items)
    × ((i : ℕ) (item : List ℕ) → get_elem? items i ≡ some item → at size i b ≡ ok item)

pub Holds-HasItems :
    (size : ℕ) (items : List (List ℕ)) (b : ItemBuffer)
    → All (λ x. length x ≡ size) items
    → Holds size items b
    → HasItems size items b
Holds-HasItems size items b u holds =
    (holds.count, λ i item q. Holds-at size i items item b u q (get_elem?-lt items i item q) holds)

-- The copy loop from an empty buffer.
insert_each-HasItems :
    (step : List ℕ → ItemBuffer → Outcome ItemBuffer) (items : List (List ℕ)) (b : ItemBuffer)
    → IsStep step
    → IsBuffer b
    → num_items b ≡ 0
    → All (λ x. length x ≡ b.item_info.item_size) items
    → HasRoom (length items) b.storage
    → Succeeds (HasItems b.item_info.item_size items) (insert_each step items b)
insert_each-HasItems step items b w v z u room =
    Succeeds-map (Extends items b) _ _ (insert_each-Extends step items b w v u room)
      λ b' f. Holds-HasItems b.item_info.item_size items b' u (Extends-Holds _ items b b' refl z f)

-- `VectorBuffer::Copy` of items that have the size of the schema succeeds with a buffer of these
-- items and no other, and `At` reads each of them back.
pub vector_copy-at :
    (size : ℕ) (items : List (List ℕ)) (schema : ItemSchema)
    → 0 < size
    → schema.item_size ≡ pos size
    → All (λ item. length item ≡ size) items
    → Succeeds (HasItems size items) (vector_copy size items schema)
unfolding vector_copy reserve
vector_copy-at size items schema h e u =
    let empty = new_vector_buffer schema size in
    rw (eq_ℤ_size_refl schema.item_size size e) (
      insert_each-HasItems _ items empty insert_items-IsStep
        (new_vector_buffer-IsBuffer schema size h) (zero-div size) u tt)

-- `ArrayBuffer::Copy` of items that have the size of the schema, where they fit the array, succeeds
-- without writing outside of it, with a buffer of these items and no other, and `At` reads each of
-- them back, whatever the array held before. Where they do not fit, the copy is refused.
pub array_copy-at :
    (fresh : List ℕ) (size : ℕ) (items : List (List ℕ)) (schema : ItemSchema)
    → 0 < size
    → schema.item_size ≡ pos size
    → All (λ item. length item ≡ size) items
    → (length items ≤ length fresh / size
        → Succeeds (HasItems size items) (array_copy fresh size items schema))
      × (length fresh / size < length items → array_copy fresh size items schema ≡ fail bad_index)
unfolding array_copy reserve
array_copy-at fresh size items schema h e u = rw (eq_ℤ_size_refl schema.item_size size e) (
  λ fits.
      let passes : leb (length items) (length fresh / size) ≡ true = ground arith in
      let empty = new_array_buffer fresh schema size in
      let valid : IsBuffer empty = record {
        sized = h;
        stored = (omega arith, div-mul-le_self (length fresh) size, refl);
      } in
      rw passes (
        insert_each-HasItems push_back_item items empty push_back_item-IsStep valid refl u
          (omega arith)),
  λ too_many.
      let refused : leb (length items) (length fresh / size) ≡ false = ground arith in
      rw refused refl,
)
