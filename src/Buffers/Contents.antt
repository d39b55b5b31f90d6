-- ===== src/Buffers/Contents.antt =====
-- A buffer as the bytes of its items, one after another, and what the operations of
-- include/SlamCore/data/buffer.h do to them.
use ct_icp_comment.Common.{
  ℕ, zero, suc, ◌+◌, ◌*◌, ◌≤◌, ◌<◌, ◌≡◌, refl, sym, ap, ◌∙◌, Bool, true, ◌||◌, some, List, [], ◌∷◌,
  ◌++◌, arith, ltb, leb, ◌==◌, length, take, drop, length-append, ok, Succeeds,
}
use native.Mathlib.Nat.{mul-le-mul_right, add-mul-div_right}
use ct_icp_comment.Common.{◌/◌}
use ct_icp_comment.Buffers.Schema.{ItemSchema}
use ct_icp_comment.Buffers.Buffer.{
  Storage, vector_data, array_data, wrapped_data, ItemBuffer, stored_bytes, buffer_bytes,
  stored_items, num_items, new_vector_buffer, has_bytes, insert_items, resize_bytes, resize, at,
}
use ct_icp_comment.Buffers.Bytes.{
  take-length, take-drop-take, write_bytes_lem, read_bytes_lem, push_source, length-resize,
  take-resize,
}

abbrev pub contents : ItemBuffer → List ℕ
contents b = take (num_items b * b.item_info.item_size) (buffer_bytes b)

-- The items stand within the bytes, a vector has no byte more, and the pointer of a vector is null
-- exactly when it has no byte.
abbrev pub IsStorage : ℕ → Bool → Storage → Type 0
IsStorage size ptr (vector_data bytes) =
    (length bytes / size * size ≡ length bytes) × (ptr ≡ has_bytes bytes)
IsStorage size ptr (array_data bytes allocated capacity) =
    (allocated ≤ capacity) × (capacity * size ≤ length bytes) × (ptr ≡ true)
IsStorage size ptr (wrapped_data bytes n) = (n * size ≤ length bytes) × (ptr ≡ has_bytes bytes)

pub record IsBuffer (b : ItemBuffer) : Type 0 where
  pub sized : 0 < b.item_info.item_size
  pub stored : IsStorage b.item_info.item_size b.view_data_ptr b.storage

-- Whether `n` items more can be inserted.
abbrev pub HasRoom : ℕ → Storage → Type 0
HasRoom n (vector_data bytes) = Unit
HasRoom n (array_data bytes allocated capacity) = allocated + n ≤ capacity
HasRoom n (wrapped_data bytes k) = ⊥

pub HasRoom-left : (m k : ℕ) (s : Storage) → HasRoom (m + k) s → HasRoom m s
HasRoom-left m k (vector_data bytes) h = tt
HasRoom-left m k (array_data bytes allocated capacity) h = omega arith
HasRoom-left m k (wrapped_data bytes n) h = h

-- The items of a buffer never reach beyond its bytes.
pub num_items-within :
    (b : ItemBuffer) → IsBuffer b → num_items b * b.item_info.item_size ≤ length (buffer_bytes b)
num_items-within b v = by_storage b.storage v.stored
  where
    by_storage :
        (s : Storage)
        → IsStorage b.item_info.item_size b.view_data_ptr s
        → stored_items b.item_info.item_size s * b.item_info.item_size ≤ length (stored_bytes s)
    by_storage (vector_data bytes) (q, p) = omega arith
    by_storage (array_data bytes allocated capacity) (r, c, p) = grind arith
    by_storage (wrapped_data bytes n) (q, p) = q

-- What an insertion promises: `n` items more, and their bytes after the others.
pub record Inserts (n : ℕ) (source : List ℕ) (b b' : ItemBuffer) : Type 0 where
  pub buffer : IsBuffer b'
  pub info : b'.item_info ≡ b.item_info
  pub items : num_items b' ≡ num_items b + n
  pub bytes : contents b' ≡ contents b ++ source
  pub room : (k : ℕ) → HasRoom (n + k) b.storage → HasRoom k b'.storage

div_whole : (x k size : ℕ) → 0 < size → x ≡ k * size → x / size ≡ k
div_whole x k size h e = grind (arith, add-mul-div_right 0 k h)

has_bytes-append :
    (ptr : Bool) (xs ys : List ℕ)
    → ptr ≡ has_bytes xs
    → (has_bytes (xs ++ ys) || ptr) ≡ has_bytes (xs ++ ys)
has_bytes-append ptr [] [] h = h
has_bytes-append ptr [] (y ∷ ys) h = refl
has_bytes-append ptr (x ∷ xs) ys h = refl

take-exact : (n : ℕ) (xs : List ℕ) → length xs ≡ n → take n xs ≡ xs
take-exact n xs h = rw (← h) (take-length xs)

-- A vector whose bytes are `k` items.
vector-Inserts :
    (n : ℕ) (source bytes : List ℕ) (b : ItemBuffer)
    → 0 < b.item_info.item_size
    → length source ≡ n * b.item_info.item_size
    → IsStorage b.item_info.item_size b.view_data_ptr (vector_data bytes)
    → Inserts n source
        (record b { storage = vector_data bytes })
        (record b {
          view_data_ptr = has_bytes (bytes ++ source) || b.view_data_ptr;
          storage = vector_data (bytes ++ source);
        })
vector-Inserts n source bytes b h e (q, p) =
    let size = b.item_info.item_size in
    let total : length (bytes ++ source) ≡ (length bytes / size + n) * size =
      grind (arith, length-append bytes source) in
    let count = div_whole (length (bytes ++ source)) (length bytes / size + n) size h total in
    record {
      buffer = record {
        sized = h;
        stored = (rw count (sym total), has_bytes-append b.view_data_ptr bytes source p);
      };
      info = refl;
      items = count;
      bytes =
          rw count (take-exact _ (bytes ++ source) total)
          ∙ ap (λ xs. xs ++ source) (sym (take-exact _ bytes (sym q)));
      room = λ k r. tt;
    }

room_bytes : (k n capacity size : ℕ) → k + n ≤ capacity → k * size + n * size ≤ capacity * size
room_bytes k n capacity size h = omega (arith, mul-le-mul_right size h)

pub insert_items_lem :
    (n : ℕ) (source : List ℕ) (b : ItemBuffer)
    → IsBuffer b
    → length source ≡ n * b.item_info.item_size
    → HasRoom n b.storage
    → Succeeds (Inserts n source b) (insert_items n (some source) b)
unfolding insert_items
insert_items_lem n source b v e room = by_storage b.storage v.stored room
  where
    size : ℕ
    size = b.item_info.item_size

    by_storage :
        (s : Storage)
        → IsStorage b.item_info.item_size b.view_data_ptr s
        → HasRoom n s
        → Succeeds
            (Inserts n source (record b { storage = s }))
            (insert_items n (some source) (record b { storage = s }))
    by_storage (vector_data bytes) u r =
        rw
          (
            push_source (n * b.item_info.item_size) 0 source bytes (omega arith),
            take-exact (n * b.item_info.item_size) source e,
          )
          (vector-Inserts n source bytes b v.sized e u)
    by_storage (array_data bytes allocated capacity) (k, c, p) r =
        let start = allocated * b.item_info.item_size in
        let room' : allocated + n ≤ capacity = r in
        let in_all = room_bytes allocated n capacity b.item_info.item_size room' in
        let fits : start + length source ≤ length bytes = omega arith in
        let (bytes', written, same, front) = write_bytes_lem start source bytes fits in
        let passes : leb (allocated + n) capacity ≡ true = ground arith in
        let end : (allocated + n) * b.item_info.item_size ≡ start + length source = grind arith in
        rw
          (
            passes,
            read_bytes_lem 0 (n * b.item_info.item_size) source (omega arith),
            take-exact (n * b.item_info.item_size) source e,
            written,
          )
          record {
            buffer = record { sized = v.sized; stored = (r, omega arith, p) };
            info = refl;
            items = refl;
            bytes = rw end front;
            room = λ k (r' : allocated + (n + k) ≤ capacity). omega arith;
          }
    by_storage (wrapped_data bytes m) q r = absurd r

pub has_bytes_iff : (xs : List ℕ) → 0 < length xs → has_bytes xs ≡ true
has_bytes_iff [] h = absurd (omega arith)
has_bytes_iff (x ∷ xs) h = refl

-- A buffer with items has a pointer to them.
attached : (b : ItemBuffer) → IsBuffer b → 0 < num_items b → b.view_data_ptr ≡ true
attached b v h = by_storage b.storage v.stored h
  where
    some_bytes : (n : ℕ) → 0 < n → 0 < n * b.item_info.item_size
    some_bytes n k = grind (arith, v.sized)

    by_storage :
        (s : Storage)
        → IsStorage b.item_info.item_size b.view_data_ptr s
        → 0 < stored_items b.item_info.item_size s
        → b.view_data_ptr ≡ true
    by_storage (vector_data bytes) (q, p) k =
        p ∙ has_bytes_iff bytes (omega (arith, some_bytes (length bytes / b.item_info.item_size) k))
    by_storage (array_data bytes allocated capacity) (r, c, p) k = p
    by_storage (wrapped_data bytes n) (q, p) k =
        p ∙ has_bytes_iff bytes (omega (arith, some_bytes n k))

-- A valid access reads the bytes of one item.
pub at_lem :
    (i : ℕ) (b : ItemBuffer)
    → IsBuffer b
    → i < num_items b
    → at b.item_info.item_size i b
      ≡ ok (take b.item_info.item_size (drop (i * b.item_info.item_size) (contents b)))
unfolding at
at_lem i b v h =
    let size = b.item_info.item_size in
    let in_items : i * size + 1 * size ≤ num_items b * size =
      room_bytes i 1 (num_items b) size (omega arith) in
    let item_end : i * size + size ≤ num_items b * size = omega arith in
    let in_range : ltb i (num_items b) ≡ true = ground arith in
    let same : (size == size) ≡ true = ground arith in
    rw
      (
        in_range,
        same,
        attached b v (omega arith),
        read_bytes_lem (i * size) size (buffer_bytes b) (omega (arith, num_items-within b v)),
      )
      (ap ok (sym (take-drop-take (i * size) size (num_items b * size) (buffer_bytes b) item_end)))

-- What a change of the number of items promises.
pub record Resizes (n : ℕ) (b b' : ItemBuffer) : Type 0 where
  pub buffer : IsBuffer b'
  pub info : b'.item_info ≡ b.item_info
  pub items : num_items b' ≡ n
  pub kept :
      (m : ℕ)
      → m ≤ n
      → m ≤ num_items b
      → take (m * b.item_info.item_size) (buffer_bytes b')
        ≡ take (m * b.item_info.item_size) (buffer_bytes b)

abbrev pub HasCapacity : ℕ → Storage → Type 0
HasCapacity n (vector_data bytes) = Unit
HasCapacity n (array_data bytes allocated capacity) = n ≤ capacity
HasCapacity n (wrapped_data bytes k) = ⊥

pub resize_lem :
    (n : ℕ) (b : ItemBuffer)
    → IsBuffer b
    → HasCapacity n b.storage
    → Succeeds (Resizes n b) (resize n b)
unfolding resize
resize_lem n b v room = by_storage b.storage v.stored room
  where
    by_storage :
        (s : Storage)
        → IsStorage b.item_info.item_size b.view_data_ptr s
        → HasCapacity n s
        → Succeeds (Resizes n (record b { storage = s })) (resize n (record b { storage = s }))
    by_storage (vector_data bytes) (q, p) r =
        let size = b.item_info.item_size in
        let total = length-resize (n * size) bytes in
        let count = div_whole (length (resize_bytes (n * size) bytes)) n size v.sized total in
        record {
          buffer = record {
            sized = v.sized;
            stored = (ap (λ k. k * size) count ∙ sym total, refl);
          };
          info = refl;
          items = count;
          kept = λ m h k.
              take-resize (m * size) (n * size) bytes (mul-le-mul_right size h)
                (omega (arith, mul-le-mul_right size k));
        }
    by_storage (array_data bytes allocated capacity) (k, c, p) r =
        let fits : leb n capacity ≡ true = ground arith in
        rw fits record {
          buffer = record { sized = v.sized; stored = (r, c, p) };
          info = refl;
          items = refl;
          kept = λ m h k. refl;
        }
    by_storage (wrapped_data bytes m) q r = absurd r

pub zero-div : (n : ℕ) → 0 / n ≡ 0
zero-div zero = refl
zero-div (suc n) = omega arith

pub new_vector_buffer-IsBuffer :
    (schema : ItemSchema) (size : ℕ) → 0 < size → IsBuffer (new_vector_buffer schema size)
new_vector_buffer-IsBuffer schema size h = record {
  sized = h;
  stored = (ap (λ n. n * size) (zero-div size) ∙ omega arith, refl);
}
