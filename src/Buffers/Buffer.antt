-- ===== src/Buffers/Buffer.antt =====
-- include/SlamCore/data/buffer.h and src/SlamCore/data/buffer.cxx. A byte is a number, an item of a
-- type `T` is the list of its `sizeof(T)` bytes, and a pointer is whether it points to the bytes of the
-- buffer. A read or a write past the bytes, which C++ leaves undefined, fails here with `bad_index`.
-- A wrapper has the bytes that it wraps; the buffer that owns them is not in the model. Allocation
-- does not fail. The storage is the derived class.
use ct_icp_comment.Common.{
  ℕ, zero, suc, ◌+◌, ◌-◌, ◌*◌, Bool, true, false, ◌||◌, Option, none, some, List, [], ◌∷◌, ◌++◌,
  ltb, leb, ◌==◌, if◌then◌else◌, length, get_elem?, take, drop, to_size, Outcome, ok, fail, check,
  require, ◌>>=◌, ◌>>◌, bad_layout, bad_index, not_resizable,
}
use Prim.Native.String.{String}
use ct_icp_comment.Common.{◌/◌}
use ct_icp_comment.Buffers.Schema.{
  ItemSchema, build, get_builder, remove_element, schema_has_element,
}

pub record ItemInfo : Type 0 where
  pub item_schema : ItemSchema
  pub item_size : ℕ

pub data Storage : Type 0 where
  -- `VectorBuffer`: `data`
  vector_data : List ℕ → Storage
  -- `ArrayBuffer`: `data_`, `allocated_` and `capacity_`
  array_data : List ℕ → ℕ → ℕ → Storage
  -- `BufferWrapper`: what it wraps, and `num_items_`
  wrapped_data : List ℕ → ℕ → Storage

pub record ItemBuffer : Type 0 where
  pub item_info : ItemInfo
  -- whether it is not null
  pub view_data_ptr : Bool
  -- whether `parent` of the elements of the schema points at `item_info`, as the constructor makes it
  pub is_attached : Bool
  pub storage : Storage

abbrev pub stored_bytes : Storage → List ℕ
stored_bytes (vector_data bytes) = bytes
stored_bytes (array_data bytes allocated capacity) = bytes
stored_bytes (wrapped_data bytes n) = bytes

-- The bytes from `view_data_ptr`.
abbrev pub buffer_bytes : ItemBuffer → List ℕ
buffer_bytes b = stored_bytes b.storage

abbrev pub stored_items : ℕ → Storage → ℕ
stored_items size (vector_data bytes) = length bytes / size
stored_items size (array_data bytes allocated capacity) = allocated
stored_items size (wrapped_data bytes n) = n

abbrev pub num_items : ItemBuffer → ℕ
num_items b = stored_items b.item_info.item_size b.storage

abbrev pub is_resizable : ItemBuffer → Bool
is_resizable b = elim b.storage [ wrapped_data bytes n ↦ false | _ ↦ true ]

-- The `n` bytes from `start`, and the copy of bytes to `start`.
unfoldable pub read_bytes : ℕ → ℕ → List ℕ → Outcome (List ℕ)
read_bytes start n bytes = do
  check (leb (start + n) (length bytes)) bad_index
  ok (take n (drop start bytes))

unfoldable pub write_bytes : ℕ → List ℕ → List ℕ → Outcome (List ℕ)
write_bytes start source bytes = do
  check (leb (start + length source) (length bytes)) bad_index
  ok (take start bytes ++ source ++ drop (start + length source) bytes)

-- The constructors.
abbrev pub new_vector_buffer : ItemSchema → ℕ → ItemBuffer
new_vector_buffer schema size = record {
  item_info = record { item_schema = schema; item_size = size };
  view_data_ptr = false;
  is_attached = true;
  storage = vector_data [];
}

-- `fresh` is what the array holds before anything is written to it, `MaxSize` bytes.
abbrev pub new_array_buffer : List ℕ → ItemSchema → ℕ → ItemBuffer
new_array_buffer fresh schema size = record {
  item_info = record { item_schema = schema; item_size = size };
  view_data_ptr = true;
  is_attached = true;
  storage = array_data fresh 0 (length fresh / size);
}

abbrev pub new_buffer_wrapper : ItemSchema → Bool → List ℕ → ℕ → ℕ → ItemBuffer
new_buffer_wrapper schema ptr bytes n size = record {
  item_info = record { item_schema = schema; item_size = size };
  view_data_ptr = ptr;
  is_attached = true;
  storage = wrapped_data bytes n;
}

-- The byte that the insertion of a vector buffer pushes.
abbrev pub byte_to_push : Option (List ℕ) → ℕ → Outcome ℕ
byte_to_push none i = ok 0
byte_to_push (some items_data) i = require (get_elem? items_data i) bad_index

unfoldable pub push_bytes : ℕ → ℕ → Option (List ℕ) → List ℕ → Outcome (List ℕ)
push_bytes zero i items_data bytes = ok bytes
push_bytes (suc n) i items_data bytes = do
  byte ← byte_to_push items_data i
  push_bytes n (i + 1) items_data (bytes ++ byte ∷ [])

abbrev pub copy_items : ℕ → ℕ → Option (List ℕ) → List ℕ → Outcome (List ℕ)
copy_items start n none bytes = ok bytes
copy_items start n (some items_data) bytes = do
  source ← read_bytes 0 n items_data
  write_bytes start source bytes

abbrev pub has_bytes : List ℕ → Bool
has_bytes [] = false
has_bytes (b ∷ bs) = true

-- `InsertItems`; `none` is the null pointer. A wrapper is no `ResizableBuffer`: the cast throws.
unfoldable pub insert_items : ℕ → Option (List ℕ) → ItemBuffer → Outcome ItemBuffer
insert_items n items_data b =
    let size = b.item_info.item_size in
    elim b.storage [
      | vector_data bytes ↦ do
        bytes' ← push_bytes (n * size) 0 items_data bytes
        ok (record b {
          view_data_ptr = has_bytes bytes' || b.view_data_ptr;
          storage = vector_data bytes';
        })
      | array_data bytes allocated capacity ↦ do
        check (leb (allocated + n) capacity) bad_index
        bytes' ← copy_items (allocated * size) (n * size) items_data bytes
        ok (record b { storage = array_data bytes' (allocated + n) capacity })
      | wrapped_data bytes k ↦ fail not_resizable
    ]

-- `std::vector::resize`, and the zeros of `std::fill`.
abbrev pub resize_bytes : ℕ → List ℕ → List ℕ
resize_bytes zero bytes = []
resize_bytes (suc n) [] = 0 ∷ resize_bytes n []
resize_bytes (suc n) (b ∷ bs) = b ∷ resize_bytes n bs

unfoldable pub resize : ℕ → ItemBuffer → Outcome ItemBuffer
resize n b = elim b.storage [
  | vector_data bytes ↦
      let bytes' = resize_bytes (n * b.item_info.item_size) bytes in
      ok (record b { view_data_ptr = has_bytes bytes'; storage = vector_data bytes' })
  | array_data bytes allocated capacity ↦ do
    check (leb n capacity) bad_index
    ok (record b { storage = array_data bytes n capacity })
  | wrapped_data bytes k ↦ fail not_resizable
]

-- `Reserve` changes no byte, only where they stand.
unfoldable pub reserve : ℕ → ItemBuffer → Outcome ItemBuffer
reserve n b = elim b.storage [
  | vector_data bytes ↦ ok (record b { view_data_ptr = has_bytes bytes })
  | array_data bytes allocated capacity ↦ ok b
  | wrapped_data bytes k ↦ fail not_resizable
]

abbrev pub reserve_additional : ℕ → ItemBuffer → Outcome ItemBuffer
reserve_additional n b = reserve (n + num_items b) b

-- `CheckValidIndex` and `At`, for a type of `size` bytes.
abbrev pub check_valid_index : ℕ → ℕ → ItemBuffer → Outcome (Unit {0})
check_valid_index size index b = do
  check (ltb index (num_items b)) bad_index
  check (size == b.item_info.item_size) bad_layout
  check b.view_data_ptr bad_layout

unfoldable pub at : ℕ → ℕ → ItemBuffer → Outcome (List ℕ)
at size index b = do check_valid_index size index b; read_bytes (index * size) size (buffer_bytes b)

unfoldable pub push_back_item : List ℕ → ItemBuffer → Outcome ItemBuffer
push_back_item item b = do
  check (length item == b.item_info.item_size) bad_layout
  insert_items 1 (some item) b

-- The offsets of `AtPtr` and `BackPtr` from `view_data_ptr`. On no items the difference wraps to a
-- pointer before the buffer, and the maximum is `view_data_ptr`.
abbrev pub at_ptr : ℕ → ItemBuffer → ℕ
at_ptr index b = index * b.item_info.item_size

abbrev pub back_ptr : ItemBuffer → ℕ
back_ptr b = (num_items b - 1) * b.item_info.item_size

unfoldable pub deep_copy : ItemBuffer → Outcome ItemBuffer
deep_copy other = do
  schema ← build (get_builder other.item_info.item_schema)
  buffer ← resize (num_items other) (new_vector_buffer schema other.item_info.item_size)
  source ← read_bytes 0 (other.item_info.item_size * num_items other) (buffer_bytes other)
  bytes ← write_bytes 0 source (buffer_bytes buffer)
  ok (record buffer { storage = vector_data bytes })

-- The new `ItemInfo` is built apart and moved into `item_info`. Nothing sets `parent` of its elements
-- again, so that it points at the one that was moved from and is destroyed.
unfoldable pub remove_element_from_schema : String → ItemBuffer → Outcome ItemBuffer
remove_element_from_schema name b =
    if schema_has_element b.item_info.item_schema name
    then (do
      schema ← build (remove_element name (get_builder b.item_info.item_schema))
      ok (record b {
        item_info = record { item_schema = schema; item_size = to_size schema.item_size };
        is_attached = false;
      }))
    else ok b
