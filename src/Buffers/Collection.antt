-- ===== src/Buffers/Collection.antt =====
-- include/SlamCore/data/buffer_collection.h, src/SlamCore/data/buffer_collection.cxx and the views of
-- include/SlamCore/data/view.h. A collection is its vector of `unique_ptr`s, where `none` is null; the
-- use of a null pointer, which C++ leaves undefined, fails with `null_buffer`. A view is the buffer's
-- index in its collection with the offset and the stride.
use ct_icp_comment.Common.{
  ℕ, suc, ◌+◌, Bool, true, false, not, ◌&&◌, ◌||◌, Option, none, some, List, [], ◌∷◌, ◌++◌, ◌==◌,
  if◌then◌else◌, get_elem?, set, ℤ, pos, leb_ℤ, Outcome, ok, fail, check, require, ◌>>=◌, ◌>>◌,
  bad_layout, missing_name, bad_index, not_resizable,
}
use Prim.Native.String.{String}
use ct_icp_comment.Common.{null_buffer}
use ct_icp_comment.Buffers.Schema.{
  PropertyType, ElementInfo, element_has_property, get_property, build, get_builder,
  schema_has_element, get_element_info, get_element_names, get_total_element_size,
}
use ct_icp_comment.Buffers.Buffer.{
  ItemInfo, ItemBuffer, num_items, is_resizable, insert_items, resize, reserve, deep_copy,
  remove_element_from_schema, new_vector_buffer,
}

abbrev pub BufferCollection : Type 0
BufferCollection = List (Option ItemBuffer)

abbrev pub owns_element : String → Option ItemBuffer → Bool
owns_element name none = false
owns_element name (some b) = schema_has_element b.item_info.item_schema name

-- The loops of `GetElement` and `GetItemIndex` over the buffers; both throw at the end.
unfoldable pub get_element : String → BufferCollection → Outcome ElementInfo
get_element name [] = fail missing_name
get_element name (none ∷ bs) = get_element name bs
get_element name (some b ∷ bs) =
    if schema_has_element b.item_info.item_schema name
    then get_element_info b.item_info.item_schema name
    else get_element name bs

unfoldable pub get_item_index : String → ℕ → BufferCollection → Outcome ℕ
get_item_index name idx [] = fail missing_name
get_item_index name idx (b ∷ bs) =
    if owns_element name b then ok idx else get_item_index name (idx + 1) bs

abbrev pub has_element : String → BufferCollection → Bool
has_element name [] = false
has_element name (b ∷ bs) = owns_element name b || has_element name bs

unfoldable pub has_property : String → String → BufferCollection → Outcome Bool
has_property element property c =
    if has_element element c
    then (do e ← get_element element c; ok (element_has_property e property))
    else ok false

-- `eq_type` compares property types.
abbrev pub type_index : PropertyType → ℕ
type_index PropertyType.float32 = 0
type_index PropertyType.float64 = 1
type_index PropertyType.int8 = 2
type_index PropertyType.uint8 = 3
type_index PropertyType.int16 = 4
type_index PropertyType.uint16 = 5
type_index PropertyType.int32 = 6
type_index PropertyType.uint32 = 7
type_index PropertyType.int64 = 8
type_index PropertyType.uint64 = 9

unfoldable pub has_matching_property :
    String → String → PropertyType → ℤ → BufferCollection → Outcome Bool
has_matching_property element property type dim c = do
  has ← has_property element property c
  if has
      then (do
        e ← get_element element c
        p ← get_property e property
        ok (type_index p.type == type_index type && leb_ℤ p.dimension dim && leb_ℤ dim p.dimension))
      else ok false

-- `std::all_of` of a test that uses each pointer.
unfoldable pub collection_is_resizable : BufferCollection → Outcome Bool
collection_is_resizable [] = ok true
collection_is_resizable (b ∷ bs) = do
  buffer ← require b null_buffer
  if is_resizable buffer then collection_is_resizable bs else ok false

-- The constant one of the two `GetItemInfo` also tests the pointer.
abbrev pub get_item_info : ℕ → BufferCollection → Outcome ItemInfo
get_item_info i c = do
  b ← require (get_elem? c i) bad_index
  buffer ← require b null_buffer
  ok buffer.item_info

unfoldable pub num_items_per_buffer : BufferCollection → Outcome ℕ
num_items_per_buffer c = do
  b ← require (get_elem? c 0) bad_index
  buffer ← require b null_buffer
  ok (num_items buffer)

-- The loop compares the size of the first buffer with itself, once for each other buffer.
abbrev pub sizes_loop : ℕ → ItemBuffer → BufferCollection → Bool
sizes_loop n first [] = true
sizes_loop n first (b ∷ bs) = if not (n == num_items first) then false else sizes_loop n first bs

abbrev pub are_sizes_consistent : BufferCollection → Bool
are_sizes_consistent [] = false
are_sizes_consistent (none ∷ bs) = false
are_sizes_consistent (some b ∷ bs) = sizes_loop (num_items b) b bs

abbrev pub new_collection : BufferCollection → Outcome BufferCollection
new_collection [] = ok []
new_collection (b ∷ bs) = do check (are_sizes_consistent (b ∷ bs)) bad_layout; ok (b ∷ bs)

abbrev pub collection_of_one : Option ItemBuffer → BufferCollection
collection_of_one b = b ∷ []

abbrev pub collection_factory : BufferCollection → Outcome BufferCollection
collection_factory buffers = do
  check (are_sizes_consistent buffers) bad_layout
  new_collection buffers

abbrev pub no_element : List String → BufferCollection → Outcome (Unit {0})
no_element [] c = ok tt
no_element (name ∷ names) c = do check (not (has_element name c)) missing_name; no_element names c

unfoldable pub add_buffer : Option ItemBuffer → BufferCollection → Outcome BufferCollection
add_buffer buffer_ptr c = do
  b ← require buffer_ptr null_buffer
  n ← num_items_per_buffer c
  check (num_items b == n) bad_layout
  no_element (get_element_names b.item_info.item_schema) c
  ok (c ++ some b ∷ [])

abbrev pub num_items_in_schema : BufferCollection → ℕ
num_items_in_schema [] = 0
num_items_in_schema (none ∷ bs) = num_items_in_schema bs
num_items_in_schema (some b ∷ bs) = suc (num_items_in_schema bs)

-- A loop over the buffers that changes each.
unfoldable pub for_buffers :
    (ItemBuffer → Outcome ItemBuffer) → BufferCollection → Outcome BufferCollection
for_buffers change [] = ok []
for_buffers change (b ∷ bs) = do
  buffer ← require b null_buffer
  buffer' ← change buffer
  bs' ← for_buffers change bs
  ok (some buffer' ∷ bs')

abbrev pub resize_collection : ℕ → BufferCollection → Outcome BufferCollection
resize_collection n = for_buffers λ b. do check (is_resizable b) not_resizable; resize n b

abbrev pub reserve_collection : ℕ → BufferCollection → Outcome BufferCollection
reserve_collection n = for_buffers λ b. do check (is_resizable b) not_resizable; reserve n b

unfoldable pub insert_items_collection : ℕ → BufferCollection → Outcome BufferCollection
insert_items_collection n c = do
  resizable ← collection_is_resizable c
  check resizable not_resizable
  for_buffers (insert_items n none) c

unfoldable pub remove_collection_element :
    String → Bool → BufferCollection → Outcome BufferCollection
remove_collection_element name remove_if_empty c =
    if has_element name c
    then (do
      i ← get_item_index name 0 c
      b ← require (get_elem? c i) bad_index
      buffer ← require b null_buffer
      buffer' ← remove_element_from_schema name buffer
      let total = get_total_element_size buffer'.item_info.item_schema
      let is_zero = leb_ℤ total (pos 0) && leb_ℤ (pos 0) total
      ok (set c i (if remove_if_empty && is_zero then none else some buffer')))
    else ok c

unfoldable pub collection_deep_copy : BufferCollection → Outcome BufferCollection
collection_deep_copy c = do buffers ← for_buffers deep_copy c; new_collection buffers

abbrev pub empty_buffer_like : ItemBuffer → Outcome ItemBuffer
empty_buffer_like b = do
  schema ← build (get_builder b.item_info.item_schema)
  ok (new_vector_buffer schema b.item_info.item_size)

unfoldable pub empty_copy : BufferCollection → Outcome BufferCollection
empty_copy c = do buffers ← for_buffers empty_buffer_like c; new_collection buffers
