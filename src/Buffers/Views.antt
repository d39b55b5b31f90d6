-- ===== src/Buffers/Views.antt =====
-- The views of the elements and properties of a collection: include/SlamCore/data/view.h and the
-- templates of include/SlamCore/data/buffer_collection.h. An access is a read of bytes.
use ct_icp_comment.Common.{
  dangling, ℕ, ◌-◌, ◌*◌, ◌&&◌, none, some, List, [], ◌∷◌, ◌==◌, if◌then◌else◌, get_elem?, ℤ, pos,
  negsuc, ltb_ℤ, leb_ℤ, ◌+ℤ◌, scale, Outcome, ok, fail, check, require, ◌>>=◌, ◌>>◌, bad_layout,
  missing_name, bad_index,
}
use Prim.Native.String.{String}
use ct_icp_comment.Common.{null_buffer}
use ct_icp_comment.Buffers.Schema.{
  PropertyType, PropertyInfo, element_size, get_property, schema_has_element, property_size,
}
use ct_icp_comment.Buffers.Buffer.{ItemBuffer, num_items, buffer_bytes, read_bytes}
use ct_icp_comment.Buffers.Collection.{BufferCollection, get_element, type_index}

-- `View` and, with the type of its source, `ProxyView`.
pub record View : Type 0 where
  pub item_buffer : ItemBuffer
  pub offset_in_item : ℤ
  pub item_size : ℕ

pub record ProxyView : Type 0 where
  pub src_property_type : PropertyType
  pub view : View

-- The offset of `operator[]` from `view_data_ptr`.
abbrev pub view_address : ℕ → View → ℤ
view_address index v = pos (index * v.item_size) +ℤ v.offset_in_item

-- A read of `size` bytes there.
abbrev pub read_at : ℕ → ℤ → List ℕ → Outcome (List ℕ)
read_at size (pos start) bytes = read_bytes start size bytes
read_at size (negsuc n) bytes = fail bad_index

unfoldable pub view_get : ℕ → ℕ → View → Outcome (List ℕ)
view_get size index v = read_at size (view_address index v) (buffer_bytes v.item_buffer)

abbrev pub view_size : View → ℕ
view_size v = num_items v.item_buffer

-- The access of `back` to a view that can be written.
abbrev pub view_back : ℕ → View → Outcome (List ℕ)
view_back size v = view_get size (view_size v - 1) v

-- The buffer of the element, `element_info.parent->parent_buffer`: that of the first schema with the
-- element, if the element's `parent` still points at the `item_info` of the buffer.
unfoldable pub get_parent_buffer : String → BufferCollection → Outcome ItemBuffer
get_parent_buffer name [] = fail missing_name
get_parent_buffer name (none ∷ bs) = get_parent_buffer name bs
get_parent_buffer name (some b ∷ bs) =
    if schema_has_element b.item_info.item_schema name
    then (check b.is_attached dangling >> ok b)
    else get_parent_buffer name bs

unfoldable pub element_view : ℕ → String → BufferCollection → Outcome View
element_view size name c = do
  e ← get_element name c
  b ← get_parent_buffer name c
  check (leb_ℤ (element_size e) (pos size) && leb_ℤ (pos size) (element_size e)) bad_layout
  ok (record {
    item_buffer = b;
    offset_in_item = e.offset_in_item;
    item_size = b.item_info.item_size;
  })

unfoldable pub property_view : String → String → BufferCollection → Outcome View
property_view name property c = do
  e ← get_element name c
  p ← get_property e property
  b ← get_parent_buffer name c
  ok (record {
    item_buffer = b;
    offset_in_item = e.offset_in_item +ℤ p.offset_in_elem;
    item_size = b.item_info.item_size;
  })

unfoldable pub item_view : ℕ → BufferCollection → Outcome View
item_view index c = do
  ptr ← require (get_elem? c index) bad_index
  b ← require ptr null_buffer
  ok (record { item_buffer = b; offset_in_item = pos 0; item_size = b.item_info.item_size })

abbrev pub one_type : PropertyType → List PropertyInfo → Outcome (Unit {0})
one_type type [] = ok tt
one_type type (p ∷ ps) = do
  check (type_index p.type == type_index type) bad_layout
  one_type type ps

-- An element without properties has no first one.
unfoldable pub element_proxy : String → BufferCollection → Outcome ProxyView
element_proxy name c = do
  e ← get_element name c
  b ← get_parent_buffer name c
  first ← require (get_elem? e.properties 0) missing_name
  one_type first.type e.properties
  ok (record {
    src_property_type = first.type;
    view = record {
      item_buffer = b;
      offset_in_item = e.offset_in_item;
      item_size = b.item_info.item_size;
    };
  })

unfoldable pub property_proxy : String → String → ℤ → BufferCollection → Outcome ProxyView
property_proxy name property dim c = do
  e ← get_element name c
  p ← get_property e property
  check (leb_ℤ (pos 0) dim && ltb_ℤ dim p.dimension) bad_index
  b ← get_parent_buffer name c
  ok (record {
    src_property_type = p.type;
    view = record {
      item_buffer = b;
      offset_in_item = e.offset_in_item +ℤ p.offset_in_elem +ℤ scale (property_size p.type) dim;
      item_size = b.item_info.item_size;
    };
  })
