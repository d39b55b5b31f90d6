-- ===== src/Tests/Buffers.antt =====
-- Schemas, buffers, views and collections at concrete values: items of three bytes, of which the
-- property `x` has the first two and `y` the last.
use ct_icp_comment.Common.{
  ℕ, ◌≤◌, ◌<◌, ◌≡◌, refl, ◌↔◌, true, some, List, [], ◌∷◌, arith, replicate, pos, ok, fail, ◌>>=◌,
  Succeeds, bad_layout, bad_index,
}
use ct_icp_comment.Common.{◌/◌}
use ct_icp_comment.Buffers.Schema.{
  uint16, uint8, PropertyInfo, ElementInfo, ItemSchema, Builder, element_size, build,
  check_memory_layout, check_elements, mark_bytes, mark_properties, new_builder, add_element,
  add_property,
}
use ct_icp_comment.Buffers.Layout.{Tiles, check_memory_layout_iff}
use ct_icp_comment.Buffers.Buffer.{ItemBuffer, vector_data, read_bytes}
use ct_icp_comment.Buffers.Copies.{HasItems, vector_copy, array_copy, vector_copy-at, array_copy-at}
use ct_icp_comment.Buffers.Bounds.{IsBuilt}
use ct_icp_comment.Buffers.Views.{View, view_get}
use ct_icp_comment.Buffers.Related.{AreRelated}
use ct_icp_comment.Buffers.Select.{select_items, append}
use ct_icp_comment.Buffers.Selection.{SelectsItems, select_items-SelectsItems}
use ct_icp_comment.Buffers.Appending.{AreJoined, Appends, append-Appends}

abbrev property_x : PropertyInfo
property_x = record {
  dimension = pos 1;
  offset_in_elem = pos 0;
  type = uint16;
  property_name = "x";
}

abbrev property_y : PropertyInfo
property_y = record { dimension = pos 1; offset_in_elem = pos 2; type = uint8; property_name = "y" }

abbrev vertex : ElementInfo
vertex = record {
  properties = property_x ∷ property_y ∷ [];
  offset_in_item = pos 0;
  element_name = "vertex";
}

abbrev vertex_builder : Builder
vertex_builder = record { item_size = pos 3; element_infos = ("vertex", vertex) ∷ [] }

abbrev vertex_schema : ItemSchema
vertex_schema = record { element_infos = ("vertex", vertex) ∷ []; item_size = pos 3 }

builds : build vertex_builder ≡ ok vertex_schema
unfolding build check_elements check_memory_layout mark_properties mark_bytes
builds = refl

-- The calls of a client give that builder.
adds :
    (do
      b ←
          add_property "vertex" "x" uint16
            (pos 0)
            (pos 1)
            (add_element "vertex" (pos 0) (new_builder (pos 3)))
      add_property "vertex" "y" uint8 (pos 2) (pos 1) b)
    ≡ ok vertex_builder
adds = refl

-- With `y` at the byte of `x` the layout is refused, and with a hole before it too.
overlap :
    check_memory_layout (record vertex {
      properties = property_x ∷ record property_y { offset_in_elem = pos 1 } ∷ [];
    })
    ≡ fail bad_layout
unfolding check_memory_layout mark_properties mark_bytes
overlap = refl

hole :
    check_memory_layout (record vertex {
      properties = property_x ∷ record property_y { offset_in_elem = pos 3 } ∷ [];
    })
    ≡ fail bad_layout
unfolding check_memory_layout mark_properties mark_bytes
hole = refl

check_memory_layout_iff_example :
    (check_memory_layout vertex ≡ ok tt)
    ↔ ((n : ℕ) × (element_size vertex ≡ pos n) × Tiles (property_x ∷ property_y ∷ []) n)
check_memory_layout_iff_example = check_memory_layout_iff vertex

abbrev three : List (List ℕ)
three = (1 ∷ 2 ∷ 3 ∷ []) ∷ (4 ∷ 5 ∷ 6 ∷ []) ∷ (7 ∷ 8 ∷ 9 ∷ []) ∷ []

vector_copy-at_example : Succeeds (HasItems 3 three) (vector_copy 3 three vertex_schema)
vector_copy-at_example =
    vector_copy-at 3 three vertex_schema (omega arith) refl (refl, (refl, (refl, tt)))

abbrev fresh : List ℕ
fresh = replicate 11 255

array_copy-at_example :
    (3 ≤ 11 / 3 → Succeeds (HasItems 3 three) (array_copy fresh 3 three vertex_schema))
    × (11 / 3 < 3 → array_copy fresh 3 three vertex_schema ≡ fail bad_index)
array_copy-at_example =
    array_copy-at fresh 3 three vertex_schema (omega arith) refl (refl, (refl, (refl, tt)))

abbrev vertices : List ℕ → ItemBuffer
vertices bytes = record {
  item_info = record { item_schema = vertex_schema; item_size = 3 };
  view_data_ptr = true;
  is_attached = true;
  storage = vector_data bytes;
}

abbrev first_three : ItemBuffer
first_three = vertices (1 ∷ 2 ∷ 3 ∷ 4 ∷ 5 ∷ 6 ∷ 7 ∷ 8 ∷ 9 ∷ [])

abbrev last_one : ItemBuffer
last_one = vertices (10 ∷ 11 ∷ 12 ∷ [])

first_three-IsBuilt : IsBuilt first_three
first_three-IsBuilt = record {
  buffer = record { sized = omega arith; stored = (refl, refl) };
  builder = vertex_builder;
  built = builds;
  sized = refl;
}

abbrev view_of_y : View
view_of_y = record { item_buffer = first_three; offset_in_item = pos 2; item_size = 3 }

third_y : view_get 1 2 view_of_y ≡ ok (9 ∷ [])
unfolding view_get read_bytes
third_y = refl

select_items-SelectsItems_example :
    Succeeds
      (AreRelated (SelectsItems (2 ∷ 0 ∷ 2 ∷ [])) (some first_three ∷ []))
      (select_items (2 ∷ 0 ∷ 2 ∷ []) (some first_three ∷ []))
select_items-SelectsItems_example =
    select_items-SelectsItems (2 ∷ 0 ∷ 2 ∷ []) 3 (some first_three ∷ [])
      (record { built = first_three-IsBuilt; count = refl }, tt)
      (omega arith, (omega arith, (omega arith, tt)))

append-Appends_example :
    Succeeds
      (AreJoined Appends (some first_three ∷ []) (some last_one ∷ []))
      (append (some last_one ∷ []) (some first_three ∷ []))
append-Appends_example =
    append-Appends 3 1 (some first_three ∷ []) (some last_one ∷ []) (omega arith) (
      record {
        buffer = first_three-IsBuilt.buffer;
        other = record { sized = omega arith; stored = (refl, refl) };
        count = refl;
        other_count = refl;
        sized = refl;
        room = tt;
      },
      tt,
    )
