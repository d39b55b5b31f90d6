-- ===== src/Buffers/Schema.antt =====
-- include/SlamCore/data/schema.h and src/SlamCore/data/schema.cxx. The pointers from a property to its
-- element and from an element to its item are left out: both are reached from their parents here.
-- Sums of `int` offsets are the integers' own.
use Prim.Native.Nat.{Ordering}
use Prim.Native.String.{String, compare}
use text.Mathlib.Text.{◌==◌ as same_name}
use ct_icp_comment.Common.{
  ℕ, zero, suc, Bool, true, false, not, ◌&&◌, Option, none, some, List, [], ◌∷◌, ◌++◌, map, ltb,
  length, get_elem?, set, replicate, if◌then◌else◌, ℤ, pos, negsuc, leb_ℤ, ltb_ℤ, to_size, add_ℕ,
  pos_part, ◌+ℤ◌, scale, Outcome, ok, fail, check, require, ◌>>=◌, ◌>>◌, bad_layout, missing_name,
  not_implemented,
}

pub data PropertyType : Type 0 where
  float32 float64 int8 uint8 int16 uint16 int32 uint32 int64 uint64 : PropertyType

abbrev pub property_type_char : PropertyType → String
property_type_char float32 = "f"
property_type_char float64 = "d"
property_type_char int8 = "b"
property_type_char uint8 = "B"
property_type_char int16 = "s"
property_type_char uint16 = "S"
property_type_char int32 = "i"
property_type_char uint32 = "I"
property_type_char int64 = "l"
property_type_char uint64 = "L"

-- The sizes of `float`, `double`, `char`, `short`, `int` and `long long` are the usual ones.
abbrev pub property_size : PropertyType → ℕ
property_size float32 = 4
property_size float64 = 8
property_size int8 = 1
property_size uint8 = 1
property_size int16 = 2
property_size uint16 = 2
property_size int32 = 4
property_size uint32 = 4
property_size int64 = 8
property_size uint64 = 8

-- The arithmetic types that the template is used at; `other_type` is any other, such as `bool`.
pub data ScalarType : Type 0 where
  double_type float_type char_type unsigned_char_type short_type unsigned_short_type : ScalarType
  int_type unsigned_int_type long_int_type unsigned_long_int_type : ScalarType
  long_long_type unsigned_long_long_type other_type : ScalarType

-- `wide` tells whether `long int` is as large as `long long int`.
unfoldable pub static_property_type : Bool → ScalarType → Outcome PropertyType
static_property_type wide double_type = ok float64
static_property_type wide float_type = ok float32
static_property_type wide char_type = ok int8
static_property_type wide unsigned_char_type = ok uint8
static_property_type wide short_type = ok int16
static_property_type wide unsigned_short_type = ok uint16
static_property_type wide int_type = ok int32
static_property_type wide long_int_type = ok (if wide then int64 else int32)
static_property_type wide unsigned_long_int_type = ok (if wide then uint64 else uint32)
static_property_type wide unsigned_int_type = ok uint32
static_property_type wide long_long_type = ok int64
static_property_type wide unsigned_long_long_type = ok uint64
static_property_type wide other_type = fail not_implemented

pub record PropertyInfo : Type 0 where
  pub dimension : ℤ
  pub offset_in_elem : ℤ
  pub type : PropertyType
  pub property_name : String

-- `PropertyInfo::Size`
abbrev pub info_size : PropertyInfo → ℤ
info_size p = scale (property_size p.type) p.dimension

pub record ElementInfo : Type 0 where
  pub properties : List PropertyInfo
  pub offset_in_item : ℤ
  pub element_name : String

abbrev pub sum_sizes : List PropertyInfo → ℤ → ℤ
sum_sizes [] acc = acc
sum_sizes (p ∷ ps) acc = sum_sizes ps (acc +ℤ info_size p)

abbrev pub element_size : ElementInfo → ℤ
element_size e = sum_sizes e.properties (pos 0)

-- `std::vector<bool>(size, false)`, which throws for a size that is negative.
abbrev pub new_bytes : ℤ → Outcome (List Bool)
new_bytes (pos n) = ok (replicate n false)
new_bytes (negsuc n) = fail bad_layout

-- The inner loop: `n` rounds from byte `i`.
unfoldable pub mark_bytes : ℕ → ℤ → List Bool → Outcome (List Bool)
mark_bytes zero i bytes = ok bytes
mark_bytes (suc n) i bytes = do
  check (ltb (to_size i) (length bytes) && leb_ℤ (pos 0) i) bad_layout
  seen ← require (get_elem? bytes (to_size i)) bad_layout
  check (not seen) bad_layout
  mark_bytes n (add_ℕ i 1) (set bytes (to_size i) true)

unfoldable pub mark_properties : List PropertyInfo → List Bool → Outcome (List Bool)
mark_properties [] bytes = ok bytes
mark_properties (p ∷ ps) bytes = do
  bytes' ← mark_bytes (pos_part (info_size p)) p.offset_in_elem bytes
  mark_properties ps bytes'

abbrev pub all_true : List Bool → Bool
all_true [] = true
all_true (b ∷ bs) = b && all_true bs

unfoldable pub check_memory_layout : ElementInfo → Outcome (Unit {0})
check_memory_layout e = do
  bytes ← new_bytes (element_size e)
  bytes' ← mark_properties e.properties bytes
  check (all_true bytes') bad_layout

abbrev pub find_property : String → List PropertyInfo → Option PropertyInfo
find_property name [] = none
find_property name (p ∷ ps) =
    if same_name p.property_name name then some p else find_property name ps

abbrev pub is_some {ℓ} : {A : Type ℓ} → Option A → Bool
is_some none = false
is_some (some a) = true

-- `ElementInfo::HasProperty` and `ElementInfo::GetProperty`
abbrev pub element_has_property : ElementInfo → String → Bool
element_has_property e name = is_some (find_property name e.properties)

abbrev pub get_property : ElementInfo → String → Outcome PropertyInfo
get_property e name = do
  check (element_has_property e name) missing_name
  require (find_property name e.properties) missing_name

-- A `std::map` from names: its entries in the order of the names.
abbrev pub NameMap {ℓ} : Type ℓ → Type ℓ
NameMap V = List (String × V)

module _ {ℓ} {V : Type ℓ} where
  abbrev pub find_name : String → NameMap V → Option V
  find_name name [] = none
  find_name name ((key, v) ∷ entries) =
      if same_name key name then some v else find_name name entries

  abbrev pub put_name : String → V → NameMap V → NameMap V
  put_name name v [] = (name, v) ∷ []
  put_name name v ((key, old) ∷ entries) = elim (compare name key) [
    | Ordering.lt ↦ (name, v) ∷ (key, old) ∷ entries
    | Ordering.eq ↦ (name, v) ∷ entries
    | Ordering.gt ↦ (key, old) ∷ put_name name v entries
  ]

  abbrev pub erase_name : String → NameMap V → NameMap V
  erase_name name [] = []
  erase_name name ((key, v) ∷ entries) =
      if same_name key name then entries else (key, v) ∷ erase_name name entries

pub record Builder : Type 0 where
  pub item_size : ℤ
  pub element_infos : NameMap ElementInfo

pub record ItemSchema : Type 0 where
  pub element_infos : NameMap ElementInfo
  pub item_size : ℤ

abbrev pub new_builder : ℤ → Builder
new_builder size = record { item_size = size; element_infos = [] }

abbrev pub get_builder_element : Builder → String → Outcome ElementInfo
get_builder_element b name = require (find_name name b.element_infos) missing_name

abbrev pub set_item_size : ℤ → Builder → Builder
set_item_size size b = record b { item_size = size }

abbrev pub add_element : String → ℤ → Builder → Builder
add_element name offset b = record b {
  element_infos =
      put_name name (record { properties = []; offset_in_item = offset; element_name = name })
        b.element_infos;
}

abbrev pub remove_element : String → Builder → Builder
remove_element name b =
    if is_some (find_name name b.element_infos)
    then record b { element_infos = erase_name name b.element_infos }
    else b

abbrev pub add_property : String → String → PropertyType → ℤ → ℤ → Builder → Outcome Builder
add_property element name ptype offset dim b = do
  e ← require (find_name element b.element_infos) missing_name
  let p : PropertyInfo = record {
    dimension = dim;
    offset_in_elem = offset;
    type = ptype;
    property_name = name;
  }
  ok (record b {
    element_infos =
        put_name element (record e { properties = e.properties ++ p ∷ [] }) b.element_infos;
  })

abbrev pub add_scalar_property :
    Bool → ScalarType → String → String → ℤ → ℤ → Builder → Outcome Builder
add_scalar_property wide scalar element name offset dim b = do
  ptype ← static_property_type wide scalar
  add_property element name ptype offset dim b

-- The loop of `Build` over the elements.
unfoldable pub check_elements : ℤ → NameMap ElementInfo → Outcome (Unit {0})
check_elements size [] = ok tt
check_elements size ((name, e) ∷ entries) = do
  check_memory_layout e
  check (leb_ℤ (e.offset_in_item +ℤ element_size e) size) bad_layout
  check_elements size entries

unfoldable pub build : Builder → Outcome ItemSchema
build b = do
  check (ltb_ℤ (pos 0) b.item_size) bad_layout
  check_elements b.item_size b.element_infos
  ok (record { element_infos = b.element_infos; item_size = b.item_size })

abbrev pub get_builder : ItemSchema → Builder
get_builder s = record { item_size = s.item_size; element_infos = s.element_infos }

abbrev pub schema_has_element : ItemSchema → String → Bool
schema_has_element s name = is_some (find_name name s.element_infos)

-- `std::map::at` throws where the name is missing.
abbrev pub get_element_info : ItemSchema → String → Outcome ElementInfo
get_element_info s name = require (find_name name s.element_infos) missing_name

abbrev pub get_element_names : ItemSchema → List String
get_element_names s = map (λ (name, e). name) s.element_infos

abbrev pub schema_has_property : ItemSchema → String → String → Bool
schema_has_property s element name = elim (find_name element s.element_infos) [
  | none ↦ false
  | some e ↦ element_has_property e name
]

abbrev pub get_property_info : ItemSchema → String → String → Outcome PropertyInfo
get_property_info s element name = do e ← get_element_info s element; get_property e name

abbrev pub sum_elements : NameMap ElementInfo → ℤ → ℤ
sum_elements [] acc = acc
sum_elements ((name, e) ∷ entries) acc = sum_elements entries (acc +ℤ element_size e)

abbrev pub get_total_element_size : ItemSchema → ℤ
get_total_element_size s = sum_elements s.element_infos (pos 0)
