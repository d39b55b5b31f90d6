-- ===== src/Buffers/Bounds.antt =====
-- The bytes that a view reaches, from the checks of `ItemSchema::Builder::Build`.
use ct_icp_comment.Common.{ℕ, ◌≡◌, true, Option, none, some, ℤ, pos, leb_ℤ, ◌+ℤ◌, ok}
use Prim.Native.String.{String}
use text.Mathlib.Text.{◌==◌ as same_name}
use ct_icp_comment.Buffers.Schema.{ElementInfo, element_size, Builder, build}
use ct_icp_comment.Buffers.Layout.{Tiles}
use ct_icp_comment.Buffers.Buffer.{ItemBuffer}
use ct_icp_comment.Buffers.Contents.{IsBuffer}

-- An element whose properties tile its bytes, and that ends within the item.
abbrev pub Fits : ℤ → ElementInfo → Type 0
Fits size e =
    (n : ℕ) × (element_size e ≡ pos n)
    × Tiles e.properties n
    × (leb_ℤ (e.offset_in_item +ℤ pos n) size ≡ true)

-- A buffer with items in their places, whose schema passed `Build` and has the size of its items.
pub record IsBuilt (b : ItemBuffer) : Type 0 where
  pub buffer : IsBuffer b
  pub builder : Builder
  pub built : build builder ≡ ok b.item_info.item_schema
  pub sized : b.item_info.item_schema.item_size ≡ pos b.item_info.item_size

abbrev pub IsBuiltOrNull : Option ItemBuffer → Type 0
IsBuiltOrNull none = Unit
IsBuiltOrNull (some b) = IsBuilt b
