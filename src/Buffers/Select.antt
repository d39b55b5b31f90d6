-- ===== src/Buffers/Select.antt =====
-- `SelectItems`, `Append` and `HasSameSchema` of src/SlamCore/data/buffer_collection.cxx. Their loops
-- run over two collections at once, from the first buffers on.
use ct_icp_comment.Common.{
  ℕ, zero, suc, ◌+◌, ◌*◌, Bool, true, false, some, List, [], ◌∷◌, ltb, ◌==◌, if◌then◌else◌, length,
  Outcome, ok, fail, check, ◌>>=◌, ◌>>◌, bad_layout, bad_index, not_resizable,
}
use ct_icp_comment.Common.{null_buffer}
use ct_icp_comment.Buffers.Buffer.{
  ItemBuffer, buffer_bytes, read_bytes, write_bytes, vector_data, array_data, wrapped_data, Storage,
}
use ct_icp_comment.Buffers.Collection.{
  BufferCollection, collection_is_resizable, num_items_per_buffer, num_items_in_schema,
  resize_collection, empty_copy,
}

-- A write through `view_data_ptr`.
abbrev pub set_bytes : List ℕ → Storage → Storage
set_bytes bytes (vector_data old) = vector_data bytes
set_bytes bytes (array_data old allocated capacity) = array_data bytes allocated capacity
set_bytes bytes (wrapped_data old n) = wrapped_data bytes n

abbrev pub with_bytes : List ℕ → ItemBuffer → ItemBuffer
with_bytes bytes b = record b { storage = set_bytes bytes b.storage }

-- The inner loop of `SelectItems`, from the item `item_idx` of the destination on. `NumItemsPerBuffer`
-- is called in each round.
unfoldable pub copy_selected : Outcome ℕ → List ℕ → ℕ → ItemBuffer → List ℕ → Outcome (List ℕ)
copy_selected limit [] item_idx source dest = ok dest
copy_selected limit (old_idx ∷ indices) item_idx source dest = do
  let size = source.item_info.item_size
  n ← limit
  check (ltb old_idx n) bad_index
  item ← read_bytes (old_idx * size) size (buffer_bytes source)
  dest' ← write_bytes (item_idx * size) item dest
  copy_selected limit indices (item_idx + 1) source dest'

-- The outer loop, `n` buffers.
unfoldable pub select_buffers :
    ℕ → Outcome ℕ → List ℕ → BufferCollection → BufferCollection → Outcome BufferCollection
select_buffers zero limit indices source dest = ok dest
select_buffers (suc n) limit indices (some s ∷ ss) (some d ∷ ds) = do
  bytes ← copy_selected limit indices 0 s (buffer_bytes d)
  ds' ← select_buffers n limit indices ss ds
  ok (some (with_bytes bytes d) ∷ ds')
select_buffers (suc n) limit indices _ _ = fail null_buffer

unfoldable pub select_items : List ℕ → BufferCollection → Outcome BufferCollection
select_items indices c = do
  empty ← empty_copy c
  dest ← resize_collection (length indices) empty
  select_buffers (num_items_in_schema c) (num_items_per_buffer c) indices c dest

-- The loop of `HasSameSchema`, `n` buffers.
unfoldable pub same_sizes : ℕ → BufferCollection → BufferCollection → Outcome Bool
same_sizes zero c other = ok true
same_sizes (suc n) (some b ∷ bs) (some o ∷ os) =
    if b.item_info.item_size == o.item_info.item_size then same_sizes n bs os else ok false
same_sizes (suc n) _ _ = fail null_buffer

unfoldable pub has_same_schema : BufferCollection → BufferCollection → Outcome Bool
has_same_schema c other =
    if num_items_in_schema other == num_items_in_schema c
    then same_sizes (num_items_in_schema other) c other
    else ok false

-- The loop of `Append`, `n` buffers.
unfoldable pub append_buffers :
    ℕ → ℕ → ℕ → BufferCollection → BufferCollection → Outcome BufferCollection
append_buffers zero old_size count c other = ok c
append_buffers (suc n) old_size count (some b ∷ bs) (some o ∷ os) = do
  source ← read_bytes 0 (count * o.item_info.item_size) (buffer_bytes o)
  bytes ← write_bytes (b.item_info.item_size * old_size) source (buffer_bytes b)
  bs' ← append_buffers n old_size count bs os
  ok (some (with_bytes bytes b) ∷ bs')
append_buffers (suc n) old_size count _ _ = fail null_buffer

unfoldable pub append : BufferCollection → BufferCollection → Outcome BufferCollection
append collection c = do
  resizable ← collection_is_resizable c
  check resizable not_resizable
  same ← has_same_schema c collection
  check same bad_layout
  old_size ← num_items_per_buffer c
  count ← num_items_per_buffer collection
  c' ← resize_collection (old_size + count) c
  append_buffers (num_items_in_schema c') old_size count c' collection
