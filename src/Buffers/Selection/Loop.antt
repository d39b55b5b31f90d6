-- ===== src/Buffers/Selection/Loop.antt =====
-- The inner loop of `SelectItems` (src/SlamCore/data/buffer_collection.cxx).
use ct_icp_comment.Common.{
  ok, ℕ, suc, ◌+◌, ◌*◌, ◌≤◌, ◌<◌, ◌≡◌, refl, sym, ap, ◌∙◌, true, List, [], ◌∷◌, ◌++◌, map,
  append_assoc, append-nil, arith, ltb, length, take, drop, All, Succeeds, Succeeds-map,
}
use native.Mathlib.Nat.{mul-le-mul_right}
use ct_icp_comment.Buffers.Buffer.{ItemBuffer, num_items, buffer_bytes}
use ct_icp_comment.Buffers.Bytes.{read_bytes_lem, write_bytes_lem, length-take, length-drop, join}
use ct_icp_comment.Buffers.Contents.{IsBuffer, num_items-within}
use ct_icp_comment.Buffers.Select.{copy_selected}

-- The bytes of the item `i`.
abbrev pub item_at : ItemBuffer → ℕ → List ℕ
item_at b i = take b.item_info.item_size (drop (i * b.item_info.item_size) (buffer_bytes b))

pub length-item_at :
    (b : ItemBuffer) (i : ℕ)
    → IsBuffer b
    → i < num_items b
    → length (item_at b i) ≡ b.item_info.item_size
length-item_at b i v h =
    let size = b.item_info.item_size in
    let end : i * size + size ≤ num_items b * size = omega (arith, mul-le-mul_right size h) in
    let all = num_items-within b v in
    length-take size (drop (i * size) (buffer_bytes b))
      (omega (arith, length-drop (i * size) (buffer_bytes b) (omega arith)))

-- What the inner loop does from the item `k` of the destination on: the chosen items stand one after
-- another there.
pub record Selects (indices : List ℕ) (k : ℕ) (b : ItemBuffer) (dest dest' : List ℕ) : Type 0 where
  pub kept : length dest' ≡ length dest
  pub front :
      take ((k + length indices) * b.item_info.item_size) dest'
      ≡ take (k * b.item_info.item_size) dest ++ join (map (item_at b) indices)

Selects-step :
    (i : ℕ) (indices : List ℕ) (k : ℕ) (b : ItemBuffer) (dest dest' dest'' : List ℕ)
    → length (item_at b i) ≡ b.item_info.item_size
    → length dest' ≡ length dest
    → take (k * b.item_info.item_size + length (item_at b i)) dest'
      ≡ take (k * b.item_info.item_size) dest ++ item_at b i
    → Selects indices (k + 1) b dest' dest''
    → Selects (i ∷ indices) k b dest dest''
Selects-step i indices k b dest dest' dest'' e same front s =
    let size = b.item_info.item_size in
    let rest = join (map (item_at b) indices) in
    let all : (k + suc (length indices)) * size ≡ (k + 1 + length indices) * size =
      ap (λ n. n * size) (omega arith) in
    let one : (k + 1) * size ≡ k * size + length (item_at b i) = omega (arith, e) in
    record {
      kept = s.kept ∙ same;
      front =
          ap (λ n. take n dest'') all
          ∙ s.front
          ∙ ap (λ xs. xs ++ rest) (ap (λ n. take n dest') one ∙ front)
          ∙ append_assoc (take (k * size) dest) (item_at b i) rest;
    }

pub copy_selected_lem :
    (indices : List ℕ) (k : ℕ) (b : ItemBuffer) (dest : List ℕ)
    → IsBuffer b
    → All (λ i. i < num_items b) indices
    → (k + length indices) * b.item_info.item_size ≤ length dest
    → Succeeds (Selects indices k b dest) (copy_selected (ok (num_items b)) indices k b dest)
unfolding copy_selected
copy_selected_lem [] k b dest v u h =
    let none_left : (k + 0) * b.item_info.item_size ≡ k * b.item_info.item_size =
      ap (λ n. n * b.item_info.item_size) (omega arith) in
    record { kept = refl; front = ap (λ n. take n dest) none_left ∙ sym (append-nil _) }
copy_selected_lem (i ∷ indices) k b dest v (lt, u) h =
    let size = b.item_info.item_size in
    let passes : ltb i (num_items b) ≡ true = ground arith in
    let end : i * size + size ≤ num_items b * size = omega (arith, mul-le-mul_right size lt) in
    let whole = length-item_at b i v lt in
    let first : k + 1 ≤ k + length (i ∷ indices) = omega arith in
    let room : k * size + length (item_at b i) ≤ length dest =
      omega (arith, mul-le-mul_right size first, whole) in
    let (dest', written, same, front) = write_bytes_lem (k * size) (item_at b i) dest room in
    let next : (k + 1 + length indices) * size ≡ (k + length (i ∷ indices)) * size =
      ap (λ n. n * size) (omega arith) in
    rw
      (
        passes,
        read_bytes_lem (i * size) size (buffer_bytes b) (omega (arith, num_items-within b v)),
        written,
      )
      (Succeeds-map (Selects indices (k + 1) b dest') (Selects (i ∷ indices) k b dest) _
        (copy_selected_lem indices (k + 1) b dest' v u (omega (arith, next)))
        (λ dest'' s. Selects-step i indices k b dest dest' dest'' whole same front s))
