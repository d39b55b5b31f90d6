-- ===== src/Datasets/Catalog.antt =====
-- `Dataset` (include/ct_icp/dataset.h, src/ct_icp/dataset.cpp): sequences by their names. A sequence is
-- known by its information and by two operations, since a dataset is made of sequences of any kind.
use Prim.Native.String.{String}
use text.Mathlib.Text.{◌==◌ as same_name}
use ct_icp_comment.Common.{
  ℕ, zero, suc, ◌+◌, ◌==◌, Bool, true, false, not, ◌&&◌, ◌||◌, Option, none, some, List, [], ◌∷◌,
  ◌++◌, map, length, get_elem?, if◌then◌else◌, ℤ, pos, to_size, Outcome, ok, fail, check, require,
  ◌>>=◌, ◌>>◌, missing_name, bad_index,
}
use ct_icp_comment.Buffers.Schema.{NameMap, find_name, put_name, is_some}
use ct_icp_comment.Datasets.{SequenceInfo}
pub mod Lookup

pub record Dataset (S : Type 0) : Type 0 where
  pub dataset_sequences : List S
  pub sequence_infos : List SequenceInfo
  pub map_seqname_to_id : NameMap ℕ

-- `ADatasetSequence` as a dataset sees it: its information, its ground truth, `SetInitFrame` and
-- `SetMaxNumFrames`
pub record Sequences (S Q : Type 0) : Type 0 where
  pub get_info : S → SequenceInfo
  pub ground_truth : S → Option (List Q)
  pub set_init_frame : ℤ → S → Outcome S
  pub set_max_num_frames : ℤ → S → S

pub record SequenceOptions : Type 0 where
  pub option_name : String
  pub start_frame_id : ℤ
  pub max_num_frames : ℤ

-- The loop of the constructor: the ids of the names, where a later sequence replaces an earlier one of
-- its name, and the ids in the information
unfoldable pub name_ids : ℕ → List SequenceInfo → NameMap ℕ → NameMap ℕ
name_ids i [] ids = ids
name_ids i (info ∷ infos) ids = name_ids (i + 1) infos (put_name info.sequence_name i ids)

unfoldable pub number_infos : ℕ → List SequenceInfo → List SequenceInfo
number_infos i [] = []
number_infos i (info ∷ infos) = record info { sequence_id = pos i } ∷ number_infos (i + 1) infos

-- `AllSequenceInfoWithGT`
unfoldable pub infos_with_ground_truth : List SequenceInfo → List SequenceInfo
infos_with_ground_truth [] = []
infos_with_ground_truth (info ∷ infos) =
    if info.with_ground_truth
    then info ∷ infos_with_ground_truth infos
    else infos_with_ground_truth infos

abbrev pub has_named_ground_truth : String → List SequenceInfo → Bool
has_named_ground_truth name [] = false
has_named_ground_truth name (info ∷ infos) =
    (same_name info.sequence_name name && info.with_ground_truth)
    || has_named_ground_truth name infos

-- `emplace` keeps the first option of a name.
unfoldable pub option_ids : ℕ → List SequenceOptions → NameMap ℕ → NameMap ℕ
option_ids i [] ids = ids
option_ids i (o ∷ os) ids =
    option_ids (i + 1) os
      (if is_some (find_name o.option_name ids) then ids else put_name o.option_name i ids)

module _ {S : Type 0} where
  abbrev pub new_dataset : List S → List SequenceInfo → Dataset S
  new_dataset sequences infos = record {
    dataset_sequences = sequences;
    sequence_infos = number_infos 0 infos;
    map_seqname_to_id = name_ids 0 infos [];
  }

  -- `at` throws out of range
  unfoldable pub sequences_at : List S → List SequenceInfo → Outcome (List S)
  sequences_at sequences [] = ok []
  sequences_at sequences (info ∷ infos) = do
    s ← require (get_elem? sequences (to_size info.sequence_id)) bad_index
    rest ← sequences_at sequences infos
    ok (s ∷ rest)

  unfoldable pub all_sequences_with_ground_truth : Dataset S → Outcome (List S)
  all_sequences_with_ground_truth d =
      sequences_at d.dataset_sequences (infos_with_ground_truth d.sequence_infos)

  unfoldable pub has_sequence : String → Dataset S → Bool
  has_sequence name d = is_some (find_name name d.map_seqname_to_id)

  unfoldable pub get_sequence_info : String → Dataset S → Outcome SequenceInfo
  get_sequence_info name d = do
    check (has_sequence name d) missing_name
    id ← require (find_name name d.map_seqname_to_id) missing_name
    require (get_elem? d.sequence_infos id) bad_index

  unfoldable pub get_sequence : String → Dataset S → Outcome S
  get_sequence name d = do
    check (has_sequence name d) missing_name
    id ← require (find_name name d.map_seqname_to_id) missing_name
    require (get_elem? d.dataset_sequences id) bad_index

  unfoldable pub has_ground_truth : String → Dataset S → Bool
  has_ground_truth name d = has_named_ground_truth name d.sequence_infos

module _ {S Q : Type 0} (q : Sequences S Q) where
  unfoldable pub build_custom_dataset : List S → Dataset S
  build_custom_dataset sequences = new_dataset sequences (map q.get_info sequences)

  unfoldable pub get_ground_truth : String → Dataset S → Outcome (List Q)
  get_ground_truth name d = do
    check (has_sequence name d) missing_name
    id ← require (find_name name d.map_seqname_to_id) missing_name
    s ← require (get_elem? d.dataset_sequences id) bad_index
    require (q.ground_truth s) missing_name

  -- The sequences that are found on the disk, with the options of those that are asked for
  unfoldable pub select_sequences : List SequenceOptions → NameMap ℕ → List S → Outcome (List S)
  select_sequences options ids [] = ok []
  select_sequences options ids (s ∷ found) = elim (find_name (q.get_info s).sequence_name ids) [
    | none ↦ select_sequences options ids found
    | some id ↦ do
      o ← require (get_elem? options id) bad_index
      started ← q.set_init_frame o.start_frame_id s
      rest ← select_sequences options ids found
      ok (q.set_max_num_frames o.max_num_frames started ∷ rest)
  ]

  -- `LoadDataset`, from the sequences that it finds on the disk
  unfoldable pub load_dataset : Bool → List SequenceOptions → List S → Outcome (Dataset S)
  load_dataset use_all_datasets options found =
      if use_all_datasets then ok (new_dataset found (map q.get_info found)) else do
        let ids = option_ids 0 options []
        sequences ← select_sequences options ids found
        check (length ids == length sequences) missing_name
        ok (new_dataset sequences (map q.get_info sequences))
