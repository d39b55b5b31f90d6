-- ===== src/Datasets.antt =====
-- Sequences of frames (include/ct_icp/dataset.h, src/ct_icp/dataset.cpp): `ADatasetSequence`,
-- `AFileSequence` and `SyntheticSequence`. The point clouds, the files and the ground truth are an
-- argument, `Clouds`. Frame ids and the sizes of sequences do not exceed an `int`; the inertial data and
-- the offset of a frame are left out.
use Prim.Native.String.{String}
use ct_icp_comment.Common.{
  Double, ℕ, zero, suc, ◌+◌, ◌-◌, ◌*◌, ◌%◌, Bool, true, false, not, ◌&&◌, ◌||◌, Option, none, some,
  List, [], ◌∷◌, ltb, length, get_elem?, if◌then◌else◌, ℤ, pos, negsuc, ltb_ℤ, to_size, add_ℕ, diff,
  ◌-ℤ◌, max_ℤ, min_ℤ, Outcome, ok, fail, check, require, ◌>>=◌, ◌>>◌, bad_index, wrong_frame,
  empty_frame, wrong_timestamp,
}
pub mod Files
pub mod Draining
pub mod Synthetic
pub mod Catalog

pub record SequenceInfo : Type 0 where
  pub sequence_name : String
  pub label : String
  pub sequence_id : ℤ
  pub sequence_size : ℤ
  pub with_ground_truth : Bool

-- `LidarIMUFrame`, with times in `T`, clouds in `P` and poses in `Q`
pub record Frame (T P Q : Type 0) : Type 0 where
  pub pointcloud : P
  pub timestamp_min : T
  pub timestamp_max : T
  pub begin_pose : Option Q
  pub end_pose : Option Q
  pub file_path : String

-- The operations of the point clouds, the standard library, the files, the ground truth `G` and the
-- sensor that the sequences call. `timestamps` is `none` on a cloud without timestamps.
pub record Clouds (T P Q G : Type 0) : Type 0 where
  pub register_fields : P → Outcome P
  pub timestamps : P → Option (List T)
  pub has_index_frame : P → Bool
  pub add_index_frame : P → P
  pub minmax_element : List T → Option (T × T)
  pub join_path : String → String → String
  pub read_frame : String → Outcome (Frame T P Q)
  pub create : List Q → Outcome G
  pub poses : G → List Q
  pub interpolate_pose : G → T → Outcome Q
  pub dest_timestamp : Q → T
  pub unset_timestamp : T
  pub generate_frame : T → T → ℕ → P

-- The fields of `ADatasetSequence`
pub record SequenceState (P : Type 0) : Type 0 where
  pub seq_info : SequenceInfo
  pub max_num_frames : ℤ
  pub init_frame_id : ℤ
  pub current_frame_id : ℤ
  pub filter : Option (P → P)

abbrev pub new_state : {P : Type 0} → SequenceInfo → SequenceState P
new_state info = record {
  seq_info = info;
  max_num_frames = negsuc 0;
  init_frame_id = pos 0;
  current_frame_id = pos 0;
  filter = none;
}

abbrev pub set_max_num_frames : {P : Type 0} → ℤ → SequenceState P → SequenceState P
set_max_num_frames n s = record s { max_num_frames = n }

abbrev pub set_filter : {P : Type 0} → (P → P) → SequenceState P → SequenceState P
set_filter f s = record s { filter = some f }

abbrev pub clear_filter : {P : Type 0} → SequenceState P → SequenceState P
clear_filter s = record s { filter = none }

abbrev pub start_at : {P : Type 0} → ℤ → SequenceState P → SequenceState P
start_at i s = record s { init_frame_id = i; current_frame_id = i }

abbrev pub advance : {P : Type 0} → SequenceState P → SequenceState P
advance s = record s { current_frame_id = add_ℕ s.current_frame_id 1 }

module _ {T P Q G : Type 0} (c : Clouds T P Q G) where
  -- The bounds of the timestamps; the iterators of an empty range cannot be read.
  unfoldable pub with_bounds : Frame T P Q → Outcome (Frame T P Q)
  with_bounds f = elim (c.timestamps f.pointcloud) [
    | none ↦ ok f
    | some ts ↦ do
      b ← require (c.minmax_element ts) empty_frame
      ok (record f { timestamp_min = b.0; timestamp_max = b.1 })
  ]

  abbrev pub apply_filter : Option (P → P) → P → P
  apply_filter none p = p
  apply_filter (some f) p = f p

  unfoldable pub process_frame : SequenceState P → Frame T P Q → Outcome (Frame T P Q)
  process_frame s f = do
    p ← c.register_fields f.pointcloud
    with_bounds (record f { pointcloud = apply_filter s.filter p })

-- The loop of a client over the frames, with fuel: `none` where the fuel is used up.
module _ {F S : Type 0} (has : S → Bool) (next : S → Outcome (F × S)) where
  unfoldable pub drain : ℕ → S → Option (Outcome (List (F)))
  drain zero s = none
  drain (suc fuel) s = elim (has s) [
    | false ↦ some (ok [])
    | true ↦ elim (next s) [
      | fail e ↦ some (fail e)
      | ok r ↦ elim (drain fuel r.1) [
        | none ↦ none
        | some frames ↦ some (do fs ← frames; ok (r.0 ∷ fs))
      ]
    ]
  ]

-- `n` frames by their indices, from `i` on
unfoldable pub get_frames : {F : Type 0} → (ℕ → Outcome (F)) → ℕ → ℕ → Outcome (List (F))
get_frames get i zero = ok []
get_frames get i (suc n) = do f ← get i; fs ← get_frames get (i + 1) n; ok (f ∷ fs)
