-- ===== src/Datasets/Files.antt =====
-- `AFileSequence` (include/ct_icp/dataset.h, src/ct_icp/dataset.cpp).
use Prim.Native.String.{String}
use ct_icp_comment.Common.{
  ℕ, Bool, true, ◌&&◌, ◌||◌, Option, none, some, List, [], ltb, length, get_elem?, if◌then◌else◌, ℤ,
  pos, ltb_ℤ, to_size, ◌-ℤ◌, max_ℤ, min_ℤ, Outcome, ok, check, require, ◌>>=◌, ◌>>◌, bad_index,
  empty_frame, bad_index,
}
use ct_icp_comment.Datasets.{
  SequenceInfo, Frame, Clouds, SequenceState, new_state, start_at, advance, process_frame,
  set_max_num_frames,
}

pub record FileSequence (P G : Type 0) : Type 0 where
  pub state : SequenceState P
  pub root_dir_path : String
  pub file_names : Option (List String)
  pub file_pattern : Option (ℕ → String)
  pub full_sequence_size : ℕ
  pub ground_truth : Option G

module _ {P G : Type 0} where
  -- The constructor that takes a pattern
  unfoldable pub from_pattern : String → SequenceInfo → ℕ → (ℕ → String) → FileSequence P G
  from_pattern root info expected_size pattern = record {
    state = new_state (record info { sequence_size = pos expected_size });
    root_dir_path = root;
    file_names = none;
    file_pattern = some pattern;
    full_sequence_size = expected_size;
    ground_truth = none;
  }

  -- The constructor that takes names: room for them is reserved, and they are not added, before the
  -- size is taken and the list is sorted.
  unfoldable pub from_file_names :
      (List String → List String) → String → SequenceInfo → List String → FileSequence P G
  from_file_names sort root info filenames =
      let names : List String = [] in
      record {
        state = new_state info;
        root_dir_path = root;
        file_names = some (sort names);
        file_pattern = none;
        full_sequence_size = length names;
        ground_truth = none;
      }

  unfoldable pub has_next : FileSequence P G → Bool
  has_next s =
      ltb (to_size s.state.current_frame_id) s.full_sequence_size
      && (ltb_ℤ s.state.max_num_frames (pos 0)
          || ltb_ℤ (s.state.current_frame_id -ℤ s.state.init_frame_id) s.state.max_num_frames)

  unfoldable pub num_frames : FileSequence P G → ℕ
  num_frames s =
      let most = max_ℤ (pos s.full_sequence_size -ℤ s.state.init_frame_id) (pos 0) in
      to_size
        (if ltb_ℤ s.state.max_num_frames (pos 0) then most else min_ℤ most s.state.max_num_frames)

  abbrev pub with_state : SequenceState P → FileSequence P G → FileSequence P G
  with_state b s = record s { state = b }

  abbrev pub set_init_frame : ℤ → FileSequence P G → FileSequence P G
  set_init_frame i s = with_state (start_at i s.state) s

  -- `SetMaxNumFrames`
  abbrev pub limit : ℤ → FileSequence P G → FileSequence P G
  limit most s = with_state (set_max_num_frames most s.state) s

  unfoldable pub skip_frame : FileSequence P G → Outcome (FileSequence P G)
  skip_frame s = do check (has_next s) bad_index; ok (with_state (advance s.state) s)

module _ {T P Q G : Type 0} (c : Clouds T P Q G) where
  unfoldable pub set_ground_truth : List Q → FileSequence P G → Outcome (FileSequence P G)
  set_ground_truth qs s = do
    g ← c.create qs
    let b = s.state
    ok (record s {
      ground_truth = some g;
      state = record b { seq_info = record b.seq_info { with_ground_truth = true } };
    })

  unfoldable pub ground_truth_poses : FileSequence P G → Option (List Q)
  ground_truth_poses s = elim s.ground_truth [ none ↦ none | some g ↦ some (c.poses g) ]

  -- The names take precedence over the pattern, and `at` throws out of range.
  unfoldable pub file_path_of : FileSequence P G → ℕ → Outcome String
  file_path_of s index = elim s.file_names [
    | some names ↦ do
      name ← require (get_elem? names index) bad_index
      ok (c.join_path s.root_dir_path name)
    | none ↦ elim s.file_pattern [
      | some pattern ↦ ok (c.join_path s.root_dir_path (pattern index))
      | none ↦ ok ""
    ]
  ]

  -- The poses of the ground truth at the bounds of the timestamps
  unfoldable pub with_ground_truth_poses : Option G → Frame T P Q → Outcome (Frame T P Q)
  with_ground_truth_poses none f = ok f
  with_ground_truth_poses (some g) f = elim (c.timestamps f.pointcloud) [
    | none ↦ ok f
    | some ts ↦ do
      b ← require (c.minmax_element ts) empty_frame
      first ← c.interpolate_pose g b.0
      last ← c.interpolate_pose g b.1
      ok (record f { begin_pose = some first; end_pose = some last })
  ]

  unfoldable pub get_unfiltered_frame : FileSequence P G → ℕ → Outcome (Frame T P Q)
  get_unfiltered_frame s index = do
    path ← file_path_of s index
    frame ← c.read_frame path
    cloud ← c.register_fields frame.pointcloud
    let indexed = if c.has_index_frame cloud then cloud else c.add_index_frame cloud
    with_ground_truth_poses s.ground_truth (record frame { file_path = path; pointcloud = indexed })

  unfoldable pub get_frame : FileSequence P G → ℕ → Outcome (Frame T P Q)
  get_frame s index = do frame ← get_unfiltered_frame s index; process_frame c s.state frame

  unfoldable pub next_unfiltered_frame : FileSequence P G → Outcome (Frame T P Q × FileSequence P G)
  next_unfiltered_frame s = do
    frame ← get_unfiltered_frame s (to_size s.state.current_frame_id)
    ok (frame, with_state (advance s.state) s)

  unfoldable pub next_frame : FileSequence P G → Outcome (Frame T P Q × FileSequence P G)
  next_frame s = do
    r ← next_unfiltered_frame s
    frame ← process_frame c r.1.state r.0
    ok (frame, r.1)
