-- ===== src/Datasets/Synthetic.antt =====
-- `SyntheticSequence` (include/ct_icp/dataset.h, src/ct_icp/dataset.cpp). The sensor is an operation of
-- `Clouds`, with its options fixed.
use ct_icp_comment.Common.{
  Double, ℕ, ◌+◌, ◌-◌, ◌<◌, ◌≡◌, refl, Bool, true, false, ◌&&◌, ◌||◌, some, List, ltb, length,
  get_elem?, if◌then◌else◌, ℤ, pos, ltb_ℤ, to_size, ◌-ℤ◌, max_ℤ, min_ℤ, Outcome, ok, check, require,
  ◌>>=◌, ◌>>◌, arith, Outcome-cases, inl, inr, bad_index, wrong_timestamp,
}
use ct_icp_comment.Datasets.{
  SequenceInfo, Frame, Clouds, SequenceState, new_state, start_at, advance, process_frame, drain,
  get_frames,
}
use ct_icp_comment.Datasets.Draining.{drain_states}

pub record SyntheticSequence (P Q : Type 0) : Type 0 where
  pub state : SequenceState P
  pub ground_truth_poses : List Q

-- `a - b` of the unsigned 64 bit integers
abbrev pub size_minus : ℕ → ℕ → ℕ
size_minus a b = if ltb a b then a + 0x1_0000_0000_0000_0000 - b else a - b

module _ {P Q : Type 0} where
  unfoldable pub new_sequence : SequenceInfo → List Q → SyntheticSequence P Q
  new_sequence info poses =
      let s : SequenceState P = new_state info in
      let possible = max_ℤ (pos (length poses) -ℤ s.init_frame_id) (pos 0) in
      let size =
        if ltb_ℤ s.max_num_frames (pos 0) then possible else min_ℤ possible s.max_num_frames in
      record {
        state = record s {
          seq_info = record info { sequence_size = size; with_ground_truth = true };
        };
        ground_truth_poses = poses;
      }

  unfoldable pub has_next : SyntheticSequence P Q → Bool
  has_next s =
      ltb (to_size s.state.current_frame_id) (size_minus (length s.ground_truth_poses) 1)
      || (ltb_ℤ (pos 0) s.state.max_num_frames
          && ltb_ℤ (s.state.current_frame_id -ℤ s.state.init_frame_id) s.state.max_num_frames)

  unfoldable pub num_frames : SyntheticSequence P Q → ℕ
  num_frames s = to_size s.state.seq_info.sequence_size

  unfoldable pub set_init_frame : ℤ → SyntheticSequence P Q → Outcome (SyntheticSequence P Q)
  set_init_frame i s = do
    check (ltb (to_size i) (size_minus (length s.ground_truth_poses) 1)) bad_index
    ok (record s { state = start_at i s.state })

size_minus_one : (n j : ℕ) → j + 1 < n → ltb j (size_minus n 1) ≡ true
size_minus_one n j h = ground arith

size_minus_end : (n i : ℕ) → i + 1 < n → ltb (i + (n - 1 - i)) (size_minus n 1) ≡ false
size_minus_end n i h = ground arith

all_possible : (n : ℕ) → to_size (max_ℤ (pos n -ℤ pos 0) (pos 0)) ≡ n
all_possible n = ground arith

module _ {T P Q G : Type 0} ⦃d : Double T⦄ (c : Clouds T P Q G) where
  unfoldable pub get_unfiltered_frame : SyntheticSequence P Q → ℕ → Outcome (Frame T P Q)
  get_unfiltered_frame s index = do
    check
        (ltb (size_minus index (to_size s.state.init_frame_id))
          (to_size (max_ℤ s.state.max_num_frames (pos (length s.ground_truth_poses) -ℤ pos 1))))
        bad_index
    first ← require (get_elem? s.ground_truth_poses index) bad_index
    last ← require (get_elem? s.ground_truth_poses (index + 1)) bad_index
    check (d.le (c.dest_timestamp first) (c.dest_timestamp last)) wrong_timestamp
    ok (record {
      pointcloud = c.generate_frame (c.dest_timestamp first) (c.dest_timestamp last) index;
      timestamp_min = c.unset_timestamp;
      timestamp_max = c.unset_timestamp;
      begin_pose = some first;
      end_pose = some last;
      file_path = "";
    })

  unfoldable pub get_frame : SyntheticSequence P Q → ℕ → Outcome (Frame T P Q)
  get_frame s index = do frame ← get_unfiltered_frame s index; process_frame c s.state frame

  unfoldable pub next_frame : SyntheticSequence P Q → Outcome (Frame T P Q × SyntheticSequence P Q)
  next_frame s = do
    raw ← get_unfiltered_frame s (to_size s.state.current_frame_id)
    let after = record s { state = advance s.state }
    frame ← process_frame c after.state raw
    ok (frame, after)

  -- The sequence at the frame `j` of a loop
  abbrev state_at : SyntheticSequence P Q → ℕ → SyntheticSequence P Q
  state_at s j = let b = s.state in record s { state = record b { current_frame_id = pos j } }

  unfiltered-at :
      (s : SyntheticSequence P Q) (j : ℕ)
      → get_unfiltered_frame (state_at s j) j ≡ get_unfiltered_frame s j
  unfolding get_unfiltered_frame
  unfiltered-at s j = refl

  next_frame-at :
      (s : SyntheticSequence P Q) (j : ℕ)
      → next_frame (state_at s j) ≡ (get_frame s j >>= λ f. ok (f, state_at s (j + 1)))
  unfolding next_frame get_frame process_frame
  next_frame-at s j = elim (Outcome-cases (get_unfiltered_frame s j)) [
    | inl (f, e) ↦ rw (unfiltered-at s j, e) refl
    | inr (why, e) ↦ rw (unfiltered-at s j, e) refl
  ]

  -- SetInitFrame of a new synthetic sequence takes every frame that has a pose after it, and a loop
  -- from there with more fuel than poses ends after as many frames as there are poses after the first
  -- frame, with the result of GetFrame at their indices: the frames, or the first failure. NumFrames is
  -- the number of all poses.
  pub drain-intervals :
      (info : SequenceInfo) (poses : List Q) (i fuel : ℕ)
      → i + 1 < length poses
      → length poses < fuel
      → let s = new_sequence {P = P} info poses in
        let started = record s { state = start_at (pos i) s.state } in
        (set_init_frame (pos i) s ≡ ok started)
        × (drain has_next next_frame fuel started
            ≡ some (get_frames (get_frame started) i (length poses - 1 - i)))
        × (num_frames started ≡ length poses)
  unfolding new_sequence set_init_frame num_frames has_next
  drain-intervals info poses i fuel inside enough =
      let s = new_sequence {P = P} info poses in
      let started = record s { state = start_at (pos i) s.state } in
      (
        rw (size_minus_one (length poses) i inside) refl,
        drain_states has_next next_frame (state_at started) (get_frame started) fuel
            (length poses - 1 - i) i (omega arith)
            (λ j lo hi. rw (size_minus_one (length poses) j (omega arith), has_next) refl)
            (rw (size_minus_end (length poses) i inside, has_next) refl) (next_frame-at started),
        all_possible (length poses),
      )
