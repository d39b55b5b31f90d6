-- ===== src/Datasets/Draining.antt =====
-- The frames of a file sequence (src/ct_icp/dataset.cpp) one after the other, against random access.
use Prim.Native.String.{String}
use ct_icp_comment.Common.{
  ℕ, zero, suc, ◌+◌, ◌-◌, ◌≤◌, ◌<◌, ◌≡◌, refl, subst, Bool, true, false, ◌&&◌, ◌||◌, some, List, [],
  ltb, if◌then◌else◌, ℤ, pos, negsuc, ltb_ℤ, to_size, ◌-ℤ◌, max_ℤ, min_ℤ, Outcome, ok, fail, ◌>>=◌,
  arith, Outcome-cases, inl, inr, bad_index,
}
use ct_icp_comment.Datasets.{SequenceInfo, Clouds, process_frame, drain, get_frames}
use ct_icp_comment.Datasets.Files.{
  FileSequence, has_next, num_frames, set_init_frame, get_frame, get_unfiltered_frame,
  next_unfiltered_frame, next_frame, limit, from_file_names, file_path_of,
}

-- A loop over numbered states takes the frames of their numbers.
pub drain_states :
    {F S : Type 0} (has : S → Bool) (next : S → Outcome (F × S)) (state : ℕ → S)
    (get : ℕ → Outcome F) (fuel k i : ℕ)
    → k < fuel
    → ((j : ℕ) → i ≤ j → j < i + k → has (state j) ≡ true)
    → has (state (i + k)) ≡ false
    → ((j : ℕ) → next (state j) ≡ (get j >>= λ f. ok (f, state (j + 1))))
    → drain has next fuel (state i) ≡ some (get_frames get i k)
unfolding drain get_frames
drain_states has next state get zero k i enough more stop step = ground arith
drain_states has next state get (suc fuel) zero i enough more stop step =
    let here : has (state i) ≡ false = subst (λ j. has (state j) ≡ false) (omega arith) stop in
    rw (here, drain) refl
drain_states has next state get (suc fuel) (suc k) i enough more stop step =
    let there : has (state (i + 1 + k)) ≡ false =
      subst (λ j. has (state j) ≡ false) (omega arith) stop in
    let rest =
      drain_states has next state get fuel k (i + 1) (omega arith)
        (λ j lo hi. more j (omega arith) (omega arith)) there step in
    elim (Outcome-cases (get i)) [
      | inl (f, e) ↦ rw (more i (omega arith) (omega arith), drain, step i, e, rest) refl
      | inr (why, e) ↦ rw (more i (omega arith) (omega arith), drain, step i, e) refl
    ]

-- The frames left from the frame `i` on
abbrev left : ℕ → ℕ → ℤ → ℕ
left full i (negsuc n) = full - i
left full i (pos m) = if ltb m (full - i) then m else full - i

left_lem :
    (full i : ℕ) (most : ℤ)
    → (let possible = max_ℤ (pos full -ℤ pos i) (pos 0) in
        to_size (if ltb_ℤ most (pos 0) then possible else min_ℤ possible most))
      ≡ left full i most
left_lem full i (negsuc n) = ground arith
left_lem full i (pos m) = ground arith

has_left :
    (full i j : ℕ) (most : ℤ)
    → i ≤ j
    → j < i + left full i most
    → (ltb j full && (ltb_ℤ most (pos 0) || ltb_ℤ (pos j -ℤ pos i) most)) ≡ true
has_left full i j (negsuc n) lo hi = ground arith
has_left full i j (pos m) lo hi = ground arith

none_left :
    (full i : ℕ) (most : ℤ)
    → (ltb (i + left full i most) full
        && (ltb_ℤ most (pos 0) || ltb_ℤ (pos (i + left full i most) -ℤ pos i) most))
      ≡ false
none_left full i (negsuc n) = ground arith
none_left full i (pos m) = ground arith

module _ {P G : Type 0} where
  -- The sequence at the frame `j` of a loop
  abbrev state_at : FileSequence P G → ℕ → FileSequence P G
  state_at s j = let b = s.state in record s { state = record b { current_frame_id = pos j } }

  has_next_below :
      (s : FileSequence P G) (i j : ℕ)
      → i ≤ j
      → j < i + num_frames (set_init_frame (pos i) s)
      → has_next (state_at (set_init_frame (pos i) s) j) ≡ true
  unfolding has_next num_frames
  has_next_below s i j lo hi =
      has_left s.full_sequence_size i j s.state.max_num_frames lo
        (subst (λ n. j < i + n) (left_lem s.full_sequence_size i s.state.max_num_frames) hi)

  has_next_end :
      (s : FileSequence P G) (i : ℕ)
      → has_next (state_at (set_init_frame (pos i) s) (i + num_frames (set_init_frame (pos i) s)))
        ≡ false
  unfolding has_next num_frames
  has_next_end s i =
      rw (left_lem s.full_sequence_size i s.state.max_num_frames)
        (none_left s.full_sequence_size i s.state.max_num_frames)

get_unfiltered_frame-at :
    {T P Q G : Type 0} (c : Clouds T P Q G) (s : FileSequence P G) (j : ℕ)
    → get_unfiltered_frame c (state_at s j) j ≡ get_unfiltered_frame c s j
unfolding get_unfiltered_frame file_path_of
get_unfiltered_frame-at c s j = refl

next_frame-at :
    {T P Q G : Type 0} (c : Clouds T P Q G) (s : FileSequence P G) (j : ℕ)
    → next_frame c (state_at s j) ≡ (get_frame c s j >>= λ f. ok (f, state_at s (j + 1)))
unfolding next_frame next_unfiltered_frame get_frame process_frame
next_frame-at c s j = elim (Outcome-cases (get_unfiltered_frame c s j)) [
  | inl (f, e) ↦ rw (get_unfiltered_frame-at c s j, e) refl
  | inr (why, e) ↦ rw (get_unfiltered_frame-at c s j, e) refl
]

-- From any frame that is not negative and under any largest number of frames, a loop over a file
-- sequence with more fuel than NumFrames ends, with the result of GetFrame at as many indices as
-- NumFrames from the first frame on: the frames, or the failure of the first that fails.
pub drain-get_frames :
    {T P Q G : Type 0} (c : Clouds T P Q G) (s : FileSequence P G) (i fuel : ℕ)
    → num_frames (set_init_frame (pos i) s) < fuel
    → drain has_next (next_frame c) fuel (set_init_frame (pos i) s)
      ≡ some (get_frames (get_frame c s) i (num_frames (set_init_frame (pos i) s)))
unfolding get_frame process_frame get_unfiltered_frame file_path_of
drain-get_frames c s i fuel enough =
    let started = set_init_frame (pos i) s in
    drain_states has_next (next_frame c) (state_at started) (get_frame c s) fuel
      (num_frames started) i enough (has_next_below s i) (has_next_end s i)
      (λ j. next_frame-at c started j)

-- A sequence made of file names has no frame, whatever the names, the largest number of frames and the
-- first frame that is not negative, where the sort of the standard library leaves an empty list as it
-- is: NumFrames is 0, HasNext does not hold, and GetFrame fails at every index.
from_file_names-empty :
    {T P Q G : Type 0} (c : Clouds T P Q G) (sort : List String → List String) (root : String)
    (info : SequenceInfo) (filenames : List String) (i : ℕ) (most : ℤ) (index : ℕ)
    → sort [] ≡ []
    → let s = limit most (set_init_frame (pos i) (from_file_names sort root info filenames)) in
      (num_frames s ≡ 0) × (has_next s ≡ false) × (get_frame c s index ≡ fail bad_index)
unfolding from_file_names num_frames has_next get_frame get_unfiltered_frame file_path_of
from_file_names-empty c sort root info filenames i (pos most) index e =
    (ground arith, ground arith, rw e refl)
from_file_names-empty c sort root info filenames i (negsuc most) index e =
    (ground arith, ground arith, rw e refl)
