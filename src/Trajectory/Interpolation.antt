-- ===== src/Trajectory/Interpolation.antt =====
-- The functions of `LinearContinuousTrajectory` that compute poses: interpolations, changes of the
-- reference, relative poses and windows.
use ct_icp_comment.Common.{
  ℕ, ◌+◌, ◌-◌, Bool, true, false, ◌&&◌, List, [], ◌∷◌, length, get_elem?, take, drop, Double,
  Outcome, ok, ◌>>=◌, ◌>>◌, check, require, bad_index, wrong_frame, wrong_timestamp, empty_frame,
  ltb, leb, ◌==◌, if◌then◌else◌,
}
use ct_icp_comment.Geometry.{Vectors, Quaternions}
use ct_icp_comment.Pose.{
  Pose, times, inverse, apply, pose_identity, interpolate_pose_alpha, get_alpha_timestamp,
}
use ct_icp_comment.Trajectory.{
  Algorithms, LinearContinuousTrajectory, create, checked, get_closest_poses_ids,
  get_closest_poses_ids_of_frame, select_poses_by_predicate,
}

module _ {D V Q : Type 0} ⦃d : Double D⦄ ⦃v : Vectors D V⦄ ⦃q : Quaternions D V Q⦄ where
  unfoldable pub do_interpolate_pose :
      LinearContinuousTrajectory D V Q → D → ℕ → ℕ → Outcome (Pose D V Q)
  do_interpolate_pose t timestamp pose_0_id pose_1_id = do
    check (ltb pose_1_id (length t.poses)) bad_index
    lower ← require (get_elem? t.poses pose_0_id) bad_index
    upper ← require (get_elem? t.poses pose_1_id) bad_index
    if pose_0_id == pose_1_id
        then ok lower
        else interpolate_pose_alpha lower upper (get_alpha_timestamp lower timestamp upper)
            lower.dest_frame_id

  -- `InterpolatePose` of the trajectory
  unfoldable pub interpolate_at :
      Algorithms D V Q → LinearContinuousTrajectory D V Q → D → Bool → Outcome (Pose D V Q)
  interpolate_at a t timestamp clip_on_bounds = do
    ids ← get_closest_poses_ids a t timestamp clip_on_bounds
    check (ltb ids.1 (length t.poses) && leb ids.0 ids.1) bad_index
    do_interpolate_pose t timestamp ids.0 ids.1

  unfoldable pub interpolate_pose_with_frame_id :
      Algorithms D V Q → LinearContinuousTrajectory D V Q → D → ℕ → Bool → Outcome (Pose D V Q)
  interpolate_pose_with_frame_id a t timestamp frame_id clip_on_bounds = do
    ids ← get_closest_poses_ids_of_frame a t timestamp frame_id clip_on_bounds
    check (ltb ids.1 (length t.poses) && leb ids.0 ids.1) bad_index
    do_interpolate_pose t timestamp ids.0 ids.1

  -- the two functions `TransformPoint`
  unfoldable pub transform_at :
      Algorithms D V Q → LinearContinuousTrajectory D V Q → V → D → Outcome V
  transform_at a t relative_point timestamp = do
    pose ← interpolate_at a t timestamp true
    ok (apply pose relative_point)

  unfoldable pub transform_at_frame :
      Algorithms D V Q → LinearContinuousTrajectory D V Q → V → D → ℕ → Outcome V
  transform_at_frame a t relative_point timestamp frame_id = do
    pose ← interpolate_pose_with_frame_id a t timestamp frame_id true
    ok (apply pose relative_point)

  -- the loop over the poses
  unfoldable pub times_all : Pose D V Q → List (Pose D V Q) → Outcome (List (Pose D V Q))
  times_all pose [] = ok []
  times_all pose (p ∷ ps) = do p' ← times pose p; ps' ← times_all pose ps; ok (p' ∷ ps')

  unfoldable pub change_reference_frame :
      Algorithms D V Q
      → Pose D V Q
      → LinearContinuousTrajectory D V Q
      → Outcome (LinearContinuousTrajectory D V Q)
  change_reference_frame a pose t = do
    check (pose.dest_frame_id == t.reference_frame) wrong_frame
    poses ← times_all pose t.poses
    create a poses false

  -- the relative poses of a list that starts after a pose
  unfoldable pub relative_from : Pose D V Q → List (Pose D V Q) → Outcome (List (Pose D V Q))
  relative_from previous [] = ok []
  relative_from previous (p ∷ ps) = do
    r ← times (inverse previous) p
    rest ← relative_from p ps
    ok (r ∷ rest)

  unfoldable pub to_relative_poses : LinearContinuousTrajectory D V Q → Outcome (List (Pose D V Q))
  to_relative_poses t = elim t.poses [ [] ↦ ok [] | p ∷ ps ↦ relative_from p ps ]

  -- the loop that multiplies the relative poses
  unfoldable pub absolute_from : Pose D V Q → List (Pose D V Q) → Outcome (List (Pose D V Q))
  absolute_from current [] = ok (current ∷ [])
  absolute_from current (r ∷ rs) = do
    next ← times current r
    rest ← absolute_from next rs
    ok (current ∷ rest)

  unfoldable pub from_relative_poses :
      Algorithms D V Q → List (Pose D V Q) → Bool → Outcome (LinearContinuousTrajectory D V Q)
  from_relative_poses a rposes consistent = do
    let sorted : List (Pose D V Q) = a.sort rposes
    first ← require (get_elem? sorted 0) empty_frame
    let start : Pose D V Q = record pose_identity {
      ref_frame_id = first.ref_frame_id;
      dest_frame_id = first.ref_frame_id;
      ref_timestamp = first.ref_timestamp;
      dest_timestamp = first.ref_timestamp;
    }
    a_poses ← absolute_from start sorted
    trajectory ← create a a_poses true
    checked consistent trajectory

  unfoldable pub select_frames_window_by_timestamp :
      Algorithms D V Q
      → D
      → D
      → LinearContinuousTrajectory D V Q
      → Outcome (LinearContinuousTrajectory D V Q)
  select_frames_window_by_timestamp a timestamp_begin timestamp_end t = do
    check (d.le timestamp_begin timestamp_end) wrong_timestamp
    create a
        (select_poses_by_predicate
          (λ p. d.le p.dest_timestamp timestamp_end && d.le timestamp_begin p.dest_timestamp)
          t.poses)
        true

  unfoldable pub select_frames_window_by_index :
      Algorithms D V Q
      → ℕ
      → ℕ
      → LinearContinuousTrajectory D V Q
      → Outcome (LinearContinuousTrajectory D V Q)
  select_frames_window_by_index a pose_init pose_end t = do
    check (leb pose_init pose_end && ltb pose_end (length t.poses)) bad_index
    create a (take (pose_end - pose_init + 1) (drop pose_init t.poses)) true

  unfoldable pub select_frames_window_by_frame_id :
      Algorithms D V Q
      → ℕ
      → ℕ
      → LinearContinuousTrajectory D V Q
      → Outcome (LinearContinuousTrajectory D V Q)
  select_frames_window_by_frame_id a first_frame last_frame t = do
    check (leb first_frame last_frame) wrong_frame
    create a
        (select_poses_by_predicate
          (λ p. leb p.dest_frame_id last_frame && leb first_frame p.dest_frame_id) t.poses)
        true
