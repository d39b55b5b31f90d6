-- ===== src/Trajectory.antt =====
-- `LinearContinuousTrajectory` (include/SlamCore/trajectory.h, src/SlamCore/trajectory.cxx): poses in the
-- order of their frames and instants, with an interpolation between the two closest ones.
pub mod Interpolation
pub mod Closest
pub mod Consistency
use ct_icp_comment.Common.{
  ℕ, zero, suc, ◌+◌, ◌-◌, Bool, true, false, not, ◌&&◌, ◌||◌, List, [], ◌∷◌, ◌++◌, length,
  get_elem?, get_last?, Option, none, some, Double, Outcome, ok, fail, ◌>>=◌, ◌>>◌, check, require,
  bad_index, wrong_frame, wrong_timestamp, empty_frame, ltb, leb, ◌==◌, if◌then◌else◌,
}
use ct_icp_comment.Geometry.{Vectors, Quaternions}
use ct_icp_comment.Pose.{
  Pose, times, inverse, apply, pose_identity, interpolate_pose_alpha, get_alpha_timestamp,
}

-- What the code takes from the standard library: `std::sort` by frame and instant, `std::lower_bound`,
-- and the largest and the smallest positive double.
pub record Algorithms (D V Q : Type 0) : Type 0 where
  pub sort : List (Pose D V Q) → List (Pose D V Q)
  pub lower_bound : (Pose D V Q → Bool) → List (Pose D V Q) → ℕ
  pub largest : D
  pub smallest : D

pub record LinearContinuousTrajectory (D V Q : Type 0) : Type 0 where
  pub reference_frame : ℕ
  pub min_timestamp : D
  pub max_timestamp : D
  pub poses : List (Pose D V Q)

-- `poses_.size() - 1`, which wraps around on an empty trajectory
unfoldable pub last_index {ℓ} : {A : Type ℓ} → List A → ℕ
last_index [] = 0xffff_ffff_ffff_ffff
last_index (x ∷ xs) = length xs

module _ {D V Q : Type 0} where
  unfoldable pub has_frame_id : ℕ → List (Pose D V Q) → Bool
  has_frame_id frame_id [] = false
  has_frame_id frame_id (p ∷ ps) = (p.dest_frame_id == frame_id) || has_frame_id frame_id ps

  unfoldable pub select_poses_by_predicate :
      (Pose D V Q → Bool) → List (Pose D V Q) → List (Pose D V Q)
  select_poses_by_predicate predicate [] = []
  select_poses_by_predicate predicate (p ∷ ps) =
      let rest = select_poses_by_predicate predicate ps in if predicate p then p ∷ rest else rest

  -- the loop of `GetPoseIdsByPredicate` from an index on
  unfoldable pub pose_ids_from : (Pose D V Q → Bool) → ℕ → List (Pose D V Q) → List ℕ
  pose_ids_from predicate i [] = []
  pose_ids_from predicate i (p ∷ ps) =
      let rest = pose_ids_from predicate (i + 1) ps in if predicate p then i ∷ rest else rest

  unfoldable pub get_pose_ids_by_predicate :
      (Pose D V Q → Bool) → LinearContinuousTrajectory D V Q → List ℕ
  get_pose_ids_by_predicate predicate t = pose_ids_from predicate 0 t.poses

  -- `std::min_element` by the frame: the first least one
  unfoldable pub least_frame_id : ℕ → List (Pose D V Q) → ℕ
  least_frame_id least [] = least
  least_frame_id least (p ∷ ps) =
      least_frame_id (if ltb p.dest_frame_id least then p.dest_frame_id else least) ps

  unfoldable pub min_frame_id : LinearContinuousTrajectory D V Q → Outcome ℕ
  min_frame_id t = do
    front ← require (get_elem? t.poses 0) empty_frame
    ok (least_frame_id front.dest_frame_id t.poses)

  -- `MaxFrameId` takes the least element too.
  unfoldable pub max_frame_id : LinearContinuousTrajectory D V Q → Outcome ℕ
  max_frame_id t = do
    front ← require (get_elem? t.poses 0) empty_frame
    ok (least_frame_id front.dest_frame_id t.poses)

module _ {D V Q : Type 0} ⦃d : Double D⦄ where
  -- the loop of `CheckConsistency`, from the pose before
  unfoldable pub check_poses : ℕ → Pose D V Q → List (Pose D V Q) → Outcome (Unit {0})
  check_poses reference previous [] = ok tt
  check_poses reference previous (p ∷ ps) = do
    check (p.ref_frame_id == reference) wrong_frame
    check
        ((p.dest_frame_id == previous.dest_frame_id)
          || d.le previous.dest_timestamp p.dest_timestamp)
        wrong_timestamp
    check_poses reference p ps

  unfoldable pub check_consistency : LinearContinuousTrajectory D V Q → Outcome (Unit {0})
  check_consistency t = elim t.poses [
    | [] ↦ fail empty_frame
    | p ∷ ps ↦ check_poses t.reference_frame p ps
  ]

  -- the loop of `Create`
  unfoldable pub min_max_timestamps : D → D → List (Pose D V Q) → D × D
  min_max_timestamps lo hi [] = (lo, hi)
  min_max_timestamps lo hi (p ∷ ps) =
      min_max_timestamps (if d.lt p.dest_timestamp lo then p.dest_timestamp else lo)
        (if d.lt hi p.dest_timestamp then p.dest_timestamp else hi) ps

  -- `if (check_consistency) result.CheckConsistency(); return result;`
  unfoldable pub checked :
      Bool → LinearContinuousTrajectory D V Q → Outcome (LinearContinuousTrajectory D V Q)
  checked true t = do check_consistency t; ok t
  checked false t = ok t

  -- A sorted list that is empty has no front.
  unfoldable pub create :
      Algorithms D V Q → List (Pose D V Q) → Bool → Outcome (LinearContinuousTrajectory D V Q)
  create a poses consistent = do
    let sorted : List (Pose D V Q) = a.sort poses
    front ← require (get_elem? sorted 0) empty_frame
    let bounds : D × D = min_max_timestamps a.largest a.smallest sorted
    let result : LinearContinuousTrajectory D V Q = record {
      reference_frame = front.ref_frame_id;
      min_timestamp = bounds.0;
      max_timestamp = bounds.1;
      poses = sorted;
    }
    checked consistent result

  -- The lambda: the indices, where the instant is out of bounds. Both comparisons are required.
  unfoldable pub check_timestamp_consistency :
      LinearContinuousTrajectory D V Q → D → Bool → Outcome (Option (ℕ × ℕ))
  check_timestamp_consistency t timestamp clip_on_bounds =
      if d.le timestamp t.min_timestamp && d.le t.max_timestamp timestamp
      then (check clip_on_bounds wrong_timestamp
          >> ok (
              some (
                if d.le timestamp t.min_timestamp
                then (0, 0)
                else (last_index t.poses, last_index t.poses))))
      else ok none

  -- the loop that goes back to a pose that is not later
  unfoldable pub step_back : List (Pose D V Q) → D → ℕ → ℕ
  step_back poses timestamp zero = zero
  step_back poses timestamp (suc i) =
      let rest = step_back poses timestamp i in
      elim (get_elem? poses (suc i)) [
        | none ↦ suc i
        | some p ↦ if d.lt timestamp p.dest_timestamp then rest else suc i
      ]

  unfoldable pub get_closest_poses_ids :
      Algorithms D V Q → LinearContinuousTrajectory D V Q → D → Bool → Outcome (ℕ × ℕ)
  get_closest_poses_ids a t timestamp clip_on_bounds = do
    early ← check_timestamp_consistency t timestamp clip_on_bounds
    let upper : ℕ = a.lower_bound (λ p. d.lt p.dest_timestamp timestamp) t.poses
    elim early [
      | some ids ↦ ok ids
      | none ↦
          if leb (length t.poses) upper
          then ok (last_index t.poses, last_index t.poses)
          else ok (step_back t.poses timestamp upper, upper)
    ]

  unfoldable pub get_closest_poses_ids_of_frame :
      Algorithms D V Q → LinearContinuousTrajectory D V Q → D → ℕ → Bool → Outcome (ℕ × ℕ)
  get_closest_poses_ids_of_frame a t timestamp frame_id clip_on_bounds = do
    early ← check_timestamp_consistency t timestamp clip_on_bounds
    let upper : ℕ =
        a.lower_bound
          (λ p.
            ltb p.dest_frame_id frame_id
            || ((p.dest_frame_id == frame_id) && d.lt p.dest_timestamp timestamp))
          t.poses
    elim early [
      | some ids ↦ ok ids
      | none ↦
          if upper == length t.poses
          then (do
            back ← require (get_last? t.poses) empty_frame
            check (back.dest_frame_id == frame_id) wrong_frame
            ok (last_index t.poses, last_index t.poses))
          else ok (upper - 1, upper)
    ]
