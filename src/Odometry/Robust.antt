-- ===== src/Odometry/Robust.antt =====
-- `RobustRegistration` (odometry.cpp): attempts with more and more conservative options. Logs and durations
-- are left out.
use ct_icp_comment.Odometry.Assess.{assess_registration}
use ct_icp_comment.Odometry.Attempt.{
  Attempt, new_attempt, increase_robustness_level, set_robust_level,
}
use ct_icp_comment.Common.{
  ◌+◌, zero, none, some, ◌||◌, not, pos_part, suc, Option, ℕ, Bool, true, false, List, get_elem?,
  Double, Outcome, ok, ◌>>=◌, require, bad_index, ltb_ℤ, pos, if◌then◌else◌,
}
use ct_icp_comment.Geometry.{angular_distance, Vectors, Quaternions, WPoint}
use ct_icp_comment.Pose.{end_tr, begin_tr, ego_angular_distance, rotation_distance, TrajectoryFrame}
use ct_icp_comment.Odometry.Kit.{Kit}
use ct_icp_comment.Odometry.State.{RegistrationSummary, Options, Odometry, FrameInfo}
use ct_icp_comment.Odometry.Register.{try_register}

module _ {D V Q : Type 0} ⦃d : Double D⦄ ⦃v : Vectors D V⦄ ⦃q : Quaternions D V Q⦄
    (k : Kit D V Q) where
  -- the distances and angles of an attempt
  unfoldable pub attempt_metrics :
      ℕ
      → List (TrajectoryFrame D V Q)
      → RegistrationSummary D V Q
      → Outcome (RegistrationSummary D V Q)
  attempt_metrics index trajectory s = do
    s' ← elim index [
      | zero ↦ ok s
      | suc i ↦ (do
        previous ← require (get_elem? trajectory i) bad_index
        relative ← angular_distance previous.end_pose.pose s.frame.end_pose.pose
        ego ← ego_angular_distance s.frame
        ok (record s {
          distance_correction = v.norm (v.minus (begin_tr s.frame) (end_tr previous));
          relative_orientation = relative;
          ego_orientation = ego;
        }))
    ]
    ok (record s' { relative_distance = v.norm (v.minus (end_tr s'.frame) (begin_tr s'.frame)) })

  -- One round of the loop: whether it was good enough, the frame, the attempt and the odometry.
  unfoldable pub run_attempt :
      FrameInfo D
      → Option k.MotionModel
      → List (WPoint D V Q)
      → Attempt k
      → Odometry k
      → Outcome (Bool × List (WPoint D V Q) × Attempt k × Odometry k)
  run_attempt info motion_model frame a o = do
    (frame', icp, s, o') ←
        try_register k frame info a.registration_options a.summary a.sample_voxel_size motion_model
          o
    measured ← attempt_metrics a.index_frame o'.trajectory s
    let (good, assessed) = assess_registration k o'.options measured
    ok (
      good,
      frame',
      record a {
        registration_options = icp;
        summary = record assessed { number_of_attempts = assessed.number_of_attempts + 1 };
      },
      o',
    )

  -- The `do ... while`, on fuel: `none` means that the fuel ran out. The two distances that are
  -- computed for the log check that the poses are rotations.
  unfoldable pub attempt_loop :
      ℕ
      → FrameInfo D
      → Option k.MotionModel
      → List (WPoint D V Q)
      → Attempt k
      → Odometry k
      → Outcome (Option (List (WPoint D V Q) × Attempt k × Odometry k))
  attempt_loop zero info motion_model frame a o = ok none
  attempt_loop (suc fuel) info motion_model frame a o = do
    (good, frame', a', o') ← run_attempt info motion_model frame a o
    elim (good || not (ltb_ℤ (pos a'.summary.number_of_attempts) o'.options.robust_num_attempts)) [
      | true ↦ ok (some (frame', a', o'))
      | false ↦ (do
        _ ← rotation_distance a'.previous_frame a'.summary.frame
        attempt_loop fuel info motion_model frame' (increase_robustness_level k a') o')
    ]

  -- the fuel that the loop is given
  abbrev pub attempt_fuel : Options k → ℕ
  attempt_fuel o = suc (pos_part o.robust_num_attempts)

  -- the attempt that the loop starts from
  unfoldable pub first_attempt : FrameInfo D → RegistrationSummary D V Q → Odometry k → Attempt k
  first_attempt info s o =
      let a = new_attempt k info.registered_fid o.options (record s { number_of_attempts = 0 }) in
      if ltb_ℤ (pos 0) o.next_robust_level then set_robust_level k o.next_robust_level a else a

  -- the counter of failures after a registration
  unfoldable pub count_failure : RegistrationSummary D V Q → Odometry k → Odometry k
  count_failure s o = record o {
    robust_num_consecutive_failures =
        if ltb_ℤ o.options.robust_num_attempts (pos s.number_of_attempts)
        then o.robust_num_consecutive_failures + 1
        else 0;
  }

  unfoldable pub robust_registration :
      List (WPoint D V Q)
      → FrameInfo D
      → RegistrationSummary D V Q
      → Option k.MotionModel
      → Odometry k
      → Outcome (Option (List (WPoint D V Q) × RegistrationSummary D V Q × Odometry k))
  robust_registration frame info s motion_model o = do
    result ←
        attempt_loop (attempt_fuel o.options) info motion_model frame (first_attempt info s o) o
    elim result [
      | none ↦ ok none
      | some (frame', a, o') ↦ ok (some (frame', a.summary, count_failure a.summary o'))
    ]
