-- ===== src/Odometry/Attempts.antt =====
-- The attempts of a robust registration: how many there are, and what they leave as it is.
use ct_icp_comment.Odometry.Insert.{robust_adds}
use ct_icp_comment.Common.{
  not, Finishes, ℕ, zero, suc, ◌+◌, ◌≤◌, ◌<◌, ◌≡◌, refl, List, Option, Double, ℤ, pos, pos_part,
  ltb_ℤ, max, arith, true, false, Ensures,
}
use ct_icp_comment.Geometry.{Vectors, Quaternions, WPoint}
use ct_icp_comment.Pose.{TrajectoryFrame}
use ct_icp_comment.Odometry.Kit.{Kit}
use ct_icp_comment.Odometry.Options.{IcpOptions}
use ct_icp_comment.Odometry.State.{Odometry, Options, FrameInfo, RegistrationSummary}
use ct_icp_comment.Odometry.Attempt.{
  raise_level, new_attempt, Attempt, increase_robustness_level, set_robust_level,
}
use ct_icp_comment.Odometry.Assess.{large_orientation, assess_registration, assess_robust}
use ct_icp_comment.Odometry.Register.{sample_keypoints, try_register}
use ct_icp_comment.Odometry.Robust.{
  attempt_metrics, run_attempt, attempt_loop, attempt_fuel, first_attempt, count_failure,
  robust_registration,
}

module _ {D V Q : Type 0} ⦃d : Double D⦄ ⦃v : Vectors D V⦄ ⦃q : Quaternions D V Q⦄
    (k : Kit D V Q) where
  sample_keypoints-same :
      (frame : List (WPoint D V Q)) (info : FrameInfo D) (size : D) (o : Odometry k)
      → Ensures
          (λ r. record o { generator = r.1.generator } ≡ r.1)
          (sample_keypoints k frame info size o)
  unfolding sample_keypoints
  sample_keypoints-same frame info size o = ground arith

  pub try_register-same :
      (frame : List (WPoint D V Q)) (info : FrameInfo D) (icp : IcpOptions D)
      (s : RegistrationSummary D V Q) (size : D) (m : Option k.MotionModel) (o : Odometry k)
      → Ensures
          (λ r.
            (record o { generator = r.3.generator } ≡ r.3)
            × (r.2.number_of_attempts ≡ s.number_of_attempts)
            × (r.2.robust_level ≡ s.robust_level))
          (try_register k frame info icp s size m o)
  unfolding try_register
  try_register-same frame info icp s size m o =
      ground (arith, sample_keypoints-same frame info size o)

  assess-same :
      (o : Options k) (s : RegistrationSummary D V Q)
      → ((assess_registration k o s).1.number_of_attempts ≡ s.number_of_attempts)
        × ((assess_registration k o s).1.robust_level ≡ s.robust_level)
  unfolding assess_registration assess_robust
  assess-same o s = ground arith

  metrics-same :
      (i : ℕ) (t : List (TrajectoryFrame D V Q)) (s : RegistrationSummary D V Q)
      → Ensures
          (λ r. (r.number_of_attempts ≡ s.number_of_attempts) × (r.robust_level ≡ s.robust_level))
          (attempt_metrics k i t s)
  unfolding attempt_metrics
  metrics-same zero t s = ground arith
  metrics-same (suc i) t s = ground arith

  run_attempt-same :
      (info : FrameInfo D) (m : Option k.MotionModel) (frame : List (WPoint D V Q)) (a : Attempt k)
      (o : Odometry k)
      → Ensures
          (λ r.
            (record o { generator = r.3.generator } ≡ r.3)
            × (r.2.summary.number_of_attempts ≡ a.summary.number_of_attempts + 1)
            × (r.2.summary.robust_level ≡ a.summary.robust_level)
            × (r.2.previous_frame ≡ a.previous_frame))
          (run_attempt k info m frame a o)
  unfolding run_attempt
  run_attempt-same info m frame a o = grind (arith, try_register-same, metrics-same, assess-same)

  -- what the loop's result keeps, and the range of the number of attempts
  abbrev pub Attempted :
      Attempt k → Odometry k → List (WPoint D V Q) × Attempt k × Odometry k → Type 0
  Attempted a o r =
      (record o { generator = r.2.generator } ≡ r.2)
      × (r.1.summary.robust_level ≡ a.summary.robust_level)
      × (a.summary.number_of_attempts < r.1.summary.number_of_attempts)
      × (r.1.summary.number_of_attempts
          ≤ max (a.summary.number_of_attempts + 1) (pos_part o.options.robust_num_attempts))

  attempt_loop-Finishes :
      (fuel : ℕ) (info : FrameInfo D) (m : Option k.MotionModel) (frame : List (WPoint D V Q))
      (a : Attempt k) (o : Odometry k)
      → pos_part o.options.robust_num_attempts < fuel + a.summary.number_of_attempts
      → 0 < fuel
      → Ensures (Finishes (Attempted a o)) (attempt_loop k fuel info m frame a o)
  unfolding attempt_loop increase_robustness_level
  attempt_loop-Finishes zero info m frame a o h p = absurd (omega arith)
  attempt_loop-Finishes (suc fuel) info m frame a o h p = grind (
    arith,
    run_attempt-same info m frame a o,
    λ (frame' : List (WPoint D V Q)) (a' : Attempt k) (o' : Odometry k).
        attempt_loop-Finishes fuel info m frame' (increase_robustness_level k a') o',
  )

  raise_level-summary :
      (fuel : ℕ) (level : ℤ) (a : Attempt k)
      → ((raise_level k fuel level a).summary.number_of_attempts ≡ a.summary.number_of_attempts)
        × ((raise_level k fuel level a).summary.robust_level ≡ a.summary.robust_level)
  unfolding raise_level increase_robustness_level
  raise_level-summary zero level a = (refl, refl)
  raise_level-summary (suc fuel) level a =
      ground (arith, raise_level-summary fuel level (increase_robustness_level k a))

  first_attempt-summary :
      (info : FrameInfo D) (s : RegistrationSummary D V Q) (o : Odometry k)
      → ((first_attempt k info s o).summary.number_of_attempts ≡ 0)
        × ((first_attempt k info s o).summary.robust_level ≡ s.robust_level)
  unfolding first_attempt set_robust_level new_attempt
  first_attempt-summary info s o = ground (
    arith,
    raise_level-summary (pos_part o.next_robust_level) o.next_robust_level
        (new_attempt k info.registered_fid o.options (record s { number_of_attempts = 0 })),
  )

  -- A robust registration that no check stops ends within its fuel. It makes at least one attempt and at
  -- most `robust_num_attempts` (one, if that is 0 or less), leaves the robust level that the summary had,
  -- and changes of the odometry only the generator and the counter of failures.
  pub robust_registration-Finishes :
      (frame : List (WPoint D V Q)) (info : FrameInfo D) (s : RegistrationSummary D V Q)
      (m : Option k.MotionModel) (o : Odometry k)
      → Ensures
          (Finishes (λ r.
            (0 < r.1.number_of_attempts)
            × (r.1.number_of_attempts ≤ max 1 (pos_part o.options.robust_num_attempts))
            × (r.1.robust_level ≡ s.robust_level)
            × (record o {
              generator = r.2.generator;
              robust_num_consecutive_failures = r.2.robust_num_consecutive_failures;
            }
                ≡ r.2)))
          (robust_registration k frame info s m o)
  unfolding robust_registration count_failure
  robust_registration-Finishes frame info s m o = ground (
    arith,
    first_attempt-summary info s o,
    attempt_loop-Finishes (attempt_fuel k o.options) info m frame (first_attempt k info s o) o,
  )

  -- With at least one attempt allowed, a robust registration that no check stops leaves the counter of
  -- consecutive failures at 0, so that for every summary the map is given the points exactly when the
  -- orientations are within their robust thresholds: the counter never overrules them.
  pub robust_registration-no_failures :
      (frame : List (WPoint D V Q)) (info : FrameInfo D) (s t : RegistrationSummary D V Q)
      (m : Option k.MotionModel) (o : Odometry k)
      → ltb_ℤ (pos 0) o.options.robust_num_attempts ≡ true
      → Ensures
          (Finishes (λ r.
            (r.2.robust_num_consecutive_failures ≡ 0)
            × (robust_adds k o.options t r.2.robust_num_consecutive_failures
                ≡ not (large_orientation k o.options t))))
          (robust_registration k frame info s m o)
  unfolding robust_registration count_failure robust_adds
  robust_registration-no_failures frame info s t m o h = ground (
    arith,
    first_attempt-summary info s o,
    attempt_loop-Finishes (attempt_fuel k o.options) info m frame (first_attempt k info s o) o,
  )

  -- An attempt whose summary is at level 0 is not accepted while one of the orientations is above its
  -- robust threshold, whatever the level of the attempt itself, in the robust regimen with attempts
  -- reserved for rotations.
  pub run_attempt-rotation :
      (info : FrameInfo D) (m : Option k.MotionModel) (frame : List (WPoint D V Q)) (a : Attempt k)
      (o : Odometry k)
      → a.summary.robust_level ≡ 0
      → o.options.robust_registration ≡ true
      → ltb_ℤ (pos 0) o.options.robust_num_attempts_when_rotation ≡ true
      → Ensures
          (λ r. large_orientation k o.options r.2.summary ≡ true → r.0 ≡ false)
          (run_attempt k info m frame a o)
  unfolding run_attempt assess_registration assess_robust
  run_attempt-rotation info m frame a o h r n = grind (arith, try_register-same, metrics-same)
