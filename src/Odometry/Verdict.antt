-- ===== src/Odometry/Verdict.antt =====
-- The verdict on a registration (`AssessRegistration`) against its conditions.
use ct_icp_comment.Common.{◌≡◌, ◌↔◌, Double, pos, ltb_ℤ, arith, true, false}
use ct_icp_comment.Odometry.Kit.{Kit}
use ct_icp_comment.Odometry.State.{Options, RegistrationSummary}
use ct_icp_comment.Odometry.Assess.{assess_registration, assess_robust, large_orientation}

module _ {D V Q : Type 0} ⦃d : Double D⦄ (k : Kit D V Q) where
  -- A registration is accepted exactly when the solver succeeded, the frame's motion and the two
  -- orientations are within the error thresholds, and, in the robust regimen, the motion is also within
  -- the robust threshold and the summary does not show a large rotation at level 0 while attempts are
  -- reserved for rotations.
  pub assess_registration_iff :
      (o : Options k) (s : RegistrationSummary D V Q)
      → ((assess_registration k o s).0 ≡ true) ↔ (
          (s.success ≡ true)
          × (d.lt o.distance_error_threshold s.relative_distance ≡ false)
          × (d.lt o.orientation_error_threshold s.relative_orientation ≡ false)
          × (d.lt o.orientation_error_threshold s.ego_orientation ≡ false)
          × (o.robust_registration ≡ true
              → (d.lt o.robust_relative_trans_threshold s.relative_distance ≡ false)
                × (s.robust_level ≡ 0
                    → ltb_ℤ (pos 0) o.robust_num_attempts_when_rotation ≡ true
                    → large_orientation k o s ≡ false)))
  unfolding assess_registration assess_robust
  assess_registration_iff o s = ground arith
