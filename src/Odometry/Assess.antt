-- ===== src/Odometry/Assess.antt =====
-- `Odometry::AssessRegistration` (odometry.cpp). The ratios of voxels that it once computed are commented
-- out in the source: what is left of that branch writes a log.
use ct_icp_comment.Common.{Bool, false, ◌&&◌, ◌||◌, Double, pos, ltb_ℤ, if◌then◌else◌, ◌==◌}
use ct_icp_comment.Odometry.Kit.{Kit}
use ct_icp_comment.Odometry.State.{Options, RegistrationSummary, large_rotation, large_distance}

module _ {D V Q : Type 0} ⦃d : Double D⦄ (k : Kit D V Q) where
  -- one of the two orientations is above the threshold that makes a frame an error
  abbrev pub orientation_error : Options k → RegistrationSummary D V Q → Bool
  orientation_error o s =
      d.lt o.orientation_error_threshold s.relative_orientation
      || d.lt o.orientation_error_threshold s.ego_orientation

  -- one of the two orientations is above its robust threshold
  abbrev pub large_orientation : Options k → RegistrationSummary D V Q → Bool
  large_orientation o s =
      d.lt o.robust_threshold_relative_orientation s.relative_orientation
      || d.lt o.robust_threshold_ego_orientation s.ego_orientation

  unfoldable pub assess_robust :
      Options k → RegistrationSummary D V Q → Bool × RegistrationSummary D V Q
  assess_robust o s =
      if (s.robust_level == 0 && large_orientation o s)
        && ltb_ℤ (pos s.robust_level) o.robust_num_attempts_when_rotation
      then (false, record s { error_message = large_rotation s.robust_level })
      else if d.lt o.robust_relative_trans_threshold s.relative_distance
      then (false, record s { error_message = large_distance })
      else (s.success, s)

  unfoldable pub assess_registration :
      Options k → RegistrationSummary D V Q → Bool × RegistrationSummary D V Q
  assess_registration o s =
      if d.lt o.distance_error_threshold s.relative_distance
      then (false, s)
      else if orientation_error o s
      then (false, s)
      else if o.robust_registration
      then assess_robust o s
      else (s.success, s)
