-- ===== src/Tests/Registrations.antt =====
-- The odometry at concrete frames.
use ct_icp_comment.Grid.{find_voxel, put}
use ct_icp_comment.Sampling.{sub_sample_frame, keep_first, short_voxel, grid_sampling}
use ct_icp_comment.Common.{
  take, ℕ, ◌+◌, ◌≤◌, ◌<◌, ◌≡◌, refl, ◌↔◌, true, false, not, List, [], ◌∷◌, length, Option, none,
  some, Outcome, ok, pos, max, ltb_ℤ, pos_part, get_elem?, Ensures, Finishes, arith, fixed_double,
}
use ct_icp_comment.Geometry.{
  se3_inverse, se3_times, se3_apply, se3_interpolate, angular_distance, line_vectors,
  line_quaternions,
}
use ct_icp_comment.Pose.{
  pose_at, pose_default, continuous_transform, get_alpha_timestamp, interpolate_pose,
  interpolate_pose_alpha, ego_angular_distance, TrajectoryFrame,
}
use ct_icp_comment.Odometry.Options.{IcpOptions}
use ct_icp_comment.Odometry.State.{
  insert_frame, skip_frame, iterate_over_callbacks, run_callbacks, new_tracker, Odometry,
  RegistrationSummary, new_odometry,
}
use ct_icp_comment.Odometry.Attempt.{Attempt, new_attempt}
use ct_icp_comment.Odometry.Assess.{assess_robust, assess_registration, large_orientation}
use ct_icp_comment.Odometry.Motion.{
  compute_frame_info, min_max_from, predict, extrapolate, extrapolate_second, initialize_motion,
}
use ct_icp_comment.Odometry.Register.{
  traverse_points, distort_point, transform_point, initialize_frame, sample_keypoints,
  startup_options, try_register,
}
use ct_icp_comment.Odometry.Robust.{run_attempt, robust_registration}
use ct_icp_comment.Odometry.Insert.{
  overrule, apply_insertion, accumulate, plain_adds, update_map, decide_insertion, robust_adds,
}
use ct_icp_comment.Odometry.Pipeline.{
  do_register, register_motion, register_once, choose_motion_model, finish, correct_point,
  compute_summary_metrics, new_summary,
}
use ct_icp_comment.Odometry.Registration.{register_with}
use ct_icp_comment.Odometry.Attempts.{
  robust_registration-Finishes, robust_registration-no_failures, run_attempt-rotation,
}
use ct_icp_comment.Odometry.Verdict.{assess_registration_iff}
use ct_icp_comment.Odometry.Policy.{update_map-tracker}
use ct_icp_comment.Odometry.Prediction.{initialize_motion_total, IsStamped}
use ct_icp_comment.Odometry.Frames.{
  register_with-IsValid, register_with-frame, register_with-quits, IsValid,
}
use ct_icp_comment.Tests.{toy_kit, toy_options, toy_cloud, toy_frame, toy_info, toy_odometry}

abbrev toy_summary : RegistrationSummary ℕ ℕ (Unit {0})
toy_summary = new_summary (toy_frame 1)

abbrev robust : Odometry toy_kit
robust = toy_odometry (toy_options true true false false)

abbrev plain : Odometry toy_kit
plain = toy_odometry (toy_options false true false false)

abbrev toy_attempt : Attempt toy_kit
toy_attempt = new_attempt toy_kit 2 robust.options toy_summary

abbrev icp : IcpOptions ℕ
icp = (toy_options true true false false).ct_icp_options

assess_registration_iff_example :
    ((assess_registration toy_kit robust.options toy_summary).0 ≡ true) ↔ (
      (toy_summary.success ≡ true)
      × (fixed_double.lt robust.options.distance_error_threshold toy_summary.relative_distance
          ≡ false)
      × (fixed_double.lt robust.options.orientation_error_threshold toy_summary.relative_orientation
          ≡ false)
      × (fixed_double.lt robust.options.orientation_error_threshold toy_summary.ego_orientation
          ≡ false)
      × (robust.options.robust_registration ≡ true
          → (fixed_double.lt robust.options.robust_relative_trans_threshold
                toy_summary.relative_distance
              ≡ false)
            × (toy_summary.robust_level ≡ 0
                → ltb_ℤ (pos 0) robust.options.robust_num_attempts_when_rotation ≡ true
                → large_orientation toy_kit robust.options toy_summary ≡ false)))
assess_registration_iff_example = assess_registration_iff toy_kit robust.options toy_summary

abbrev turned : RegistrationSummary ℕ ℕ (Unit {0})
turned = record toy_summary { ego_orientation = 10_000_000 }

abbrev kept_out : Odometry toy_kit
kept_out = toy_odometry (toy_options false true true false)

robust_registration-Finishes_example :
    Ensures
      (Finishes (λ r.
        (0 < r.1.number_of_attempts)
        × (r.1.number_of_attempts ≤ max 1 (pos_part robust.options.robust_num_attempts))
        × (r.1.robust_level ≡ toy_summary.robust_level)
        × (record robust {
          generator = r.2.generator;
          robust_num_consecutive_failures = r.2.robust_num_consecutive_failures;
        }
            ≡ r.2)))
      (robust_registration toy_kit [] (toy_info 1) toy_summary none robust)
robust_registration-Finishes_example =
    robust_registration-Finishes toy_kit [] (toy_info 1) toy_summary none robust

robust_registration-no_failures_example :
    Ensures
      (Finishes (λ r.
        (r.2.robust_num_consecutive_failures ≡ 0)
        × (robust_adds toy_kit robust.options turned r.2.robust_num_consecutive_failures
            ≡ not (large_orientation toy_kit robust.options turned))))
      (robust_registration toy_kit [] (toy_info 1) toy_summary none robust)
unfolding toy_odometry
robust_registration-no_failures_example =
    robust_registration-no_failures toy_kit [] (toy_info 1) toy_summary turned none robust refl

run_attempt-rotation_example :
    Ensures
      (λ r. large_orientation toy_kit robust.options r.2.summary ≡ true → r.0 ≡ false)
      (run_attempt toy_kit (toy_info 1) none [] toy_attempt robust)
unfolding toy_odometry new_attempt new_summary
run_attempt-rotation_example =
    run_attempt-rotation toy_kit (toy_info 1) none [] toy_attempt robust refl refl refl

plain-IsValid : IsValid toy_kit plain
unfolding toy_odometry
plain-IsValid = refl

initialize_motion_total_example :
    (o' : Odometry toy_kit) × (initialize_motion toy_kit (toy_info 2) none plain ≡ ok o')
    × (o' ≡ record plain { trajectory = o'.trajectory })
    × (length o'.trajectory ≡ 3)
    × ((i : ℕ) → i < 2 → get_elem? o'.trajectory i ≡ get_elem? plain.trajectory i)
    × ((f : TrajectoryFrame ℕ ℕ (Unit {0})) × (get_elem? o'.trajectory 2 ≡ some f)
        × IsStamped toy_kit (toy_info 2) f)
unfolding toy_odometry
initialize_motion_total_example = initialize_motion_total toy_kit (toy_info 2) plain refl

register_with-IsValid_example :
    Ensures
      (Finishes (λ r.
        IsValid toy_kit r.1
        × (r.1.registered_frames ≡ plain.registered_frames + 1)
        × (take 2 r.1.trajectory ≡ plain.trajectory)))
      (register_with toy_kit none (some 2) toy_cloud none plain)
unfolding toy_odometry
register_with-IsValid_example =
    register_with-IsValid toy_kit none (some 2) toy_cloud none plain plain-IsValid

register_with-frame_example :
    Ensures
      (Finishes (λ r.
        r.0.success ≡ true → get_elem? r.1.trajectory plain.registered_frames ≡ some r.0.frame))
      (register_with toy_kit none none toy_cloud none plain)
unfolding toy_odometry
register_with-frame_example =
    register_with-frame toy_kit none none toy_cloud none plain plain-IsValid (omega arith)

register_with-quits_example :
    Ensures
      (Finishes (λ r.
        r.0.success ≡ false
        → (r.1.slam_map ≡ plain.slam_map) × (r.1.insertion_tracker ≡ plain.insertion_tracker)))
      (register_with toy_kit none none toy_cloud none plain)
unfolding toy_odometry
register_with-quits_example = register_with-quits toy_kit none none toy_cloud none plain refl refl

update_map-tracker_example :
    Ensures
      (λ r.
        (r.1.trajectory ≡ plain.trajectory)
        × (r.1.registered_frames ≡ plain.registered_frames)
        × (r.0.points_added ≡ true)
        × (r.1.insertion_tracker.total_insertions ≡ 1)
        × (r.1.insertion_tracker.skipped_frames ≡ 0))
      (update_map toy_kit turned 1 plain)
unfolding toy_odometry new_odometry decide_insertion plain_adds accumulate new_tracker
update_map-tracker_example = update_map-tracker toy_kit turned 1 plain

-- The third frame is registered: one more frame, and its points in the map.
abbrev outcome : Outcome (Option (RegistrationSummary ℕ ℕ (Unit {0}) × Odometry toy_kit)) → List ℕ
outcome (ok (some (s, o))) =
    length o.trajectory ∷ length o.slam_map ∷ o.insertion_tracker.total_insertions ∷ []
outcome _ = []

register_with_test :
    outcome (register_with toy_kit none (some 2) toy_cloud none plain) ≡ 3 ∷ 3 ∷ 1 ∷ []
unfolding toy_odometry new_odometry new_tracker insert_frame skip_frame iterate_over_callbacks
    run_callbacks compute_frame_info min_max_from initialize_motion predict extrapolate
    extrapolate_second distort_point transform_point initialize_frame sample_keypoints
    startup_options try_register assess_registration assess_robust update_map decide_insertion
    accumulate plain_adds overrule apply_insertion register_with do_register register_motion
    register_once choose_motion_model finish correct_point compute_summary_metrics new_summary
    pose_at pose_default continuous_transform get_alpha_timestamp interpolate_pose
    interpolate_pose_alpha ego_angular_distance sub_sample_frame keep_first short_voxel
    grid_sampling find_voxel put se3_inverse se3_times se3_apply se3_interpolate angular_distance
    traverse_points
register_with_test = refl
