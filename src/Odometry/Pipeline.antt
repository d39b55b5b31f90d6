-- ===== src/Odometry/Pipeline.antt =====
-- `DoRegister` and `ComputeSummaryMetrics` (odometry.cpp).
use mathlib.Core.Option
use ct_icp_comment.Common.{
  ltb, ℕ, zero, suc, true, false, List, [], map, get_elem?, get_last?, set, Option, none, some,
  Double, Outcome, ok, ◌>>=◌, ◌>>◌, require, bad_index, ltb_ℤ, pos, if◌then◌else◌,
}
use ct_icp_comment.Geometry.{Vectors, Quaternions, WPoint, angular_distance}
use ct_icp_comment.Pose.{
  TrajectoryFrame, begin_tr, end_tr, ego_angular_distance, continuous_transform,
}
use ct_icp_comment.Odometry.Kit.{Kit}
use ct_icp_comment.Odometry.State.{
  Odometry, FrameInfo, PointCloud, RegistrationSummary, no_message, finished_registration,
  iterate_over_callbacks,
}
use ct_icp_comment.Odometry.Assess.{assess_registration}
use ct_icp_comment.Odometry.Register.{raw_wpoint, traverse_points, initialize_frame, try_register}
use ct_icp_comment.Odometry.Robust.{robust_registration}
use ct_icp_comment.Odometry.Insert.{update_map}

module _ {D V Q : Type 0} ⦃d : Double D⦄ ⦃v : Vectors D V⦄ ⦃q : Quaternions D V Q⦄ where
  -- the summary that `DoRegister` starts from
  unfoldable pub new_summary : TrajectoryFrame D V Q → RegistrationSummary D V Q
  new_summary estimate = record {
    frame = estimate;
    initial_frame = estimate;
    sample_size = 0;
    number_of_residuals = 0;
    robust_level = 0;
    distance_correction = d.decimal 0 0;
    relative_distance = d.decimal 0 0;
    relative_orientation = d.decimal 0 0;
    ego_orientation = d.decimal 0 0;
    success = true;
    points_added = false;
    number_of_attempts = 0;
    error_message = no_message;
    corrected_points = [];
    all_corrected_points = [];
    keypoints = [];
    icp_summary = record { success = false; num_residuals_used = 0 };
  }

  -- the world point by the continuous motion of the frame
  unfoldable pub correct_point : TrajectoryFrame D V Q → WPoint D V Q → Outcome (WPoint D V Q)
  correct_point f p = do
    w ← continuous_transform f.begin_pose p.raw_point f.end_pose p.timestamp
    ok (record p { world_point = w })

  unfoldable pub compute_summary_metrics :
      List (TrajectoryFrame D V Q)
      → ℕ
      → RegistrationSummary D V Q
      → Outcome (RegistrationSummary D V Q)
  compute_summary_metrics trajectory zero s = ok s
  compute_summary_metrics trajectory (suc i) s = do
    current ← require (get_elem? trajectory (suc i)) bad_index
    previous ← require (get_elem? trajectory i) bad_index
    relative ← angular_distance previous.end_pose.pose current.end_pose.pose
    ego ← ego_angular_distance current
    ok (record s {
      distance_correction = v.norm (v.minus (begin_tr current) (end_tr previous));
      relative_orientation = relative;
      relative_distance = v.norm (v.minus (end_tr previous) (end_tr current));
      ego_orientation = ego;
    })

module _ {D V Q : Type 0} ⦃d : Double D⦄ ⦃v : Vectors D V⦄ ⦃q : Quaternions D V Q⦄
    (k : Kit D V Q) where
  -- A registration that goes on, or one that `quit_on_error` ends.
  pub data Progress : Type 0 where
    goes_on : List (WPoint D V Q) → RegistrationSummary D V Q → Odometry k → Progress
    quits : RegistrationSummary D V Q → Odometry k → Progress

  -- the branch without attempts; the relative orientation is that of the estimate in the trajectory
  unfoldable pub register_once :
      List (WPoint D V Q)
      → FrameInfo D
      → ℕ
      → RegistrationSummary D V Q
      → Option k.MotionModel
      → Odometry k
      → Outcome Progress
  register_once frame info previous_index s motion_model o = do
    let size : D =
        if ltb_ℤ (pos info.registered_fid) o.options.init_num_frames
        then o.options.init_sample_voxel_size
        else o.options.sample_voxel_size
    (frame', icp, s', o') ← try_register k frame info o.options.ct_icp_options s size motion_model o
    previous ← require (get_elem? o'.trajectory previous_index) bad_index
    current ← require (get_elem? o'.trajectory info.registered_fid) bad_index
    relative ← angular_distance previous.end_pose.pose current.end_pose.pose
    ego ← ego_angular_distance s'.frame
    let (good, assessed) = assess_registration k o'.options (record s' {
      relative_orientation = relative;
      ego_orientation = ego;
      relative_distance = v.norm (v.minus (end_tr s'.frame) (begin_tr s'.frame));
    })
    let failed : RegistrationSummary D V Q = record assessed { success = false }
    ok (
        if good
        then goes_on frame' assessed o'
        else if o'.options.quit_on_error
        then quits failed o'
        else goes_on frame' failed o')

  -- the motion model, and the odometry whose default model is brought up to date where it is used
  unfoldable pub choose_motion_model :
      ℕ → Option k.MotionModel → Odometry k → Outcome (Option k.MotionModel × Odometry k)
  choose_motion_model previous_index (some m) o = ok (some m, o)
  choose_motion_model previous_index none o =
      if o.options.with_default_motion_model
      then (do
        previous ← require (get_elem? o.trajectory previous_index) bad_index
        ok (
          some (k.previous_frame_model o.options.default_motion_model previous),
          record o { previous_frame = previous },
        ))
      else ok (none, o)

  -- what is done with a frame of index above 0; `none` means that the attempts' fuel ran out
  unfoldable pub register_motion :
      List (WPoint D V Q)
      → FrameInfo D
      → RegistrationSummary D V Q
      → Option k.MotionModel
      → Odometry k
      → Outcome (Option Progress)
  register_motion frame info s motion_model o = elim info.registered_fid [
    | zero ↦ ok (some (goes_on frame s o))
    | suc i ↦ (do
      (model, o') ← choose_motion_model i motion_model o
      elim o'.options.robust_registration [
        | true ↦ (do
          result ← robust_registration k frame info s model o'
          ok (Option.map (λ r. goes_on r.0 r.1 r.2) result))
        | false ↦ (do p ← register_once frame info i s model o'; ok (some p))
      ])
  ]

  -- what follows the registration
  unfoldable pub finish :
      PointCloud D V
      → FrameInfo D
      → List (WPoint D V Q)
      → RegistrationSummary D V Q
      → Odometry k
      → Outcome (RegistrationSummary D V Q × Odometry k)
  finish cloud info frame s o = do
    let o' : Odometry k = record o {
      trajectory =
          if ltb 0 info.registered_fid
          then set o.trajectory info.registered_fid s.frame
          else o.trajectory;
    }
    all_corrected ←
        traverse_points (correct_point s.frame) (map (raw_wpoint info.frame_id) cloud.points)
    corrected ← traverse_points (correct_point s.frame) frame
    measured ←
        compute_summary_metrics o'.trajectory info.registered_fid
          (record s { corrected_points = corrected; all_corrected_points = all_corrected })
    (s', o'') ← update_map k measured info.registered_fid o'
    iterate_over_callbacks k finished_registration o'' frame none
    ok (s', o'')

  unfoldable pub do_register :
      PointCloud D V
      → FrameInfo D
      → Option k.MotionModel
      → Odometry k
      → Outcome (Option (RegistrationSummary D V Q × Odometry k))
  do_register cloud info motion_model o = do
    (frame, o') ← initialize_frame k cloud info o
    estimate ← require (get_last? o'.trajectory) bad_index
    progress ← register_motion frame info (new_summary estimate) motion_model o'
    elim progress [
      | none ↦ ok none
      | some p ↦ elim p [
        | quits s o'' ↦ ok (some (s, o''))
        | goes_on frame' s o'' ↦ (do r ← finish cloud info frame' s o''; ok (some r))
      ]
    ]
