-- ===== src/Odometry/Registration.antt =====
-- The functions that register a frame (odometry.cpp): `RegisterFrame` and `RegisterFrameWithEstimate`, on a
-- point cloud or on a vector of points.
use ct_icp_comment.Common.{
  ℕ, ◌+◌, true, List, map, Option, none, some, Double, Outcome, ◌>>=◌, ◌>>◌, check, missing_name,
}
use ct_icp_comment.Geometry.{Vectors, Quaternions, WPoint}
use ct_icp_comment.Pose.{TrajectoryFrame}
use ct_icp_comment.Odometry.Kit.{Kit}
use ct_icp_comment.Odometry.State.{Odometry, FrameInfo, PointCloud, RegistrationSummary}
use ct_icp_comment.Odometry.Motion.{compute_frame_info, initialize_motion}
use ct_icp_comment.Odometry.Pipeline.{do_register}

module _ {D V Q : Type 0} ⦃d : Double D⦄ ⦃v : Vectors D V⦄ ⦃q : Quaternions D V Q⦄
    (k : Kit D V Q) where
  -- the common part of the four functions: `compute_frame_info(timestamps, registered_frames_++)`,
  -- `InitializeMotion` and `DoRegister`. The frame id is that of the caller, if it has one.
  unfoldable pub register_with :
      Option (TrajectoryFrame D V Q)
      → Option ℕ
      → PointCloud D V
      → Option k.MotionModel
      → Odometry k
      → Outcome (Option (RegistrationSummary D V Q × Odometry k))
  register_with estimate frame_id cloud motion_model o = do
    check cloud.has_timestamps missing_name
    info ← compute_frame_info (map (λ e. e.1) cloud.points) o.registered_frames
    let info' : FrameInfo D = record info {
      frame_id = elim frame_id [ none ↦ info.frame_id | some i ↦ i ];
    }
    o' ←
        initialize_motion k info' estimate
          (record o { registered_frames = o.registered_frames + 1 })
    do_register k cloud info' motion_model o'

  -- `WrapVector` on the raw points
  abbrev pub wrap_vector : List (WPoint D V Q) → PointCloud D V
  wrap_vector frame = record {
    points = map (λ p. (p.raw_point, p.timestamp)) frame;
    has_timestamps = true;
  }

  -- `RegisterFrame(frame, frame_id, motion_model)`
  unfoldable pub register_frame :
      PointCloud D V
      → ℕ
      → Option k.MotionModel
      → Odometry k
      → Outcome (Option (RegistrationSummary D V Q × Odometry k))
  register_frame cloud frame_id = register_with none (some frame_id) cloud

  -- `RegisterFrameWithEstimate(frame, initial_estimate, frame_id, motion_model)`
  unfoldable pub register_frame_with_estimate :
      PointCloud D V
      → TrajectoryFrame D V Q
      → ℕ
      → Option k.MotionModel
      → Odometry k
      → Outcome (Option (RegistrationSummary D V Q × Odometry k))
  register_frame_with_estimate cloud estimate frame_id =
      register_with (some estimate) (some frame_id) cloud

  -- `RegisterFrameWithEstimate(frame, initial_estimate, motion_model)` on a vector of points
  unfoldable pub register_points_with_estimate :
      List (WPoint D V Q)
      → TrajectoryFrame D V Q
      → Option k.MotionModel
      → Odometry k
      → Outcome (Option (RegistrationSummary D V Q × Odometry k))
  register_points_with_estimate frame estimate =
      register_with (some estimate) none (wrap_vector frame)

  -- `RegisterFrame(frame, motion_model)` on a vector of points
  unfoldable pub register_points :
      List (WPoint D V Q)
      → Option k.MotionModel
      → Odometry k
      → Outcome (Option (RegistrationSummary D V Q × Odometry k))
  register_points frame = register_with none none (wrap_vector frame)
