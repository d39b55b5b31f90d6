-- ===== src/Odometry/Motion.antt =====
-- The start of a registration (odometry.cpp): the description of the frame, `InitializeMotion`, the
-- sampling of ct_icp.cpp, and `InitializeFrame` with the motion compensation of the points.
use ct_icp_comment.Common.{
  ℕ, ◌-◌, List, [], ◌∷◌, ◌++◌, length, get_elem?, set, Option, none, some, Double, Outcome, ok,
  fail, ◌>>=◌, ◌>>◌, check, require, empty_frame, bad_index, ltb, leb, if◌then◌else◌, ◌==◌,
}
use ct_icp_comment.Geometry.{Vectors, Quaternions, Se3, se3_identity, se3_inverse, se3_times}
use ct_icp_comment.Pose.{Pose, TrajectoryFrame, pose_at, frame_default}
use ct_icp_comment.Odometry.Options.{
  MotionCompensation, continuous, Initialization, init_none, init_constant_velocity,
}
use ct_icp_comment.Odometry.Kit.{Kit}
use ct_icp_comment.Odometry.State.{Odometry, Options, FrameInfo}

module _ {D : Type 0} ⦃d : Double D⦄ where
  -- the two results of `std::minmax_element`: the first least element and the last greatest one
  unfoldable pub min_max_from : D → D → List D → D × D
  min_max_from lo hi [] = (lo, hi)
  min_max_from lo hi (t ∷ ts) =
      min_max_from (if d.lt t lo then t else lo) (if d.lt t hi then hi else t) ts

  unfoldable pub compute_frame_info : List D → ℕ → Outcome (FrameInfo D)
  unfolding min_max_from
  compute_frame_info [] registered_fid = fail empty_frame
  compute_frame_info (t ∷ ts) registered_fid =
      let (lo, hi) = min_max_from t t ts in
      ok (record {
        registered_fid = registered_fid;
        frame_id = registered_fid;
        begin_timestamp = lo;
        end_timestamp = hi;
      })

module _ {D V Q : Type 0} ⦃d : Double D⦄ ⦃v : Vectors D V⦄ ⦃q : Quaternions D V Q⦄ where
  -- the motion `a * b.Inverse() * a` that takes the step from b to a once more
  abbrev pub step_again : Pose D V Q → Pose D V Q → Se3 D V Q
  step_again a b = se3_times (se3_times a.pose (se3_inverse b.pose)) a.pose

  -- the initial motion of a frame from the two before it
  unfoldable pub extrapolate :
      MotionCompensation
      → Initialization
      → TrajectoryFrame D V Q
      → TrajectoryFrame D V Q
      → Se3 D V Q × Se3 D V Q
  extrapolate continuous init_constant_velocity m1 m2 =
      (step_again m1.begin_pose m2.begin_pose, step_again m1.end_pose m2.end_pose)
  extrapolate _ init_constant_velocity m1 m2 =
      (m1.end_pose.pose, step_again m1.end_pose m2.end_pose)
  extrapolate _ init_none m1 m2 = (m1.end_pose.pose, m1.end_pose.pose)

  -- that of the frame of index 2
  unfoldable pub extrapolate_second :
      Initialization → TrajectoryFrame D V Q → TrajectoryFrame D V Q → Se3 D V Q × Se3 D V Q
  extrapolate_second init_constant_velocity m1 m2 =
      (m1.end_pose.pose, step_again m1.end_pose m2.end_pose)
  extrapolate_second init_none m1 m2 = (m1.begin_pose.pose, m1.begin_pose.pose)

  -- `pose` is replaced, and the instants and frame ids stay
  abbrev pub with_motion : TrajectoryFrame D V Q → Se3 D V Q × Se3 D V Q → TrajectoryFrame D V Q
  with_motion f (b, e) = record {
    begin_pose = record (f.begin_pose) { pose = b };
    end_pose = record (f.end_pose) { pose = e };
  }

  -- the frame at the identity with which `InitializeMotion` starts
  abbrev pub still_frame : FrameInfo D → TrajectoryFrame D V Q
  still_frame info = record {
    begin_pose = pose_at se3_identity info.begin_timestamp info.frame_id;
    end_pose = pose_at se3_identity info.end_timestamp info.frame_id;
  }

module _ {D V Q : Type 0} ⦃d : Double D⦄ ⦃v : Vectors D V⦄ ⦃q : Quaternions D V Q⦄
    (k : Kit D V Q) where
  -- the frame that `InitializeMotion` puts at the index of the new frame
  unfoldable pub predict :
      Options k → List (TrajectoryFrame D V Q) → FrameInfo D → Outcome (TrajectoryFrame D V Q)
  predict o trajectory info =
      let i = info.registered_fid in
      if leb i 1 then ok (still_frame info) else do
        m1 ← require (get_elem? trajectory (i - 1)) bad_index
        m2 ← require (get_elem? trajectory (i - 2)) bad_index
        ok (
            with_motion (still_frame info) (
              if i == 2
              then extrapolate_second o.initialization m1 m2
              else extrapolate o.motion_compensation o.initialization m1 m2))

  unfoldable pub initialize_motion :
      FrameInfo D → Option (TrajectoryFrame D V Q) → Odometry k → Outcome (Odometry k)
  initialize_motion info (some estimate) o =
      ok (record o { trajectory = o.trajectory ++ estimate ∷ [] })
  initialize_motion info none o = do
    let trajectory : List (TrajectoryFrame D V Q) = o.trajectory ++ frame_default ∷ []
    check (ltb info.registered_fid (length trajectory)) bad_index
    f ← predict o.options trajectory info
    ok (record o { trajectory = set trajectory info.registered_fid f })
