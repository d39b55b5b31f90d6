-- ===== src/Odometry/Invariant.antt =====
-- The registration of a frame keeps the trajectory in step with the count of frames, and leaves the
-- earlier frames alone (`DoRegister` and the functions that call it).
use ct_icp_comment.Common.{
  ◌⊎◌, ℕ, zero, suc, ◌≡◌, Double, arith, true, false, Option, none, some, List, set, if◌then◌else◌,
  Ensures, Finishes, ltb,
}
use ct_icp_comment.Geometry.{Vectors, Quaternions, WPoint}
use ct_icp_comment.Pose.{TrajectoryFrame}
use ct_icp_comment.Odometry.Kit.{Kit}
use ct_icp_comment.Odometry.State.{Odometry, Options, FrameInfo, PointCloud, RegistrationSummary}
use ct_icp_comment.Odometry.Assess.{assess_registration, assess_robust}
use ct_icp_comment.Odometry.Register.{initialize_frame}
use ct_icp_comment.Odometry.Attempts.{try_register-same, robust_registration-Finishes}
use ct_icp_comment.Odometry.Insert.{update_map}
use ct_icp_comment.Odometry.Policy.{update_map-tracker}
use ct_icp_comment.Odometry.Pipeline.{
  Progress, goes_on, quits, register_once, choose_motion_model, register_motion, finish,
  do_register, compute_summary_metrics, new_summary,
}

module _ {D V Q : Type 0} ⦃d : Double D⦄ ⦃v : Vectors D V⦄ ⦃q : Quaternions D V Q⦄
    (k : Kit D V Q) where
  -- what the registration proper leaves alone
  pub record IsKept (a b : Odometry k) : Type 0 where
    pub trajectory : b.trajectory ≡ a.trajectory
    pub slam_map : b.slam_map ≡ a.slam_map
    pub tracker : b.insertion_tracker ≡ a.insertion_tracker
    pub registered : b.registered_frames ≡ a.registered_frames
    pub options : b.options ≡ a.options

  -- A registration that goes on succeeded, where a failure would end it.
  abbrev pub Progresses : Odometry k → Progress k → Type 0
  Progresses o (goes_on f s b) =
      IsKept o b
      × (o.options.robust_registration ≡ false → o.options.quit_on_error ≡ true → s.success ≡ true)
  Progresses o (quits s b) = IsKept o b × (s.success ≡ false)

  pub initialize_frame-IsKept :
      (cloud : PointCloud D V) (info : FrameInfo D) (o : Odometry k)
      → Ensures (λ r. IsKept o r.1) (initialize_frame k cloud info o)
  unfolding initialize_frame
  initialize_frame-IsKept cloud info o = ground arith

  assess-success :
      (o : Options k) (s : RegistrationSummary D V Q)
      → (assess_registration k o s).0 ≡ true
      → (assess_registration k o s).1.success ≡ true
  unfolding assess_registration assess_robust
  assess-success o s h = ground arith

  register_once-Progresses :
      (f : List (WPoint D V Q)) (info : FrameInfo D) (i : ℕ) (s : RegistrationSummary D V Q)
      (m : Option k.MotionModel) (o : Odometry k)
      → Ensures (Progresses o) (register_once k f info i s m o)
  unfolding register_once
  register_once-Progresses f info i s m o = grind (arith, try_register-same, assess-success)

  choose-IsKept :
      (i : ℕ) (m : Option k.MotionModel) (o : Odometry k)
      → Ensures (λ r. IsKept o r.1) (choose_motion_model k i m o)
  unfolding choose_motion_model
  choose-IsKept i none o = ground arith
  choose-IsKept i (some m) o = ground arith

  register_motion-Progresses :
      (f : List (WPoint D V Q)) (info : FrameInfo D) (s : RegistrationSummary D V Q)
      (m : Option k.MotionModel) (o : Odometry k)
      → s.success ≡ true
      → Ensures (Finishes (Progresses o)) (register_motion k f info s m o)
  unfolding register_motion
  register_motion-Progresses f info s m o h =
      grind (arith, choose-IsKept, register_once-Progresses, robust_registration-Finishes)

  pub metrics-frame :
      (t : List (TrajectoryFrame D V Q)) (i : ℕ) (s : RegistrationSummary D V Q)
      → Ensures (λ r. (r.frame ≡ s.frame) × (r.success ≡ s.success)) (compute_summary_metrics t i s)
  unfolding compute_summary_metrics
  metrics-frame t zero s = ground arith
  metrics-frame t (suc i) s = ground arith

  pub update_map-frame :
      (s : RegistrationSummary D V Q) (fid : ℕ) (o : Odometry k)
      → Ensures (λ r. (r.0.frame ≡ s.frame) × (r.0.success ≡ s.success)) (update_map k s fid o)
  unfolding update_map
  update_map-frame s fid o = ground arith

  -- the trajectory with the frame of the summary at the new index
  abbrev pub corrected :
      FrameInfo D → RegistrationSummary D V Q → Odometry k → List (TrajectoryFrame D V Q)
  corrected info s o =
      if ltb 0 info.registered_fid
      then set o.trajectory info.registered_fid s.frame
      else o.trajectory

  finish-trajectory :
      (cloud : PointCloud D V) (info : FrameInfo D) (f : List (WPoint D V Q))
      (s : RegistrationSummary D V Q) (o : Odometry k)
      → Ensures
          (λ r.
            (r.1.trajectory ≡ corrected info s o)
            × (r.1.registered_frames ≡ o.registered_frames)
            × (r.0.frame ≡ s.frame)
            × (r.0.success ≡ s.success))
          (finish k cloud info f s o)
  unfolding finish
  finish-trajectory cloud info f s o =
      grind (arith, metrics-frame, update_map-frame, update_map-tracker)

  -- what `DoRegister` leaves: the trajectory differs at the new index alone, where it has the frame of a
  -- summary that shows a success
  abbrev pub Registered : FrameInfo D → Odometry k → RegistrationSummary D V Q × Odometry k → Type 0
  Registered info o r =
      (r.1.registered_frames ≡ o.registered_frames)
      × ((r.1.trajectory ≡ corrected info r.0 o)
          ⊎ ((r.1.trajectory ≡ o.trajectory) × (r.0.success ≡ false)))

  pub do_register-Registered :
      (cloud : PointCloud D V) (info : FrameInfo D) (m : Option k.MotionModel) (o : Odometry k)
      → Ensures (Finishes (Registered info o)) (do_register k cloud info m o)
  unfolding do_register new_summary
  do_register-Registered cloud info m o =
      grind (arith, initialize_frame-IsKept, register_motion-Progresses, finish-trajectory)

  -- Outside the robust regimen, with `quit_on_error`: a summary without success leaves the map, the
  -- trajectory and the insertion tracker.
  pub do_register-quits :
      (cloud : PointCloud D V) (info : FrameInfo D) (m : Option k.MotionModel) (o : Odometry k)
      → o.options.robust_registration ≡ false
      → o.options.quit_on_error ≡ true
      → Ensures
          (Finishes (λ r.
            r.0.success ≡ false
            → (r.1.slam_map ≡ o.slam_map)
              × (r.1.trajectory ≡ o.trajectory)
              × (r.1.insertion_tracker ≡ o.insertion_tracker)))
          (do_register k cloud info m o)
  unfolding do_register new_summary
  do_register-quits cloud info m o h n =
      grind (arith, initialize_frame-IsKept, register_motion-Progresses, finish-trajectory)
