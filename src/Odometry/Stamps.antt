-- ===== src/Odometry/Stamps.antt =====
-- The instants and the frame ids of the frame that a registration puts into the trajectory
-- (src/ct_icp/odometry.cpp).
use ct_icp_comment.Common.{
  missing_name, check, ◌∷◌, ◌∙◌, sym, ℕ, zero, suc, ◌+◌, ◌≡◌, Double, arith, Option, none, some,
  List, [], ◌∷◌, ℤ, pos_part, get_elem?, get_last?, subst, inl, inr, Bool-cases, get_elem?-set_self,
  fail, Ensures, Finishes, length, Outcome, ok, map, ltb,
}
use ct_icp_comment.Geometry.{Vectors, Quaternions, WPoint}
use ct_icp_comment.Pose.{TrajectoryFrame}
use ct_icp_comment.Odometry.Kit.{Kit}
use ct_icp_comment.Odometry.Options.{IcpOptions}
use ct_icp_comment.Odometry.State.{Odometry, Options, FrameInfo, PointCloud, RegistrationSummary}
use ct_icp_comment.Odometry.Attempt.{
  raise_level, new_attempt, Attempt, increase_robustness_level, set_robust_level,
}
use ct_icp_comment.Odometry.Assess.{assess_registration, assess_robust}
use ct_icp_comment.Odometry.Register.{try_register}
use ct_icp_comment.Odometry.Robust.{
  attempt_metrics, run_attempt, attempt_loop, attempt_fuel, first_attempt, count_failure,
  robust_registration,
}
use ct_icp_comment.Odometry.Prediction.{IsStamped, initialize_motion_total}
use ct_icp_comment.Odometry.Motion.{compute_frame_info}
use ct_icp_comment.Odometry.Registration.{register_with}
use ct_icp_comment.Odometry.Frames.{frame_info-fid}
use ct_icp_comment.Registration.Contract.{SameStamps, Ensures-map, Ensures-any}
use ct_icp_comment.Odometry.Invariant.{
  Registered, do_register-Registered, corrected, metrics-frame, update_map-frame,
  initialize_frame-IsKept,
}
use ct_icp_comment.Odometry.Pipeline.{
  Progress, goes_on, quits, register_once, register_motion, finish, do_register, new_summary,
}

-- What holds of a value, where there is one
abbrev WhenSome : {A : Type 0} → (A → Type 0) → Option A → Type 0
WhenSome P none = Unit
WhenSome P (some x) = P x

module _ {D V Q : Type 0} ⦃d : Double D⦄ ⦃v : Vectors D V⦄ ⦃q : Quaternions D V Q⦄ (k : Kit D V Q)
    (P : TrajectoryFrame D V Q → Type 0)
    (kept : (icp : IcpOptions D) (m : k.SlamMap) (points : List (WPoint D V Q))
        (f : TrajectoryFrame D V Q) (model : Option k.MotionModel) (strategy : k.Strategy)
      → P f
      → Ensures (λ r. P r.2) (k.register icp m points f model strategy)) where
  try_register-keeps :
      (frame : List (WPoint D V Q)) (info : FrameInfo D) (icp : IcpOptions D)
      (s : RegistrationSummary D V Q) (size : D) (m : Option k.MotionModel) (o : Odometry k)
      → P s.frame
      → Ensures (λ r. P r.2.frame) (try_register k frame info icp s size m o)
  unfolding try_register
  try_register-keeps frame info icp s size m o h = grind (arith, kept)

  metrics_frame :
      (i : ℕ) (t : List (TrajectoryFrame D V Q)) (s : RegistrationSummary D V Q)
      → Ensures (λ r. r.frame ≡ s.frame) (attempt_metrics k i t s)
  unfolding attempt_metrics
  metrics_frame zero t s = ground arith
  metrics_frame (suc i) t s = ground arith

  assess_frame :
      (o : Options k) (s : RegistrationSummary D V Q)
      → (assess_registration k o s).1.frame ≡ s.frame
  unfolding assess_registration assess_robust
  assess_frame o s = ground arith

  run_attempt-keeps :
      (info : FrameInfo D) (m : Option k.MotionModel) (frame : List (WPoint D V Q)) (a : Attempt k)
      (o : Odometry k)
      → P a.summary.frame
      → P a.initial_estimate
      → Ensures (λ r. P r.2.summary.frame × P r.2.initial_estimate) (run_attempt k info m frame a o)
  unfolding run_attempt
  run_attempt-keeps info m frame a o h e =
      grind (arith, try_register-keeps, metrics_frame, assess_frame)

  attempt_loop-keeps :
      (fuel : ℕ) (info : FrameInfo D) (m : Option k.MotionModel) (frame : List (WPoint D V Q))
      (a : Attempt k) (o : Odometry k)
      → P a.summary.frame
      → P a.initial_estimate
      → Ensures (WhenSome (λ r. P r.1.summary.frame)) (attempt_loop k fuel info m frame a o)
  unfolding attempt_loop increase_robustness_level
  attempt_loop-keeps zero info m frame a o h e = tt
  attempt_loop-keeps (suc fuel) info m frame a o h e = grind (
    arith,
    run_attempt-keeps info m frame a o,
    λ (frame' : List (WPoint D V Q)) (a' : Attempt k) (o' : Odometry k).
        attempt_loop-keeps fuel info m frame' (increase_robustness_level k a') o',
  )

  raise_level-keeps :
      (fuel : ℕ) (level : ℤ) (a : Attempt k)
      → P a.summary.frame
      → P a.initial_estimate
      → P (raise_level k fuel level a).summary.frame
        × P (raise_level k fuel level a).initial_estimate
  unfolding raise_level increase_robustness_level
  raise_level-keeps zero level a h e = (h, e)
  raise_level-keeps (suc fuel) level a h e =
      ground (arith, raise_level-keeps fuel level (increase_robustness_level k a))

  first_attempt-keeps :
      (info : FrameInfo D) (s : RegistrationSummary D V Q) (o : Odometry k)
      → P s.frame
      → P (first_attempt k info s o).summary.frame × P (first_attempt k info s o).initial_estimate
  unfolding first_attempt set_robust_level new_attempt
  first_attempt-keeps info s o h = ground (
    arith,
    raise_level-keeps (pos_part o.next_robust_level) o.next_robust_level
        (new_attempt k info.registered_fid o.options (record s { number_of_attempts = 0 })),
  )

  -- A registration that goes on, or that is ended, has a frame of the kind of the estimate.
  abbrev HasFrame : Progress k → Type 0
  HasFrame (goes_on f s b) = P s.frame
  HasFrame (quits s b) = P s.frame

  register_once-keeps :
      (f : List (WPoint D V Q)) (info : FrameInfo D) (i : ℕ) (s : RegistrationSummary D V Q)
      (m : Option k.MotionModel) (o : Odometry k)
      → P s.frame
      → Ensures HasFrame (register_once k f info i s m o)
  unfolding register_once
  register_once-keeps f info i s m o h = grind (arith, try_register-keeps, assess_frame)

  robust_registration-keeps :
      (frame : List (WPoint D V Q)) (info : FrameInfo D) (s : RegistrationSummary D V Q)
      (m : Option k.MotionModel) (o : Odometry k)
      → P s.frame
      → Ensures (WhenSome (λ r. P r.1.frame)) (robust_registration k frame info s m o)
  unfolding robust_registration count_failure
  robust_registration-keeps frame info s m o h = grind (
    arith,
    first_attempt-keeps info s o,
    attempt_loop-keeps (attempt_fuel k o.options) info m frame (first_attempt k info s o) o,
  )

  register_motion-keeps :
      (f : List (WPoint D V Q)) (info : FrameInfo D) (s : RegistrationSummary D V Q)
      (m : Option k.MotionModel) (o : Odometry k)
      → P s.frame
      → Ensures (WhenSome HasFrame) (register_motion k f info s m o)
  unfolding register_motion
  register_motion-keeps f info s m o h =
      grind (arith, register_once-keeps, robust_registration-keeps)

  finish_frame :
      (cloud : PointCloud D V) (info : FrameInfo D) (f : List (WPoint D V Q))
      (s : RegistrationSummary D V Q) (o : Odometry k)
      → Ensures (λ r. r.0.frame ≡ s.frame) (finish k cloud info f s o)
  unfolding finish
  finish_frame cloud info f s o = grind (arith, metrics-frame, update_map-frame)

  do_register-keeps :
      (cloud : PointCloud D V) (info : FrameInfo D) (m : Option k.MotionModel) (o : Odometry k)
      → WhenSome P (get_last? o.trajectory)
      → Ensures (WhenSome (λ r. P r.0.frame)) (do_register k cloud info m o)
  unfolding do_register new_summary
  do_register-keeps cloud info m o h =
      grind (arith, initialize_frame-IsKept, register_motion-keeps, finish_frame)

module _ {D V Q : Type 0} where
  -- `Register` changes neither the instants nor the frame ids of the frame that it is given.
  abbrev pub KeepsStamps : Kit D V Q → Type 0
  KeepsStamps k =
      (icp : IcpOptions D) (m : k.SlamMap) (points : List (WPoint D V Q))
      (f : TrajectoryFrame D V Q) (model : Option k.MotionModel) (strategy : k.Strategy)
      → Ensures (λ r. SameStamps f r.2) (k.register icp m points f model strategy)

-- The description of a frame with the frame id of the caller, if there is one
abbrev pub with_frame_id : {D : Type 0} → Option ℕ → FrameInfo D → FrameInfo D
with_frame_id id info = record info { frame_id = elim id [ none ↦ info.frame_id | some i ↦ i ] }

module _ {D V Q : Type 0} ⦃d : Double D⦄ ⦃v : Vectors D V⦄ ⦃q : Quaternions D V Q⦄
    (k : Kit D V Q) where
  SameStamps-IsStamped :
      (info : FrameInfo D) (f g : TrajectoryFrame D V Q)
      → IsStamped k info f
      → SameStamps f g
      → IsStamped k info g
  SameStamps-IsStamped info f g h e = record {
    begin_time = e.0.1 ∙ h.begin_time;
    end_time = e.1.1 ∙ h.end_time;
    begin_frame = e.0.3 ∙ h.begin_frame;
    end_frame = e.1.3 ∙ h.end_frame;
    reference = e.0.2 ∙ h.reference ∙ sym e.1.2;
  }

  -- The frame at an index of a trajectory has the instants and the id of a new frame.
  abbrev pub HasStamps : FrameInfo D → ℕ → List (TrajectoryFrame D V Q) → Type 0
  HasStamps info n t = (f : TrajectoryFrame D V Q) × (get_elem? t n ≡ some f) × IsStamped k info f

  new_frame-last :
      (t : List (TrajectoryFrame D V Q)) (i : ℕ) (f : TrajectoryFrame D V Q)
      → length t ≡ i + 1
      → get_elem? t i ≡ some f
      → get_last? t ≡ some f
  new_frame-last [] i f long e = absurd (omega arith)
  new_frame-last (x ∷ []) i f long e = ground arith
  new_frame-last (x ∷ y ∷ ys) zero f long e = absurd (omega arith)
  new_frame-last (x ∷ y ∷ ys) (suc i) f long e = new_frame-last (y ∷ ys) i f (omega arith) e

  corrected-HasStamps :
      (info : FrameInfo D) (s : RegistrationSummary D V Q) (o : Odometry k)
      → length o.trajectory ≡ info.registered_fid + 1
      → HasStamps info info.registered_fid o.trajectory
      → IsStamped k info s.frame
      → HasStamps info info.registered_fid (corrected k info s o)
  corrected-HasStamps info s o long before h = elim (Bool-cases (ltb 0 info.registered_fid)) [
    | inl e ↦
        rw e (s.frame, get_elem?-set_self o.trajectory info.registered_fid s.frame (omega arith), h)
    | inr e ↦ rw e before
  ]

  do_register-HasStamps :
      (cloud : PointCloud D V) (info : FrameInfo D) (m : Option k.MotionModel) (o : Odometry k)
      → KeepsStamps k
      → length o.trajectory ≡ info.registered_fid + 1
      → HasStamps info info.registered_fid o.trajectory
      → Ensures
          (Finishes
            (λ r. IsStamped k info r.0.frame × HasStamps info info.registered_fid r.1.trajectory))
          (do_register k cloud info m o)
  do_register-HasStamps cloud info m o keeps long before =
      let (f, e, stamped) = before in
      let last : WhenSome (IsStamped k info) (get_last? o.trajectory) =
        subst (WhenSome (IsStamped k info))
          (sym (new_frame-last o.trajectory info.registered_fid f long e)) stamped in
      let kept =
        do_register-keeps k (IsStamped k info)
          (λ icp map points g model strategy h.
            Ensures-map (λ r same. SameStamps-IsStamped info g r.2 h same)
              (k.register icp map points g model strategy) (keeps icp map points g model strategy))
          cloud info m o last in
      both (do_register k cloud info m o) (do_register-Registered k cloud info m o) kept
    where
      both :
          (run : Outcome (Option (RegistrationSummary D V Q × Odometry k)))
          → Ensures (Finishes (Registered k info o)) run
          → Ensures (WhenSome (λ r. IsStamped k info r.0.frame)) run
          → Ensures
              (Finishes (λ r.
                IsStamped k info r.0.frame × HasStamps info info.registered_fid r.1.trajectory))
              run
      both (fail why) done kept = tt
      both (ok none) done kept = absurd done
      both (ok (some r)) (n, inl e) kept = (
        kept,
        subst (HasStamps info info.registered_fid) (sym e)
            (corrected-HasStamps info r.0 o long before kept),
      )
      both (ok (some r)) (n, inr e) kept =
          (kept, subst (HasStamps info info.registered_fid) (sym e.0) before)

  -- The frame of the summary and the new frame of the trajectory have the instants of the description
  -- of the cloud and its frame id, or the caller's.
  pub register_with-HasStamps :
      (id : Option ℕ) (cloud : PointCloud D V) (m : Option k.MotionModel) (o : Odometry k)
      (info : FrameInfo D)
      → KeepsStamps k
      → length o.trajectory ≡ o.registered_frames
      → compute_frame_info (map (λ e. e.1) cloud.points) o.registered_frames ≡ ok info
      → Ensures
          (Finishes (λ r.
            IsStamped k (with_frame_id id info) r.0.frame
            × HasStamps (with_frame_id id info) o.registered_frames r.1.trajectory))
          (register_with k none id cloud m o)
  unfolding register_with
  register_with-HasStamps id cloud m o info keeps h e =
      let info' : FrameInfo D = with_frame_id id info in
      let fid : info.registered_fid ≡ o.registered_frames =
        subst (Ensures (λ i. i.registered_fid ≡ o.registered_frames)) e
          (frame_info-fid (map (λ e. e.1) cloud.points) o.registered_frames) in
      let started =
        initialize_motion_total k info' (record o { registered_frames = o.registered_frames + 1 })
          (h ∙ sym fid) in
      Ensures-any _ (check cloud.has_timestamps missing_name) _ (λ checked.
        rw (e, started.1)
          (subst
            (λ n.
              Ensures
                (Finishes (λ r. IsStamped k info' r.0.frame × HasStamps info' n r.1.trajectory))
                (do_register k cloud info' m started.0))
            fid (do_register-HasStamps cloud info' m started.0 keeps started.3 started.5)))
