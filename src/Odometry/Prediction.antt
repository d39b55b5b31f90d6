-- ===== src/Odometry/Prediction.antt =====
-- `InitializeMotion`: the frame that it appends.
use ct_icp_comment.Odometry.State.{Odometry, Options, FrameInfo}
use ct_icp_comment.Odometry.Kit.{Kit}
use ct_icp_comment.Geometry.{Vectors, Quaternions}
use ct_icp_comment.Pose.{TrajectoryFrame, frame_default, pose_at}
use ct_icp_comment.Common.{
  ◌==◌, lt→ltb, ◌∙◌, ℕ, ◌+◌, ◌-◌, ◌<◌, ◌≡◌, refl, Double, arith, Bool-cases, inl, inr, none, some,
  List, [], ◌∷◌, ◌++◌, length, set, get_elem?, get_elem?_total, get_elem?-append,
  get_elem?-set_self, get_elem?-set_ne, length-set, length-append, leb, if◌then◌else◌, ok,
}
use ct_icp_comment.Odometry.Motion.{
  still_frame, with_motion, predict, initialize_motion, extrapolate, extrapolate_second,
}

module _ {D V Q : Type 0} ⦃d : Double D⦄ ⦃v : Vectors D V⦄ ⦃q : Quaternions D V Q⦄
    (k : Kit D V Q) where
  -- a frame with the instants and the id of the new frame
  pub record IsStamped (info : FrameInfo D) (f : TrajectoryFrame D V Q) : Type 0 where
    pub begin_time : f.begin_pose.dest_timestamp ≡ info.begin_timestamp
    pub end_time : f.end_pose.dest_timestamp ≡ info.end_timestamp
    pub begin_frame : f.begin_pose.dest_frame_id ≡ info.frame_id
    pub end_frame : f.end_pose.dest_frame_id ≡ info.frame_id
    pub reference : f.begin_pose.ref_frame_id ≡ f.end_pose.ref_frame_id

  predict_total :
      (o : Options k) (t : List (TrajectoryFrame D V Q)) (info : FrameInfo D)
      → info.registered_fid < length t
      → (f : TrajectoryFrame D V Q) × (predict k o t info ≡ ok f) × IsStamped info f
  unfolding predict pose_at
  predict_total o t info h = elim (Bool-cases (leb info.registered_fid 1)) [
    | inl e ↦ (still_frame info, ground arith, ground arith)
    | inr e ↦
        let (m1, e1) = get_elem?_total t (info.registered_fid - 1) (omega arith) in
        let (m2, e2) = get_elem?_total t (info.registered_fid - 2) (omega arith) in
        let motion =
          if info.registered_fid == 2
          then extrapolate_second o.initialization m1 m2
          else extrapolate o.motion_compensation o.initialization m1 m2 in
        (with_motion (still_frame info) motion, ground arith, ground arith)
  ]

  -- On a trajectory that has a frame for each index below the new one, `InitializeMotion` without an
  -- estimate is not stopped. It changes only the trajectory, which gets one more frame, with the instants
  -- and the id of the new frame, and whose other frames stay.
  pub initialize_motion_total :
      (info : FrameInfo D) (o : Odometry k)
      → length o.trajectory ≡ info.registered_fid
      → (o' : Odometry k) × (initialize_motion k info none o ≡ ok o')
        × (o' ≡ record o { trajectory = o'.trajectory })
        × (length o'.trajectory ≡ info.registered_fid + 1)
        × ((i : ℕ) → i < info.registered_fid → get_elem? o'.trajectory i ≡ get_elem? o.trajectory i)
        × ((f : TrajectoryFrame D V Q) × (get_elem? o'.trajectory info.registered_fid ≡ some f)
            × IsStamped info f)
  unfolding initialize_motion
  initialize_motion_total info o h =
      let t = o.trajectory ++ frame_default ∷ [] in
      let long : length t ≡ info.registered_fid + 1 =
        length-append o.trajectory (frame_default ∷ []) ∙ omega arith in
      let (f, e, stamped) = predict_total o.options t info (omega arith) in
      (
        record o { trajectory = set t info.registered_fid f },
        rw (lt→ltb info.registered_fid (length t) (omega arith), e),
        refl,
        length-set t info.registered_fid f ∙ long,
        λ i below.
            get_elem?-set_ne t info.registered_fid i f (omega arith)
            ∙ get_elem?-append o.trajectory (frame_default ∷ []) i (omega arith),
        (f, get_elem?-set_self t info.registered_fid f (omega arith), stamped),
      )
