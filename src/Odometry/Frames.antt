-- ===== src/Odometry/Frames.antt =====
-- The four functions that register a frame, all of which are `register_with`.
use ct_icp_comment.Common.{
  ◌≤◌, take, fail, ok, Outcome, zero, suc, Outcome, take, ℕ, ◌+◌, ◌<◌, ◌≡◌, refl, Double, arith,
  true, false, Option, none, some, List, [], ◌∷◌, ◌++◌, length, get_elem?, length-set,
  length-append, get_elem?-append, get_elem?-set_ne, get_elem?-set_self, ◌>>=◌, Ensures, Finishes,
}
use ct_icp_comment.Geometry.{Vectors, Quaternions}
use ct_icp_comment.Pose.{TrajectoryFrame, frame_default}
use ct_icp_comment.Odometry.Kit.{Kit}
use ct_icp_comment.Odometry.State.{Odometry, FrameInfo, PointCloud, RegistrationSummary}
use ct_icp_comment.Odometry.Motion.{compute_frame_info, initialize_motion}
use ct_icp_comment.Odometry.Invariant.{corrected, do_register-Registered, do_register-quits}
use ct_icp_comment.Odometry.Pipeline.{do_register}
use ct_icp_comment.Odometry.Registration.{register_with}

module _ {D : Type 0} ⦃d : Double D⦄ where
  pub frame_info-fid :
      (ts : List D) (n : ℕ) → Ensures (λ i. i.registered_fid ≡ n) (compute_frame_info ts n)
  unfolding compute_frame_info
  frame_info-fid [] n = tt
  frame_info-fid (t ∷ ts) n = refl

-- A list that has the elements of another at the indices of that one begins with it.
take-agrees :
    {A : Type 0} (n : ℕ) (t s : List A)
    → length s ≡ n
    → n ≤ length t
    → ((i : ℕ) → i < n → get_elem? t i ≡ get_elem? s i)
    → take n t ≡ s
take-agrees zero t [] h l same = refl
take-agrees zero t (y ∷ s) h l same = absurd (omega arith)
take-agrees (suc n) t [] h l same = absurd (omega arith)
take-agrees (suc n) [] (y ∷ s) h l same = absurd (omega arith)
take-agrees (suc n) (x ∷ t) (y ∷ s) h l same =
    let head : some x ≡ some y = same 0 (omega arith) in
    let tail : take n t ≡ s =
      take-agrees n t s (omega arith) (omega arith) (λ i b. same (suc i) (omega arith)) in
    cc

module _ {D V Q : Type 0} ⦃d : Double D⦄ ⦃v : Vectors D V⦄ ⦃q : Quaternions D V Q⦄
    (k : Kit D V Q) where
  -- The trajectory has a frame for each one that was registered.
  abbrev pub IsValid : Odometry k → Type 0
  IsValid o = length o.trajectory ≡ o.registered_frames

  initialize_motion-length :
      (info : FrameInfo D) (e : Option (TrajectoryFrame D V Q)) (o : Odometry k)
      → Ensures
          (λ b.
            (length b.trajectory ≡ length o.trajectory + 1)
            × (b.registered_frames ≡ o.registered_frames)
            × (b.slam_map ≡ o.slam_map)
            × (b.insertion_tracker ≡ o.insertion_tracker)
            × (b.options ≡ o.options))
          (initialize_motion k info e o)
  unfolding initialize_motion
  initialize_motion-length info (some e) o = ground (arith, length-append o.trajectory (e ∷ []))
  initialize_motion-length info none o =
      grind (arith, length-append o.trajectory (frame_default ∷ []), length-set)

  initialize_motion-earlier :
      (info : FrameInfo D) (e : Option (TrajectoryFrame D V Q)) (o : Odometry k) (i : ℕ)
      → length o.trajectory ≡ info.registered_fid
      → i < info.registered_fid
      → Ensures
          (λ b. get_elem? b.trajectory i ≡ get_elem? o.trajectory i)
          (initialize_motion k info e o)
  unfolding initialize_motion
  initialize_motion-earlier info (some e) o i h l =
      get_elem?-append o.trajectory (e ∷ []) i (omega arith)
  initialize_motion-earlier info none o i h l = grind (
    arith,
    get_elem?-append o.trajectory (frame_default ∷ []) i,
    get_elem?-set_ne (o.trajectory ++ frame_default ∷ []) info.registered_fid i,
  )

  corrected-length :
      (info : FrameInfo D) (s : RegistrationSummary D V Q) (o : Odometry k)
      → length (corrected k info s o) ≡ length o.trajectory
  corrected-length info s o = ground (arith, length-set o.trajectory info.registered_fid s.frame)

  corrected-earlier :
      (info : FrameInfo D) (s : RegistrationSummary D V Q) (o : Odometry k) (i : ℕ)
      → i < info.registered_fid
      → get_elem? (corrected k info s o) i ≡ get_elem? o.trajectory i
  corrected-earlier info s o i h =
      ground (arith, get_elem?-set_ne o.trajectory info.registered_fid i s.frame)

  started-earlier :
      (info : FrameInfo D) (e : Option (TrajectoryFrame D V Q)) (o : Odometry k)
      (cloud : PointCloud D V) (m : Option k.MotionModel) (i : ℕ)
      → length o.trajectory ≡ info.registered_fid
      → i < info.registered_fid
      → Ensures
          (Finishes (λ r. get_elem? r.1.trajectory i ≡ get_elem? o.trajectory i))
          (initialize_motion k info e o >>= do_register k cloud info m)
  started-earlier info e o cloud m i h l = grind (
    arith,
    initialize_motion-earlier info e o i,
    do_register-Registered k cloud info m,
    λ (s : RegistrationSummary D V Q) (b : Odometry k). corrected-earlier info s b i l,
  )

  started-length :
      (info : FrameInfo D) (e : Option (TrajectoryFrame D V Q)) (o : Odometry k)
      (cloud : PointCloud D V) (m : Option k.MotionModel)
      → Ensures
          (Finishes (λ r.
            (length r.1.trajectory ≡ length o.trajectory + 1)
            × (r.1.registered_frames ≡ o.registered_frames)))
          (initialize_motion k info e o >>= do_register k cloud info m)
  started-length info e o cloud m = grind (
    arith,
    initialize_motion-length info e o,
    do_register-Registered k cloud info m,
    corrected-length,
  )

  register_with-earlier :
      (e : Option (TrajectoryFrame D V Q)) (id : Option ℕ) (cloud : PointCloud D V)
      (m : Option k.MotionModel) (o : Odometry k) (i : ℕ)
      → IsValid o
      → i < o.registered_frames
      → Ensures
          (Finishes (λ r. get_elem? r.1.trajectory i ≡ get_elem? o.trajectory i))
          (register_with k e id cloud m o)
  unfolding register_with
  register_with-earlier e none cloud m o i h l =
      let o' : Odometry k = record o { registered_frames = o.registered_frames + 1 } in
      grind (arith, frame_info-fid, λ (a : FrameInfo D). started-earlier a e o' cloud m i)
  register_with-earlier e (some j) cloud m o i h l =
      let o' : Odometry k = record o { registered_frames = o.registered_frames + 1 } in
      grind (
        arith,
        frame_info-fid,
        λ (a : FrameInfo D). started-earlier (record a { frame_id = j }) e o' cloud m i,
      )

  register_with-length :
      (e : Option (TrajectoryFrame D V Q)) (id : Option ℕ) (cloud : PointCloud D V)
      (m : Option k.MotionModel) (o : Odometry k)
      → IsValid o
      → Ensures
          (Finishes (λ r. IsValid r.1 × (r.1.registered_frames ≡ o.registered_frames + 1)))
          (register_with k e id cloud m o)
  unfolding register_with
  register_with-length e none cloud m o h =
      let o' : Odometry k = record o { registered_frames = o.registered_frames + 1 } in
      grind (arith, frame_info-fid, λ (a : FrameInfo D). started-length a e o' cloud m)
  register_with-length e (some j) cloud m o h =
      let o' : Odometry k = record o { registered_frames = o.registered_frames + 1 } in
      grind (
        arith,
        frame_info-fid,
        λ (a : FrameInfo D). started-length (record a { frame_id = j }) e o' cloud m,
      )

  -- Where the trajectory has a frame for each registered one (IsValid), the registration of a frame,
  -- the first one included, with or without an estimate, that no check stops ends within its fuel.
  -- The trajectory then has a frame for each registered one again, one more than before, and its frames
  -- but the last are those that it had, unchanged and in their order.
  pub register_with-IsValid :
      (e : Option (TrajectoryFrame D V Q)) (id : Option ℕ) (cloud : PointCloud D V)
      (m : Option k.MotionModel) (o : Odometry k)
      → IsValid o
      → Ensures
          (Finishes (λ r.
            IsValid r.1
            × (r.1.registered_frames ≡ o.registered_frames + 1)
            × (take o.registered_frames r.1.trajectory ≡ o.trajectory)))
          (register_with k e id cloud m o)
  register_with-IsValid e id cloud m o h =
      combine (register_with k e id cloud m o) (register_with-length e id cloud m o h)
        (λ i l. register_with-earlier e id cloud m o i h l)
    where
      combine :
          (run : Outcome (Option (RegistrationSummary D V Q × Odometry k)))
          → Ensures
              (Finishes (λ r. IsValid r.1 × (r.1.registered_frames ≡ o.registered_frames + 1)))
              run
          → ((i : ℕ)
              → i < o.registered_frames
              → Ensures (Finishes (λ r. get_elem? r.1.trajectory i ≡ get_elem? o.trajectory i)) run)
          → Ensures
              (Finishes (λ r.
                IsValid r.1
                × (r.1.registered_frames ≡ o.registered_frames + 1)
                × (take o.registered_frames r.1.trajectory ≡ o.trajectory)))
              run
      combine (fail why) done before = tt
      combine (ok none) done before = absurd done
      combine (ok (some r)) (valid, n) before = (
        valid,
        n,
        take-agrees o.registered_frames r.1.trajectory o.trajectory h (omega arith) before,
      )

  -- The registration of a frame that no check stops and whose summary shows a success puts the frame of
  -- the summary into the trajectory, where the frame is not the first one and the trajectory had a
  -- frame for each registered one (IsValid).
  pub register_with-frame :
      (e : Option (TrajectoryFrame D V Q)) (id : Option ℕ) (cloud : PointCloud D V)
      (m : Option k.MotionModel) (o : Odometry k)
      → IsValid o
      → 0 < o.registered_frames
      → Ensures
          (Finishes (λ r.
            r.0.success ≡ true → get_elem? r.1.trajectory o.registered_frames ≡ some r.0.frame))
          (register_with k e id cloud m o)
  unfolding register_with
  register_with-frame e id cloud m o h p =
      grind (
        arith, frame_info-fid, initialize_motion-length, do_register-Registered, get_elem?-set_self,
      )

  -- Outside the robust regimen and with `quit_on_error`, the registration of a frame that no check stops
  -- and that fails leaves the map and the insertion tracker as they were.
  pub register_with-quits :
      (e : Option (TrajectoryFrame D V Q)) (id : Option ℕ) (cloud : PointCloud D V)
      (m : Option k.MotionModel) (o : Odometry k)
      → o.options.robust_registration ≡ false
      → o.options.quit_on_error ≡ true
      → Ensures
          (Finishes (λ r.
            r.0.success ≡ false
            → (r.1.slam_map ≡ o.slam_map) × (r.1.insertion_tracker ≡ o.insertion_tracker)))
          (register_with k e id cloud m o)
  unfolding register_with
  register_with-quits e id cloud m o h n =
      grind (arith, initialize_motion-length, do_register-quits)
