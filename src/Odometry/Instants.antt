-- ===== src/Odometry/Instants.antt =====
-- The least and the greatest instant of a cloud (`compute_frame_info`, src/ct_icp/odometry.cpp), and the
-- frame that a registration puts between them.
use ct_icp_comment.Common.{
  ◌∙◌, missing_name, sym, check, subst, ℕ, ◌≡◌, ◌⊎◌, inl, inr, refl, false, Double, IsOrdered,
  arith, Option, none, some, List, [], ◌∷◌, length, All, map, get_elem?, Outcome-cases, Ensures,
  Finishes, if◌then◌else◌,
}
use ct_icp_comment.Geometry.{Vectors, Quaternions}
use ct_icp_comment.Pose.{TrajectoryFrame}
use ct_icp_comment.Odometry.Kit.{Kit}
use ct_icp_comment.Odometry.State.{Odometry, FrameInfo, PointCloud}
use ct_icp_comment.Odometry.Prediction.{IsStamped}
use ct_icp_comment.Odometry.Motion.{compute_frame_info, min_max_from}
use ct_icp_comment.Odometry.Registration.{register_with}
use ct_icp_comment.Odometry.Stamps.{KeepsStamps, with_frame_id, register_with-HasStamps}
use ct_icp_comment.Registration.Contract.{Ensures-map, Ensures-any}

module _ {D : Type 0} ⦃d : Double D⦄ where
  abbrev pub IsOneOf : D → List D → Type 0
  IsOneOf x [] = ⊥
  IsOneOf x (t ∷ ts) = (x ≡ t) ⊎ IsOneOf x ts

  -- An instant of the list that none of its instants precedes
  abbrev pub IsLeast : List D → D → Type 0
  IsLeast ts x = IsOneOf x ts × All (λ t. d.lt t x ≡ false) ts

  -- An instant of the list that precedes none of its instants
  abbrev pub IsGreatest : List D → D → Type 0
  IsGreatest ts x = IsOneOf x ts × All (λ t. d.lt x t ≡ false) ts

  min_max_from-IsOneOf :
      (lo hi : D) (ts : List D)
      → (((min_max_from lo hi ts).0 ≡ lo) ⊎ IsOneOf (min_max_from lo hi ts).0 ts)
        × (((min_max_from lo hi ts).1 ≡ hi) ⊎ IsOneOf (min_max_from lo hi ts).1 ts)
  unfolding min_max_from
  min_max_from-IsOneOf lo hi [] = (inl refl, inl refl)
  min_max_from-IsOneOf lo hi (t ∷ ts) =
      ground
        (arith, min_max_from-IsOneOf (if d.lt t lo then t else lo) (if d.lt t hi then hi else t) ts)

  module _ (laws : IsOrdered D) where
    open laws use {lt_irrefl, lt_trans, not_lt_trans}

    lower :
        (t lo : D)
        → (d.lt t (if d.lt t lo then t else lo) ≡ false)
          × (d.lt lo (if d.lt t lo then t else lo) ≡ false)
    lower t lo = ground (arith, lt_irrefl t, lt_irrefl lo, lt_trans lo t lo)

    higher :
        (t hi : D)
        → (d.lt (if d.lt t hi then hi else t) t ≡ false)
          × (d.lt (if d.lt t hi then hi else t) hi ≡ false)
    higher t hi = ground (arith, lt_irrefl t, lt_irrefl hi, lt_trans hi t hi)

    min_max_from-bounds :
        (lo hi : D) (ts : List D)
        → let r = min_max_from lo hi ts in
          (d.lt lo r.0 ≡ false)
          × (d.lt r.1 hi ≡ false)
          × All (λ t. d.lt t r.0 ≡ false) ts
          × All (λ t. d.lt r.1 t ≡ false) ts
    unfolding min_max_from
    min_max_from-bounds lo hi [] = (lt_irrefl lo, lt_irrefl hi, tt, tt)
    min_max_from-bounds lo hi (t ∷ ts) =
        let lo' = if d.lt t lo then t else lo in
        let hi' = if d.lt t hi then hi else t in
        let r = min_max_from lo' hi' ts in
        let (below, above, least, greatest) = min_max_from-bounds lo' hi' ts in
        let (t_low, lo_low) = lower t lo in
        let (t_high, hi_high) = higher t hi in
        (
          not_lt_trans lo lo' r.0 lo_low below,
          not_lt_trans r.1 hi' hi above hi_high,
          (not_lt_trans t lo' r.0 t_low below, least),
          (not_lt_trans r.1 hi' t above t_high, greatest),
        )

    compute_frame_info-instants :
        (ts : List D) (n : ℕ)
        → Ensures
            (λ i.
              IsLeast ts i.begin_timestamp
              × IsGreatest ts i.end_timestamp
              × (i.frame_id ≡ n)
              × (i.registered_fid ≡ n))
            (compute_frame_info ts n)
    unfolding compute_frame_info
    compute_frame_info-instants [] n = tt
    compute_frame_info-instants (t ∷ ts) n =
        let (least, greatest) = min_max_from-IsOneOf t t ts in
        let (low, high, lows, highs) = min_max_from-bounds t t ts in
        ((least, (low, lows)), (greatest, (high, highs)), refl, refl)

  -- A frame from the least to the greatest of some instants, both of its poses of one frame id and with
  -- one reference frame
  abbrev pub Spans : {V Q : Type 0} → List D → ℕ → TrajectoryFrame D V Q → Type 0
  Spans ts id f =
      IsLeast ts f.begin_pose.dest_timestamp
      × IsGreatest ts f.end_pose.dest_timestamp
      × (f.begin_pose.dest_frame_id ≡ id)
      × (f.end_pose.dest_frame_id ≡ id)
      × (f.begin_pose.ref_frame_id ≡ f.end_pose.ref_frame_id)

  abbrev pub SpansAt : {V Q : Type 0} → List D → ℕ → ℕ → List (TrajectoryFrame D V Q) → Type 0
  SpansAt {V = V} {Q = Q} ts id n t =
      (f : TrajectoryFrame D V Q) × (get_elem? t n ≡ some f) × Spans ts id f

Finishes-map :
    {A : Type 0} {P S : A → Type 0}
    → ((a : A) → P a → S a)
    → (r : Option A) → Finishes P r
    → Finishes S r
Finishes-map f none h = absurd h
Finishes-map f (some a) h = f a h

-- The frame id of the caller, or else the number of the frame
abbrev pub id_or : Option ℕ → ℕ → ℕ
id_or id n = elim id [ none ↦ n | some i ↦ i ]

module _ {D V Q : Type 0} ⦃d : Double D⦄ ⦃v : Vectors D V⦄ ⦃q : Quaternions D V Q⦄ (k : Kit D V Q)
    (laws : IsOrdered D) where
  IsStamped-Spans :
      (ts : List D) (id : Option ℕ) (n : ℕ) (info : FrameInfo D) (f : TrajectoryFrame D V Q)
      → IsLeast ts info.begin_timestamp
      → IsGreatest ts info.end_timestamp
      → info.frame_id ≡ n
      → IsStamped k (with_frame_id id info) f
      → Spans ts (id_or id n) f
  IsStamped-Spans ts none n info f least greatest e h = (
    subst (IsLeast ts) (sym h.begin_time) least,
    subst (IsGreatest ts) (sym h.end_time) greatest,
    h.begin_frame ∙ e,
    h.end_frame ∙ e,
    h.reference,
  )
  IsStamped-Spans ts (some i) n info f least greatest e h = (
    subst (IsLeast ts) (sym h.begin_time) least,
    subst (IsGreatest ts) (sym h.end_time) greatest,
    h.begin_frame,
    h.end_frame,
    h.reference,
  )

  -- Where the doubles are ordered, `Register` keeps the instants and the frame ids of its frame, and the
  -- trajectory has a frame for each registered one, the registration of a frame without an estimate that
  -- no check stops ends within its fuel. Then the frame of the summary and the new frame of the
  -- trajectory both begin at the least and end at the greatest of the instants of the points; both of
  -- their poses have the frame id of the caller or, without one, the number of frames registered before,
  -- and one reference frame.
  pub register_with-IsStamped :
      (id : Option ℕ) (cloud : PointCloud D V) (m : Option k.MotionModel) (o : Odometry k)
      → KeepsStamps k
      → length o.trajectory ≡ o.registered_frames
      → let ts = map (λ e. e.1) cloud.points in
        let fid = id_or id o.registered_frames in
        Ensures
          (Finishes
            (λ r. Spans ts fid r.0.frame × SpansAt ts fid o.registered_frames r.1.trajectory))
          (register_with k none id cloud m o)
  unfolding register_with
  register_with-IsStamped id cloud m o keeps h =
      let ts = map (λ e. e.1) cloud.points in
      let n = o.registered_frames in
      elim (Outcome-cases (compute_frame_info ts n)) [
        | inr (why, e) ↦ Ensures-any _ (check cloud.has_timestamps missing_name) _ (λ c. rw e tt)
        | inl (info, e) ↦
            let (least, greatest, numbered, _) =
              subst
                (Ensures (λ i.
                  IsLeast ts i.begin_timestamp
                  × IsGreatest ts i.end_timestamp
                  × (i.frame_id ≡ n)
                  × (i.registered_fid ≡ n)))
                e (compute_frame_info-instants laws ts n) in
            let spans = λ (f : TrajectoryFrame D V Q).
              IsStamped-Spans ts id n info f least greatest numbered in
            Ensures-map
              (λ r done.
                Finishes-map (λ s h. (spans s.0.frame h.0, (h.1.0, h.1.1, spans h.1.0 h.1.2))) r
                  done)
              (register_with k none id cloud m o)
              (register_with-HasStamps k id cloud m o info keeps h e)
      ]
