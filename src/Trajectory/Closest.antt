-- ===== src/Trajectory/Closest.antt =====
-- The poses that an interpolation takes (`GetClosestPosesIds`), and that it is defined.
use ct_icp_comment.Common.{
  Succeeds->>=, subst, ℕ, zero, suc, ◌≤◌, ◌<◌, ◌≡◌, refl, ◌⊎◌, inl, inr, true, false, ◌&&◌, List,
  [], ◌∷◌, length, get_elem?, get_elem?_total, All, some, Double, Succeeds, arith, ltb, leb,
  Bool-cases, Option-cases,
}
use mathlib.Core.Option.{some-injective}
use ct_icp_comment.Geometry.{Vectors, Quaternions}
use ct_icp_comment.Pose.{Pose, interpolate_pose_alpha}
use ct_icp_comment.Trajectory.{
  Algorithms, LinearContinuousTrajectory, last_index, check_timestamp_consistency, step_back,
  get_closest_poses_ids,
}
use ct_icp_comment.Trajectory.Interpolation.{do_interpolate_pose, interpolate_at}

last_index-lt : {A : Type 0} (xs : List A) → 0 < length xs → last_index xs < length xs
unfolding last_index
last_index-lt [] h = elim h [ ]
last_index-lt (x ∷ xs) h = omega arith

module _ {D V Q : Type 0} ⦃d : Double D⦄ where
  -- The loop ends at the first pose, or at one that is not later than the instant, and not after its start.
  step_back-earlier :
      (ps : List (Pose D V Q)) (t : D) (n : ℕ)
      → (step_back ps t n ≤ n)
        × ((step_back ps t n ≡ 0)
            ⊎ ((p : Pose D V Q)
                → get_elem? ps (step_back ps t n) ≡ some p
                → d.lt t p.dest_timestamp ≡ false))
  unfolding step_back
  step_back-earlier ps t zero = (omega arith, inl refl)
  step_back-earlier ps t (suc n) =
      let (below, stop) = step_back-earlier ps t n in
      elim (Option-cases (get_elem? ps (suc n))) [
        | inl e ↦ rw (e, step_back) (omega arith, inr (λ p f. ground arith))
        | inr (p, e) ↦ elim (Bool-cases (d.lt t p.dest_timestamp)) [
          | inl later ↦ rw (e, step_back, later) (omega arith, stop)
          | inr not_later ↦ rw (e, step_back, not_later) (omega arith, inr (λ r f. ground arith))
        ]
      ]

  -- On a trajectory that is not empty, and for any search that stays in the list, the two closest poses are
  -- found when the instant is clipped: they are poses of the trajectory, in their order.
  pub get_closest_poses_ids_total :
      (a : Algorithms D V Q) (t : LinearContinuousTrajectory D V Q) (timestamp : D)
      → 0 < length t.poses
      → Succeeds
          (λ r. (r.0 ≤ r.1) × (r.1 < length t.poses))
          (get_closest_poses_ids a t timestamp true)
  unfolding get_closest_poses_ids check_timestamp_consistency
  get_closest_poses_ids_total a t timestamp h = ground (
    arith,
    last_index-lt t.poses h,
    step_back-earlier t.poses timestamp
        (a.lower_bound (λ p. d.lt p.dest_timestamp timestamp) t.poses),
  )

module _ {D V Q : Type 0} ⦃d : Double D⦄ ⦃v : Vectors D V⦄ ⦃q : Quaternions D V Q⦄ where
  All-get :
      (P : Pose D V Q → Type 0) (ps : List (Pose D V Q)) (i : ℕ) (p : Pose D V Q)
      → All P ps
      → get_elem? ps i ≡ some p
      → P p
  All-get P [] i p a h = cc
  All-get P (x ∷ xs) zero p a h = subst P (some-injective _ _ h) a.0
  All-get P (x ∷ xs) (suc i) p a h = All-get P xs i p a.1 h

  do_interpolate_pose_total :
      (t : LinearContinuousTrajectory D V Q) (timestamp : D) (r i j : ℕ)
      → i ≤ j
      → j < length t.poses
      → All (λ p. p.ref_frame_id ≡ r) t.poses
      → Succeeds (λ p. p.ref_frame_id ≡ r) (do_interpolate_pose t timestamp i j)
  unfolding do_interpolate_pose interpolate_pose_alpha
  do_interpolate_pose_total t timestamp r i j h k a =
      let (lower, e) = get_elem?_total t.poses i (omega arith) in
      let (upper, f) = get_elem?_total t.poses j k in
      ground (
        arith,
        All-get (λ p. p.ref_frame_id ≡ r) t.poses i lower a e,
        All-get (λ p. p.ref_frame_id ≡ r) t.poses j upper a f,
        e,
        f,
      )

  -- On a trajectory that is not empty and whose poses have one reference frame, every instant has an
  -- interpolated pose when it is clipped, with that reference frame.
  pub interpolate_at_total :
      (a : Algorithms D V Q) (t : LinearContinuousTrajectory D V Q) (timestamp : D) (r : ℕ)
      → 0 < length t.poses
      → All (λ p. p.ref_frame_id ≡ r) t.poses
      → Succeeds (λ p. p.ref_frame_id ≡ r) (interpolate_at a t timestamp true)
  unfolding interpolate_at
  interpolate_at_total a t timestamp r h s =
      Succeeds->>= (λ r. (r.0 ≤ r.1) × (r.1 < length t.poses)) (λ p. p.ref_frame_id ≡ r) _ _
        (get_closest_poses_ids_total a t timestamp h)
        (λ ids b.
          let valid : (ltb ids.1 (length t.poses) && leb ids.0 ids.1) ≡ true =
            ground (arith, b.0, b.1) in
          rw valid (do_interpolate_pose_total t timestamp r ids.0 ids.1 b.0 b.1 s))
