-- ===== src/Trajectory/Consistency.antt =====
-- The check of a trajectory and the bounds that `Create` stores.
use ct_icp_comment.Common.{
  refl, Option-cases, Outcome-cases, empty_frame, ℕ, ◌≡◌, ◌⊎◌, ◌↔◌, inl, inr, Bool, true, false,
  List, [], ◌∷◌, get_elem?, All, Double, IsOrdered, ok, fail, Ensures, arith, if◌then◌else◌,
}
use ct_icp_comment.Pose.{Pose}
use ct_icp_comment.Trajectory.{
  Algorithms, LinearContinuousTrajectory, check_poses, check_consistency, min_max_timestamps,
  create, checked,
}

module _ {D : Type 0} ⦃d : Double D⦄ (laws : IsOrdered D) where
  open laws use {lt_irrefl, lt_trans}

  least_of_two :
      (a b : D)
      → (d.lt a (if d.lt a b then a else b) ≡ false) × (d.lt b (if d.lt a b then a else b) ≡ false)
  least_of_two a b = ground (arith, lt_irrefl a, lt_irrefl b, lt_trans b a b)

  greatest_of_two :
      (a b : D)
      → (d.lt (if d.lt b a then a else b) a ≡ false) × (d.lt (if d.lt b a then a else b) b ≡ false)
  greatest_of_two a b = ground (arith, lt_irrefl a, lt_irrefl b, lt_trans b a b)

module _ {D V Q : Type 0} ⦃d : Double D⦄ where
  -- Every pose after the first has the reference frame, and is of the frame of the pose before it or not
  -- earlier.
  abbrev pub AreLinked : ℕ → Pose D V Q → List (Pose D V Q) → Type 0
  AreLinked reference previous [] = Unit
  AreLinked reference previous (p ∷ ps) =
      (p.ref_frame_id ≡ reference)
      × ((p.dest_frame_id ≡ previous.dest_frame_id)
          ⊎ (d.le previous.dest_timestamp p.dest_timestamp ≡ true))
      × AreLinked reference p ps

  abbrev pub IsConsistent : LinearContinuousTrajectory D V Q → Type 0
  IsConsistent t = elim t.poses [ [] ↦ ⊥ | p ∷ ps ↦ AreLinked t.reference_frame p ps ]

  abbrev pub IsBounded : LinearContinuousTrajectory D V Q → Type 0
  IsBounded t =
      All
        (λ p.
          (d.lt p.dest_timestamp t.min_timestamp ≡ false)
          × (d.lt t.max_timestamp p.dest_timestamp ≡ false))
        t.poses

  check_poses_iff :
      (reference : ℕ) (previous : Pose D V Q) (ps : List (Pose D V Q))
      → (check_poses reference previous ps ≡ ok tt) ↔ AreLinked reference previous ps
  unfolding check_poses
  check_poses_iff reference previous [] = ground arith
  check_poses_iff reference previous (p ∷ ps) = ground (arith, check_poses_iff reference p ps)

  check_front_iff :
      (reference : ℕ) (poses : List (Pose D V Q))
      → ((elim poses [ [] ↦ fail empty_frame | p ∷ ps ↦ check_poses reference p ps ]) ≡ ok tt)
        ↔ (elim poses [ [] ↦ ⊥ | p ∷ ps ↦ AreLinked reference p ps ])
  check_front_iff reference [] = ground arith
  check_front_iff reference (p ∷ ps) = check_poses_iff reference p ps

  checked-IsBounded :
      (consistent : Bool) (t : LinearContinuousTrajectory D V Q)
      → IsBounded t
      → Ensures IsBounded (checked consistent t)
  unfolding checked
  checked-IsBounded true t h = elim (Outcome-cases (check_consistency t)) [
    | inl (done, e) ↦ rw e h
    | inr (why, e) ↦ rw e tt
  ]
  checked-IsBounded false t h = h

  -- `CheckConsistency` passes exactly the trajectories that are not empty and whose poses, after the first,
  -- have the reference frame and are each of the frame of the pose before or not earlier.
  pub check_consistency_iff :
      (t : LinearContinuousTrajectory D V Q) → (check_consistency t ≡ ok tt) ↔ IsConsistent t
  unfolding check_consistency
  check_consistency_iff t = check_front_iff t.reference_frame t.poses

  -- What `Create` with its check makes of poses that are linked once they are sorted
  pub create-AreLinked :
      (a : Algorithms D V Q) (poses : List (Pose D V Q)) (first : Pose D V Q)
      (rest : List (Pose D V Q))
      → a.sort poses ≡ first ∷ rest
      → AreLinked first.ref_frame_id first rest
      → (t : LinearContinuousTrajectory D V Q) × (create a poses true ≡ ok t)
        × (t.poses ≡ first ∷ rest)
  unfolding create checked check_consistency
  create-AreLinked a poses first rest sorted linked =
      rw (sorted, (check_poses_iff first.ref_frame_id first rest).1 linked) (_, refl, refl)

  module _ (laws : IsOrdered D) where
    open laws use {lt_irrefl, lt_trans, not_lt_trans}

    min_max_timestamps-bounds :
        (lo hi : D) (ps : List (Pose D V Q))
        → let r = min_max_timestamps lo hi ps in
          (d.lt lo r.0 ≡ false)
          × (d.lt r.1 hi ≡ false)
          × All (λ p. (d.lt p.dest_timestamp r.0 ≡ false) × (d.lt r.1 p.dest_timestamp ≡ false)) ps
    unfolding min_max_timestamps
    min_max_timestamps-bounds lo hi [] = (lt_irrefl lo, lt_irrefl hi, tt)
    min_max_timestamps-bounds lo hi (p ∷ ps) =
        let t = p.dest_timestamp in
        let lo' = if d.lt t lo then t else lo in
        let hi' = if d.lt hi t then t else hi in
        let r = min_max_timestamps lo' hi' ps in
        let (below, above, rest) = min_max_timestamps-bounds lo' hi' ps in
        let least = least_of_two laws t lo in
        let greatest = greatest_of_two laws t hi in
        (
          not_lt_trans lo lo' r.0 least.1 below,
          not_lt_trans r.1 hi' hi above greatest.1,
          ((not_lt_trans t lo' r.0 least.0 below, not_lt_trans r.1 hi' t above greatest.0), rest),
        )

    -- Where the doubles are ordered, a trajectory that `Create` returns has all its poses between its least
    -- and its greatest instant.
    pub create-bounds :
        (a : Algorithms D V Q) (poses : List (Pose D V Q)) (consistent : Bool)
        → Ensures IsBounded (create a poses consistent)
    unfolding create
    create-bounds a poses consistent =
        let sorted = min_max_timestamps-bounds a.largest a.smallest (a.sort poses) in
        elim (Option-cases (get_elem? (a.sort poses) 0)) [
          | inl e ↦ rw e tt
          | inr (front, e) ↦ rw e (checked-IsBounded consistent _ sorted.2)
        ]
