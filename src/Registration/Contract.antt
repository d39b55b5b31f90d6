-- ===== src/Registration/Contract.antt =====
-- What a registration promises to its clients, for the three solvers (src/ct_icp/ct_icp.cpp).
use ct_icp_comment.Common.{
  suc, ◌≡◌, refl, ap, ◌∙◌, inl, inr, List, [], ◌∷◌, length, Outcome, ok, fail, ◌>>=◌, Ensures,
  Outcome-cases,
}
use ct_icp_comment.Pose.{Pose, TrajectoryFrame}
use ct_icp_comment.Registration.Keypoints.{Keypoints, move_all, move_points}

-- A step of a run and what follows it
pub Ensures->>= {μ ν κ} :
    {S : Type μ} {T : Type ν} (P : S → Type κ) (Q : T → Type κ) (m : Outcome S) (f : S → Outcome T)
    → Ensures P m
    → ((s : S) → P s → Ensures Q (f s))
    → Ensures Q (m >>= f)
Ensures->>= P Q (ok s) f p h = h s p
Ensures->>= P Q (fail why) f p h = tt

-- The same where nothing is known of the step
pub Ensures-any {μ ν κ} :
    {S : Type μ} {T : Type ν} (Q : T → Type κ) (m : Outcome S) (f : S → Outcome T)
    → ((s : S) → Ensures Q (f s))
    → Ensures Q (m >>= f)
Ensures-any Q (ok s) f h = h s
Ensures-any Q (fail why) f h = tt

-- What a run ensures and what follows from it
pub Ensures-map {μ κ} :
    {S : Type μ} {P Q : S → Type κ}
    → ((s : S) → P s → Q s)
    → (m : Outcome S) → Ensures P m
    → Ensures Q m
Ensures-map f (ok s) h = f s h
Ensures-map f (fail why) h = tt

module _ {D V : Type 0} where
  -- The world points after a move: as many as before, and the same after the move is made again
  move_all-again :
      (move : V → D → Outcome V) (raws worlds : List V) (ts : List D)
      → Ensures
          (λ ws. (length ws ≡ length worlds) × (move_all move raws ws ts ≡ ok ws))
          (move_all move raws worlds ts)
  unfolding move_all
  move_all-again move [] worlds ts = (refl, refl)
  move_all-again move (r ∷ raws) [] ts = tt
  move_all-again move (r ∷ raws) (w ∷ worlds) [] = tt
  move_all-again move (r ∷ raws) (w ∷ worlds) (t ∷ ts) = elim (Outcome-cases (move r t)) [
    | inr (why, e) ↦ rw e tt
    | inl (point, e) ↦ rw e (
        Ensures->>= _ _ (move_all move raws worlds ts) _ (move_all-again move raws worlds ts)
          (λ ws h. (ap suc h.0, rw (e, h.1) refl)))
  ]

  -- The keypoints of a registration: it moves their world points only.
  pub record SamePoints (k k' : Keypoints D V) : Type 0 where
    pub raws : k'.raw_points ≡ k.raw_points
    pub instants : k'.timestamps ≡ k.timestamps
    pub worlds : length k'.world_points ≡ length k.world_points

  pub SamePoints-refl : (k : Keypoints D V) → SamePoints k k
  SamePoints-refl k = record { raws = refl; instants = refl; worlds = refl }

  pub SamePoints-trans : {a b c : Keypoints D V} → SamePoints a b → SamePoints b c → SamePoints a c
  SamePoints-trans p r = record {
    raws = r.raws ∙ p.raws;
    instants = r.instants ∙ p.instants;
    worlds = r.worlds ∙ p.worlds;
  }

  pub move_points-SamePoints :
      (move : V → D → Outcome V) (k : Keypoints D V)
      → Ensures (λ k'. SamePoints k k' × (move_points move k' ≡ ok k')) (move_points move k)
  unfolding move_points
  move_points-SamePoints move k =
      Ensures->>= _ _ (move_all move k.raw_points k.world_points k.timestamps) _
        (move_all-again move k.raw_points k.world_points k.timestamps)
        (λ ws h. (record { raws = refl; instants = refl; worlds = h.0 }, rw h.1 refl))

module _ {D V Q : Type 0} where
  -- A registration changes the rigid transforms of a frame, and neither its instants nor its frames.
  abbrev pub SamePose : Pose D V Q → Pose D V Q → Type 0
  SamePose p p' =
      (p'.ref_timestamp ≡ p.ref_timestamp)
      × (p'.dest_timestamp ≡ p.dest_timestamp)
      × (p'.ref_frame_id ≡ p.ref_frame_id)
      × (p'.dest_frame_id ≡ p.dest_frame_id)

  abbrev pub SameStamps : TrajectoryFrame D V Q → TrajectoryFrame D V Q → Type 0
  SameStamps f f' = SamePose f.begin_pose f'.begin_pose × SamePose f.end_pose f'.end_pose

  pub SameStamps-refl : (f : TrajectoryFrame D V Q) → SameStamps f f
  SameStamps-refl f = ((refl, refl, refl, refl), (refl, refl, refl, refl))
