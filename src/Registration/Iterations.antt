-- ===== src/Registration/Iterations.antt =====
-- The rounds of the solvers `DoRegisterCeres` and `DoRegisterRobust` (src/ct_icp/ct_icp.cpp).
use ct_icp_comment.Common.{
  ℕ, ◌≡◌, inl, inr, true, false, Option, arith, if◌then◌else◌, Bool-cases, pos, ltb_ℤ, leb_ℤ,
  Outcome, ok, Ensures, Finishes, Double,
}
use ct_icp_comment.Geometry.{Vectors, Quaternions}
use ct_icp_comment.Pose.{TrajectoryFrame}
use ct_icp_comment.Registration.{RegistrationOptions}
use ct_icp_comment.Registration.Builder.{Problem, init_problem, add_parameter_blocks, get_problem}
use ct_icp_comment.Registration.Rounds.{Round, short, KeepsRound}
use ct_icp_comment.Registration.Keypoints.{
  Keypoints, transform_key_points, normalize_frame, stop_criterion,
}
use ct_icp_comment.Registration.Tools.{
  Tools, SolverState, solve_frame, end_round, distort_if, is_converged,
}
use ct_icp_comment.Registration.Contract.{
  Ensures->>=, Ensures-any, SamePoints, SamePoints-trans, move_points-SamePoints, SameStamps,
}
use ct_icp_comment.Registration.CeresSolver.{ceres_round, finish_round, add_keypoints}
use ct_icp_comment.Registration.RobustSolver.{
  robust_round, finish_robust_round, add_robust_keypoints,
}
use ct_icp_comment.MotionModel.{MotionModel}

module _ {D V Q : Type 0} ⦃d : Double D⦄ ⦃v : Vectors D V⦄ ⦃q : Quaternions D V Q⦄ (t : Tools D V Q)
    (o : RegistrationOptions D) (k : Keypoints D V) (f : TrajectoryFrame D V Q) where
  -- The state of a solver that was given the keypoints `k` and the frame `f`
  pub record IsOf (s : SolverState D V Q) : Type 0 where
    pub points : SamePoints k s.keypoints
    pub stamps : SameStamps f s.frame

  -- The last round found enough residuals.
  abbrev pub HasResiduals : SolverState D V Q → Type 0
  HasResiduals s = Finishes (λ n. leb_ℤ o.min_number_neighbors (pos n) ≡ true) s.number_of_residuals

  abbrev pub LacksResiduals : ℕ → SolverState D V Q → Type 0
  LacksResiduals n s = IsOf s × (ltb_ℤ (pos n) o.min_number_neighbors ≡ true)

  solve_frame-SameStamps :
      (problem : Problem D V Q) (g : TrajectoryFrame D V Q)
      → SameStamps f g
      → Ensures (SameStamps f) (solve_frame t o problem g)
  unfolding solve_frame
  solve_frame-SameStamps problem g h = ground arith

  end_round-Keeps :
      (s : SolverState D V Q) (g : TrajectoryFrame D V Q) (count : ℕ)
      → IsOf s
      → SameStamps f g
      → ltb_ℤ (pos count) o.min_number_neighbors ≡ false
      → Ensures (KeepsRound IsOf HasResiduals LacksResiduals) (end_round o s g count)
  unfolding end_round
  end_round-Keeps s g count h stamps enough = Ensures-any _ (stop_criterion s.previous g) _ (λ diff.
      Ensures-any _ (distort_if o g s.keypoints s.builder) _ (λ b.
        elim (Bool-cases (is_converged o diff)) [
          | inl e ↦ rw e (record { points = h.points; stamps = stamps }, ground arith)
          | inr e ↦ rw e (record { points = h.points; stamps = stamps }, ground arith)
        ]))

  -- The end of a round from the state after its residuals
  finish_round-Keeps :
      (s : SolverState D V Q) (problem : Problem D V Q) (count : ℕ)
      → IsOf s
      → ltb_ℤ (pos count) o.min_number_neighbors ≡ false
      → Ensures (KeepsRound IsOf HasResiduals LacksResiduals) (finish_round t o s problem count)
  unfolding finish_round
  finish_round-Keeps s problem count h enough =
      Ensures->>= (SameStamps f) _ (solve_frame t o problem s.frame) _
        (solve_frame-SameStamps problem s.frame h.stamps)
        (λ g stamps. end_round-Keeps s (normalize_frame g) count h stamps enough)

  finish_robust_round-Keeps :
      (s : SolverState D V Q) (problem : Problem D V Q) (count : ℕ)
      → IsOf s
      → ltb_ℤ (pos count) o.min_number_neighbors ≡ false
      → Ensures
          (KeepsRound IsOf HasResiduals LacksResiduals)
          (finish_robust_round t o s problem count)
  unfolding finish_robust_round
  finish_robust_round-Keeps s problem count h enough =
      Ensures->>= (SameStamps f) _ (solve_frame t o problem s.frame) _
        (solve_frame-SameStamps problem s.frame h.stamps)
        (λ g stamps. end_round-Keeps s g count h stamps enough)

  -- The test on the number of residuals
  enough-Keeps :
      (count : ℕ) (s : SolverState D V Q) (next : Outcome (Round (SolverState D V Q)))
      → IsOf s
      → (ltb_ℤ (pos count) o.min_number_neighbors ≡ false
          → Ensures (KeepsRound IsOf HasResiduals LacksResiduals) next)
      → Ensures
          (KeepsRound IsOf HasResiduals LacksResiduals)
          (if ltb_ℤ (pos count) o.min_number_neighbors then ok (short count s) else next)
  enough-Keeps count s next h more = elim (Bool-cases (ltb_ℤ (pos count) o.min_number_neighbors)) [
    | inl e ↦ rw e (h, e)
    | inr e ↦ rw e (more e)
  ]

  transformed-SamePoints :
      (s : SolverState D V Q)
      → IsOf s
      → Ensures (SamePoints k) (transform_key_points o s.frame s.keypoints)
  unfolding transform_key_points
  transformed-SamePoints s h = grind (arith, move_points-SamePoints, SamePoints-trans)

  pub ceres_round-Keeps :
      (model : Option (MotionModel D V Q)) (w : D × D) (s : SolverState D V Q)
      → IsOf s
      → Ensures (KeepsRound IsOf HasResiduals LacksResiduals) (ceres_round t o model w s)
  unfolding ceres_round transform_key_points
  ceres_round-Keeps model w s h =
      Ensures->>= (SamePoints k) _ (transform_key_points o s.frame s.keypoints) _
        (transformed-SamePoints s h)
        (λ k' moved. Ensures-any _ (init_problem _ s.builder) _ (λ b.
          Ensures-any _ (add_parameter_blocks b) _ (λ b'.
            Ensures-any _
              (add_keypoints t o s.frame w 0 k'.raw_points k'.world_points k'.timestamps
                s.neighborhoods b')
              _
              (λ added.
                let (problem, count, b'') = get_problem o added.1 in
                let s' = record s { keypoints = k'; builder = b''; neighborhoods = added.0 } in
                let kept : IsOf s' = record { points = moved; stamps = h.stamps } in
                enough-Keeps count s' _ kept (finish_round-Keeps s' _ count kept)))))

  pub robust_round-Keeps :
      (model : Option (MotionModel D V Q)) (s : SolverState D V Q)
      → IsOf s
      → Ensures (KeepsRound IsOf HasResiduals LacksResiduals) (robust_round t o model s)
  unfolding robust_round transform_key_points
  robust_round-Keeps model s h =
      Ensures->>= (SamePoints k) _ (transform_key_points o s.frame s.keypoints) _
        (transformed-SamePoints s h)
        (λ k' moved. Ensures-any _ (init_problem _ s.builder) _ (λ b.
          Ensures-any _ (add_parameter_blocks b) _ (λ b'.
            Ensures-any _
              (add_robust_keypoints t o s.frame 0 k'.world_points k'.timestamps s.neighborhoods b')
              _
              (λ added.
                let (problem, count, b'') = get_problem o added.1 in
                let s' = record s { keypoints = k'; builder = b''; neighborhoods = added.0 } in
                let kept : IsOf s' = record { points = moved; stamps = h.stamps } in
                enough-Keeps count s' _ kept (finish_robust_round-Keeps s' _ count kept)))))
