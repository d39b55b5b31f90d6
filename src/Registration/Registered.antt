-- ===== src/Registration/Registered.antt =====
-- What the three solvers of a registration leave (src/ct_icp/ct_icp.cpp).
use ct_icp_comment.Common.{
  uninitialized, ℕ, ◌+◌, ◌≤◌, ◌<◌, ◌≡◌, refl, sym, subst, inl, true, Option, none, some, arith, ℤ,
  pos, pos_part, leb_ℤ, Outcome, ok, ◌>>=◌, require, Ensures, Finishes, Double,
}
use ct_icp_comment.Geometry.{Vectors, Quaternions}
use ct_icp_comment.Pose.{TrajectoryFrame}
use ct_icp_comment.Registration.{RegistrationOptions, SolverSummary, Solver, gn, ceres, robust}
use ct_icp_comment.Registration.Rounds.{
  Round, Ending, too_few, finished, rounds, KeepsRound, KeepsEnding, rounds-Keeps,
}
use ct_icp_comment.Registration.Keypoints.{
  move_points, Keypoints, check_sizes, transform_point, transform_key_points, normalize_frame,
}
use ct_icp_comment.Registration.Tools.{Tools, SolverState, distort_if, failed_summary}
use ct_icp_comment.Registration.Contract.{
  Ensures->>=, Ensures-any, SamePoints, SamePoints-refl, SameStamps-refl, SamePoints-trans,
  move_points-SamePoints, SameStamps,
}
use ct_icp_comment.Registration.CeresSolver.{ceres_round, weights, ceres_result, do_register_ceres}
use ct_icp_comment.Registration.RobustSolver.{
  residuals_or_minus_one, robust_round, robust_result, do_register_robust,
}
use ct_icp_comment.MotionModel.{MotionModel}
use ct_icp_comment.Registration.Iterations.{
  IsOf, HasResiduals, LacksResiduals, ceres_round-Keeps, robust_round-Keeps,
}
use ct_icp_comment.Registration.GaussNewton.{LinearAlgebra, interpolate_point}

module _ {D V Q : Type 0} ⦃d : Double D⦄ ⦃v : Vectors D V⦄ ⦃q : Quaternions D V Q⦄ (t : Tools D V Q)
    (l : LinearAlgebra D V Q) (o : RegistrationOptions D) where
  -- The number of residuals that a solver asks for
  abbrev pub least_residuals : Solver → ℤ
  least_residuals gn = pos 100
  least_residuals ceres = o.min_number_neighbors
  least_residuals robust = o.min_number_neighbors

  -- The world points are those of the frame. Ceres' solvers normalize the frame afterwards.
  abbrev pub IsPlaced : Solver → Keypoints D V → TrajectoryFrame D V Q → Type 0
  IsPlaced gn k f = move_points (interpolate_point t l o f) k ≡ ok k
  IsPlaced ceres k f =
      (g : TrajectoryFrame D V Q) × (f ≡ normalize_frame g) × (transform_key_points o g k ≡ ok k)
  IsPlaced robust k f =
      (g : TrajectoryFrame D V Q) × (f ≡ normalize_frame g) × (transform_key_points o g k ≡ ok k)

  pub record Registers (k : Keypoints D V) (f : TrajectoryFrame D V Q)
      (r : SolverSummary × Keypoints D V × TrajectoryFrame D V Q) : Type 0 where
    pub points : SamePoints k r.1
    pub stamps : SameStamps f r.2
    pub iterations : r.0.num_iters ≤ pos_part o.num_iters_icp
    pub enough : r.0.success ≡ true → leb_ℤ (least_residuals o.solver) r.0.num_residuals_used ≡ true
    pub placed : r.0.success ≡ true → IsPlaced o.solver r.1 r.2

  transform-again :
      (g : TrajectoryFrame D V Q) (k : Keypoints D V)
      → Ensures
          (λ k'. SamePoints k k' × (transform_key_points o g k' ≡ ok k'))
          (transform_key_points o g k)
  unfolding transform_key_points
  transform-again g k = move_points-SamePoints (transform_point o g) k

  -- How the rounds of the solvers with Ceres end
  abbrev Ends : Keypoints D V → TrajectoryFrame D V Q → Ending (SolverState D V Q) → Type 0
  Ends k f =
      KeepsEnding (IsOf t o k f) (HasResiduals t o k f) (LacksResiduals t o k f)
        (pos_part o.num_iters_icp)

  few-Registers :
      (k : Keypoints D V) (f : TrajectoryFrame D V Q) (n : ℕ) (s : SolverState D V Q)
      → IsOf t o k f s
      → Registers k f (failed_summary n, s.keypoints, s.frame)
  unfolding failed_summary
  few-Registers k f n s h = record {
    points = h.points;
    stamps = h.stamps;
    iterations = omega arith;
    enough = λ yes'. absurd (cc (yes'));
    placed = λ yes'. absurd (cc (yes'));
  }

  ceres_result-Registers :
      (k : Keypoints D V) (f : TrajectoryFrame D V Q) (e : Ending (SolverState D V Q))
      → o.solver ≡ ceres
      → Ends k f e
      → Ensures (Registers k f) (ceres_result t o e)
  unfolding ceres_result
  ceres_result-Registers k f (too_few n s) is h = few-Registers k f n s h.0
  ceres_result-Registers k f (finished iter s) is h =
      Ensures->>= _ _ (transform_key_points o s.frame s.keypoints) _
        (transform-again s.frame s.keypoints)
        (λ k' moved. with_count s.number_of_residuals h.2 k' moved)
    where
      with_count :
          (n : Option ℕ)
          → Finishes (λ m. leb_ℤ o.min_number_neighbors (pos m) ≡ true) n
          → (k' : Keypoints D V)
          → SamePoints s.keypoints k' × (transform_key_points o s.frame k' ≡ ok k')
          → Ensures (Registers k f) (
              require n uninitialized >>= λ m. ok (
                record { success = true; num_residuals_used = pos m; num_iters = iter },
                k',
                normalize_frame s.frame,
              ))
      with_count none lacks k' moved = tt
      with_count (some m) has k' moved = record {
        points = SamePoints-trans h.0.points moved.0;
        stamps = h.0.stamps;
        iterations = h.1;
        enough = λ done. subst (λ x. leb_ℤ (least_residuals x) (pos m) ≡ true) (sym is) has;
        placed = λ done.
            subst (λ x. IsPlaced x k' (normalize_frame s.frame)) (sym is) (s.frame, refl, moved.1);
      }

  robust_result-Registers :
      (k : Keypoints D V) (f : TrajectoryFrame D V Q) (e : Ending (SolverState D V Q))
      → o.solver ≡ robust
      → Ends k f e
      → Ensures (Registers k f) (robust_result t o e)
  unfolding robust_result
  robust_result-Registers k f (too_few n s) is h = few-Registers k f n s h.0
  robust_result-Registers k f (finished iter s) is h =
      Ensures->>= _ _ (transform_key_points o s.frame s.keypoints) _
        (transform-again s.frame s.keypoints)
        (λ k' moved. with_count s.number_of_residuals h.2 k' moved)
    where
      with_count :
          (n : Option ℕ)
          → Finishes (λ m. leb_ℤ o.min_number_neighbors (pos m) ≡ true) n
          → (k' : Keypoints D V)
          → SamePoints s.keypoints k' × (transform_key_points o s.frame k' ≡ ok k')
          → Registers k f (
            record {
              success = true;
              num_residuals_used = residuals_or_minus_one t o n;
              num_iters = 0;
            },
            k',
            normalize_frame s.frame,
          )
      with_count none has k' moved = absurd has
      with_count (some m) has k' moved = record {
        points = SamePoints-trans h.0.points moved.0;
        stamps = h.0.stamps;
        iterations = omega arith;
        enough = λ done. subst (λ x. leb_ℤ (least_residuals x) (pos m) ≡ true) (sym is) has;
        placed = λ done.
            subst (λ x. IsPlaced x k' (normalize_frame s.frame)) (sym is) (s.frame, refl, moved.1);
      }

  -- The rounds from a state before the first of them
  rounds-Ends :
      (k : Keypoints D V) (f : TrajectoryFrame D V Q)
      (round : SolverState D V Q → Outcome (Round (SolverState D V Q)))
      → ((s : SolverState D V Q)
          → IsOf t o k f s
          → Ensures
              (KeepsRound (IsOf t o k f) (HasResiduals t o k f) (LacksResiduals t o k f))
              (round s))
      → 0 < pos_part o.num_iters_icp
      → (s : SolverState D V Q) → IsOf t o k f s
      → Ensures (Ends k f) (rounds round (pos_part o.num_iters_icp) 0 s)
  rounds-Ends k f round keep some_round s start =
      let most = pos_part o.num_iters_icp in
      let none_before : 0 + most ≡ most = omega arith in
      subst
        (λ n.
          Ensures (KeepsEnding (IsOf t o k f) (HasResiduals t o k f) (LacksResiduals t o k f) n)
            (rounds round most 0 s))
        none_before
        (rounds-Keeps round (IsOf t o k f) (HasResiduals t o k f) (LacksResiduals t o k f) keep most
          0 s start (inl some_round))

  pub do_register_ceres-Registers :
      (k : Keypoints D V) (f : TrajectoryFrame D V Q) (model : Option (MotionModel D V Q))
      → o.solver ≡ ceres
      → 0 < pos_part o.num_iters_icp
      → Ensures (Registers k f) (do_register_ceres t o k f model)
  unfolding do_register_ceres
  do_register_ceres-Registers k f model is some_round = Ensures-any _ (check_sizes k) _ (λ sizes.
      Ensures-any _ (distort_if o (normalize_frame f) k _) _ (λ b.
        Ensures-any _ (weights t o) _ (λ w.
          Ensures->>= (Ends k f) _ (rounds (ceres_round t o model w) _ 0 _) (ceres_result t o)
            (rounds-Ends k f (ceres_round t o model w) (ceres_round-Keeps t o k f model w)
              some_round _ (record { points = SamePoints-refl k; stamps = SameStamps-refl f }))
            (λ e ends. ceres_result-Registers k f e is ends))))

  pub do_register_robust-Registers :
      (k : Keypoints D V) (f : TrajectoryFrame D V Q) (model : Option (MotionModel D V Q))
      → o.solver ≡ robust
      → 0 < pos_part o.num_iters_icp
      → Ensures (Registers k f) (do_register_robust t o k f model)
  unfolding do_register_robust
  do_register_robust-Registers k f model is some_round = Ensures-any _ (check_sizes k) _ (λ sizes.
      Ensures->>= (Ends k f) _ (rounds (robust_round t o model) _ 0 _) (robust_result t o)
        (rounds-Ends k f (robust_round t o model) (robust_round-Keeps t o k f model) some_round _
          (record { points = SamePoints-refl k; stamps = SameStamps-refl f }))
        (λ e ends. robust_result-Registers k f e is ends))
