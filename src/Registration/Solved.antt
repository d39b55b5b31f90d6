-- ===== src/Registration/Solved.antt =====
-- The solver `DoRegisterGaussNewton` and the three solvers together (src/ct_icp/ct_icp.cpp).
use ct_icp_comment.Common.{
  ltb, ℕ, ◌+◌, ◌≤◌, ◌<◌, ◌≡◌, refl, sym, subst, inl, inr, true, Option, arith, Bool-cases, pos,
  pos_part, leb_ℤ, ok, Ensures, Double,
}
use ct_icp_comment.Geometry.{Vectors, Quaternions}
use ct_icp_comment.Pose.{TrajectoryFrame}
use ct_icp_comment.Registration.{RegistrationOptions, Solver, gn, ceres, robust}
use ct_icp_comment.Registration.Rounds.{
  Ending, too_few, finished, rounds, KeepsRound, KeepsEnding, rounds-Keeps,
}
use ct_icp_comment.Registration.Keypoints.{move_points, Keypoints, normalize_frame}
use ct_icp_comment.Registration.Tools.{Tools}
use ct_icp_comment.Registration.Contract.{
  Ensures->>=, Ensures-any, SamePoints, SamePoints-refl, SameStamps-refl, SamePoints-trans,
  move_points-SamePoints, SameStamps,
}
use ct_icp_comment.MotionModel.{MotionModel}
use ct_icp_comment.Registration.NormalEquations.{
  constrained_equations, Equations, add_equations, zero_equations,
}
use ct_icp_comment.Registration.GaussNewton.{
  LinearAlgebra, GaussNewtonState, interpolate_point, gauss_newton_step, gauss_newton_round,
  gauss_newton_result, do_register_gauss_newton, select_solver, moved_frame,
}
use ct_icp_comment.Registration.Registered.{
  IsPlaced, least_residuals, Registers, do_register_ceres-Registers, do_register_robust-Registers,
}

module _ {D V Q : Type 0} ⦃d : Double D⦄ ⦃v : Vectors D V⦄ ⦃q : Quaternions D V Q⦄ (t : Tools D V Q)
    (l : LinearAlgebra D V Q) (o : RegistrationOptions D) (k : Keypoints D V)
    (f : TrajectoryFrame D V Q) where
  pub record IsFrom (s : GaussNewtonState D V Q) : Type 0 where
    pub points : SamePoints k s.keypoints
    pub stamps : SameStamps f s.frame

  pub record IsSolved (s : GaussNewtonState D V Q) : Type 0 where
    pub enough : 100 ≤ s.number_keypoints_used
    pub placed : move_points (interpolate_point t l o s.frame) s.keypoints ≡ ok s.keypoints

  abbrev pub IsShort : ℕ → GaussNewtonState D V Q → Type 0
  IsShort n s = IsFrom s

  gauss_newton_step-Keeps :
      (model : Option (MotionModel D V Q)) (e : Equations D) (s : GaussNewtonState D V Q)
      → IsFrom s
      → 100 ≤ e.number_keypoints_used
      → Ensures (KeepsRound IsFrom IsSolved IsShort) (gauss_newton_step t l o model e s)
  unfolding gauss_newton_step moved_frame
  gauss_newton_step-Keeps model e s h enough =
      let constrained = constrained_equations t o model s.frame e in
      let x : ℕ → D = l.ldlt_solve constrained.a constrained.b in
      let g : TrajectoryFrame D V Q = normalize_frame (moved_frame t l o x s.frame) in
      Ensures->>= _ _ (move_points (interpolate_point t l o g) s.keypoints) _
        (move_points-SamePoints (interpolate_point t l o g) s.keypoints)
        (λ k' moved.
          let kept : IsFrom (record {
            frame = g;
            keypoints = k';
            number_keypoints_used = e.number_keypoints_used;
          }) =
            record { points = SamePoints-trans h.points moved.0; stamps = h.stamps } in
          let solved : IsSolved (record {
            frame = g;
            keypoints = k';
            number_keypoints_used = e.number_keypoints_used;
          }) =
            record { enough = enough; placed = moved.1 } in
          elim (Bool-cases (d.lt (l.vector_norm x) o.threshold_orientation_norm)) [
            | inl c ↦ rw c (kept, solved)
            | inr c ↦ rw c (kept, solved)
          ])

  pub gauss_newton_round-Keeps :
      (model : Option (MotionModel D V Q)) (s : GaussNewtonState D V Q)
      → IsFrom s
      → Ensures (KeepsRound IsFrom IsSolved IsShort) (gauss_newton_round t l o model s)
  unfolding gauss_newton_round
  gauss_newton_round-Keeps model s h =
      Ensures-any _
        (add_equations t o s.frame s.keypoints.raw_points s.keypoints.world_points
          s.keypoints.timestamps zero_equations)
        _
        (λ e. elim (Bool-cases (ltb e.number_keypoints_used 100)) [
          | inl few ↦ rw few h
          | inr many ↦ rw many (gauss_newton_step-Keeps model e s h (ground arith))
        ])

  gauss_newton_result-Registers :
      (e : Ending (GaussNewtonState D V Q))
      → o.solver ≡ gn
      → KeepsEnding IsFrom IsSolved IsShort (0 + pos_part o.num_iters_icp) e
      → Registers t l o k f (gauss_newton_result t l o e)
  unfolding gauss_newton_result
  gauss_newton_result-Registers (too_few n s) is h = record {
    points = h.points;
    stamps = h.stamps;
    iterations = omega arith;
    enough = λ yes'. absurd (cc (yes'));
    placed = λ yes'. absurd (cc (yes'));
  }
  gauss_newton_result-Registers (finished iter s) is h = record {
    points = h.0.points;
    stamps = h.0.stamps;
    iterations = omega arith;
    enough = λ done.
        subst (λ x. leb_ℤ (least_residuals t l o x) (pos s.number_keypoints_used) ≡ true) (sym is)
          (hundred s.number_keypoints_used h.2.enough);
    placed = λ done. subst (λ x. IsPlaced t l o x s.keypoints s.frame) (sym is) h.2.placed;
  }
    where
      hundred : (n : ℕ) → 100 ≤ n → leb_ℤ (pos 100) (pos n) ≡ true
      hundred n h = ground arith

  do_register_gauss_newton-Registers :
      (model : Option (MotionModel D V Q))
      → o.solver ≡ gn
      → 0 < pos_part o.num_iters_icp
      → Ensures (Registers t l o k f) (do_register_gauss_newton t l o k f model)
  unfolding do_register_gauss_newton
  do_register_gauss_newton-Registers model is some_round =
      Ensures->>= _ _ (rounds (gauss_newton_round t l o model) (pos_part o.num_iters_icp) 0 _) _
        (rounds-Keeps (gauss_newton_round t l o model) IsFrom IsSolved IsShort
          (gauss_newton_round-Keeps model) (pos_part o.num_iters_icp) 0 _
          (record { points = SamePoints-refl k; stamps = SameStamps-refl f }) (inl some_round))
        (λ e ends. gauss_newton_result-Registers e is ends)

  -- Where at least one round is allowed, a registration with any of the three solvers that ends
  -- without an exception keeps the raw points, the instants and the number of the keypoints, and the
  -- instants and the frame ids of the frame, and its number of iterations is at most the largest one.
  -- If it succeeds, at least `min_number_neighbors` residuals were used, or a hundred by the solver of
  -- Gauss and Newton, and the world points are the raw points moved with the frame that it gives, for
  -- the other solvers before its quaternions are normalized a last time.
  pub select_solver-Registers :
      (model : Option (MotionModel D V Q))
      → 0 < pos_part o.num_iters_icp
      → Ensures (Registers t l o k f) (select_solver t l o o.solver k f model)
  select_solver-Registers model some_round = with_solver o.solver refl
    where
      with_solver :
          (x : Solver)
          → o.solver ≡ x
          → Ensures (Registers t l o k f) (select_solver t l o x k f model)
      with_solver gn is = do_register_gauss_newton-Registers model is some_round
      with_solver ceres is = do_register_ceres-Registers t l o k f model is some_round
      with_solver robust is = do_register_robust-Registers t l o k f model is some_round
