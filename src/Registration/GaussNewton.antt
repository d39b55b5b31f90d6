-- ===== src/Registration/GaussNewton.antt =====
-- `DoRegisterGaussNewton` and the choice of the solver in `Register` (src/ct_icp/ct_icp.cpp). Eigen's
-- decomposition, its norm and its conversions of rotations are an argument.
use ct_icp_comment.Common.{
  ℕ, zero, suc, true, false, List, [], ◌∷◌, Option, map, ltb, if◌then◌else◌, pos, pos_part, Double,
  Outcome, ok, ◌>>=◌, ◌+◌,
}
use ct_icp_comment.Geometry.{Se3, Vectors, Quaternions, WPoint}
use ct_icp_comment.Pose.{TrajectoryFrame, apply, interpolate_pose, no_frame_id}
use ct_icp_comment.Registration.{RegistrationOptions, SolverSummary, Solver, gn, ceres, robust}
use ct_icp_comment.Registration.Rounds.{
  Round, short, converged, further, Ending, too_few, finished, rounds,
}
use ct_icp_comment.Registration.Keypoints.{Keypoints, move_points, normalize_frame, with_poses}
use ct_icp_comment.Registration.Tools.{Tools}
use ct_icp_comment.Registration.NormalEquations.{
  Matrix, Equations, zero_equations, add_equations, constrained_equations,
}
use ct_icp_comment.Registration.CeresSolver.{do_register_ceres}
use ct_icp_comment.Registration.RobustSolver.{do_register_robust}
use ct_icp_comment.MotionModel.{MotionModel}

-- `ldlt_solve` is `A.ldlt().solve(b)`, and `rotated r q` the quaternion of the product of the matrix r
-- and the matrix of q.
pub record LinearAlgebra (D V Q : Type 0) : Type 0 where
  pub ldlt_solve : Matrix D → (ℕ → D) → ℕ → D
  pub vector_norm : (ℕ → D) → D
  pub rotated : Matrix D → Q → Q
  pub vector : D → D → D → V

pub record GaussNewtonState (D V Q : Type 0) : Type 0 where
  pub frame : TrajectoryFrame D V Q
  pub keypoints : Keypoints D V
  pub number_keypoints_used : ℕ

module _ {D V Q : Type 0} ⦃d : Double D⦄ ⦃v : Vectors D V⦄ ⦃q : Quaternions D V Q⦄ (t : Tools D V Q)
    (l : LinearAlgebra D V Q) (o : RegistrationOptions D) where
  -- The rotation by three angles, row by row
  unfoldable pub rotation_entry : D → D → D → ℕ → ℕ → D
  rotation_entry alpha beta gamma zero zero = d.mul (t.analysis.cos gamma) (t.analysis.cos beta)
  rotation_entry alpha beta gamma zero (suc zero) =
      d.add (d.mul (d.neg (t.analysis.sin gamma)) (t.analysis.cos alpha))
        (d.mul (d.mul (t.analysis.cos gamma) (t.analysis.sin beta)) (t.analysis.sin alpha))
  rotation_entry alpha beta gamma zero (suc (suc j)) =
      d.add (d.mul (t.analysis.sin gamma) (t.analysis.sin alpha))
        (d.mul (d.mul (t.analysis.cos gamma) (t.analysis.sin beta)) (t.analysis.cos alpha))
  rotation_entry alpha beta gamma (suc zero) zero =
      d.mul (t.analysis.sin gamma) (t.analysis.cos beta)
  rotation_entry alpha beta gamma (suc zero) (suc zero) =
      d.add (d.mul (t.analysis.cos gamma) (t.analysis.cos alpha))
        (d.mul (d.mul (t.analysis.sin gamma) (t.analysis.sin beta)) (t.analysis.sin alpha))
  rotation_entry alpha beta gamma (suc zero) (suc (suc j)) =
      d.add (d.mul (d.neg (t.analysis.cos gamma)) (t.analysis.sin alpha))
        (d.mul (d.mul (t.analysis.sin gamma) (t.analysis.sin beta)) (t.analysis.cos alpha))
  rotation_entry alpha beta gamma (suc (suc i)) zero = d.neg (t.analysis.sin beta)
  rotation_entry alpha beta gamma (suc (suc i)) (suc zero) =
      d.mul (t.analysis.cos beta) (t.analysis.sin alpha)
  rotation_entry alpha beta gamma (suc (suc i)) (suc (suc j)) =
      d.mul (t.analysis.cos beta) (t.analysis.cos alpha)

  -- A pose after the six entries of the solution from `first` on
  unfoldable pub moved_pose : ℕ → (ℕ → D) → Se3 D V Q → Se3 D V Q
  moved_pose first x s = record {
    quat = l.rotated (rotation_entry (x first) (x (first + 1)) (x (first + 2))) s.quat;
    tr = v.plus s.tr (l.vector (x (first + 3)) (x (first + 4)) (x (first + 5)));
  }

  unfoldable pub moved_frame : (ℕ → D) → TrajectoryFrame D V Q → TrajectoryFrame D V Q
  moved_frame x f = with_poses (moved_pose 0 x f.begin_pose.pose) (moved_pose 6 x f.end_pose.pose) f

  -- A world point between the poses of a frame
  unfoldable pub interpolate_point : TrajectoryFrame D V Q → V → D → Outcome V
  interpolate_point f raw timestamp = do
    p ← interpolate_pose f.begin_pose f.end_pose timestamp no_frame_id
    ok (apply p raw)

  unfoldable pub gauss_newton_step :
      Option (MotionModel D V Q)
      → Equations D
      → GaussNewtonState D V Q
      → Outcome (Round (GaussNewtonState D V Q))
  gauss_newton_step model e s = do
    let constrained = constrained_equations t o model s.frame e
    let x : ℕ → D = l.ldlt_solve constrained.a constrained.b
    let f = normalize_frame (moved_frame x s.frame)
    k ← move_points (interpolate_point f) s.keypoints
    let s' : GaussNewtonState D V Q = record {
      frame = f;
      keypoints = k;
      number_keypoints_used = e.number_keypoints_used;
    }
    ok (if d.lt (l.vector_norm x) o.threshold_orientation_norm then converged s' else further s')

  unfoldable pub gauss_newton_round :
      Option (MotionModel D V Q) → GaussNewtonState D V Q → Outcome (Round (GaussNewtonState D V Q))
  gauss_newton_round model s = do
    e ←
        add_equations t o s.frame s.keypoints.raw_points s.keypoints.world_points
          s.keypoints.timestamps zero_equations
    if ltb e.number_keypoints_used 100
        then ok (short e.number_keypoints_used s)
        else gauss_newton_step model e s

  unfoldable pub gauss_newton_result :
      Ending (GaussNewtonState D V Q) → SolverSummary × Keypoints D V × TrajectoryFrame D V Q
  gauss_newton_result (too_few count s) =
      (record { success = false; num_residuals_used = pos 0; num_iters = 0 }, s.keypoints, s.frame)
  gauss_newton_result (finished iter s) = (
    record { success = true; num_residuals_used = pos s.number_keypoints_used; num_iters = 0 },
    s.keypoints,
    s.frame,
  )

  unfoldable pub do_register_gauss_newton :
      Keypoints D V
      → TrajectoryFrame D V Q
      → Option (MotionModel D V Q)
      → Outcome (SolverSummary × Keypoints D V × TrajectoryFrame D V Q)
  do_register_gauss_newton k f model = do
    ending ←
        rounds (gauss_newton_round model) (pos_part o.num_iters_icp) 0
          (record { frame = normalize_frame f; keypoints = k; number_keypoints_used = 0 })
    ok (gauss_newton_result ending)

  -- `SELECT_SOLVER`
  abbrev pub select_solver :
      Solver
      → Keypoints D V
      → TrajectoryFrame D V Q
      → Option (MotionModel D V Q)
      → Outcome (SolverSummary × Keypoints D V × TrajectoryFrame D V Q)
  select_solver ceres k f model = do_register_ceres t o k f model
  select_solver gn k f model = do_register_gauss_newton k f model
  select_solver robust k f model = do_register_robust t o k f model

  -- The places of the points after a registration
  abbrev pub with_world_points : List (WPoint D V Q) → List V → List (WPoint D V Q)
  with_world_points [] worlds = []
  with_world_points (p ∷ ps) [] = p ∷ ps
  with_world_points (p ∷ ps) (w ∷ worlds) =
      record p { world_point = w } ∷ with_world_points ps worlds

  -- `Register` on a vector of points, through views on its buffer
  unfoldable pub register :
      List (WPoint D V Q)
      → TrajectoryFrame D V Q
      → Option (MotionModel D V Q)
      → Outcome (SolverSummary × List (WPoint D V Q) × TrajectoryFrame D V Q)
  register points f model = do
    let k : Keypoints D V = record {
      raw_points = map (λ p. p.raw_point) points;
      world_points = map (λ p. p.world_point) points;
      timestamps = map (λ p. p.timestamp) points;
    }
    r ← select_solver o.solver k f model
    ok (r.0, with_world_points points r.1.world_points, r.2)
