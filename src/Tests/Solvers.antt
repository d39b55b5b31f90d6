-- ===== src/Tests/Solvers.antt =====
-- Registrations of three points on a half line, with a solver that keeps its estimate.
use ct_icp_comment.Common.{
  ℕ-IsOrdered, Finishes, ap, ◌*◌, ℕ, ◌≡◌, refl, true, false, [], ◌∷◌, Option, none, some, Outcome,
  ok, ◌>>=◌, Ensures, pos, pos_part, unit, fixed_double, arith, length, map,
}
use native.Mathlib.Nat.{mul_comm}
use ct_icp_comment.Common.{◌/◌, ap}
use ct_icp_comment.Registration.Keypoints.{
  check_sizes, move_all, move_points, transform_point, transform_key_points, stop_criterion,
}
use ct_icp_comment.Registration.RobustSolver.{
  reclassify, add_robust_keypoint, add_robust_keypoints, finish_robust_round, robust_round,
  robust_result, do_register_robust,
}
use ct_icp_comment.Registration.Neighborhood.{compute_neighborhood, classify_neighborhood}
use ct_icp_comment.Registration.Builder.{
  new_builder, resize_functors, init_problem, add_parameter_blocks, set_residual_block,
  add_functors, get_problem, set_problem_values, distort_points, distort_frame,
}
use ct_icp_comment.Registration.CeresSolver.{
  weights, add_closest, add_keypoint, add_keypoints, finish_round, ceres_round, ceres_result,
  do_register_ceres,
}
use ct_icp_comment.Registration.GaussNewton.{
  rotation_entry, moved_pose, moved_frame, interpolate_point, gauss_newton_step, gauss_newton_round,
  gauss_newton_result, do_register_gauss_newton, register,
}
use ct_icp_comment.Registration.Rounds.{rounds}
use ct_icp_comment.Registration.Tools.{failed_summary, solve_frame, distort_if, end_round}
use ct_icp_comment.Registration.NormalEquations.{
  add_row, divide_by, add_to_diagonal, add_equation, add_equations, constrain_equations,
  constrained_equations,
}
use ct_icp_comment.Registration.Problem.{costs, first_costs, get_problem_lem}
use ct_icp_comment.Registration.Builder.{empty_functor, icp_block}
use ct_icp_comment.Odometry.Kit.{Kit}
use ct_icp_comment.Odometry.State.{Odometry, new_odometry}
use ct_icp_comment.Odometry.Registration.{register_with}
use ct_icp_comment.Odometry.Stamps.{KeepsStamps}
use ct_icp_comment.Odometry.Instants.{Spans, SpansAt, register_with-IsStamped}
use ct_icp_comment.Registration.Stamps.{registration_kit, registration_kit-KeepsStamps}
use ct_icp_comment.MotionModel.{
  update_state, add_if, constrain_to_previous, constrain_to_prediction, add_constraints,
}
use ct_icp_comment.Pose.{TrajectoryFrame, inverse, apply, get_alpha_timestamp, interpolate_pose}
use ct_icp_comment.Geometry.{se3_inverse, se3_apply, se3_interpolate, angular_distance}
use ct_icp_comment.Geometry.{line_vectors, line_quaternions}
use ct_icp_comment.Odometry.Options.{continuous_time, point_to_plane}
use ct_icp_comment.Registration.{
  RegistrationOptions, Solver, gn, ceres, robust, standard, SolverSummary, Analysis,
}
use ct_icp_comment.Registration.Neighborhood.{Description}
use ct_icp_comment.Registration.Builder.{
  Problem, Builder, CostFunction, get_problem, set_problem_values, add_functors,
}
use ct_icp_comment.Registration.Keypoints.{Keypoints}
use ct_icp_comment.Registration.Tools.{Tools}
use ct_icp_comment.Registration.NormalEquations.{
  zero_equations, add_equations, constrained_equations,
}
use ct_icp_comment.Registration.GaussNewton.{LinearAlgebra, select_solver}
use ct_icp_comment.Registration.Registered.{Registers}
use ct_icp_comment.Registration.Solved.{select_solver-Registers}
use ct_icp_comment.Registration.Symmetry.{IsSymmetric, constrained_equations-IsSymmetric}
use ct_icp_comment.Registration.Problem.{set_problem_values-get_problem}
use ct_icp_comment.MotionModel.{MotionModel, previous_frame, constant_velocity}
use ct_icp_comment.Tests.{toy_frame, toy_options, toy_kit, toy_cloud}

abbrev analysis : Analysis ℕ
analysis = record {
  pow = λ a b. a;
  exp = λ a. a;
  abs = λ a. a;
  sqrt = λ a. a;
  sin = λ a. 0;
  cos = λ a. unit;
  to_double = λ z. pos_part z * unit;
}

abbrev description : Description ℕ ℕ
description = record {
  planarity = unit;
  linearity = 0;
  a2d = unit;
  cov_det = unit;
  line = unit;
  normal = unit;
  barycenter = unit;
}

-- each neighborhood is five times the point itself.
abbrev tools : Tools ℕ ℕ (Unit {0})
tools = record {
  analysis = analysis;
  describe = λ values points. description;
  search = λ point sensor. let p = point.world_point in ok (p ∷ p ∷ p ∷ p ∷ p ∷ []);
  nearest = λ p most. ok (p ∷ p ∷ p ∷ p ∷ p ∷ []);
  solve = λ o problem poses. (true, poses.0, poses.1);
  cross = λ a b. 0;
  unit_vector = λ a. unit;
}

abbrev algebra : LinearAlgebra ℕ ℕ (Unit {0})
algebra = record {
  ldlt_solve = λ a b i. 0;
  vector_norm = λ x. 0;
  rotated = λ r q. q;
  vector = λ x y z. x;
}

abbrev options : Solver → RegistrationOptions ℕ
options solver = record {
  icp = (toy_options true false false false).ct_icp_options;
  solver = solver;
  weight_alpha = 900_000;
  weight_neighborhood = 100_000;
  power_planarity = 2_000_000;
  max_number_neighbors = pos 20;
  min_number_neighbors = pos 3;
  num_closest_neighbors = pos 1;
  loss_function = standard;
  ls_tolerant_min_threshold = 50_000;
  threshold_linearity = 800_000;
  threshold_planarity = 800_000;
  outlier_distance = 1_000_000;
  use_barycenter = false;
  use_lines = true;
}

abbrev keypoints : Keypoints ℕ ℕ
keypoints = record {
  raw_points = 1_000_000 ∷ 2_500_000 ∷ 4_000_000 ∷ [];
  world_points = 0 ∷ 0 ∷ 0 ∷ [];
  timestamps = 0 ∷ 50_000 ∷ 100_000 ∷ [];
}

abbrev toy_model : MotionModel ℕ ℕ (Unit {0})
toy_model =
    (previous_frame
      (record {
        model = constant_velocity;
        beta_location_consistency = 1_000;
        beta_constant_velocity = 1_000;
        beta_small_velocity = 0;
        beta_orientation_consistency = 0;
        threshold_orientation_deg = 5_000_000;
        threshold_translation_diff = 1_000_000;
      })
      (toy_frame 0))

abbrev model : Option (MotionModel ℕ ℕ (Unit {0}))
model = some toy_model

select_solver-Registers_example :
    Ensures
      (Registers tools algebra (options ceres) keypoints (toy_frame 0))
      (select_solver tools algebra (options ceres) ceres keypoints (toy_frame 0) model)
select_solver-Registers_example =
    select_solver-Registers tools algebra (options ceres) keypoints (toy_frame 0) model
      (omega arith)

constrained_equations-IsSymmetric_example :
    Ensures
      (λ e. IsSymmetric (constrained_equations tools (options gn) model (toy_frame 0) e))
      (add_equations tools
        (options gn)
        (toy_frame 0)
        (1_000_000 ∷ [])
        (1_000_000 ∷ [])
        (0 ∷ [])
        zero_equations)
constrained_equations-IsSymmetric_example =
    constrained_equations-IsSymmetric tools (options gn) (λ x y. ap (λ n. n / unit) (mul_comm x y))
      model (toy_frame 0) (1_000_000 ∷ []) (1_000_000 ∷ []) (0 ∷ [])

abbrev cost : ℕ → CostFunction ℕ ℕ
cost point = record {
  distance = point_to_plane;
  time = some 500_000;
  reference_point = point;
  raw_point = point;
  neighborhood = description;
  weight = unit;
}

abbrev builder : Builder ℕ ℕ
builder = record {
  max_num_residuals = pos 2;
  parameter_block_set = true;
  corrected_raw_points = keypoints.raw_points;
  functors =
      map (λ (c : Option (CostFunction ℕ ℕ)). record { cost_function = c; block_id = none })
        (some (cost 1_000_000) ∷ none ∷ some (cost 2_500_000) ∷ some (cost 4_000_000) ∷ []);
}

set_problem_values-get_problem_example :
    let r : Problem ℕ ℕ (Unit {0}) × ℕ × Builder ℕ ℕ = get_problem (options ceres) builder in
    set_problem_values (λ block. unit) r.0 r.2.functors (7 ∷ 8 ∷ []) ≡ ok (7 ∷ 8 ∷ [])
set_problem_values-get_problem_example =
    set_problem_values-get_problem (options ceres) builder (λ block. unit)
      (get_problem (options ceres) builder).0 (7 ∷ 8 ∷ []) (omega arith)

get_problem_lem_example :
    let chosen = first_costs builder.max_num_residuals 0 (costs builder.functors) in
    let r : Problem ℕ ℕ (Unit {0}) × ℕ × Builder ℕ ℕ = get_problem (options ceres) builder in
    (r.0 ≡ map (icp_block continuous_time) chosen)
    × (r.1 ≡ length chosen)
    × (r.2 ≡ record builder { functors = map (λ f. empty_functor) builder.functors })
get_problem_lem_example = get_problem_lem (options ceres) builder

-- what a solver says of its run, and how many world points it leaves
abbrev run : Solver → Outcome (SolverSummary × ℕ)
run solver = do
  r ← select_solver tools algebra (options solver) solver keypoints (toy_frame 0) model
  ok (r.0, length r.1.world_points)

run_test :
    (run ceres ≡ ok (record { success = true; num_residuals_used = pos 3; num_iters = 0 }, 3))
    × (run robust ≡ ok (record { success = true; num_residuals_used = pos 3; num_iters = 0 }, 3))
    × (run gn ≡ ok (record { success = false; num_residuals_used = pos 0; num_iters = 0 }, 3))
unfolding add_if check_sizes move_all move_points transform_point transform_key_points
    stop_criterion reclassify add_robust_keypoint add_robust_keypoints finish_robust_round
    robust_round robust_result do_register_robust compute_neighborhood classify_neighborhood
    new_builder resize_functors init_problem add_parameter_blocks set_residual_block add_functors
    get_problem set_problem_values distort_points distort_frame weights add_closest add_keypoint
    add_keypoints finish_round ceres_round ceres_result do_register_ceres rotation_entry moved_pose
    moved_frame interpolate_point gauss_newton_step gauss_newton_round gauss_newton_result
    do_register_gauss_newton register rounds failed_summary solve_frame distort_if end_round add_row
    divide_by add_to_diagonal add_equation add_equations constrain_equations constrained_equations
    constrain_to_previous constrain_to_prediction add_constraints inverse apply get_alpha_timestamp
    interpolate_pose se3_inverse se3_apply se3_interpolate angular_distance
run_test = (refl, refl, refl)

-- an odometry that registers with Ceres' solver and has registered two frames
abbrev toy_motion : TrajectoryFrame ℕ ℕ (Unit {0}) → MotionModel ℕ ℕ (Unit {0})
toy_motion f = update_state toy_model f

abbrev filled_kit : Kit ℕ ℕ (Unit {0})
filled_kit =
    registration_kit toy_kit toy_motion (λ map strategy. tools) algebra
      (λ icp. let o = options ceres in record o { icp = icp })

abbrev filled_odometry : Odometry filled_kit
filled_odometry =
    let start = new_odometry filled_kit 0 (toy_options true false false false) in
    record start { trajectory = toy_frame 0 ∷ toy_frame 1 ∷ []; registered_frames = 2 }

registration_kit-KeepsStamps_example : KeepsStamps filled_kit
registration_kit-KeepsStamps_example =
    registration_kit-KeepsStamps toy_kit toy_motion (λ map strategy. tools) algebra
      (λ icp. let o = options ceres in record o { icp = icp })

register_with-IsStamped_example :
    Ensures
      (Finishes (λ r.
        Spans (map (λ e. e.1) toy_cloud.points) 7 r.0.frame
        × SpansAt (map (λ e. e.1) toy_cloud.points) 7 2 r.1.trajectory))
      (register_with filled_kit none (some 7) toy_cloud none filled_odometry)
unfolding new_odometry
register_with-IsStamped_example =
    register_with-IsStamped filled_kit ℕ-IsOrdered (some 7) toy_cloud none filled_odometry
      (registration_kit-KeepsStamps toy_kit toy_motion (λ map strategy. tools) algebra
        (λ icp. let o = options ceres in record o { icp = icp }))
      refl
