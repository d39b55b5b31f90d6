-- ===== src/Registration/RobustSolver.antt =====
-- `DoRegisterRobust` (src/ct_icp/ct_icp.cpp): the cost function of a keypoint depends on the class of
-- its neighborhood. The arrays for the output, which no summary takes, are left out.
use ct_icp_comment.Common.{
  ℕ, ◌+◌, Bool, true, false, not, ◌&&◌, List, ◌∷◌, Option, none, some, ltb, length, get_elem?,
  replicate, if◌then◌else◌, ℤ, pos, negsuc, pos_part, ltb_ℤ, to_size, Double, Outcome, ok, require,
  ◌>>=◌, ◌>>◌, bad_index,
}
use ct_icp_comment.Geometry.{Vectors, Quaternions}
use ct_icp_comment.Pose.{TrajectoryFrame, get_alpha_timestamp}
use ct_icp_comment.Odometry.Options.{
  IcpDistance, point_to_plane, point_to_line, point_to_distribution,
}
use ct_icp_comment.Registration.{RegistrationOptions, SolverSummary}
use ct_icp_comment.Registration.Neighborhood.{
  Neighborhood, NeighborhoodType, unclassified, linear, planar, volumic, all_but_kdtree,
  compute_neighborhood, classify_neighborhood,
}
use ct_icp_comment.Registration.Builder.{
  Builder, Problem, new_builder, init_problem, add_parameter_blocks, set_residual_block,
  get_problem,
}
use ct_icp_comment.Registration.Rounds.{Round, short, Ending, too_few, finished, rounds}
use ct_icp_comment.Registration.Keypoints.{
  Keypoints, check_sizes, transform_key_points, normalize_frame,
}
use ct_icp_comment.Registration.Tools.{
  Tools, SolverState, new_neighborhood, failed_summary, solve_frame, end_round,
}
use ct_icp_comment.MotionModel.{MotionModel, add_constraints}

-- The cost function for a class of neighborhoods
abbrev pub distance_of_class : NeighborhoodType → IcpDistance
distance_of_class linear = point_to_line
distance_of_class planar = point_to_plane
distance_of_class unclassified = point_to_distribution
distance_of_class volumic = point_to_distribution

abbrev pub is_linear : NeighborhoodType → Bool
is_linear linear = true
is_linear _ = false

module _ {D V Q : Type 0} ⦃d : Double D⦄ ⦃v : Vectors D V⦄ ⦃q : Quaternions D V Q⦄ (t : Tools D V Q)
    (o : RegistrationOptions D) where
  -- Without lines, a linear neighborhood is planar or volumic.
  unfoldable pub reclassify : Neighborhood D V → Neighborhood D V
  reclassify n =
      if not o.use_lines && is_linear n.neighborhood
      then record n {
        neighborhood =
            if d.lt o.threshold_planarity n.description.planarity then planar else volumic;
      }
      else n

  abbrev pub class_weight : NeighborhoodType → Neighborhood D V → D
  class_weight linear n = t.analysis.pow (t.analysis.abs n.description.linearity) o.power_planarity
  class_weight planar n = t.analysis.pow (t.analysis.abs n.description.planarity) o.power_planarity
  class_weight unclassified n = o.weight_neighborhood
  class_weight volumic n = o.weight_neighborhood

  abbrev pub class_distance : NeighborhoodType → Neighborhood D V → V → V → D
  class_distance linear n point world =
      t.analysis.abs (v.norm (t.cross (v.minus point world) (t.unit_vector n.description.line)))
  class_distance planar n point world =
      t.analysis.abs (v.dot (v.minus point world) n.description.normal)
  class_distance unclassified n point world = v.norm (v.minus point world)
  class_distance volumic n point world = v.norm (v.minus point world)

  -- The body of the loop over the keypoints
  unfoldable pub add_robust_keypoint :
      TrajectoryFrame D V Q
      → ℕ
      → V
      → D
      → Neighborhood D V
      → Builder D V
      → Outcome (Neighborhood D V × Builder D V)
  add_robust_keypoint f k world timestamp n b = do
    points ← t.nearest world o.max_number_neighbors
    let found = record n { points = points }
    elim (ltb (length points) (to_size o.min_number_neighbors)) [
      | true ↦ ok (found, b)
      | false ↦ do
        let described = compute_neighborhood t.describe all_but_kdtree found
        let m =
            reclassify (classify_neighborhood o.threshold_linearity o.threshold_planarity described)
        front ← require (get_elem? points 0) bad_index
        let point : V = if o.use_barycenter then m.description.barycenter else front
        if d.lt (class_distance m.neighborhood m point world) o.outlier_distance
            then (do
              b' ←
                  set_residual_block o k k point m.description (class_weight m.neighborhood m)
                    (get_alpha_timestamp f.begin_pose timestamp f.end_pose)
                    (some (distance_of_class m.neighborhood)) b
              ok (m, b'))
            else ok (m, b)
    ]

  unfoldable pub add_robust_keypoints :
      TrajectoryFrame D V Q
      → ℕ
      → List V
      → List D
      → List (Neighborhood D V)
      → Builder D V
      → Outcome (List (Neighborhood D V) × Builder D V)
  add_robust_keypoints f k (world ∷ worlds) (s ∷ ss) (n ∷ ns) b = do
    here ← add_robust_keypoint f k world s n b
    rest ← add_robust_keypoints f (k + 1) worlds ss ns here.1
    ok (here.0 ∷ rest.0, rest.1)
  add_robust_keypoints f k worlds ss ns b = ok (ns, b)

  abbrev pub constrain_robust : Option (MotionModel D V Q) → ℕ → Problem D V Q → Problem D V Q
  constrain_robust none count problem = problem
  constrain_robust (some model) count problem = add_constraints t.analysis model count problem

  unfoldable pub finish_robust_round :
      SolverState D V Q → Problem D V Q → ℕ → Outcome (Round (SolverState D V Q))
  finish_robust_round s problem count = do
    f ← solve_frame t o problem s.frame
    end_round o s f count

  unfoldable pub robust_round :
      Option (MotionModel D V Q) → SolverState D V Q → Outcome (Round (SolverState D V Q))
  robust_round model s = do
    k ← transform_key_points o s.frame s.keypoints
    b ← init_problem (pos (length k.raw_points)) s.builder
    b' ← add_parameter_blocks b
    added ← add_robust_keypoints s.frame 0 k.world_points k.timestamps s.neighborhoods b'
    let (problem, count, b'') = get_problem o added.1
    let s' = record s { keypoints = k; builder = b''; neighborhoods = added.0 }
    if ltb_ℤ (pos count) o.min_number_neighbors
        then ok (short count s')
        else finish_robust_round s' (constrain_robust model count problem) count

  -- The number of residuals is -1 before the first round.
  abbrev pub residuals_or_minus_one : Option ℕ → ℤ
  residuals_or_minus_one none = negsuc 0
  residuals_or_minus_one (some n) = pos n

  unfoldable pub robust_result :
      Ending (SolverState D V Q) → Outcome (SolverSummary × Keypoints D V × TrajectoryFrame D V Q)
  robust_result (too_few count s) = ok (failed_summary count, s.keypoints, s.frame)
  robust_result (finished iter s) = do
    k ← transform_key_points o s.frame s.keypoints
    ok (
      record {
        success = true;
        num_residuals_used = residuals_or_minus_one s.number_of_residuals;
        num_iters = 0;
      },
      k,
      normalize_frame s.frame,
    )

  unfoldable pub do_register_robust :
      Keypoints D V
      → TrajectoryFrame D V Q
      → Option (MotionModel D V Q)
      → Outcome (SolverSummary × Keypoints D V × TrajectoryFrame D V Q)
  do_register_robust k f model = do
    check_sizes k
    ending ← rounds (robust_round model) (pos_part o.num_iters_icp) 0 (record {
      frame = f;
      previous = f;
      keypoints = k;
      builder = new_builder o k.raw_points;
      neighborhoods = replicate (length k.raw_points) new_neighborhood;
      number_of_residuals = none;
    })
    robust_result ending
