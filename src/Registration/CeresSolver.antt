-- ===== src/Registration/CeresSolver.antt =====
-- `DoRegisterCeres` (src/ct_icp/ct_icp.cpp). The parallel loop over the keypoints writes to places that
-- no two keypoints share, and runs in their order here.
use ct_icp_comment.Common.{
  ℕ, zero, suc, ◌+◌, ◌*◌, Bool, true, false, List, ◌∷◌, Option, none, some, ltb, length, get_elem?,
  replicate, if◌then◌else◌, pos, pos_part, ltb_ℤ, to_size, Double, Outcome, ok, check, require,
  ◌>>=◌, ◌>>◌, bad_index, bad_weights, uninitialized, scale,
}
use ct_icp_comment.Geometry.{Vectors, Quaternions}
use ct_icp_comment.Pose.{TrajectoryFrame, begin_tr, end_tr, get_alpha_timestamp}
use ct_icp_comment.Registration.{RegistrationOptions, SolverSummary}
use ct_icp_comment.Registration.Neighborhood.{Neighborhood, normal_a2d, compute_neighborhood}
use ct_icp_comment.Registration.Builder.{
  Builder, Problem, new_builder, init_problem, add_parameter_blocks, set_residual_block,
  get_problem,
}
use ct_icp_comment.Registration.Rounds.{Round, short, Ending, too_few, finished, rounds}
use ct_icp_comment.Registration.Keypoints.{
  Keypoints, check_sizes, is_continuous, transform_key_points, normalize_frame,
}
use ct_icp_comment.MotionModel.{MotionModel, add_constraints}
use ct_icp_comment.Registration.Tools.{
  Tools, SolverState, new_neighborhood, failed_summary, solve_frame, distort_if, end_round,
}

module _ {D V Q : Type 0} ⦃d : Double D⦄ ⦃v : Vectors D V⦄ ⦃q : Quaternions D V Q⦄ (t : Tools D V Q)
    (o : RegistrationOptions D) where
  -- The two weights, divided by their sum
  unfoldable pub weights : Outcome (D × D)
  weights = do
    let alpha : D = t.analysis.abs o.weight_alpha
    let near : D = t.analysis.abs o.weight_neighborhood
    let sum : D = d.add alpha near
    check (d.lt (d.decimal 0 0) sum) bad_weights
    ok (d.div alpha sum, d.div near sum)

  -- The residuals of a keypoint with its closest neighbors, from the neighbor `i` on
  unfoldable pub add_closest :
      TrajectoryFrame D V Q
      → ℕ
      → D
      → Neighborhood D V
      → D
      → ℕ
      → ℕ
      → Builder D V
      → Outcome (Builder D V)
  add_closest f k timestamp n weight zero i b = ok b
  add_closest f k timestamp n weight (suc left) i b = do
    point ← require (get_elem? n.points i) bad_index
    b' ←
        set_residual_block o (pos_part o.num_closest_neighbors * k + i) k point n.description weight
          (get_alpha_timestamp f.begin_pose timestamp f.end_pose) none b
    add_closest f k timestamp n weight left (i + 1) b'

  -- The normal is turned where its product with a difference, of the begin with itself, is negative.
  abbrev pub turn_normal : TrajectoryFrame D V Q → Neighborhood D V → Neighborhood D V
  turn_normal f n =
      let desc = n.description in
      if d.lt (v.dot desc.normal (v.minus (begin_tr f) (begin_tr f))) (d.decimal 0 0)
      then record n {
        description = record desc { normal = v.scale (d.neg (d.decimal 1 0)) desc.normal };
      }
      else n

  abbrev pub point_weight : D × D → Neighborhood D V → V → V → D
  point_weight w n closest world =
      d.add (d.mul w.0 (t.analysis.pow n.description.a2d o.power_planarity)) (
        d.mul w.1 (
          t.analysis.exp (
            d.div (d.neg (v.norm (v.minus closest world)))
              (d.mul o.max_dist_to_plane_ct_icp (t.analysis.to_double o.min_number_neighbors)))))

  -- The body of the loop over the keypoints
  unfoldable pub add_keypoint :
      TrajectoryFrame D V Q
      → D × D
      → ℕ
      → V
      → V
      → D
      → Neighborhood D V
      → Builder D V
      → Outcome (Neighborhood D V × Builder D V)
  add_keypoint f w k raw world timestamp n b = do
    points ←
        t.search
          (record { raw_point = raw; timestamp = timestamp; world_point = world; index_frame = 0 })
          (end_tr f)
    let found = record n { points = points }
    elim (ltb (length points) (to_size o.min_number_neighbors)) [
      | true ↦ ok (found, b)
      | false ↦ do
        let described = turn_normal f (compute_neighborhood t.describe normal_a2d found)
        closest ← require (get_elem? points 0) bad_index
        b' ←
            add_closest f k timestamp described (point_weight w described closest world)
              (pos_part o.num_closest_neighbors) 0 b
        ok (described, b')
    ]

  -- The loop over the keypoints from `k` on, with their neighborhoods
  unfoldable pub add_keypoints :
      TrajectoryFrame D V Q
      → D × D
      → ℕ
      → List V
      → List V
      → List D
      → List (Neighborhood D V)
      → Builder D V
      → Outcome (List (Neighborhood D V) × Builder D V)
  add_keypoints f w k (raw ∷ raws) (world ∷ worlds) (s ∷ ss) (n ∷ ns) b = do
    here ← add_keypoint f w k raw world s n b
    rest ← add_keypoints f w (k + 1) raws worlds ss ns here.1
    ok (here.0 ∷ rest.0, rest.1)
  add_keypoints f w k raws worlds ss ns b = ok (ns, b)

  -- The motion model is used with the continuous parametrization only.
  abbrev pub constrain : Option (MotionModel D V Q) → Bool → ℕ → Problem D V Q → Problem D V Q
  constrain none continuous count problem = problem
  constrain (some model) continuous count problem =
      if continuous then add_constraints t.analysis model count problem else problem

  -- The solution; its quaternions are normalized twice.
  unfoldable pub finish_round :
      SolverState D V Q → Problem D V Q → ℕ → Outcome (Round (SolverState D V Q))
  finish_round s problem count = do
    solved ← solve_frame t o problem s.frame
    end_round o s (normalize_frame solved) count

  unfoldable pub ceres_round :
      Option (MotionModel D V Q) → D × D → SolverState D V Q → Outcome (Round (SolverState D V Q))
  ceres_round model w s = do
    k ← transform_key_points o s.frame s.keypoints
    b ← init_problem (scale (length k.raw_points) o.num_closest_neighbors) s.builder
    b' ← add_parameter_blocks b
    added ← add_keypoints s.frame w 0 k.raw_points k.world_points k.timestamps s.neighborhoods b'
    let (problem, count, b'') = get_problem o added.1
    let s' = record s { keypoints = k; builder = b''; neighborhoods = added.0 }
    if ltb_ℤ (pos count) o.min_number_neighbors
        then ok (short count s')
        else finish_round s' (constrain model (is_continuous o.parametrization) count problem) count

  -- After the rounds
  unfoldable pub ceres_result :
      Ending (SolverState D V Q) → Outcome (SolverSummary × Keypoints D V × TrajectoryFrame D V Q)
  ceres_result (too_few count s) = ok (failed_summary count, s.keypoints, s.frame)
  ceres_result (finished iter s) = do
    k ← transform_key_points o s.frame s.keypoints
    count ← require s.number_of_residuals uninitialized
    ok (
      record { success = true; num_residuals_used = pos count; num_iters = iter },
      k,
      normalize_frame s.frame,
    )

  unfoldable pub do_register_ceres :
      Keypoints D V
      → TrajectoryFrame D V Q
      → Option (MotionModel D V Q)
      → Outcome (SolverSummary × Keypoints D V × TrajectoryFrame D V Q)
  do_register_ceres k frame model = do
    check_sizes k
    let f = normalize_frame frame
    b ← distort_if o f k (new_builder o k.raw_points)
    w ← weights
    ending ← rounds (ceres_round model w) (pos_part o.num_iters_icp) 0 (record {
      frame = f;
      previous = f;
      keypoints = k;
      builder = b;
      neighborhoods = replicate (length k.raw_points) new_neighborhood;
      number_of_residuals = none;
    })
    ceres_result ending
