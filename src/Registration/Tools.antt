-- ===== src/Registration/Tools.antt =====
-- What the solvers of the registration share (src/ct_icp/ct_icp.cpp): what they call from outside, the
-- variables of their loops, and the steps that they have in common.
use ct_icp_comment.Common.{
  ℕ, Bool, false, ◌&&◌, List, [], Option, some, if◌then◌else◌, ℤ, pos, Double, Outcome, ok, check,
  ◌>>=◌, ◌>>◌, not_usable,
}
use ct_icp_comment.Geometry.{Se3, Vectors, Quaternions, WPoint}
use ct_icp_comment.Pose.{TrajectoryFrame}
use ct_icp_comment.Registration.{RegistrationOptions, SolverSummary, Analysis}
use ct_icp_comment.Registration.Neighborhood.{
  Neighborhood, Description, Values, no_values, unclassified,
}
use ct_icp_comment.Registration.Builder.{Builder, Problem, distort_frame}
use ct_icp_comment.Registration.Rounds.{Round, converged, further}
use ct_icp_comment.Registration.Keypoints.{Keypoints, normalize_frame, with_poses, stop_criterion}

-- What the solvers call: the decompositions of Eigen, a neighborhood strategy and a map, and Ceres.
-- `search` is `ComputeNeighborhoodInPlace` of the strategy, with the place of the sensor, and `nearest`
-- that of the map; both replace the points of a neighborhood. `solve` says whether the solution is
-- usable and gives the poses that it leaves in the parameter blocks.
pub record Tools (D V Q : Type 0) : Type 0 where
  pub analysis : Analysis D
  pub describe : Values → List V → Description D V
  pub search : WPoint D V Q → V → Outcome (List V)
  pub nearest : V → ℤ → Outcome (List V)
  pub solve :
      RegistrationOptions D → Problem D V Q → Se3 D V Q × Se3 D V Q → Bool × Se3 D V Q × Se3 D V Q
  pub cross : V → V → V
  pub unit_vector : V → V

-- The variables of the loop over the rounds
pub record SolverState (D V Q : Type 0) : Type 0 where
  pub frame : TrajectoryFrame D V Q
  pub previous : TrajectoryFrame D V Q
  pub keypoints : Keypoints D V
  pub builder : Builder D V
  pub neighborhoods : List (Neighborhood D V)
  pub number_of_residuals : Option ℕ

unfoldable pub failed_summary : ℕ → SolverSummary
failed_summary count = record { success = false; num_residuals_used = pos count; num_iters = 0 }

module _ {D V : Type 0} ⦃d : Double D⦄ ⦃v : Vectors D V⦄ where
  abbrev pub new_neighborhood : Neighborhood D V
  new_neighborhood =
      let minus_one : D = d.neg (d.decimal 1 0) in
      record {
        points = [];
        description = record {
          planarity = minus_one;
          linearity = minus_one;
          a2d = minus_one;
          cov_det = minus_one;
          line = v.vec_zero;
          normal = v.vec_zero;
          barycenter = v.vec_zero;
        };
        computed_values = no_values;
        neighborhood = unclassified;
        is_valid = false;
      }

module _ {D : Type 0} ⦃d : Double D⦄ where
  abbrev pub is_converged : RegistrationOptions D → D × D → Bool
  is_converged o diff =
      d.lt diff.1 o.threshold_orientation_norm && d.lt diff.0 o.threshold_translation_norm

module _ {D V Q : Type 0} ⦃d : Double D⦄ ⦃v : Vectors D V⦄ ⦃q : Quaternions D V Q⦄ (t : Tools D V Q)
    (o : RegistrationOptions D) where
  -- The solution in the frame
  unfoldable pub solve_frame :
      Problem D V Q → TrajectoryFrame D V Q → Outcome (TrajectoryFrame D V Q)
  solve_frame problem f = do
    let solution : Bool × Se3 D V Q × Se3 D V Q =
        t.solve o problem (f.begin_pose.pose, f.end_pose.pose)
    check solution.0 not_usable
    ok (normalize_frame (with_poses solution.1 solution.2 f))

module _ {D V Q : Type 0} ⦃d : Double D⦄ ⦃v : Vectors D V⦄ ⦃q : Quaternions D V Q⦄
    (o : RegistrationOptions D) where
  unfoldable pub distort_if :
      TrajectoryFrame D V Q → Keypoints D V → Builder D V → Outcome (Builder D V)
  distort_if f k b =
      if o.point_to_plane_with_distortion
      then distort_frame o f.begin_pose f.end_pose k.raw_points k.timestamps b
      else ok b

  -- The end of a round at a new estimate: the stop criterion and the distortion
  unfoldable pub end_round :
      SolverState D V Q → TrajectoryFrame D V Q → ℕ → Outcome (Round (SolverState D V Q))
  end_round s f count = do
    diff ← stop_criterion s.previous f
    b ← distort_if f s.keypoints s.builder
    let s' = record s { frame = f; previous = f; builder = b; number_of_residuals = some count }
    ok (if is_converged o diff then converged s' else further s')
