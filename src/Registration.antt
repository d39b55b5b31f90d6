-- ===== src/Registration.antt =====
-- The registration of a frame (include/ct_icp/ct_icp.h, src/ct_icp/ct_icp.cpp): its options, its
-- summary and what it takes from outside, which are Ceres, Eigen's decompositions and the functions of
-- the standard library on doubles. Durations, logs and the outputs for debugging are left out.
use ct_icp_comment.Common.{ℕ, Bool, List, Option, Outcome, ℤ}
use ct_icp_comment.Geometry.{Se3, WPoint}
use ct_icp_comment.Odometry.Options.{IcpOptions, IcpDistance, PoseParametrization}
pub mod Neighborhood
pub mod Builder
pub mod Rounds
pub mod Keypoints
pub mod Tools
pub mod CeresSolver
pub mod RobustSolver
pub mod NormalEquations
pub mod GaussNewton
pub mod Problem
pub mod Contract
pub mod Iterations
pub mod Registered
pub mod Solved
pub mod Symmetry
pub mod Stamps

pub data Solver : Type 0 where
  gn ceres robust : Solver

pub data LeastSquares : Type 0 where
  standard cauchy huber tolerant truncated : LeastSquares

-- `CTICPOptions`: the options that the odometry reads or changes, and the others
pub record RegistrationOptions (D : Type 0) : Type 0 where
  pub icp : IcpOptions D
  pub open icp use *
  pub solver : Solver
  pub weight_alpha : D
  pub weight_neighborhood : D
  pub power_planarity : D
  pub max_number_neighbors : ℤ
  pub min_number_neighbors : ℤ
  pub num_closest_neighbors : ℤ
  pub loss_function : LeastSquares
  pub ls_tolerant_min_threshold : D
  pub threshold_linearity : D
  pub threshold_planarity : D
  pub outlier_distance : D
  pub use_barycenter : Bool
  pub use_lines : Bool

-- `ICPSummary`
pub record SolverSummary : Type 0 where
  pub success : Bool
  pub num_residuals_used : ℤ
  pub num_iters : ℕ

-- `pow`, `exp` and the other functions of <cmath>
pub record Analysis (D : Type 0) : Type 0 where
  pub pow : D → D → D
  pub exp : D → D
  pub abs : D → D
  pub sqrt : D → D
  pub sin : D → D
  pub cos : D → D
  pub to_double : ℤ → D
