-- ===== src/Odometry/Kit.antt =====
-- The parts that the odometry works with: the map, the neighborhood strategy and the registration
-- through their interfaces, the standard library's shuffle and generator, the iteration order of a hash
-- map, and the callbacks that a user registers.
use ct_icp_comment.Common.{ℕ, Bool, List, Option, Outcome}
use ct_icp_comment.Geometry.{WPoint}
use ct_icp_comment.Grid.{Grid}
use ct_icp_comment.Pose.{Pose, TrajectoryFrame}
use ct_icp_comment.Odometry.Options.{IcpOptions, IcpSummary}

pub record Kit (D V Q : Type 0) : Type 1 where
  pub SlamMap : Type 0
  pub MapOptions : Type 0
  pub Strategy : Type 0
  pub StrategyOptions : Type 0
  pub MotionModel : Type 0
  pub MotionOptions : Type 0
  pub Generator : Type 0
  -- `ISlamMap` and `MakeMapFromOptions`
  pub make_map : MapOptions → SlamMap
  pub insert_point_cloud : SlamMap → List (WPoint D V Q) → List (Pose D V Q) → Outcome SlamMap
  pub remove_elements_far_from_location : SlamMap → V → D → SlamMap
  pub clear_map : SlamMap → SlamMap
  -- `MakeStrategyFromOptions`
  pub make_strategy : StrategyOptions → Strategy
  -- `PreviousFrameMotionModel` with its options, after `UpdateState` on a frame
  pub previous_frame_model : MotionOptions → TrajectoryFrame D V Q → MotionModel
  -- `CT_ICP_Registration::Register`: the summary, and the keypoints and the frame that it leaves
  pub register :
      IcpOptions D
      → SlamMap
      → List (WPoint D V Q)
      → TrajectoryFrame D V Q
      → Option MotionModel
      → Strategy
      → Outcome (IcpSummary × List (WPoint D V Q) × TrajectoryFrame D V Q)
  -- `std::shuffle`
  pub shuffle : List (WPoint D V Q) → Generator → List (WPoint D V Q) × Generator
  -- the orders in which `tsl::robin_map` and `std::unordered_map` are traversed
  pub traverse : Grid (WPoint D V Q) → Grid (WPoint D V Q)
  pub traverse_indices : Grid (List ℕ) → Grid (List ℕ)
  -- `OdometryCallback::Run`, which can read the trajectory and the map of the odometry
  pub run_callback :
      ℕ
      → List (TrajectoryFrame D V Q)
      → SlamMap
      → List (WPoint D V Q)
      → Option (List (WPoint D V Q))
      → Bool
