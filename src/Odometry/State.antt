-- ===== src/Odometry/State.antt =====
-- The state of the odometry, the summary of a registration and the description of a frame (odometry.h),
-- the constructor, the resets and the callbacks (odometry.cpp).
use ct_icp_comment.Common.{
  ℕ, ◌+◌, Bool, true, false, List, [], ◌∷◌, ◌++◌, Option, ℤ, pos, Double, Outcome, ok, ◌>>◌, check,
  callback_failed, ◌==◌, if◌then◌else◌,
}
use ct_icp_comment.Geometry.{Vectors, Quaternions, WPoint}
use ct_icp_comment.Pose.{TrajectoryFrame, frame_default}
use ct_icp_comment.Sampling.{AdaptiveGridSamplingOptions}
use ct_icp_comment.Odometry.Options.{
  OdometryOptions, IcpOptions, IcpSummary, MotionCompensation, no_compensation, constant_velocity,
  iterative, continuous, simple, continuous_time, point_to_plane,
}
use ct_icp_comment.Odometry.Kit.{Kit}

pub data ErrorMessage : Type 0 where
  no_message : ErrorMessage
  -- "Large rotations require at a robust_level of at least 1 (got: n)."
  large_rotation : ℕ → ErrorMessage
  -- "The relative distance is too important"
  large_distance : ErrorMessage

-- Without the logged values.
pub record RegistrationSummary (D V Q : Type 0) : Type 0 where
  pub frame : TrajectoryFrame D V Q
  pub initial_frame : TrajectoryFrame D V Q
  pub sample_size : ℕ
  pub number_of_residuals : ℕ
  pub robust_level : ℕ
  pub distance_correction : D
  pub relative_distance : D
  pub relative_orientation : D
  pub ego_orientation : D
  pub success : Bool
  pub points_added : Bool
  pub number_of_attempts : ℕ
  pub error_message : ErrorMessage
  pub corrected_points : List (WPoint D V Q)
  pub all_corrected_points : List (WPoint D V Q)
  pub keypoints : List (WPoint D V Q)
  pub icp_summary : IcpSummary

pub record FrameInfo (D : Type 0) : Type 0 where
  pub registered_fid : ℕ
  pub frame_id : ℕ
  pub begin_timestamp : D
  pub end_timestamp : D

pub record FrameInsertionTracker (D : Type 0) : Type 0 where
  pub last_inserted_frame_idx : ℕ
  pub cum_distance_since_insertion : D
  pub cum_orientation_change_since_insertion : D
  pub skipped_frames : ℕ
  pub total_insertions : ℕ

pub data Event : Type 0 where
  before_iteration iteration_completed finished_registration : Event

abbrev pub event_index : Event → ℕ
event_index before_iteration = 0
event_index iteration_completed = 1
event_index finished_registration = 2

-- A user's point cloud as the pipeline reads it: its points with their instants, if it has any.
pub record PointCloud (D V : Type 0) : Type 0 where
  pub points : List (V × D)
  pub has_timestamps : Bool

module _ {D : Type 0} ⦃d : Double D⦄ where
  unfoldable pub insert_frame : ℕ → FrameInsertionTracker D → FrameInsertionTracker D
  insert_frame frame_id t = record {
    last_inserted_frame_idx = frame_id;
    cum_distance_since_insertion = d.decimal 0 0;
    cum_orientation_change_since_insertion = d.decimal 0 0;
    skipped_frames = 0;
    total_insertions = t.total_insertions + 1;
  }

  unfoldable pub skip_frame : FrameInsertionTracker D → FrameInsertionTracker D
  skip_frame t = record t { skipped_frames = t.skipped_frames + 1 }

  unfoldable pub new_tracker : FrameInsertionTracker D
  new_tracker = record {
    last_inserted_frame_idx = 0;
    cum_distance_since_insertion = d.decimal 0 0;
    cum_orientation_change_since_insertion = d.decimal 0 0;
    skipped_frames = 0;
    total_insertions = 0;
  }

module _ {D V Q : Type 0} (k : Kit D V Q) where
  open k use {SlamMap, Strategy, Generator, MapOptions, StrategyOptions, MotionOptions}

  abbrev pub Options : Type 0
  Options =
      OdometryOptions D (AdaptiveGridSamplingOptions D) MapOptions StrategyOptions MotionOptions

  -- `callbacks` pairs the registered callbacks with their events, in the order of registration.
  pub record Odometry : Type 0 where
    pub callbacks : List (Event × ℕ)
    pub trajectory : List (TrajectoryFrame D V Q)
    pub slam_map : SlamMap
    pub neighborhood_strategy : Strategy
    pub previous_frame : TrajectoryFrame D V Q
    pub registered_frames : ℕ
    pub robust_num_consecutive_failures : ℕ
    pub suspect_registration_error : Bool
    pub next_robust_level : ℤ
    pub options : Options
    pub insertion_tracker : FrameInsertionTracker D
    pub generator : Generator

module _ {D V Q : Type 0} ⦃d : Double D⦄ ⦃v : Vectors D V⦄ ⦃q : Quaternions D V Q⦄
    (k : Kit D V Q) where
  -- the registration options that the constructor derives from the motion compensation
  unfoldable pub compensate : MotionCompensation → IcpOptions D → IcpOptions D
  compensate no_compensation o = record o {
    point_to_plane_with_distortion = false;
    distance = point_to_plane;
    parametrization = simple;
  }
  compensate constant_velocity o = record o {
    point_to_plane_with_distortion = false;
    distance = point_to_plane;
    parametrization = simple;
  }
  compensate iterative o = record o {
    point_to_plane_with_distortion = true;
    distance = point_to_plane;
    parametrization = simple;
  }
  compensate continuous o = record o {
    point_to_plane_with_distortion = true;
    parametrization = continuous_time;
    distance = point_to_plane;
  }

  -- `Odometry(options)`; the generator is seeded by default
  unfoldable pub new_odometry : k.Generator → Options k → Odometry k
  new_odometry g o = record {
    callbacks = [];
    trajectory = [];
    slam_map = k.make_map o.map_options;
    neighborhood_strategy = k.make_strategy o.neighborhood_strategy;
    previous_frame = frame_default;
    registered_frames = 0;
    robust_num_consecutive_failures = 0;
    suspect_registration_error = false;
    next_robust_level = o.robust_minimal_level;
    options = record o { ct_icp_options = compensate o.motion_compensation o.ct_icp_options };
    insertion_tracker = new_tracker;
    generator = g;
  }

  -- `Reset()`
  unfoldable pub reset : Odometry k → Odometry k
  reset o = record o {
    trajectory = [];
    slam_map = k.clear_map o.slam_map;
    neighborhood_strategy = k.make_strategy o.options.neighborhood_strategy;
    registered_frames = 0;
    robust_num_consecutive_failures = 0;
    suspect_registration_error = false;
    next_robust_level = pos 0;
    previous_frame = frame_default;
  }

  -- `Reset(options)`
  unfoldable pub reset_with : Options k → Odometry k → Odometry k
  reset_with options o = record (reset o) {
    options = options;
    slam_map = k.make_map options.map_options;
    neighborhood_strategy = k.make_strategy options.neighborhood_strategy;
  }

  unfoldable pub register_callback : Event → ℕ → Odometry k → Odometry k
  register_callback event callback o = record o {
    callbacks = o.callbacks ++ (event, callback) ∷ [];
  }

  -- the loop over the callbacks of one event
  unfoldable pub run_callbacks :
      List (Event × ℕ)
      → Event
      → Odometry k
      → List (WPoint D V Q)
      → Option (List (WPoint D V Q))
      → Outcome (Unit {0})
  run_callbacks [] event o frame keypoints = ok tt
  run_callbacks ((e, c) ∷ cs) event o frame keypoints =
      let rest = run_callbacks cs event o frame keypoints in
      if event_index e == event_index event
      then (check (k.run_callback c o.trajectory o.slam_map frame keypoints) callback_failed
          >> rest)
      else rest

  unfoldable pub iterate_over_callbacks :
      Event → Odometry k → List (WPoint D V Q) → Option (List (WPoint D V Q)) → Outcome (Unit {0})
  iterate_over_callbacks event o frame keypoints = run_callbacks o.callbacks event o frame keypoints
