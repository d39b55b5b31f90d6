-- ===== src/Tests.antt =====
-- A small world to run the odometry in: points on a half line, a map that is a list of points, and a
-- registration that keeps its estimate.
pub mod Buffers
pub mod Poses
pub mod Maps
pub mod Searches
pub mod Datasets
pub mod Registrations
pub mod Solvers
pub mod Trajectories
use ct_icp_comment.Common.{
  ◌*◌, ◌+◌, ℕ, Bool, true, false, List, [], ◌∷◌, ◌++◌, Option, none, some, Outcome, ok, ℤ, pos,
  negsuc, unit, fixed_double,
}
use ct_icp_comment.Geometry.{WPoint, line_vectors, line_quaternions}
use ct_icp_comment.Pose.{Pose, TrajectoryFrame, pose_at, frame_default}
use ct_icp_comment.Sampling.{AdaptiveGridSamplingOptions}
use ct_icp_comment.Odometry.Kit.{Kit}
use ct_icp_comment.Odometry.Options.{
  IcpOptions, IcpSummary, OdometryOptions, continuous, init_constant_velocity, grid,
  continuous_time, point_to_plane,
}
use ct_icp_comment.Odometry.State.{
  Odometry, Options, PointCloud, FrameInfo, RegistrationSummary, new_odometry,
}
use ct_icp_comment.Odometry.Pipeline.{new_summary}

abbrev pub toy_kit : Kit ℕ ℕ (Unit {0})
toy_kit = record {
  SlamMap = List (WPoint ℕ ℕ (Unit {0}));
  MapOptions = Unit {0};
  Strategy = Unit {0};
  StrategyOptions = Unit {0};
  MotionModel = TrajectoryFrame ℕ ℕ (Unit {0});
  MotionOptions = Unit {0};
  Generator = ℕ;
  make_map = λ o. [];
  insert_point_cloud = λ m points poses. ok (m ++ points);
  remove_elements_far_from_location = λ m location distance. m;
  clear_map = λ m. [];
  make_strategy = λ o. tt;
  previous_frame_model = λ o f. f;
  register = λ o m keypoints f model strategy.
      ok (record { success = true; num_residuals_used = 1 }, keypoints, f);
  shuffle = λ points g. (points, g);
  traverse = λ g. g;
  traverse_indices = λ g. g;
  run_callback = λ c t m frame keypoints. true;
}

-- the defaults of `OdometryOptions`, with what differs from one test to another as arguments
abbrev pub toy_options : Bool → Bool → Bool → Bool → Options toy_kit
toy_options robust quit never always = record {
  ct_icp_options = record {
    num_iters_icp = pos 5;
    parametrization = continuous_time;
    distance = point_to_plane;
    max_num_residuals = negsuc 0;
    threshold_voxel_occupancy = pos 1;
    threshold_orientation_norm = 100;
    threshold_translation_norm = 1000;
    point_to_plane_with_distortion = true;
    ls_max_num_iters = pos 1;
    ls_sigma = 100_000;
    max_dist_to_plane_ct_icp = 300_000;
  };
  motion_compensation = continuous;
  initialization = init_constant_velocity;
  init_voxel_size = 200_000;
  init_sample_voxel_size = 1_000_000;
  init_num_frames = pos 20;
  sample_voxel_size = 1_500_000;
  max_num_keypoints = negsuc 0;
  sampling = grid;
  adaptive_options = record {
    num_points_per_voxel = pos 1;
    max_num_points = negsuc 0;
    distance_voxel_size = [];
  };
  map_options = tt;
  neighborhood_strategy = tt;
  voxel_size = 500_000;
  max_distance = 100_000_000;
  distance_error_threshold = 5_000_000;
  orientation_error_threshold = 30_000_000;
  quit_on_error = quit;
  robust_minimal_level = pos 0;
  robust_registration = robust;
  robust_relative_trans_threshold = 1_000_000;
  robust_num_attempts = pos 6;
  robust_num_attempts_when_rotation = pos 2;
  robust_threshold_ego_orientation = 3_000_000;
  robust_threshold_relative_orientation = 3_000_000;
  insertion_ego_rotation_threshold = 3_000_000;
  insertion_threshold_frames_skipped = 5_000_000;
  always_insert = always;
  do_no_insert = never;
  default_motion_model = tt;
  with_default_motion_model = true;
}

abbrev pub toy_cloud : PointCloud ℕ ℕ
toy_cloud = record {
  points = (1_000_000, 0) ∷ (2_500_000, 50_000) ∷ (4_000_000, 100_000) ∷ [];
  has_timestamps = true;
}

abbrev pub toy_frame : ℕ → TrajectoryFrame ℕ ℕ (Unit {0})
toy_frame n = record {
  begin_pose = record {
    pose = record { quat = tt; tr = n * unit };
    ref_timestamp = 0;
    dest_timestamp = n * 100_000;
    ref_frame_id = 0;
    dest_frame_id = n;
  };
  end_pose = record {
    pose = record { quat = tt; tr = (n + 1) * unit };
    ref_timestamp = 0;
    dest_timestamp = (n + 1) * 100_000;
    ref_frame_id = 0;
    dest_frame_id = n;
  };
}

abbrev pub toy_info : ℕ → FrameInfo ℕ
toy_info n = record {
  registered_fid = n;
  frame_id = n;
  begin_timestamp = n * 100_000;
  end_timestamp = (n + 1) * 100_000;
}

-- an odometry that has registered two frames
unfoldable pub toy_odometry : Options toy_kit → Odometry toy_kit
unfolding new_odometry
toy_odometry o = record (new_odometry toy_kit 0 o) {
  trajectory = toy_frame 0 ∷ toy_frame 1 ∷ [];
  registered_frames = 2;
}
