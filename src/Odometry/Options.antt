-- ===== src/Odometry/Options.antt =====
-- The options of the odometry (`OdometryOptions`, odometry.h) and those of the registration that it
-- reads or changes (`CTICPOptions`, include/ct_icp/ct_icp.h), with the summary of a registration.
use ct_icp_comment.Common.{ℕ, Bool, ℤ}

pub data MotionCompensation : Type 0 where
  no_compensation constant_velocity iterative continuous : MotionCompensation

pub data Initialization : Type 0 where
  init_none init_constant_velocity : Initialization

pub data SamplingOption : Type 0 where
  sampling_none grid adaptive : SamplingOption

pub data PoseParametrization : Type 0 where
  simple continuous_time : PoseParametrization

pub data IcpDistance : Type 0 where
  point_to_plane point_to_point point_to_line point_to_distribution : IcpDistance

pub record IcpOptions (D : Type 0) : Type 0 where
  pub num_iters_icp : ℤ
  pub parametrization : PoseParametrization
  pub distance : IcpDistance
  pub max_num_residuals : ℤ
  pub threshold_voxel_occupancy : ℤ
  pub threshold_orientation_norm : D
  pub threshold_translation_norm : D
  pub point_to_plane_with_distortion : Bool
  pub ls_max_num_iters : ℤ
  pub ls_sigma : D
  pub max_dist_to_plane_ct_icp : D

pub record IcpSummary : Type 0 where
  pub success : Bool
  pub num_residuals_used : ℕ

-- A is the type of the adaptive sampling's options, M of the map's, S of the strategy's, and B of the
-- default motion model's.
pub record OdometryOptions (D A M S B : Type 0) : Type 0 where
  pub ct_icp_options : IcpOptions D
  pub motion_compensation : MotionCompensation
  pub initialization : Initialization
  pub init_voxel_size : D
  pub init_sample_voxel_size : D
  pub init_num_frames : ℤ
  pub sample_voxel_size : D
  pub max_num_keypoints : ℤ
  pub sampling : SamplingOption
  pub adaptive_options : A
  pub map_options : M
  pub neighborhood_strategy : S
  pub voxel_size : D
  pub max_distance : D
  pub distance_error_threshold : D
  pub orientation_error_threshold : D
  pub quit_on_error : Bool
  pub robust_minimal_level : ℤ
  pub robust_registration : Bool
  pub robust_relative_trans_threshold : D
  pub robust_num_attempts : ℤ
  pub robust_num_attempts_when_rotation : ℤ
  pub robust_threshold_ego_orientation : D
  pub robust_threshold_relative_orientation : D
  pub insertion_ego_rotation_threshold : D
  pub insertion_threshold_frames_skipped : D
  pub always_insert : Bool
  pub do_no_insert : Bool
  pub default_motion_model : B
  pub with_default_motion_model : Bool
