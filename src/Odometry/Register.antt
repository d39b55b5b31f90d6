-- ===== src/Odometry/Register.antt =====
-- `InitializeFrame` and `TryRegister` (odometry.cpp). Logs and durations are left
-- out.
use ct_icp_comment.Common.{
  take, length, to_size, ◌>>◌, some, not, ℤ, max_ℤ, Option, ℕ, Bool, true, false, ◌&&◌, List, [],
  ◌∷◌, map, get_elem?, Double, Outcome, ok, ◌>>=◌, require, bad_index, ltb, leb, ltb_ℤ, pos,
  if◌then◌else◌,
}
use ct_icp_comment.Geometry.{Vectors, Quaternions, WPoint, se3_apply}
use ct_icp_comment.Pose.{Pose, inverse, interpolate_pose, no_frame_id}
use ct_icp_comment.Sampling.{adaptive_sample_points_in_grid, grid_sampling, sub_sample_frame}
use ct_icp_comment.Odometry.Options.{
  IcpOptions, grid, sampling_none, adaptive, MotionCompensation, no_compensation, constant_velocity,
}
use ct_icp_comment.Odometry.Kit.{Kit}
use ct_icp_comment.Odometry.State.{
  iteration_completed, before_iteration, iterate_over_callbacks, RegistrationSummary, Options,
  Odometry, FrameInfo, PointCloud,
}

-- A loop over points that a check can stop.
unfoldable pub traverse_points {ℓ} : {A B : Type ℓ} → (A → Outcome B) → List A → Outcome (List B)
traverse_points f [] = ok []
traverse_points f (p ∷ ps) = do p' ← f p; ps' ← traverse_points f ps; ok (p' ∷ ps')

module _ {D V Q : Type 0} ⦃d : Double D⦄ ⦃v : Vectors D V⦄ ⦃q : Quaternions D V Q⦄ where
  -- the body of `DistortFrame`
  unfoldable pub distort_point : Pose D V Q → Pose D V Q → WPoint D V Q → Outcome (WPoint D V Q)
  distort_point begin_pose end_pose p = do
    i ← interpolate_pose begin_pose end_pose p.timestamp no_frame_id
    ok (record p { raw_point = se3_apply (inverse end_pose).pose (se3_apply i.pose p.raw_point) })

  unfoldable pub transform_point :
      MotionCompensation → Pose D V Q → Pose D V Q → WPoint D V Q → Outcome (WPoint D V Q)
  transform_point no_compensation begin_pose end_pose p =
      ok (record p { world_point = se3_apply end_pose.pose p.raw_point })
  transform_point constant_velocity begin_pose end_pose p =
      ok (record p { world_point = se3_apply end_pose.pose p.raw_point })
  transform_point _ begin_pose end_pose p = do
    i ← interpolate_pose begin_pose end_pose p.timestamp no_frame_id
    ok (record p { world_point = se3_apply i.pose p.raw_point })

abbrev pub is_constant_velocity : MotionCompensation → Bool
is_constant_velocity constant_velocity = true
is_constant_velocity _ = false

module _ {D V Q : Type 0} where
  -- the point of the new frame before any motion
  abbrev pub raw_wpoint : ℕ → V × D → WPoint D V Q
  raw_wpoint frame_id e = record {
    raw_point = e.0;
    timestamp = e.1;
    world_point = e.0;
    index_frame = frame_id;
  }

  abbrev pub with_timestamp : D → WPoint D V Q → WPoint D V Q
  with_timestamp t p = record p { timestamp = t }

  abbrev pub with_index_frame : ℕ → WPoint D V Q → WPoint D V Q
  with_index_frame i p = record p { index_frame = i }

module _ {D V Q : Type 0} ⦃d : Double D⦄ ⦃v : Vectors D V⦄ ⦃q : Quaternions D V Q⦄
    (k : Kit D V Q) where
  -- the frame and the odometry, whose generator the two shuffles change
  unfoldable pub initialize_frame :
      PointCloud D V → FrameInfo D → Odometry k → Outcome (List (WPoint D V Q) × Odometry k)
  initialize_frame cloud info o = do
    let size : D =
        if ltb_ℤ (pos info.registered_fid) o.options.init_num_frames
        then o.options.init_voxel_size
        else o.options.voxel_size
    let points : List (WPoint D V Q) = map (raw_wpoint info.frame_id) cloud.points
    let (shuffled, g) = k.shuffle points o.generator
    let sampled : List (WPoint D V Q) = sub_sample_frame k.traverse shuffled size
    let stamped : List (WPoint D V Q) =
        if leb info.registered_fid 1
        then map (with_timestamp info.end_timestamp) sampled
        else sampled
    let (again, g') = k.shuffle stamped g
    f ← require (get_elem? o.trajectory info.registered_fid) bad_index
    distorted ←
        (if ltb 1 info.registered_fid && is_constant_velocity o.options.motion_compensation
          then traverse_points (distort_point f.begin_pose f.end_pose) again
          else ok again)
    moved ←
        traverse_points (transform_point o.options.motion_compensation f.begin_pose f.end_pose)
          distorted
    ok (map (with_index_frame info.frame_id) moved, record o { generator = g' })

  -- the choice of the keypoints, which may draw on the generator
  unfoldable pub sample_keypoints :
      List (WPoint D V Q)
      → FrameInfo D
      → D
      → Odometry k
      → Outcome (List (WPoint D V Q) × Odometry k)
  sample_keypoints frame info sample_voxel_size o = do
    keypoints ← elim o.options.sampling [
      | grid ↦ ok (grid_sampling k.traverse frame sample_voxel_size)
      | adaptive ↦ (do
        indices ←
            adaptive_sample_points_in_grid k.traverse_indices (map (λ p. p.raw_point) frame)
              o.options.adaptive_options
        traverse_points (λ i. require (get_elem? frame i) bad_index) indices)
      | sampling_none ↦ ok frame
    ]
    let most : ℤ = o.options.max_num_keypoints
    let (shuffled, g) = k.shuffle keypoints o.generator
    ok (
        if not (ltb_ℤ (pos info.registered_fid) o.options.init_num_frames)
          && (ltb_ℤ (pos 0) most && ltb (to_size most) (length keypoints))
        then (take (to_size most) shuffled, record o { generator = g })
        else (keypoints, o))

  -- the options that `TryRegister` registers with
  unfoldable pub startup_options : FrameInfo D → Options k → IcpOptions D → IcpOptions D
  startup_options info o icp =
      if ltb_ℤ (pos info.registered_fid) o.init_num_frames
      then record icp {
        threshold_voxel_occupancy = pos 1;
        num_iters_icp = max_ℤ icp.num_iters_icp (pos 15);
      }
      else icp

  -- The frame, the options, the summary and the odometry after one try.
  unfoldable pub try_register :
      List (WPoint D V Q)
      → FrameInfo D
      → IcpOptions D
      → RegistrationSummary D V Q
      → D
      → Option k.MotionModel
      → Odometry k
      → Outcome (List (WPoint D V Q) × IcpOptions D × RegistrationSummary D V Q × Odometry k)
  try_register frame info icp s sample_voxel_size motion_model o = do
    (keypoints, o') ← sample_keypoints frame info sample_voxel_size o
    let icp' : IcpOptions D = startup_options info o'.options icp
    iterate_over_callbacks k before_iteration o' frame (some keypoints)
    (icp_summary, keypoints', registered) ←
        k.register icp' o'.slam_map keypoints s.frame motion_model o'.neighborhood_strategy
    let s' : RegistrationSummary D V Q = record s {
      frame = registered;
      sample_size = length keypoints;
      icp_summary = icp_summary;
      success = icp_summary.success;
      number_of_residuals = icp_summary.num_residuals_used;
    }
    elim icp_summary.success [
      | false ↦ ok (frame, icp', s', o')
      | true ↦ (do
        frame' ←
            traverse_points
              (transform_point o'.options.motion_compensation registered.begin_pose
                registered.end_pose)
              frame
        iterate_over_callbacks k iteration_completed o' frame' (some keypoints')
        ok (frame', icp', record s' { keypoints = keypoints' }, o'))
    ]
