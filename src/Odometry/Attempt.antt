-- ===== src/Odometry/Attempt.antt =====
-- `RobustRegistrationAttempt` (odometry.cpp): the options of one attempt at a registration, and how they
-- are made more conservative.
use ct_icp_comment.Common.{
  ℕ, zero, suc, ◌+◌, ◌*◌, true, false, Double, fmin, fmax, ℤ, pos, negsuc, pos_part, ltb_ℤ, add_ℕ,
  min_ℤ, if◌then◌else◌,
}
use ct_icp_comment.Pose.{TrajectoryFrame}
use ct_icp_comment.Odometry.Options.{IcpOptions}
use ct_icp_comment.Odometry.Kit.{Kit}
use ct_icp_comment.Odometry.State.{Options, RegistrationSummary}

module _ {D V Q : Type 0} (k : Kit D V Q) where
  pub record Attempt : Type 0 where
    pub robust_level : ℕ
    pub sample_voxel_size : D
    pub index_frame : ℕ
    pub previous_frame : TrajectoryFrame D V Q
    pub initial_estimate : TrajectoryFrame D V Q
    pub options : Options k
    pub registration_options : IcpOptions D
    pub summary : RegistrationSummary D V Q

-- `n * 2`
abbrev pub double_ℤ : ℤ → ℤ
double_ℤ (pos n) = pos (n * 2)
double_ℤ (negsuc n) = negsuc (n * 2 + 1)

module _ {D : Type 0} ⦃d : Double D⦄ where
  -- the changes to the registration options
  unfoldable pub relax : IcpOptions D → IcpOptions D
  relax o =
      let orientation : D =
        fmax (d.div o.threshold_orientation_norm (d.decimal 10 0)) (d.decimal 1 5) in
      record o {
        ls_max_num_iters = add_ℕ o.ls_max_num_iters 30;
        max_num_residuals =
            if ltb_ℤ (pos 0) o.max_num_residuals
            then double_ℤ o.max_num_residuals
            else o.max_num_residuals;
        num_iters_icp = min_ℤ (add_ℕ o.num_iters_icp 20) (pos 50);
        threshold_orientation_norm = orientation;
        threshold_translation_norm = fmax (d.div orientation (d.decimal 10 0)) (d.decimal 1 4);
        ls_sigma = d.mul o.ls_sigma (d.decimal 12 1);
        max_dist_to_plane_ct_icp = d.mul o.max_dist_to_plane_ct_icp (d.decimal 15 1);
      }

module _ {D V Q : Type 0} ⦃d : Double D⦄ (k : Kit D V Q) where
  -- The constructor. The summary of the attempt is given, since the caller assigns it at once.
  unfoldable pub new_attempt : ℕ → Options k → RegistrationSummary D V Q → Attempt k
  new_attempt index_frame o summary = record {
    robust_level = 0;
    sample_voxel_size =
        if ltb_ℤ (pos index_frame) o.init_num_frames
        then o.init_sample_voxel_size
        else o.sample_voxel_size;
    index_frame = index_frame;
    previous_frame = summary.frame;
    initial_estimate = summary.frame;
    options = o;
    registration_options = o.ct_icp_options;
    summary = summary;
  }

  -- The first assignment to `sample_voxel_size` is overwritten before it is read.
  unfoldable pub increase_robustness_level : Attempt k → Attempt k
  increase_robustness_level a =
      let o = a.options in
      let min_voxel_size : D = fmin o.init_voxel_size o.voxel_size in
      record a {
        previous_frame = a.summary.frame;
        summary = record (a.summary) { frame = a.initial_estimate };
        registration_options = relax a.registration_options;
        sample_voxel_size = fmax (d.div o.sample_voxel_size (d.decimal 15 1)) min_voxel_size;
        robust_level = a.robust_level + 1;
      }

  -- `while (robust_level < level)`, on fuel
  unfoldable pub raise_level : ℕ → ℤ → Attempt k → Attempt k
  raise_level zero level a = a
  raise_level (suc fuel) level a = elim (ltb_ℤ (pos a.robust_level) level) [
    | true ↦ raise_level fuel level (increase_robustness_level a)
    | false ↦ a
  ]

  unfoldable pub set_robust_level : ℤ → Attempt k → Attempt k
  set_robust_level level a = raise_level (pos_part level) level a
