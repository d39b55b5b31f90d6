-- ===== src/MotionModel.antt =====
-- The motion models (include/ct_icp/motion_model.h, src/ct_icp/motion_model.cpp). A constraint is the
-- residual block that it adds to a problem. A frame id does not overflow.
use ct_icp_comment.Common.{
  ℕ, ◌+◌, Bool, false, not, ◌&&◌, ◌||◌, [], ◌∷◌, ◌++◌, if◌then◌else◌, pos, Double, Outcome, ok,
  ◌>>=◌,
}
use ct_icp_comment.Geometry.{Se3, Vectors, Quaternions, se3_inverse, se3_times, angular_distance}
use ct_icp_comment.Pose.{TrajectoryFrame, begin_tr, end_tr, frame_default}
use ct_icp_comment.Registration.{Analysis}
use ct_icp_comment.Registration.Builder.{
  ResidualBlock, location_block, orientation_block, constant_velocity_block, small_velocity_block,
  relative_pose_block, Problem, at_begin, at_end,
}

pub data ModelType : Type 0 where
  constant_velocity small_velocity : ModelType

-- `PreviousFrameMotionModel::Options`
pub record PreviousFrameOptions (D : Type 0) : Type 0 where
  pub model : ModelType
  pub beta_location_consistency : D
  pub beta_constant_velocity : D
  pub beta_small_velocity : D
  pub beta_orientation_consistency : D
  pub threshold_orientation_deg : D
  pub threshold_translation_diff : D

-- The bits of a `CONSTRAINT_TYPE`
pub record ConstraintType : Type 0 where
  pub on_begin : Bool
  pub on_end : Bool
  pub on_relative_transform : Bool

-- `PredictionConsistencyModel::Options`
pub record PredictionOptions (D : Type 0) : Type 0 where
  pub constraints : ConstraintType
  pub alpha_begin_tr_constraint : D
  pub alpha_end_tr_constraint : D
  pub alpha_begin_rot_constraint : D
  pub alpha_end_rot_constraint : D
  pub alpha_relative_rot_constraint : D
  pub alpha_relative_tr_constraint : D
  pub beta_scale_rot_deg : D
  pub beta_scale_tr_m : D
  pub threshold_rot_deg : D
  pub threshold_tr_m : D

-- `AMotionModel`, by its two implementations with their states
pub data MotionModel (D V Q : Type 0) : Type 0 where
  previous_frame : PreviousFrameOptions D → TrajectoryFrame D V Q → MotionModel D V Q
  prediction : PredictionOptions D → TrajectoryFrame D V Q → MotionModel D V Q

module _ {D : Type 0} ⦃d : Double D⦄ where
  -- One of the three tests of a prediction: both differences are at most their thresholds, where the
  -- constraint is chosen.
  abbrev pub passes : Bool → PredictionOptions D → D → D → Bool
  passes chosen o tr_diff rot_diff =
      not chosen || (not (d.lt o.threshold_tr_m tr_diff) && not (d.lt o.threshold_rot_deg rot_diff))

  abbrev pub is_positive : D → Bool
  is_positive x = d.lt (d.decimal 0 0) x

  -- The weight of a constraint next to the residuals
  abbrev pub weight_with : Analysis D → ℕ → D → D
  weight_with a residuals beta = a.sqrt (d.mul (a.to_double (pos residuals)) beta)

module _ {D V Q : Type 0} ⦃d : Double D⦄ ⦃v : Vectors D V⦄ ⦃q : Quaternions D V Q⦄ where
  unfoldable pub update_state : MotionModel D V Q → TrajectoryFrame D V Q → MotionModel D V Q
  update_state (previous_frame o f) optimized_frame = previous_frame o optimized_frame
  update_state (prediction o f) optimized_frame = prediction o f

  unfoldable pub reset_model : MotionModel D V Q → MotionModel D V Q
  reset_model (previous_frame o f) = previous_frame o frame_default
  reset_model (prediction o f) = prediction o frame_default

  -- The members that the first lines of `NextFrame` set
  unfoldable pub following_frame : TrajectoryFrame D V Q → TrajectoryFrame D V Q
  following_frame f =
      let b = f.begin_pose in
      let e = f.end_pose in
      record {
        begin_pose = record b { dest_frame_id = b.dest_frame_id + 1 };
        end_pose = record e {
          dest_frame_id = e.dest_frame_id + 1;
          dest_timestamp = d.add e.dest_timestamp (d.sub e.dest_timestamp b.dest_timestamp);
        };
      }

  abbrev pub extrapolate_previous :
      ModelType → TrajectoryFrame D V Q → TrajectoryFrame D V Q → TrajectoryFrame D V Q
  extrapolate_previous constant_velocity previous next =
      let e = next.end_pose in
      record {
        begin_pose = previous.end_pose;
        end_pose = record e {
          pose =
              se3_times (se3_times (se3_inverse previous.begin_pose.pose) previous.end_pose.pose)
                previous.end_pose.pose;
        };
      }
  extrapolate_previous small_velocity previous next =
      let b = next.begin_pose in
      let e = next.end_pose in
      record {
        begin_pose = record b { pose = previous.end_pose.pose };
        end_pose = record e { pose = previous.end_pose.pose };
      }

  unfoldable pub next_frame : MotionModel D V Q → TrajectoryFrame D V Q
  next_frame (previous_frame o f) = extrapolate_previous o.model f (following_frame f)
  next_frame (prediction o f) = f

  unfoldable pub is_near_previous :
      PreviousFrameOptions D → TrajectoryFrame D V Q → TrajectoryFrame D V Q → Outcome Bool
  is_near_previous o predicted f = do
    rot_diff_begin ← angular_distance predicted.begin_pose.pose f.begin_pose.pose
    rot_diff_end ← angular_distance predicted.end_pose.pose f.end_pose.pose
    let tr_diff_begin : D = v.norm (v.minus (begin_tr predicted) (begin_tr f))
    let tr_diff_end : D = v.norm (v.minus (end_tr predicted) (end_tr f))
    ok (
        d.lt rot_diff_begin o.threshold_orientation_deg
        && (d.lt rot_diff_end o.threshold_orientation_deg
            && (d.lt tr_diff_begin o.threshold_translation_diff
                && d.lt tr_diff_end o.threshold_translation_diff)))

  unfoldable pub is_near_prediction :
      PredictionOptions D → TrajectoryFrame D V Q → TrajectoryFrame D V Q → Outcome Bool
  is_near_prediction o predicted f = do
    rot_diff_begin ← angular_distance f.begin_pose.pose predicted.begin_pose.pose
    rot_diff_end ← angular_distance f.end_pose.pose predicted.end_pose.pose
    let tr_diff_begin : D = v.norm (v.minus (begin_tr f) (begin_tr predicted))
    let tr_diff_end : D = v.norm (v.minus (end_tr f) (end_tr predicted))
    let relative_pred : Se3 D V Q =
        se3_times (se3_inverse predicted.begin_pose.pose) predicted.end_pose.pose
    let relative_opt : Se3 D V Q = se3_times (se3_inverse f.begin_pose.pose) f.end_pose.pose
    rot_diff_relative ← angular_distance relative_opt relative_pred
    let tr_diff_relative : D = v.norm (v.minus relative_opt.tr relative_pred.tr)
    ok (
        if passes o.constraints.on_begin o tr_diff_begin rot_diff_begin
        then if passes o.constraints.on_end o tr_diff_end rot_diff_end
          then passes o.constraints.on_relative_transform o tr_diff_relative rot_diff_relative
          else false
        else false)

  unfoldable pub is_valid : MotionModel D V Q → TrajectoryFrame D V Q → Outcome Bool
  is_valid (previous_frame o p) f = is_near_previous o (next_frame (previous_frame o p)) f
  is_valid (prediction o p) f = is_near_prediction o p f

module _ {D V Q : Type 0} ⦃d : Double D⦄ ⦃v : Vectors D V⦄ ⦃q : Quaternions D V Q⦄
    (a : Analysis D) where
  unfoldable pub add_if : Bool → ResidualBlock D V Q → Problem D V Q → Problem D V Q
  add_if test block problem = if test then problem ++ block ∷ [] else problem

  unfoldable pub constrain_to_previous :
      PreviousFrameOptions D → TrajectoryFrame D V Q → ℕ → Problem D V Q → Problem D V Q
  constrain_to_previous o f residuals problem =
      let with_location =
        add_if (is_positive o.beta_location_consistency)
          (location_block at_begin (end_tr f) (weight_with a residuals o.beta_location_consistency))
          problem in
      let with_orientation =
        add_if (is_positive o.beta_orientation_consistency)
          (orientation_block at_begin f.end_pose.pose.quat
            (weight_with a residuals o.beta_orientation_consistency))
          with_location in
      let with_velocity =
        add_if (is_positive o.beta_constant_velocity)
          (constant_velocity_block (v.minus (end_tr f) (begin_tr f))
            (weight_with a residuals o.beta_constant_velocity))
          with_orientation in
      add_if (is_positive o.beta_small_velocity)
        (small_velocity_block (weight_with a residuals o.beta_small_velocity)) with_velocity

  unfoldable pub constrain_to_prediction :
      PredictionOptions D → TrajectoryFrame D V Q → Problem D V Q → Problem D V Q
  constrain_to_prediction o f problem =
      let scaled_tr = is_positive o.beta_scale_tr_m in
      let scaled_rot = is_positive o.beta_scale_rot_deg in
      let tr_begin =
        add_if (o.constraints.on_begin && (scaled_tr && is_positive o.alpha_begin_tr_constraint))
          (location_block at_begin (begin_tr f)
            (d.div o.alpha_begin_tr_constraint o.beta_scale_tr_m))
          problem in
      let rot_begin =
        add_if (o.constraints.on_begin && (scaled_rot && is_positive o.alpha_begin_rot_constraint))
          (orientation_block at_begin f.begin_pose.pose.quat
            (d.div o.alpha_begin_rot_constraint o.beta_scale_rot_deg))
          tr_begin in
      let tr_end =
        add_if (o.constraints.on_end && (scaled_tr && is_positive o.alpha_end_tr_constraint))
          (location_block at_end (end_tr f) (d.div o.alpha_end_tr_constraint o.beta_scale_tr_m))
          rot_begin in
      let rot_end =
        add_if (o.constraints.on_end && (scaled_rot && is_positive o.alpha_end_rot_constraint))
          (orientation_block at_end f.end_pose.pose.quat
            (d.div o.alpha_end_rot_constraint o.beta_scale_rot_deg))
          tr_end in
      add_if (o.constraints.on_relative_transform && (scaled_rot && scaled_tr))
        (relative_pose_block (se3_times (se3_inverse f.begin_pose.pose) f.end_pose.pose)
          (d.div o.alpha_relative_tr_constraint o.beta_scale_tr_m)
          (d.div o.alpha_relative_rot_constraint o.beta_scale_rot_deg))
        rot_end

  -- `AddConstraintsToCeresProblem`, with the number of residuals of the points
  unfoldable pub add_constraints : MotionModel D V Q → ℕ → Problem D V Q → Problem D V Q
  add_constraints (previous_frame o f) residuals problem =
      constrain_to_previous o f residuals problem
  add_constraints (prediction o f) residuals problem = constrain_to_prediction o f problem
