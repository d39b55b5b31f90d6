-- ===== src/Registration/Keypoints.antt =====
-- The keypoints of a registration as the views on them, `TransformKeyPoints` and the helpers of the
-- solvers on frames (src/ct_icp/ct_icp.cpp).
use ct_icp_comment.Common.{
  Bool, true, false, ◌&&◌, ◌||◌, List, [], ◌∷◌, ◌==◌, length, Double, Outcome, ok, fail, check,
  ◌>>=◌, bad_index, bad_size,
}
use ct_icp_comment.Geometry.{Se3, Vectors, Quaternions, angular_distance}
use ct_icp_comment.Pose.{
  Pose, TrajectoryFrame, apply, interpolate_pose, begin_tr, end_tr, no_frame_id,
}
use ct_icp_comment.Odometry.Options.{PoseParametrization, simple, continuous_time}
use ct_icp_comment.Registration.{RegistrationOptions}

-- `raw_kpts`, `world_kpts` and `timestamps`
pub record Keypoints (D V : Type 0) : Type 0 where
  pub raw_points : List V
  pub world_points : List V
  pub timestamps : List D

abbrev pub is_continuous : PoseParametrization → Bool
is_continuous simple = false
is_continuous continuous_time = true

module _ {D V : Type 0} where
  unfoldable pub check_sizes : Keypoints D V → Outcome (Unit {0})
  check_sizes k =
      check
        (length k.raw_points == length k.world_points && length k.raw_points == length k.timestamps)
        bad_size

  -- The loops over the raw points that move each world point; a point without a place or an instant is
  -- out of range.
  unfoldable pub move_all : (V → D → Outcome V) → List V → List V → List D → Outcome (List V)
  move_all move [] worlds ts = ok worlds
  move_all move (raw ∷ raws) [] ts = fail bad_index
  move_all move (raw ∷ raws) (w ∷ worlds) [] = fail bad_index
  move_all move (raw ∷ raws) (w ∷ worlds) (t ∷ ts) = do
    point ← move raw t
    rest ← move_all move raws worlds ts
    ok (point ∷ rest)

  unfoldable pub move_points : (V → D → Outcome V) → Keypoints D V → Outcome (Keypoints D V)
  move_points move k = do
    worlds ← move_all move k.raw_points k.world_points k.timestamps
    ok (record k { world_points = worlds })

module _ {D V Q : Type 0} ⦃d : Double D⦄ ⦃v : Vectors D V⦄ ⦃q : Quaternions D V Q⦄ where
  unfoldable pub transform_point : RegistrationOptions D → TrajectoryFrame D V Q → V → D → Outcome V
  transform_point o f raw timestamp =
      elim (o.point_to_plane_with_distortion || is_continuous o.parametrization) [
        | true ↦ do
          p ← interpolate_pose f.begin_pose f.end_pose timestamp no_frame_id
          ok (apply p raw)
        | false ↦ ok (apply f.end_pose raw)
      ]

  unfoldable pub transform_key_points :
      RegistrationOptions D → TrajectoryFrame D V Q → Keypoints D V → Outcome (Keypoints D V)
  transform_key_points o f k = move_points (transform_point o f) k

  abbrev pub normalize_pose : Pose D V Q → Pose D V Q
  normalize_pose p = let s = p.pose in record p { pose = record s { quat = q.normalized s.quat } }

  -- Both quaternions of a frame are normalized.
  abbrev pub normalize_frame : TrajectoryFrame D V Q → TrajectoryFrame D V Q
  normalize_frame f = record {
    begin_pose = normalize_pose f.begin_pose;
    end_pose = normalize_pose f.end_pose;
  }

  abbrev pub with_poses : Se3 D V Q → Se3 D V Q → TrajectoryFrame D V Q → TrajectoryFrame D V Q
  with_poses b e f =
      let begin_pose = f.begin_pose in
      let end_pose = f.end_pose in
      record {
        begin_pose = record begin_pose { pose = b };
        end_pose = record end_pose { pose = e };
      }

  -- `StopCriterion`: the difference of two estimates in translation and in rotation
  unfoldable pub stop_criterion : TrajectoryFrame D V Q → TrajectoryFrame D V Q → Outcome (D × D)
  stop_criterion previous f = do
    let diff_trans : D =
        d.add (v.norm (v.minus (begin_tr previous) (begin_tr f)))
          (v.norm (v.minus (end_tr previous) (end_tr f)))
    b ← angular_distance f.begin_pose.pose previous.begin_pose.pose
    e ← angular_distance f.end_pose.pose previous.end_pose.pose
    ok (diff_trans, d.add b e)
