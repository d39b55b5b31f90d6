-- ===== src/Pose.antt =====
-- `TPose` of include/SlamCore/types.h: a rigid transform between two frames with their instants, and
-- `TrajectoryFrame` of include/ct_icp/types.h.
pub mod Algebra
pub mod Alpha
use ct_icp_comment.Common.{
  ℕ, Bool, true, false, ◌&&◌, ◌==◌, if◌then◌else◌, Double, fmin, fmax, Outcome, ok, fail, ◌>>=◌,
  ◌>>◌, check, wrong_frame, wrong_timestamp,
}
use ct_icp_comment.Geometry.{
  Vectors, Quaternions, Se3, se3_identity, se3_inverse, se3_times, se3_apply, se3_interpolate,
  angular_distance,
}

pub record Pose (D V Q : Type 0) : Type 0 where
  pub pose : Se3 D V Q
  pub ref_timestamp : D
  pub dest_timestamp : D
  pub ref_frame_id : ℕ
  pub dest_frame_id : ℕ

-- `frame_id_t(-1)`
abbrev pub no_frame_id : ℕ
no_frame_id = 0xffff_ffff

pub record TrajectoryFrame (D V Q : Type 0) : Type 0 where
  pub begin_pose : Pose D V Q
  pub end_pose : Pose D V Q

module _ {D V Q : Type 0} where
  abbrev pub begin_tr : TrajectoryFrame D V Q → V
  begin_tr f = f.begin_pose.pose.tr

  abbrev pub end_tr : TrajectoryFrame D V Q → V
  end_tr f = f.end_pose.pose.tr

module _ {D V Q : Type 0} ⦃d : Double D⦄ ⦃v : Vectors D V⦄ ⦃q : Quaternions D V Q⦄ where
  -- `TPose(const TSE3<T> &, T, frame_id_t)`, with the defaults of the other arguments
  unfoldable pub pose_at : Se3 D V Q → D → ℕ → Pose D V Q
  pose_at p timestamp frame_id = record {
    pose = p;
    ref_timestamp = d.decimal 0 0;
    dest_timestamp = timestamp;
    ref_frame_id = 0;
    dest_frame_id = frame_id;
  }

  -- `TPose()`
  unfoldable pub pose_default : Pose D V Q
  pose_default = record {
    pose = se3_identity;
    ref_timestamp = d.decimal 0 0;
    dest_timestamp = d.neg (d.decimal 1 0);
    ref_frame_id = 0;
    dest_frame_id = no_frame_id;
  }

  -- `Identity()`
  unfoldable pub pose_identity : Pose D V Q
  pose_identity = record {
    pose = se3_identity;
    ref_timestamp = d.decimal 0 0;
    dest_timestamp = d.decimal 0 0;
    ref_frame_id = 0;
    dest_frame_id = 0;
  }

  -- `Identity(timestamp, frame_id)`
  unfoldable pub pose_identity_at : D → ℕ → Pose D V Q
  pose_identity_at timestamp frame_id = record {
    pose = se3_identity;
    ref_timestamp = timestamp;
    dest_timestamp = timestamp;
    ref_frame_id = frame_id;
    dest_frame_id = frame_id;
  }

  unfoldable pub inverse : Pose D V Q → Pose D V Q
  inverse p = record {
    pose = se3_inverse p.pose;
    ref_timestamp = p.dest_timestamp;
    dest_timestamp = p.ref_timestamp;
    ref_frame_id = p.dest_frame_id;
    dest_frame_id = p.ref_frame_id;
  }

  -- `operator*(const TPose<T> &)`
  unfoldable pub times : Pose D V Q → Pose D V Q → Outcome (Pose D V Q)
  times p r = do
    check (r.ref_frame_id == p.dest_frame_id) wrong_frame
    check (d.eq r.ref_timestamp p.dest_timestamp) wrong_timestamp
    ok (record {
      pose = se3_times p.pose r.pose;
      ref_timestamp = p.ref_timestamp;
      dest_timestamp = r.dest_timestamp;
      ref_frame_id = p.ref_frame_id;
      dest_frame_id = r.dest_frame_id;
    })

  -- `operator*(const Vec3<T> &)`
  unfoldable pub apply : Pose D V Q → V → V
  apply p point = se3_apply p.pose point

  unfoldable pub get_alpha_timestamp : Pose D V Q → D → Pose D V Q → D
  get_alpha_timestamp p mid_timestamp other =
      let min_timestamp : D = fmin p.dest_timestamp other.dest_timestamp in
      let max_timestamp : D = fmax p.dest_timestamp other.dest_timestamp in
      if d.lt mid_timestamp min_timestamp
      then d.decimal 0 0
      else if d.lt max_timestamp mid_timestamp
      then d.decimal 0 0
      else if d.eq min_timestamp max_timestamp
      then d.decimal 1 0
      else d.div (d.sub mid_timestamp min_timestamp) (d.sub max_timestamp min_timestamp)

  unfoldable pub interpolate_pose_alpha : Pose D V Q → Pose D V Q → D → ℕ → Outcome (Pose D V Q)
  interpolate_pose_alpha p other alpha new_dest_frame_id = do
    check (other.ref_frame_id == p.ref_frame_id) wrong_frame
    ok (record {
      pose = se3_interpolate p.pose other.pose alpha;
      ref_timestamp = p.ref_timestamp;
      dest_timestamp =
          d.add (d.mul (d.sub (d.decimal 1 0) alpha) p.dest_timestamp)
            (d.mul alpha other.dest_timestamp);
      ref_frame_id = p.ref_frame_id;
      dest_frame_id =
          if p.dest_frame_id == other.ref_frame_id then p.dest_frame_id else new_dest_frame_id;
    })

  unfoldable pub interpolate_pose : Pose D V Q → Pose D V Q → D → ℕ → Outcome (Pose D V Q)
  interpolate_pose p other timestamp new_dest_frame_id = do
    check (d.le p.dest_timestamp timestamp && d.le timestamp other.dest_timestamp) wrong_timestamp
    check (other.ref_frame_id == p.ref_frame_id) wrong_frame
    ok (record {
      pose = se3_interpolate p.pose other.pose (get_alpha_timestamp p timestamp other);
      ref_timestamp = p.ref_timestamp;
      dest_timestamp = timestamp;
      ref_frame_id = p.ref_frame_id;
      dest_frame_id =
          if p.dest_frame_id == other.ref_frame_id then p.dest_frame_id else new_dest_frame_id;
    })

  unfoldable pub continuous_transform : Pose D V Q → V → Pose D V Q → D → Outcome V
  continuous_transform p point other timestamp = do
    i ← interpolate_pose_alpha p other (get_alpha_timestamp p timestamp other) no_frame_id
    ok (apply i point)

  -- the members of `TrajectoryFrame`
  unfoldable pub ego_angular_distance : TrajectoryFrame D V Q → Outcome D
  ego_angular_distance f = angular_distance f.begin_pose.pose f.end_pose.pose

  unfoldable pub translation_distance : TrajectoryFrame D V Q → TrajectoryFrame D V Q → D
  translation_distance f g =
      d.add (v.norm (v.minus (begin_tr f) (begin_tr g))) (v.norm (v.minus (end_tr f) (end_tr g)))

  unfoldable pub rotation_distance : TrajectoryFrame D V Q → TrajectoryFrame D V Q → Outcome D
  rotation_distance f g = do
    a ← angular_distance f.begin_pose.pose g.begin_pose.pose
    b ← angular_distance f.end_pose.pose g.end_pose.pose
    ok (d.add a b)

  -- `TrajectoryFrame()`
  abbrev pub frame_default : TrajectoryFrame D V Q
  frame_default = record { begin_pose = pose_default; end_pose = pose_default }
