-- ===== src/Pose/Alpha.antt =====
-- The relative time outside the interval of two poses (`GetAlphaTimestamp`, `ContinuousTransform`).
use ct_icp_comment.Common.{◌≡◌, true, Double, IsOrdered, arith}
use ct_icp_comment.Geometry.{Vectors, Quaternions}
use ct_icp_comment.Pose.{Pose, continuous_transform, get_alpha_timestamp}

module _ {D V Q : Type 0} ⦃d : Double D⦄ ⦃v : Vectors D V⦄ ⦃q : Quaternions D V Q⦄
    (laws : IsOrdered D) where
  open laws use {lt_irrefl, lt_trans, not_lt_trans}

  alpha_before :
      (a b : Pose D V Q) (t : D)
      → d.lt a.dest_timestamp b.dest_timestamp ≡ true
      → d.lt t a.dest_timestamp ≡ true
      → get_alpha_timestamp a t b ≡ d.decimal 0 0
  unfolding get_alpha_timestamp
  alpha_before a b t h k = ground (
    arith,
    lt_trans a.dest_timestamp b.dest_timestamp a.dest_timestamp,
    lt_irrefl a.dest_timestamp,
  )

  alpha_after :
      (a b : Pose D V Q) (t : D)
      → d.lt a.dest_timestamp b.dest_timestamp ≡ true
      → d.lt b.dest_timestamp t ≡ true
      → get_alpha_timestamp a t b ≡ d.decimal 0 0
  unfolding get_alpha_timestamp
  alpha_after a b t h k = ground (
    arith,
    lt_trans a.dest_timestamp b.dest_timestamp a.dest_timestamp,
    lt_irrefl a.dest_timestamp,
  )

  -- Where the doubles are ordered: for two poses in the order of their instants, a point that is stamped after the second is
  -- transformed as one that is stamped before the first: by the pose at the relative time 0.
  continuous_transform_outside :
      (a b : Pose D V Q) (point : V) (before after : D)
      → d.lt a.dest_timestamp b.dest_timestamp ≡ true
      → d.lt before a.dest_timestamp ≡ true
      → d.lt b.dest_timestamp after ≡ true
      → continuous_transform a point b after ≡ continuous_transform a point b before
  unfolding continuous_transform
  continuous_transform_outside a b point before after h k l =
      rw (alpha_before a b before h k, alpha_after a b after h l)
