-- ===== src/Pose/Algebra.antt =====
-- Frames and instants through products, inverses and interpolations of poses (types.h).
use ct_icp_comment.Common.{ℕ, ◌≡◌, refl, ◌↔◌, true, ◌==◌, ◌&&◌, Double, Outcome, ok, ◌>>=◌, arith}
use ct_icp_comment.Geometry.{Vectors, Quaternions, se3_times, se3_inverse}
use ct_icp_comment.Pose.{
  Pose, inverse, times, interpolate_pose, interpolate_pose_alpha, get_alpha_timestamp,
}

module _ {D V Q : Type 0} ⦃d : Double D⦄ ⦃v : Vectors D V⦄ ⦃q : Quaternions D V Q⦄ where
  -- The second pose begins in the frame and at the instant where the first ends.
  abbrev pub AreChained : Pose D V Q → Pose D V Q → Type 0
  AreChained a b =
      (b.ref_frame_id ≡ a.dest_frame_id) × (d.eq b.ref_timestamp a.dest_timestamp ≡ true)

  -- A product that is not stopped, from the frame and instant of `a` to those of `c`
  abbrev pub LeadsFromTo : Pose D V Q → Pose D V Q → Outcome (Pose D V Q) → Type 0
  LeadsFromTo a c m =
      (r : Pose D V Q) × (m ≡ ok r)
      × (r.ref_frame_id ≡ a.ref_frame_id)
      × (r.ref_timestamp ≡ a.ref_timestamp)
      × (r.dest_frame_id ≡ c.dest_frame_id)
      × (r.dest_timestamp ≡ c.dest_timestamp)

  -- A product of three poses is defined exactly when each pose begins in the frame and at the instant
  -- where the one before it ends, whichever way the product is bracketed, and then it leads from the
  -- frame and instant where the first begins to those where the last ends.
  pub times_assoc :
      (a b c : Pose D V Q)
      → ((AreChained a b × AreChained b c) ↔ LeadsFromTo a c (times a b >>= λ ab. times ab c))
        × ((AreChained a b × AreChained b c) ↔ LeadsFromTo a c (times b c >>= λ bc. times a bc))
  unfolding times
  times_assoc a b c = (
    (
      λ h. (
        record {
          pose = se3_times (se3_times a.pose b.pose) c.pose;
          ref_timestamp = a.ref_timestamp;
          dest_timestamp = c.dest_timestamp;
          ref_frame_id = a.ref_frame_id;
          dest_frame_id = c.dest_frame_id;
        },
        ground arith,
        refl,
        refl,
        refl,
        refl,
      ),
      λ h. ground arith,
    ),
    (
      λ h. (
        record {
          pose = se3_times a.pose (se3_times b.pose c.pose);
          ref_timestamp = a.ref_timestamp;
          dest_timestamp = c.dest_timestamp;
          ref_frame_id = a.ref_frame_id;
          dest_frame_id = c.dest_frame_id;
        },
        ground arith,
        refl,
        refl,
        refl,
        refl,
      ),
      λ h. ground arith,
    ),
  )

  -- A pose times the inverse of another passes the checks exactly when the two have one destination
  -- frame and instant, and then leads from the reference of the first to the reference of the second.
  pub times-inverse :
      (a b : Pose D V Q)
      → (((b.dest_frame_id == a.dest_frame_id) && d.eq b.dest_timestamp a.dest_timestamp) ≡ true)
        ↔ ((r : Pose D V Q) × (times a (inverse b) ≡ ok r)
            × (r.ref_frame_id ≡ a.ref_frame_id)
            × (r.ref_timestamp ≡ a.ref_timestamp)
            × (r.dest_frame_id ≡ b.ref_frame_id)
            × (r.dest_timestamp ≡ b.ref_timestamp))
  unfolding times inverse
  times-inverse a b = (
    λ h. (
      record {
        pose = se3_times a.pose (se3_inverse b.pose);
        ref_timestamp = a.ref_timestamp;
        dest_timestamp = b.ref_timestamp;
        ref_frame_id = a.ref_frame_id;
        dest_frame_id = b.ref_frame_id;
      },
      ground arith,
      refl,
      refl,
      refl,
      refl,
    ),
    λ h. ground arith,
  )

  -- Where interpolation by an instant is not stopped, it is the interpolation by the relative time of
  -- that instant, but for the instant of the result, which is the one asked for.
  pub interpolate_pose-alpha :
      (a b : Pose D V Q) (t : D) (id : ℕ) {r : Pose D V Q}
      → interpolate_pose a b t id ≡ ok r
      → (interpolate_pose_alpha a b (get_alpha_timestamp a t b) id >>= λ p.
          ok (record p { dest_timestamp = t }))
        ≡ ok r
  unfolding interpolate_pose interpolate_pose_alpha
  interpolate_pose-alpha a b t id h = ground arith
