-- ===== src/Tests/Poses.antt =====
-- Poses and relative times at concrete values.
use ct_icp_comment.Common.{◌==◌, ◌&&◌, true, ◌↔◌, ◌*◌, ◌+◌, ℕ, ◌≡◌, refl, ok, ◌>>=◌, fixed_double}
use ct_icp_comment.Geometry.{se3_times, se3_interpolate, line_vectors, line_quaternions}
use ct_icp_comment.Pose.{inverse, Pose, times, interpolate_pose, get_alpha_timestamp}
use ct_icp_comment.Pose.Algebra.{times-inverse, AreChained, LeadsFromTo, times_assoc}
use ct_icp_comment.Tests.{toy_frame}

-- a step of one meter from frame 1 to frame 2, and the next one
abbrev step : ℕ → Pose ℕ ℕ (Unit {0})
step n = record {
  pose = record { quat = tt; tr = 1_000_000 };
  ref_timestamp = n * 100_000;
  dest_timestamp = (n + 1) * 100_000;
  ref_frame_id = n;
  dest_frame_id = n + 1;
}

times_assoc_example :
    ((AreChained (step 1) (step 2) × AreChained (step 2) (step 3))
      ↔ LeadsFromTo (step 1) (step 3) (times (step 1) (step 2) >>= λ ab. times ab (step 3)))
    × ((AreChained (step 1) (step 2) × AreChained (step 2) (step 3))
        ↔ LeadsFromTo (step 1) (step 3) (times (step 2) (step 3) >>= λ bc. times (step 1) bc))
times_assoc_example = times_assoc (step 1) (step 2) (step 3)

times-inverse_example :
    ((((step 5).dest_frame_id == (step 1).dest_frame_id)
        && fixed_double.eq (step 5).dest_timestamp (step 1).dest_timestamp)
      ≡ true)
    ↔ ((r : Pose ℕ ℕ (Unit {0})) × (times (step 1) (inverse (step 5)) ≡ ok r)
        × (r.ref_frame_id ≡ 1)
        × (r.ref_timestamp ≡ 100_000)
        × (r.dest_frame_id ≡ 5)
        × (r.dest_timestamp ≡ 500_000))
times-inverse_example = times-inverse (step 1) (step 5)

times_test :
    times (step 1) (step 2)
    ≡ ok (record {
      pose = record { quat = tt; tr = 2_000_000 };
      ref_timestamp = 100_000;
      dest_timestamp = 300_000;
      ref_frame_id = 1;
      dest_frame_id = 3;
    })
unfolding times se3_times
times_test = refl

interpolate_pose_test :
    interpolate_pose (toy_frame 1).begin_pose (toy_frame 1).end_pose 150_000 1
    ≡ ok (record {
      pose = record { quat = tt; tr = 1_500_000 };
      ref_timestamp = 0;
      dest_timestamp = 150_000;
      ref_frame_id = 0;
      dest_frame_id = 1;
    })
unfolding interpolate_pose get_alpha_timestamp se3_interpolate
interpolate_pose_test = refl
