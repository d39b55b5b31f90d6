-- ===== src/Tests/Trajectories.antt =====
-- A trajectory of three poses.
use ct_icp_comment.Common.{
  Ensures, ℕ-IsOrdered, ℕ, suc, ◌*◌, ◌≤◌, ◌<◌, ◌≡◌, refl, ◌↔◌, Bool, true, ◌||◌, ◌&&◌, List, [],
  ◌∷◌, ok, Succeeds, arith, ltb, ◌==◌, if◌then◌else◌, fixed_double, unit,
}
use ct_icp_comment.Geometry.{line_vectors, line_quaternions}
use ct_icp_comment.Pose.{Pose}
use ct_icp_comment.Trajectory.{
  Algorithms, LinearContinuousTrajectory, create, checked, check_consistency, check_poses,
  check_timestamp_consistency, get_closest_poses_ids, min_max_timestamps, step_back,
}
use ct_icp_comment.Trajectory.Interpolation.{interpolate_at}
use ct_icp_comment.Trajectory.Closest.{get_closest_poses_ids_total, interpolate_at_total}
use ct_icp_comment.Trajectory.Consistency.{
  IsBounded, create-bounds, IsConsistent, check_consistency_iff,
}

abbrev ToyPose : Type 0
ToyPose = Pose ℕ ℕ (Unit {0})

abbrev before : ToyPose → ToyPose → Bool
before a b =
    ltb a.dest_frame_id b.dest_frame_id
    || ((a.dest_frame_id == b.dest_frame_id) && ltb a.dest_timestamp b.dest_timestamp)

abbrev insert : ToyPose → List ToyPose → List ToyPose
insert a [] = a ∷ []
insert a (b ∷ bs) = if before a b then a ∷ b ∷ bs else b ∷ insert a bs

abbrev insertion_sort : List ToyPose → List ToyPose
insertion_sort [] = []
insertion_sort (a ∷ rest) = insert a (insertion_sort rest)

abbrev leading : (ToyPose → Bool) → List ToyPose → ℕ
leading f [] = 0
leading f (a ∷ rest) = if f a then suc (leading f rest) else 0

abbrev algorithms : Algorithms ℕ ℕ (Unit {0})
algorithms = record {
  sort = insertion_sort;
  lower_bound = leading;
  largest = 1_000_000_000_000;
  smallest = 0;
}

abbrev pose_of : ℕ → ToyPose
pose_of n = record {
  pose = record { quat = tt; tr = n * unit };
  ref_timestamp = 0;
  dest_timestamp = n * 100_000;
  ref_frame_id = 0;
  dest_frame_id = n;
}

abbrev path : LinearContinuousTrajectory ℕ ℕ (Unit {0})
path = record {
  reference_frame = 0;
  min_timestamp = 100_000;
  max_timestamp = 300_000;
  poses = pose_of 1 ∷ pose_of 2 ∷ pose_of 3 ∷ [];
}

create_test : create algorithms (pose_of 3 ∷ pose_of 1 ∷ pose_of 2 ∷ []) true ≡ ok path
unfolding create checked check_consistency check_poses min_max_timestamps
create_test = refl

check_consistency_iff_example : (check_consistency path ≡ ok tt) ↔ IsConsistent path
check_consistency_iff_example = check_consistency_iff path

get_closest_poses_ids_total_example :
    Succeeds (λ r. (r.0 ≤ r.1) × (r.1 < 3)) (get_closest_poses_ids algorithms path 250_000 true)
get_closest_poses_ids_total_example =
    get_closest_poses_ids_total algorithms path 250_000 (omega arith)

-- The two poses around the instant.
get_closest_poses_ids_test : get_closest_poses_ids algorithms path 250_000 true ≡ ok (1, 2)
unfolding get_closest_poses_ids check_timestamp_consistency step_back
get_closest_poses_ids_test = refl

interpolate_at_total_example :
    Succeeds (λ p. p.ref_frame_id ≡ 0) (interpolate_at algorithms path 250_000 true)
interpolate_at_total_example =
    interpolate_at_total algorithms path 250_000 0 (omega arith) (refl, (refl, (refl, tt)))

create-bounds_example : Ensures IsBounded (create algorithms (pose_of 3 ∷ pose_of 1 ∷ []) true)
create-bounds_example = create-bounds ℕ-IsOrdered algorithms (pose_of 3 ∷ pose_of 1 ∷ []) true
