-- ===== src/Odometry/Insert.antt =====
-- `Odometry::UpdateMap` (odometry.cpp): whether the points of a frame go into the map, and the level of
-- robustness of the next frame.
use ct_icp_comment.Common.{
  ℕ, Bool, true, false, not, ◌&&◌, ◌||◌, [], ◌∷◌, get_last?, Double, Outcome, ok, ◌>>=◌, require,
  bad_index, ltb, leb_ℤ, ℤ, pos, add_ℕ, if◌then◌else◌,
}
use ct_icp_comment.Pose.{end_tr}
use ct_icp_comment.Odometry.Kit.{Kit}
use ct_icp_comment.Odometry.State.{
  Odometry, Options, RegistrationSummary, FrameInsertionTracker, insert_frame, skip_frame,
}
use ct_icp_comment.Odometry.Assess.{large_orientation}

module _ {D V Q : Type 0} ⦃d : Double D⦄ (k : Kit D V Q) where
  -- The number of attempts reached its bound.
  abbrev pub is_suspect : Options k → RegistrationSummary D V Q → Bool
  is_suspect o s = leb_ℤ o.robust_num_attempts (pos s.number_of_attempts)

  -- `add_points` of the robust regimen
  unfoldable pub robust_adds : Options k → RegistrationSummary D V Q → ℕ → Bool
  robust_adds o s failures = not (large_orientation k o s) || (is_suspect o s && ltb 5 failures)

  -- `next_robust_level_`
  unfoldable pub robust_next_level : Options k → RegistrationSummary D V Q → ℕ → ℤ
  robust_next_level o s failures =
      if not s.success
      then add_ℕ o.robust_minimal_level 2
      else if ltb 1 s.number_of_attempts
      then add_ℕ o.robust_minimal_level 1
      else if large_orientation k o s
      then add_ℕ o.robust_minimal_level 1
      else if robust_adds o s failures
      then o.robust_minimal_level
      else add_ℕ o.robust_minimal_level 1

  -- the tracker with the motion of the frame added
  unfoldable pub accumulate :
      RegistrationSummary D V Q → FrameInsertionTracker D → FrameInsertionTracker D
  accumulate s t = record t {
    cum_distance_since_insertion = d.add t.cum_distance_since_insertion s.relative_distance;
    cum_orientation_change_since_insertion =
        d.add t.cum_orientation_change_since_insertion s.relative_orientation;
  }

  -- `add_points` of the other regimen
  unfoldable pub plain_adds : Options k → RegistrationSummary D V Q → FrameInsertionTracker D → Bool
  plain_adds o s t =
      if ltb 0 t.total_insertions && d.lt o.insertion_ego_rotation_threshold s.ego_orientation
      then d.lt o.insertion_threshold_frames_skipped (d.decimal t.skipped_frames 0)
      else true

  -- the first half of `UpdateMap`: the wish to add the points, and the new state
  unfoldable pub decide_insertion : RegistrationSummary D V Q → Odometry k → Bool × Odometry k
  decide_insertion s o =
      if o.options.robust_registration
      then (
        robust_adds o.options s o.robust_num_consecutive_failures,
        record o {
          suspect_registration_error = is_suspect o.options s;
          next_robust_level = robust_next_level o.options s o.robust_num_consecutive_failures;
        },
      )
      else (
        plain_adds o.options s (accumulate s o.insertion_tracker),
        record o { insertion_tracker = accumulate s o.insertion_tracker },
      )

  -- the two options that overrule the wish
  unfoldable pub overrule : Options k → Bool → Bool
  overrule o add_points =
      if o.always_insert then true else if o.do_no_insert then false else add_points

  -- the second half: far points are removed, and the frame is inserted or counted as skipped
  unfoldable pub apply_insertion :
      Bool → RegistrationSummary D V Q → ℕ → Odometry k → Outcome (Odometry k)
  apply_insertion add_points s registered_fid o = do
    last ← require (get_last? o.trajectory) bad_index
    let near : k.SlamMap =
        k.remove_elements_far_from_location o.slam_map (end_tr last) o.options.max_distance
    elim add_points [
      | true ↦ (do
        m ←
            k.insert_point_cloud near s.corrected_points
              (s.frame.begin_pose ∷ s.frame.end_pose ∷ [])
        ok (record o {
          slam_map = m;
          insertion_tracker = insert_frame registered_fid o.insertion_tracker;
        }))
      | false ↦
          ok (record o { slam_map = near; insertion_tracker = skip_frame o.insertion_tracker })
    ]

  unfoldable pub update_map :
      RegistrationSummary D V Q → ℕ → Odometry k → Outcome (RegistrationSummary D V Q × Odometry k)
  update_map s registered_fid o = do
    let (add_points, o') = decide_insertion s o
    let s' : RegistrationSummary D V Q = record s { points_added = add_points }
    o'' ← apply_insertion (overrule o'.options add_points) s' registered_fid o'
    ok (s', o'')
