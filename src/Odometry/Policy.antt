-- ===== src/Odometry/Policy.antt =====
-- What `UpdateMap` does to the map, the tracker and the next level of robustness.
use ct_icp_comment.Common.{
  ℕ, ◌+◌, ◌<◌, ◌≡◌, ◌⊎◌, Double, arith, true, false, not, ◌&&◌, ◌||◌, if◌then◌else◌, Ensures, add_ℕ,
  ltb,
}
use ct_icp_comment.Odometry.Kit.{Kit}
use ct_icp_comment.Odometry.State.{Odometry, RegistrationSummary}
use ct_icp_comment.Odometry.State.{insert_frame, skip_frame}
use ct_icp_comment.Odometry.Assess.{large_orientation}
use ct_icp_comment.Odometry.Insert.{
  robust_adds, robust_next_level, accumulate, plain_adds, decide_insertion, overrule,
  apply_insertion, update_map,
}

module _ {D V Q : Type 0} ⦃d : Double D⦄ (k : Kit D V Q) where
  -- An update that is not stopped leaves the trajectory and the count of frames. The frame is inserted
  -- when `always_insert` is set, or when the regimen wishes it and `do_no_insert` is not set, and then
  -- the insertions are one more and no frame is skipped; else they stay, and the skipped frames are one
  -- more. The summary records the wish, not the insertion.
  pub update_map-tracker :
      (s : RegistrationSummary D V Q) (fid : ℕ) (o : Odometry k)
      → let wish = (decide_insertion k s o).0 in
        let inserted = o.options.always_insert || (not o.options.do_no_insert && wish) in
        Ensures
          (λ r.
            (r.1.trajectory ≡ o.trajectory)
            × (r.1.registered_frames ≡ o.registered_frames)
            × (r.0.points_added ≡ wish)
            × (r.1.insertion_tracker.total_insertions ≡ (
                if inserted
                then o.insertion_tracker.total_insertions + 1
                else o.insertion_tracker.total_insertions))
            × (r.1.insertion_tracker.skipped_frames
                ≡ (if inserted then 0 else o.insertion_tracker.skipped_frames + 1)))
          (update_map k s fid o)
  unfolding update_map decide_insertion apply_insertion overrule insert_frame skip_frame accumulate
  update_map-tracker s fid o = ground arith

  -- Outside the robust regimen and without `do_no_insert`, an update that is not stopped leaves no skipped
  -- frame, or it counts one more; then a frame was inserted before, and the count was not above the
  -- threshold.
  pub update_map-skipped :
      (s : RegistrationSummary D V Q) (fid : ℕ) (o : Odometry k)
      → o.options.robust_registration ≡ false
      → o.options.do_no_insert ≡ false
      → Ensures
          (λ r.
            (r.1.insertion_tracker.skipped_frames ≡ 0)
            ⊎ ((r.1.insertion_tracker.skipped_frames ≡ o.insertion_tracker.skipped_frames + 1)
                × (0 < o.insertion_tracker.total_insertions)
                × (d.lt o.options.insertion_threshold_frames_skipped
                      (d.decimal o.insertion_tracker.skipped_frames 0)
                    ≡ false)))
          (update_map k s fid o)
  unfolding update_map decide_insertion apply_insertion overrule insert_frame skip_frame accumulate
      plain_adds
  update_map-skipped s fid o r n = ground arith

  -- In the robust regimen an update that is not stopped sets the level of the next frame: two above the
  -- minimal level after a failure; else one above it after several attempts or a large orientation; and
  -- else the minimal level.
  update_map-next_level :
      (s : RegistrationSummary D V Q) (fid : ℕ) (o : Odometry k)
      → o.options.robust_registration ≡ true
      → Ensures
          (λ r.
            r.1.next_robust_level
            ≡ add_ℕ o.options.robust_minimal_level (
                if not s.success
                then 2
                else if ltb 1 s.number_of_attempts || large_orientation k o.options s
                then 1
                else 0))
          (update_map k s fid o)
  unfolding update_map decide_insertion apply_insertion robust_next_level robust_adds
  update_map-next_level s fid o r = ground arith
