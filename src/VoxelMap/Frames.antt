-- ===== src/VoxelMap/Frames.antt =====
-- The frames whose clouds the map holds: a window of the last `max_frames_to_keep` of them.
use ct_icp_comment.Common.{
  ℕ, ◌+◌, ◌≤◌, ◌<◌, ◌≡◌, refl, Bool, true, false, List, [], ◌∷◌, ◌++◌, length, none, some, Double,
  arith, All, All-append, ltb, ◌==◌, ◌||◌, Bool-cases, inl, inr, Succeeds, if◌then◌else◌,
}
use ct_icp_comment.Geometry.{Vectors}
use ct_icp_comment.Pose.{Pose}
use ct_icp_comment.Trajectory.{Algorithms}
use ct_icp_comment.Trajectory.Consistency.{AreLinked}
use ct_icp_comment.VoxelMap.{MapFrame, VoxelMap, find_frame, drop_cloud, drop_old}
use ct_icp_comment.VoxelMap.Cloud.{
  insert_cloud_at, insert_point_cloud, insert_point_cloud-insert_cloud_at,
}

abbrev pub is_index : ℕ → List ℕ → Bool
is_index i [] = false
is_index i (j ∷ js) = (j == i) || is_index i js

abbrev pub AreDistinct : List ℕ → Type 0
AreDistinct [] = Unit
AreDistinct (i ∷ is) = (is_index i is ≡ false) × AreDistinct is

is_index-append : (i j : ℕ) (is : List ℕ) → is_index i (is ++ j ∷ []) ≡ (is_index i is || (j == i))
is_index-append i j [] = ground arith
is_index-append i j (k ∷ ks) = ground (arith, is_index-append i j ks)

is_index-below : (n : ℕ) (is : List ℕ) → All (λ i. i < n) is → is_index n is ≡ false
is_index-below n [] a = refl
is_index-below n (i ∷ is) a = ground (arith, is_index-below n is)

All-weaker : (n : ℕ) (is : List ℕ) → All (λ i. i < n) is → All (λ i. i < n + 1) is
All-weaker n [] a = tt
All-weaker n (i ∷ is) a = (omega arith, All-weaker n is a.1)

AreDistinct-append :
    (n : ℕ) (is : List ℕ) → All (λ i. i < n) is → AreDistinct is → AreDistinct (is ++ n ∷ [])
AreDistinct-append n [] a s = (refl, tt)
AreDistinct-append n (i ∷ is) a s =
    (ground (arith, is_index-append i n is), AreDistinct-append n is a.1 s.1)

module _ {D V : Type 0} where
  abbrev pub holds_cloud : ℕ → List (ℕ × MapFrame D V) → Bool
  holds_cloud i frames = elim (find_frame i frames) [
    | none ↦ false
    | some f ↦ elim f.pointcloud [ none ↦ false | some c ↦ true ]
  ]

  -- The map holds the clouds of the frames that are listed, and of no other; they are distinct, were
  -- counted, and are not too many.
  pub record IsWindow (m : VoxelMap D V) : Type 0 where
    pub bounded : length m.frame_indices ≤ m.options.max_frames_to_keep
    pub below : All (λ i. i < m.frame_id_count) m.frame_indices
    pub distinct : AreDistinct m.frame_indices
    pub held : (i : ℕ) → holds_cloud i m.frame_id_to_frame ≡ is_index i m.frame_indices

  holds_cloud-drop_cloud :
      (i j : ℕ) (origin : V) (frames : List (ℕ × MapFrame D V))
      → holds_cloud j (drop_cloud i origin frames)
        ≡ (if i == j then false else holds_cloud j frames)
  unfolding find_frame drop_cloud
  holds_cloud-drop_cloud i j origin [] = ground arith
  holds_cloud-drop_cloud i j origin ((k, f) ∷ fs) =
      ground (arith, holds_cloud-drop_cloud i j origin fs)

  drop_old-bounded :
      (most : ℕ) (origin : V) (is : List ℕ) (frames : List (ℕ × MapFrame D V))
      → length (drop_old most origin is frames).0 ≤ most
  unfolding drop_old
  drop_old-bounded most origin [] frames = omega arith
  drop_old-bounded most origin (i ∷ is) frames =
      ground (arith, drop_old-bounded most origin is (drop_cloud i origin frames))

  drop_old-All :
      (P : ℕ → Type 0) (most : ℕ) (origin : V) (is : List ℕ) (frames : List (ℕ × MapFrame D V))
      → All P is
      → All P (drop_old most origin is frames).0
  unfolding drop_old
  drop_old-All P most origin [] frames a = tt
  drop_old-All P most origin (i ∷ is) frames a = elim (Bool-cases (ltb most (length (i ∷ is)))) [
    | inl e ↦ rw e (drop_old-All P most origin is (drop_cloud i origin frames) a.1)
    | inr e ↦ rw e a
  ]

  drop_old-AreDistinct :
      (most : ℕ) (origin : V) (is : List ℕ) (frames : List (ℕ × MapFrame D V))
      → AreDistinct is
      → AreDistinct (drop_old most origin is frames).0
  unfolding drop_old
  drop_old-AreDistinct most origin [] frames a = tt
  drop_old-AreDistinct most origin (i ∷ is) frames a =
      elim (Bool-cases (ltb most (length (i ∷ is)))) [
        | inl e ↦ rw e (drop_old-AreDistinct most origin is (drop_cloud i origin frames) a.1)
        | inr e ↦ rw e a
      ]

  drop_old-held :
      (most : ℕ) (origin : V) (is : List ℕ) (frames : List (ℕ × MapFrame D V))
      → AreDistinct is
      → ((j : ℕ) → holds_cloud j frames ≡ is_index j is)
      → (j : ℕ)
      → holds_cloud j (drop_old most origin is frames).1
        ≡ is_index j (drop_old most origin is frames).0
  unfolding drop_old
  drop_old-held most origin [] frames a h j = h j
  drop_old-held most origin (i ∷ is) frames a h j =
      let dropped : (k : ℕ) → holds_cloud k (drop_cloud i origin frames) ≡ is_index k is =
        λ k. ground (arith, holds_cloud-drop_cloud i k origin frames, h k, a.0) in
      elim (Bool-cases (ltb most (length (i ∷ is)))) [
        | inl e ↦ rw e (drop_old-held most origin is (drop_cloud i origin frames) a.1 dropped j)
        | inr e ↦ rw e (h j)
      ]

  held_new :
      (j n : ℕ) (cloud : List (V × D)) (begin_tr : V) (is : List ℕ)
      (frames : List (ℕ × MapFrame D V))
      → holds_cloud j frames ≡ is_index j is
      → holds_cloud j ((n, record { pointcloud = some cloud; begin_tr = begin_tr }) ∷ frames)
        ≡ is_index j (is ++ n ∷ [])
  unfolding find_frame
  held_new j n cloud begin_tr is frames h = ground (arith, is_index-append j n is)

module _ {D V : Type 0} ⦃d : Double D⦄ ⦃v : Vectors D V⦄ where
  insert_cloud_at-IsWindow :
      (largest : D) (normal_of : List V → V) (cloud : List (V × D)) (begin_tr : V)
      (m : VoxelMap D V)
      → IsWindow m
      → IsWindow (insert_cloud_at largest normal_of cloud begin_tr m)
  unfolding insert_cloud_at
  insert_cloud_at-IsWindow largest normal_of cloud begin_tr m w =
      let n = m.frame_id_count in
      let is = m.frame_indices ++ n ∷ [] in
      let most = m.options.max_frames_to_keep in
      let frames : List (ℕ × MapFrame D V) =
        (n, record { pointcloud = some cloud; begin_tr = begin_tr }) ∷ m.frame_id_to_frame in
      let distinct = AreDistinct-append n m.frame_indices w.below w.distinct in
      record {
        bounded = drop_old-bounded most v.vec_zero is frames;
        below =
            drop_old-All (λ i. i < n + 1) most v.vec_zero is frames
              (All-append (λ i. i < n + 1) m.frame_indices (n ∷ [])
                (All-weaker n m.frame_indices w.below) (omega arith, tt));
        distinct = drop_old-AreDistinct most v.vec_zero is frames distinct;
        held =
            drop_old-held most v.vec_zero is frames distinct
              (λ j. held_new j n cloud begin_tr m.frame_indices m.frame_id_to_frame (w.held j));
      }

module _ {D V Q : Type 0} ⦃d : Double D⦄ ⦃v : Vectors D V⦄ where
  -- Where there are poses and points, and the poses, once sorted, have one reference frame and are each
  -- of the frame of the pose before or not earlier, the insertion of a cloud succeeds and keeps the
  -- window: afterwards the map holds clouds for the listed frames only, for all of these, and for no
  -- more frames than `max_frames_to_keep`.
  pub insert_point_cloud-IsWindow :
      (a : Algorithms D V Q) (normal_of : List V → V) (cloud : List (V × D))
      (poses : List (Pose D V Q)) (m : VoxelMap D V) (first : Pose D V Q) (rest : List (Pose D V Q))
      → IsWindow m
      → 0 < length poses
      → 0 < length cloud
      → a.sort poses ≡ first ∷ rest
      → AreLinked first.ref_frame_id first rest
      → Succeeds IsWindow (insert_point_cloud a normal_of cloud poses m)
  insert_point_cloud-IsWindow a normal_of cloud poses m first rest w filled points sorted linked =
      rw
        (insert_point_cloud-insert_cloud_at a normal_of cloud poses m first rest filled points
          sorted linked)
        (insert_cloud_at-IsWindow a.largest normal_of cloud first.pose.tr m w)
