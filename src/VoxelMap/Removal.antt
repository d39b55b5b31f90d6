-- ===== src/VoxelMap/Removal.antt =====
-- The removal of the blocks that are far from a location.
use ct_icp_comment.Common.{
  ◌+◌, ◌≡◌, false, List, [], ◌∷◌, some, Double, arith, Bool-cases, inl, inr,
}
use ct_icp_comment.Geometry.{Vectors, Voxel}
use ct_icp_comment.Grid.{Grid, find_voxel, IsApart, IsGrid, AllEntries}
use ct_icp_comment.VoxelMap.{
  PointType, ResolutionParam, VoxelHashMap, is_far, keep_near, remove_far,
}
use ct_icp_comment.VoxelMap.Insertion.{total, IsBlock, IsHashMap}

module _ {D V : Type 0} ⦃d : Double D⦄ ⦃v : Vectors D V⦄ where
  total-keep_near :
      (location : V) (distance : D) (g : Grid (List (PointType D V)))
      → total (keep_near location distance g).0 + (keep_near location distance g).1 ≡ total g
  unfolding keep_near
  total-keep_near location distance [] = omega arith
  total-keep_near location distance ((k, b) ∷ g) =
      ground (arith, total-keep_near location distance g)

  IsApart-keep_near :
      (location : V) (distance : D) (j : Voxel) (g : Grid (List (PointType D V)))
      → IsApart j g
      → IsApart j (keep_near location distance g).0
  unfolding keep_near
  IsApart-keep_near location distance j [] a = tt
  IsApart-keep_near location distance j ((k, b) ∷ g) a =
      elim (Bool-cases (is_far location distance b)) [
        | inl e ↦ rw e (IsApart-keep_near location distance j g a.1)
        | inr e ↦ rw e (a.0, IsApart-keep_near location distance j g a.1)
      ]

  IsGrid-keep_near :
      (location : V) (distance : D) (g : Grid (List (PointType D V)))
      → IsGrid g
      → IsGrid (keep_near location distance g).0
  unfolding keep_near
  IsGrid-keep_near location distance [] a = tt
  IsGrid-keep_near location distance ((k, b) ∷ g) a =
      elim (Bool-cases (is_far location distance b)) [
        | inl e ↦ rw e (IsGrid-keep_near location distance g a.1)
        | inr e ↦
            rw e (
              IsApart-keep_near location distance k g a.0,
              IsGrid-keep_near location distance g a.1,
            )
      ]

  -- What holds of all entries holds of those that are kept, and they are not far.
  AllEntries-keep_near {κ} :
      (P : Voxel → List (PointType D V) → Type κ) (location : V) (distance : D)
      (g : Grid (List (PointType D V)))
      → AllEntries P g
      → AllEntries
          (λ k b. P k b × (is_far location distance b ≡ false))
          (keep_near location distance g).0
  unfolding keep_near
  AllEntries-keep_near P location distance [] a = tt
  AllEntries-keep_near P location distance ((k, b) ∷ g) a =
      elim (Bool-cases (is_far location distance b)) [
        | inl e ↦ rw e (AllEntries-keep_near P location distance g a.1)
        | inr e ↦ rw e ((a.0, e), AllEntries-keep_near P location distance g a.1)
      ]

  AllEntries-map {κ μ} :
      (P : Voxel → List (PointType D V) → Type κ) (Q : Voxel → List (PointType D V) → Type μ)
      (f : (k : Voxel) (b : List (PointType D V)) → P k b → Q k b) (g : Grid (List (PointType D V)))
      → AllEntries P g
      → AllEntries Q g
  AllEntries-map P Q f [] a = tt
  AllEntries-map P Q f ((k, b) ∷ g) a = (f k b a.0, AllEntries-map P Q f g a.1)

  -- A block that is not far is still found.
  find_voxel-keep_near :
      (location : V) (distance : D) (k : Voxel) (b : List (PointType D V))
      (g : Grid (List (PointType D V)))
      → find_voxel k g ≡ some b
      → is_far location distance b ≡ false
      → find_voxel k (keep_near location distance g).0 ≡ some b
  unfolding keep_near find_voxel
  find_voxel-keep_near location distance k b [] h near = cc
  find_voxel-keep_near location distance k b ((j, c) ∷ g) h near =
      ground (arith, find_voxel-keep_near location distance k b g)

  -- The removal of far blocks keeps the invariant of a hash map, the count of its points included. The first point of a
  -- block that is left is not farther than the distance, and a block whose first point is not farther is
  -- found as before.
  pub remove_far-IsHashMap :
      (r : ResolutionParam D) (location : V) (distance : D) (h : VoxelHashMap D V)
      → IsHashMap r h
      → IsHashMap r (remove_far location distance h)
        × AllEntries
            (λ k b. is_far location distance b ≡ false)
            (remove_far location distance h).blocks
        × ((k : Voxel) (b : List (PointType D V))
            → find_voxel k h.blocks ≡ some b
            → is_far location distance b ≡ false
            → find_voxel k (remove_far location distance h).blocks ≡ some b)
  unfolding remove_far
  remove_far-IsHashMap r location distance h i =
      let kept = AllEntries-keep_near (IsBlock r) location distance h.blocks i.entries in
      (
        record {
          keys = IsGrid-keep_near location distance h.blocks i.keys;
          entries = AllEntries-map _ _ (λ k b p. p.0) _ kept;
          counted = ground (arith, total-keep_near location distance h.blocks, i.counted);
        },
        AllEntries-map _ _ (λ k b p. p.1) _ kept,
        λ k b. find_voxel-keep_near location distance k b h.blocks,
      )
