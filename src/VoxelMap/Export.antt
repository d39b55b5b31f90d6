-- ===== src/VoxelMap/Export.antt =====
-- The points of a map as lists: `GetMapPoints` and `GetVisibleMapPoints` (include/ct_icp/map.h). A point
-- cloud is the coordinates and normals of its points; the blocks come in the order of the traversal.
use ct_icp_comment.Common.{
  ℕ, ◌+◌, ◌≤◌, ◌≡◌, refl, sym, ap, ◌∙◌, inl, inr, Bool, true, ◌&&◌, some, List, [], ◌∷◌, ◌++◌, map,
  append_assoc, append-nil, arith, ltb, if◌then◌else◌, Bool-cases, length, get_elem?, length-append,
  Outcome, ok, check, require, ◌>>=◌, ◌>>◌, bad_index,
}
use ct_icp_comment.Common.{Double}
use ct_icp_comment.Geometry.{Vectors}
use ct_icp_comment.Grid.{Grid}
use ct_icp_comment.VoxelMap.{PointType, ResolutionParam, VoxelHashMap, VoxelMap}
use ct_icp_comment.VoxelMap.Insertion.{IsHashMap, total}

module _ {D V : Type 0} where
  -- The loops with their index and the check of it.
  unfoldable pub export_block : ℕ → ℕ → List (PointType D V) → Outcome (List (V × V))
  export_block num_points idx [] = ok []
  export_block num_points idx (p ∷ ps) = do
    check (ltb idx num_points) bad_index
    rest ← export_block num_points (idx + 1) ps
    ok ((p.xyz, p.normal) ∷ rest)

  unfoldable pub export_blocks :
      ℕ → ℕ → List (V × V) → Grid (List (PointType D V)) → Outcome (List (V × V))
  export_blocks num_points idx written [] = ok written
  export_blocks num_points idx written ((k, block) ∷ blocks) = do
    points ← export_block num_points idx block
    export_blocks num_points (idx + length block) (written ++ points) blocks

  -- The number of the points of the cloud is that of the map.
  unfoldable pub get_map_points : ℕ → VoxelMap D V → Outcome (List (V × V))
  get_map_points map_idx m = do
    h ← require (get_elem? m.voxel_maps map_idx) bad_index
    export_blocks h.num_points 0 [] h.blocks

module _ {D V : Type 0} ⦃d : Double D⦄ ⦃v : Vectors D V⦄ where
  -- Only points with an oriented normal are looked at, and `add_point` is not read.
  abbrev pub is_visible : V → PointType D V → Bool
  is_visible view_point p =
      (p.is_normal_oriented && p.is_normal_oriented)
      && d.lt (v.dot p.normal (v.minus p.xyz view_point)) (d.decimal 0 0)

  unfoldable pub visible_block :
      V → ℕ → List (V × V) → List (PointType D V) → Outcome (List (V × V))
  visible_block view_point num_points written [] = ok written
  visible_block view_point num_points written (p ∷ ps) = do
    check (ltb (length written) num_points) bad_index
    visible_block view_point num_points
        (if is_visible view_point p then written ++ (p.xyz, p.normal) ∷ [] else written) ps

  unfoldable pub visible_blocks :
      V → ℕ → List (V × V) → Grid (List (PointType D V)) → Outcome (List (V × V))
  visible_blocks view_point num_points written [] = ok written
  visible_blocks view_point num_points written ((k, block) ∷ blocks) = do
    written' ← visible_block view_point num_points written block
    visible_blocks view_point num_points written' blocks

  unfoldable pub get_visible_map_points : ℕ → V → VoxelMap D V → Outcome (List (V × V))
  get_visible_map_points map_idx view_point m = do
    h ← require (get_elem? m.voxel_maps map_idx) bad_index
    visible_blocks view_point h.num_points [] h.blocks

module _ {D V : Type 0} where
  abbrev pub exported : PointType D V → V × V
  exported p = (p.xyz, p.normal)

  abbrev pub all_points : Grid (List (PointType D V)) → List (V × V)
  all_points [] = []
  all_points ((k, block) ∷ blocks) = map exported block ++ all_points blocks

  export_block_lem :
      (num_points idx : ℕ) (block : List (PointType D V))
      → idx + length block ≤ num_points
      → export_block num_points idx block ≡ ok (map exported block)
  unfolding export_block
  export_block_lem num_points idx [] h = refl
  export_block_lem num_points idx (p ∷ ps) h =
      let passes : ltb idx num_points ≡ true = ground arith in
      rw (passes, export_block_lem num_points (idx + 1) ps (omega arith)) refl

  export_blocks_lem :
      (num_points idx : ℕ) (written : List (V × V)) (blocks : Grid (List (PointType D V)))
      → idx + total blocks ≤ num_points
      → export_blocks num_points idx written blocks ≡ ok (written ++ all_points blocks)
  unfolding export_blocks
  export_blocks_lem num_points idx written [] h = ap ok (sym (append-nil written))
  export_blocks_lem num_points idx written ((k, block) ∷ blocks) h =
      rw (export_block_lem num_points idx block (omega arith)) (
        export_blocks_lem num_points (idx + length block) (written ++ map exported block) blocks
          (omega arith)
        ∙ ap ok (append_assoc written (map exported block) (all_points blocks)))

module _ {D V : Type 0} ⦃d : Double D⦄ ⦃v : Vectors D V⦄ where
  abbrev pub visible_in : V → List (PointType D V) → List (V × V)
  visible_in view_point [] = []
  visible_in view_point (p ∷ ps) =
      let rest = visible_in view_point ps in
      if is_visible view_point p then exported p ∷ rest else rest

  abbrev pub visible_points : V → Grid (List (PointType D V)) → List (V × V)
  visible_points view_point [] = []
  visible_points view_point ((k, block) ∷ blocks) =
      visible_in view_point block ++ visible_points view_point blocks

  visible_block_lem :
      (view_point : V) (num_points : ℕ) (written : List (V × V)) (block : List (PointType D V))
      → length written + length block ≤ num_points
      → visible_block view_point num_points written block
        ≡ ok (written ++ visible_in view_point block)
  unfolding visible_block
  visible_block_lem view_point num_points written [] h = ap ok (sym (append-nil written))
  visible_block_lem view_point num_points written (p ∷ ps) h =
      let passes : ltb (length written) num_points ≡ true = ground arith in
      elim (Bool-cases (is_visible view_point p)) [
        | inl q ↦
            rw (passes, q, if◌then◌else◌)
              (visible_block_lem view_point num_points (written ++ exported p ∷ []) ps
                  (omega (arith, length-append written (exported p ∷ [])))
                ∙ ap ok (append_assoc written (exported p ∷ []) (visible_in view_point ps)))
        | inr q ↦
            rw (passes, q, if◌then◌else◌)
              (visible_block_lem view_point num_points written ps (omega arith))
      ]

  visible_in-le :
      (view_point : V) (block : List (PointType D V))
      → length (visible_in view_point block) ≤ length block
  visible_in-le view_point [] = omega arith
  visible_in-le view_point (p ∷ ps) = ground (arith, visible_in-le view_point ps)

  visible_blocks_lem :
      (view_point : V) (num_points : ℕ) (written : List (V × V))
      (blocks : Grid (List (PointType D V)))
      → length written + total blocks ≤ num_points
      → visible_blocks view_point num_points written blocks
        ≡ ok (written ++ visible_points view_point blocks)
  unfolding visible_blocks
  visible_blocks_lem view_point num_points written [] h = ap ok (sym (append-nil written))
  visible_blocks_lem view_point num_points written ((k, block) ∷ blocks) h =
      rw (visible_block_lem view_point num_points written block (omega arith)) (
        visible_blocks_lem view_point num_points (written ++ visible_in view_point block) blocks (
          omega (
            arith,
            length-append written (visible_in view_point block),
            visible_in-le view_point block,
          ))
        ∙ ap ok
            (append_assoc written (visible_in view_point block) (visible_points view_point blocks)))

  -- On a map with the invariant of the insertions the checks of the indices of both exports pass, since
  -- the count of the map is the number of its points: GetMapPoints gives all points of the map, and
  -- GetVisibleMapPoints those with an oriented normal that points towards the view point.
  pub get_map_points-all :
      (r : ResolutionParam D) (map_idx : ℕ) (view_point : V) (m : VoxelMap D V)
      (h : VoxelHashMap D V)
      → get_elem? m.voxel_maps map_idx ≡ some h
      → IsHashMap r h
      → (get_map_points map_idx m ≡ ok (all_points h.blocks))
        × (get_visible_map_points map_idx view_point m ≡ ok (visible_points view_point h.blocks))
  unfolding get_map_points get_visible_map_points
  get_map_points-all r map_idx view_point m h e w = rw e (
    export_blocks_lem h.num_points 0 [] h.blocks (omega (arith, w.counted)),
    visible_blocks_lem view_point h.num_points [] h.blocks (omega (arith, w.counted)),
  )
