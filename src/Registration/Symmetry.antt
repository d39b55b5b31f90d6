-- ===== src/Registration/Symmetry.antt =====
-- The matrix of the normal equations of `DoRegisterGaussNewton` (src/ct_icp/ct_icp.cpp).
use ct_icp_comment.Common.{
  ℕ, ◌+◌, ◌==◌, ◌≡◌, refl, ◌&&◌, ltb, leb, inl, inr, Bool-cases, List, [], ◌∷◌, Option, none, some,
  Ensures, length, to_size, Double, arith, get_elem?, require, bad_index,
}
use ct_icp_comment.Geometry.{Vectors, Quaternions}
use ct_icp_comment.Pose.{TrajectoryFrame}
use ct_icp_comment.Registration.{RegistrationOptions}
use ct_icp_comment.Registration.Tools.{Tools}
use ct_icp_comment.Registration.Contract.{Ensures->>=, Ensures-any, Ensures-map}
use ct_icp_comment.Registration.NormalEquations.{
  Equations, zero_equations, add_row, divide_by, add_to_diagonal, add_equation, add_equations,
  constrain_equations, constrained_equations,
}
use ct_icp_comment.MotionModel.{MotionModel, previous_frame, prediction}

-- The matrix is its own transpose.
abbrev pub IsSymmetric : {D : Type 0} → Equations D → Type 0
IsSymmetric e = (i j : ℕ) → e.a i j ≡ e.a j i

-- The test on an entry of the diagonal is the same for both orders of its indices.
on_diagonal-swap :
    (first i j : ℕ)
    → ((i == j) && (leb first i && ltb i (first + 3)))
      ≡ ((j == i) && (leb first j && ltb j (first + 3)))
on_diagonal-swap first i j = ground arith

module _ {D V Q : Type 0} ⦃d : Double D⦄ ⦃v : Vectors D V⦄ ⦃q : Quaternions D V Q⦄ (t : Tools D V Q)
    (o : RegistrationOptions D) (mul_comm : (x y : D) → d.mul x y ≡ d.mul y x) where
  add_row-IsSymmetric :
      (u : ℕ → D) (s : D) (e : Equations D) → IsSymmetric e → IsSymmetric (add_row u s e)
  unfolding add_row
  add_row-IsSymmetric u s e h i j = rw (h i j, mul_comm (u i) (u j)) refl

  add_to_diagonal-IsSymmetric :
      (first : ℕ) (w : D) (diff : ℕ → D) (e : Equations D)
      → IsSymmetric e
      → IsSymmetric (add_to_diagonal first w diff e)
  unfolding add_to_diagonal
  add_to_diagonal-IsSymmetric first w diff e h i j = rw (h i j, on_diagonal-swap first i j) refl

  constrained_equations_keep_symmetry :
      (model : Option (MotionModel D V Q)) (f : TrajectoryFrame D V Q) (e : Equations D)
      → IsSymmetric e
      → IsSymmetric (constrained_equations t o model f e)
  unfolding constrained_equations constrain_equations divide_by
  constrained_equations_keep_symmetry none f e h = λ i j. rw (h i j) refl
  constrained_equations_keep_symmetry (some (prediction p g)) f e h = λ i j. rw (h i j) refl
  constrained_equations_keep_symmetry (some (previous_frame p g)) f e h =
      add_to_diagonal-IsSymmetric 9 _ _ _
        (add_to_diagonal-IsSymmetric 3 _ _ _ (λ i j. rw (h i j) refl))

  add_equation-IsSymmetric :
      (f : TrajectoryFrame D V Q) (raw world : V) (s : D) (e : Equations D)
      → IsSymmetric e
      → Ensures IsSymmetric (add_equation t o f raw world s e)
  unfolding add_equation
  add_equation-IsSymmetric f raw world s e h =
      Ensures-any _ (t.nearest world o.max_number_neighbors) _ (λ points.
        elim (Bool-cases (ltb (length points) (to_size o.min_number_neighbors))) [
          | inl few ↦ rw few h
          | inr many ↦ rw many (
              Ensures-any _ (require (get_elem? points 0) bad_index) _
                (λ closest. grind (arith, add_row-IsSymmetric)))
        ])

  add_equations-IsSymmetric :
      (f : TrajectoryFrame D V Q) (raws worlds : List V) (ss : List D) (e : Equations D)
      → IsSymmetric e
      → Ensures IsSymmetric (add_equations t o f raws worlds ss e)
  unfolding add_equations
  add_equations-IsSymmetric f [] worlds ss e h = h
  add_equations-IsSymmetric f (raw ∷ raws) [] ss e h = tt
  add_equations-IsSymmetric f (raw ∷ raws) (world ∷ worlds) [] e h = tt
  add_equations-IsSymmetric f (raw ∷ raws) (world ∷ worlds) (s ∷ ss) e h =
      Ensures->>= _ _ (add_equation t o f raw world s e) _
        (add_equation-IsSymmetric f raw world s e h)
        (λ e'. add_equations-IsSymmetric f raws worlds ss e')

  -- The matrix that Gauss and Newton's solver gives to the decomposition of a symmetric matrix is
  -- symmetric, whatever the keypoints and the motion model, where the product of doubles commutes.
  pub constrained_equations-IsSymmetric :
      (model : Option (MotionModel D V Q)) (f : TrajectoryFrame D V Q) (raws worlds : List V)
      (ss : List D)
      → Ensures
          (λ e. IsSymmetric (constrained_equations t o model f e))
          (add_equations t o f raws worlds ss zero_equations)
  constrained_equations-IsSymmetric model f raws worlds ss =
      let start : IsSymmetric zero_equations = λ i j. refl in
      Ensures-map (constrained_equations_keep_symmetry model f)
        (add_equations t o f raws worlds ss zero_equations)
        (add_equations-IsSymmetric f raws worlds ss zero_equations start)
