-- ===== src/Registration/NormalEquations.antt =====
-- The normal equations of `DoRegisterGaussNewton` (src/ct_icp/ct_icp.cpp), for twelve parameters. A
-- matrix is the function of its entries.
use ct_icp_comment.Common.{
  ℕ, zero, suc, ◌+◌, ◌==◌, true, false, ◌&&◌, List, [], ◌∷◌, ◌++◌, Option, none, some, ltb, leb,
  length, get_elem?, if◌then◌else◌, to_size, pos, Double, Outcome, ok, fail, require, ◌>>=◌,
  bad_index,
}
use ct_icp_comment.Geometry.{Vectors, Quaternions}
use ct_icp_comment.Pose.{TrajectoryFrame, begin_tr, end_tr, get_alpha_timestamp}
use ct_icp_comment.Registration.{RegistrationOptions}
use ct_icp_comment.Registration.Neighborhood.{Neighborhood, normal_a2d, compute_neighborhood}
use ct_icp_comment.Registration.Tools.{Tools, new_neighborhood}
use ct_icp_comment.MotionModel.{MotionModel, previous_frame, prediction}

abbrev pub Matrix : Type 0 → Type 0
Matrix D = ℕ → ℕ → D

-- `A`, `b` and the number of keypoints that are used
pub record Equations (D : Type 0) : Type 0 where
  pub a : Matrix D
  pub b : ℕ → D
  pub number_keypoints_used : ℕ

module _ {D : Type 0} ⦃d : Double D⦄ where
  abbrev pub entry : List D → ℕ → D
  entry [] i = d.decimal 0 0
  entry (x ∷ xs) zero = x
  entry (x ∷ xs) (suc i) = entry xs i

  abbrev pub zero_equations : Equations D
  zero_equations = record {
    a = λ i j. d.decimal 0 0;
    b = λ i. d.decimal 0 0;
    number_keypoints_used = 0;
  }

  -- One more keypoint, with its row and its residual
  unfoldable pub add_row : (ℕ → D) → D → Equations D → Equations D
  add_row u scalar e = record {
    a = λ i j. d.add (e.a i j) (d.mul (u i) (u j));
    b = λ i. d.sub (e.b i) (d.mul (u i) scalar);
    number_keypoints_used = e.number_keypoints_used + 1;
  }

  -- The equations divided by a number
  unfoldable pub divide_by : D → Equations D → Equations D
  divide_by n e = record e { a = λ i j. d.div (e.a i j) n; b = λ i. d.div (e.b i) n }

  -- A weight on the three entries of the diagonal from `first` on, and its right hand side
  unfoldable pub add_to_diagonal : ℕ → D → (ℕ → D) → Equations D → Equations D
  add_to_diagonal first weight diff e = record e {
    a = λ i j.
        if (i == j) && (leb first i && ltb i (first + 3)) then d.add (e.a i j) weight else e.a i j;
    b = λ i.
        if leb first i && ltb i (first + 3) then d.sub (e.b i) (d.mul weight (diff i)) else e.b i;
  }

module _ {D V : Type 0} ⦃d : Double D⦄ ⦃v : Vectors D V⦄ where
  -- a * (p - c), summed over the components
  abbrev pub product_with : V → V → V → D
  product_with a p c =
      d.add (d.add (d.mul (v.x a) (d.sub (v.x p) (v.x c))) (d.mul (v.y a) (d.sub (v.y p) (v.y c))))
        (d.mul (v.z a) (d.sub (v.z p) (v.z c)))

  -- The six entries of a row for one of the poses: `weight` times the product of the rotated point and
  -- the normal, and `weight` times the normal
  abbrev pub half_row : D → V → V → List D
  half_row weight origin normal =
      d.mul weight (d.sub (d.mul (v.y origin) (v.z normal)) (d.mul (v.z origin) (v.y normal)))
      ∷ d.mul weight (d.sub (d.mul (v.z origin) (v.x normal)) (d.mul (v.x origin) (v.z normal)))
      ∷ d.mul weight (d.sub (d.mul (v.x origin) (v.y normal)) (d.mul (v.y origin) (v.x normal)))
      ∷ d.mul weight (v.x normal)
      ∷ d.mul weight (v.y normal)
      ∷ d.mul weight (v.z normal)
      ∷ []

  -- The components of a vector, from the place `first` on
  abbrev pub components_from : ℕ → V → ℕ → D
  components_from first p i = if i == first then v.x p else if i == first + 1 then v.y p else v.z p

module _ {D V Q : Type 0} ⦃d : Double D⦄ ⦃v : Vectors D V⦄ ⦃q : Quaternions D V Q⦄ (t : Tools D V Q)
    (o : RegistrationOptions D) where
  -- The normal of a neighborhood on the side of the begin of the frame
  abbrev pub turned_normal : TrajectoryFrame D V Q → V → V → V
  turned_normal f world normal =
      if d.lt (v.dot normal (v.minus (begin_tr f) world)) (d.decimal 0 0)
      then v.scale (d.neg (d.decimal 1 0)) normal
      else normal

  -- The body of the loop over the keypoints
  unfoldable pub add_equation :
      TrajectoryFrame D V Q → V → V → D → Equations D → Outcome (Equations D)
  add_equation f raw world timestamp e = do
    points ← t.nearest world o.max_number_neighbors
    elim (ltb (length points) (to_size o.min_number_neighbors)) [
      | true ↦ ok e
      | false ↦ do
        let start : Neighborhood D V = new_neighborhood
        let n = compute_neighborhood t.describe normal_a2d (record start { points = points })
        closest ← require (get_elem? points 0) bad_index
        let normal : V = turned_normal f world n.description.normal
        let alpha : D = get_alpha_timestamp f.begin_pose timestamp f.end_pose
        let weighted : V = v.scale (d.mul n.description.a2d n.description.a2d) normal
        if d.lt (t.analysis.abs (product_with normal world closest)) o.max_dist_to_plane_ct_icp
            then ok (
                add_row
                  (entry (
                    half_row (d.sub (d.decimal 1 0) alpha) (q.rotate f.begin_pose.pose.quat raw)
                      weighted
                    ++ half_row alpha (q.rotate f.end_pose.pose.quat raw) weighted))
                  (product_with weighted world closest) e)
            else ok e
    ]

  unfoldable pub add_equations :
      TrajectoryFrame D V Q → List V → List V → List D → Equations D → Outcome (Equations D)
  add_equations f [] worlds ss e = ok e
  add_equations f (raw ∷ raws) [] ss e = fail bad_index
  add_equations f (raw ∷ raws) (world ∷ worlds) [] e = fail bad_index
  add_equations f (raw ∷ raws) (world ∷ worlds) (s ∷ ss) e = do
    e' ← add_equation f raw world s e
    add_equations f raws worlds ss e'

  -- The constraints of a model on the previous frame; other models have none here.
  unfoldable pub constrain_equations :
      Option (MotionModel D V Q) → TrajectoryFrame D V Q → Equations D → Equations D
  constrain_equations none f e = e
  constrain_equations (some (prediction p g)) f e = e
  constrain_equations (some (previous_frame p g)) f e =
      add_to_diagonal 9 p.beta_constant_velocity
        (components_from 9
          (v.plus (v.minus (v.minus (end_tr f) (begin_tr f)) (end_tr g)) (begin_tr g)))
        (add_to_diagonal 3 p.beta_location_consistency
          (components_from 3 (v.minus (begin_tr f) (end_tr f))) e)

  -- The equations that are solved
  unfoldable pub constrained_equations :
      Option (MotionModel D V Q) → TrajectoryFrame D V Q → Equations D → Equations D
  constrained_equations model f e =
      constrain_equations model f (divide_by (t.analysis.to_double (pos e.number_keypoints_used)) e)
