-- ===== src/Registration/Builder.antt =====
-- `ICPOptimizationBuilder` (src/ct_icp/ct_icp.cpp): the residuals of a round and the problem that Ceres
-- solves. A cost function is its data; memory and the loss functions' objects are left out. A problem
-- lists its residual blocks in the order of their addition, and the id of a block is its place.
use ct_icp_comment.Common.{
  ℕ, zero, suc, ◌+◌, Bool, true, false, not, ◌||◌, List, [], ◌∷◌, ◌++◌, Option, none, some, map,
  ltb, length, get_elem?, set, ℤ, pos, negsuc, ltb_ℤ, leb_ℤ, Double, Outcome, ok, fail, check,
  require, ◌>>=◌, ◌>>◌, bad_index, bad_alpha, bad_size, parameters_set,
}
use ct_icp_comment.Geometry.{Se3, Vectors, Quaternions, se3_apply}
use ct_icp_comment.Pose.{Pose, inverse, interpolate_pose, apply, no_frame_id}
use ct_icp_comment.Odometry.Options.{
  IcpDistance, point_to_plane, PoseParametrization, simple, continuous_time,
}
use ct_icp_comment.Registration.{RegistrationOptions}
use ct_icp_comment.Registration.Neighborhood.{Description}

-- A cost function with its functor; `time` is that of the continuous functors.
pub record CostFunction (D V : Type 0) : Type 0 where
  pub distance : IcpDistance
  pub time : Option D
  pub reference_point : V
  pub raw_point : V
  pub neighborhood : Description D V
  pub weight : D

-- `_FunctorStruct`
pub record Functor (D V : Type 0) : Type 0 where
  pub cost_function : Option (CostFunction D V)
  pub block_id : Option ℕ

-- The pose that a constraint of a motion model is on
pub data Side : Type 0 where
  at_begin at_end : Side

pub data ResidualBlock (D V Q : Type 0) : Type 0 where
  icp_block : PoseParametrization → CostFunction D V → ResidualBlock D V Q
  location_block : Side → V → D → ResidualBlock D V Q
  orientation_block : Side → Q → D → ResidualBlock D V Q
  constant_velocity_block : V → D → ResidualBlock D V Q
  small_velocity_block : D → ResidualBlock D V Q
  relative_pose_block : Se3 D V Q → D → D → ResidualBlock D V Q

abbrev pub Problem : Type 0 → Type 0 → Type 0 → Type 0
Problem D V Q = List (ResidualBlock D V Q)

pub record Builder (D V : Type 0) : Type 0 where
  pub max_num_residuals : ℤ
  pub parameter_block_set : Bool
  pub corrected_raw_points : List V
  pub functors : List (Functor D V)

abbrev pub time_of : {D : Type 0} → PoseParametrization → D → Option D
time_of simple alpha = none
time_of continuous_time alpha = some alpha

abbrev pub distance_or : Option IcpDistance → IcpDistance → IcpDistance
distance_or none distance = distance
distance_or (some distance) other = distance

abbrev pub is_plane_and_simple : IcpDistance → PoseParametrization → Bool
is_plane_and_simple point_to_plane simple = true
is_plane_and_simple _ _ = false

module _ {D V : Type 0} where
  abbrev pub empty_functor : Functor D V
  empty_functor = record { cost_function = none; block_id = none }

  unfoldable pub new_builder : RegistrationOptions D → List V → Builder D V
  new_builder o raw_points = record {
    max_num_residuals = o.max_num_residuals;
    parameter_block_set = false;
    corrected_raw_points = raw_points;
    functors = [];
  }

  -- `resize`, to a number of functors
  unfoldable pub resize_functors : ℕ → List (Functor D V) → List (Functor D V)
  resize_functors zero fs = []
  resize_functors (suc n) [] = empty_functor ∷ resize_functors n []
  resize_functors (suc n) (f ∷ fs) = f ∷ resize_functors n fs

  -- `InitProblem`; a negative number is a size that no vector has.
  unfoldable pub init_problem : ℤ → Builder D V → Outcome (Builder D V)
  init_problem (negsuc n) b = fail bad_size
  init_problem (pos n) b =
      ok (record b { parameter_block_set = false; functors = resize_functors n b.functors })

  unfoldable pub add_parameter_blocks : Builder D V → Outcome (Builder D V)
  add_parameter_blocks b = do
    check (not b.parameter_block_set) parameters_set
    ok (record b { parameter_block_set = true })

  -- `clear`
  abbrev pub clear_functor : Functor D V → Functor D V
  clear_functor f = empty_functor

module _ {D V : Type 0} ⦃d : Double D⦄ where
  unfoldable pub set_residual_block :
      RegistrationOptions D
      → ℕ
      → ℕ
      → V
      → Description D V
      → D
      → D
      → Option IcpDistance
      → Builder D V
      → Outcome (Builder D V)
  set_residual_block o residual_id keypoint_id reference desc w alpha distance_override b = do
    check (not (d.lt alpha (d.decimal 0 0) || d.lt (d.decimal 1 0) alpha)) bad_alpha
    raw ← require (get_elem? b.corrected_raw_points keypoint_id) bad_index
    let cost : CostFunction D V = record {
      distance = distance_or distance_override o.distance;
      time = time_of o.parametrization alpha;
      reference_point = reference;
      raw_point = raw;
      neighborhood = desc;
      weight = w;
    }
    check (ltb residual_id (length b.functors)) bad_index
    ok (record b {
      functors = set b.functors residual_id (record { cost_function = some cost; block_id = none });
    })

module _ {D V Q : Type 0} where
  -- The loop of `GetProblem` over the functors: the problem, the number of its residuals, and the
  -- functors that it leaves
  unfoldable pub add_functors :
      PoseParametrization
      → ℤ
      → Problem D V Q
      → ℕ
      → List (Functor D V)
      → Problem D V Q × ℕ × List (Functor D V)
  add_functors p most problem count [] = (problem, count, [])
  add_functors p most problem count (f ∷ fs) = elim f.cost_function [
    | none ↦
        let (problem', count', fs') = add_functors p most problem count fs in
        (problem', count', f ∷ fs')
    | some cost ↦ elim (leb_ℤ most (pos 0) || ltb_ℤ (pos count) most) [
      | true ↦
          let (problem', count', fs') =
            add_functors p most (problem ++ icp_block p cost ∷ []) (count + 1) fs in
          (problem', count', record f { block_id = some (length problem) } ∷ fs')
      | false ↦
          let (problem', count', fs') = add_functors p most problem count fs in
          (problem', count', clear_functor f ∷ fs')
    ]
  ]

  unfoldable pub get_problem : RegistrationOptions D → Builder D V → Problem D V Q × ℕ × Builder D V
  get_problem o b =
      let (problem, count, fs) =
        add_functors o.parametrization b.max_num_residuals [] 0 b.functors in
      (problem, count, record b { functors = map clear_functor fs })

  -- `SetProblemValues`: the residuals of the functors whose blocks are in the problem
  unfoldable pub set_problem_values :
      (ResidualBlock D V Q → D) → Problem D V Q → List (Functor D V) → List D → Outcome (List D)
  set_problem_values evaluate problem fs [] = ok []
  set_problem_values evaluate problem [] (r ∷ rs) = fail bad_index
  set_problem_values evaluate problem (f ∷ fs) (r ∷ rs) = do
    value ← elim f.block_id [
      | none ↦ ok r
      | some id ↦ do block ← require (get_elem? problem id) bad_index; ok (evaluate block)
    ]
    rest ← set_problem_values evaluate problem fs rs
    ok (value ∷ rest)

module _ {D V Q : Type 0} ⦃d : Double D⦄ ⦃v : Vectors D V⦄ ⦃q : Quaternions D V Q⦄ where
  -- Each raw point in the frame of the pose at the end
  unfoldable pub distort_points : Pose D V Q → Pose D V Q → List V → List D → Outcome (List V)
  distort_points begin_pose end_pose [] ts = ok []
  distort_points begin_pose end_pose (r ∷ rs) [] = fail bad_index
  distort_points begin_pose end_pose (r ∷ rs) (t ∷ ts) = do
    p ← interpolate_pose begin_pose end_pose t no_frame_id
    rest ← distort_points begin_pose end_pose rs ts
    ok (se3_apply (inverse end_pose).pose (apply p r) ∷ rest)

  unfoldable pub distort_frame :
      RegistrationOptions D
      → Pose D V Q
      → Pose D V Q
      → List V
      → List D
      → Builder D V
      → Outcome (Builder D V)
  distort_frame o begin_pose end_pose raw_points timestamps b =
      elim (is_plane_and_simple o.distance o.parametrization) [
        | false ↦ ok b
        | true ↦ do
          points ← distort_points begin_pose end_pose raw_points timestamps
          ok (record b { corrected_raw_points = points })
      ]
