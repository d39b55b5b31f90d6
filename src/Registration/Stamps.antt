-- ===== src/Registration/Stamps.antt =====
-- `Register` (src/ct_icp/ct_icp.cpp) as the registration of an odometry: the instants and the frame ids of
-- its frame.
use mathlib.Core.Option
use ct_icp_comment.Common.{
  ◌+◌, ℕ, Option, List, pos_part, Outcome, ok, ◌>>=◌, Ensures, Double, inr, arith,
}
use ct_icp_comment.Geometry.{Vectors, Quaternions, WPoint}
use ct_icp_comment.Pose.{TrajectoryFrame}
use ct_icp_comment.Odometry.Kit.{Kit}
use ct_icp_comment.Odometry.Options.{IcpOptions}
use ct_icp_comment.Odometry.Stamps.{KeepsStamps}
use ct_icp_comment.Registration.{RegistrationOptions, SolverSummary, Solver, gn, ceres, robust}
use ct_icp_comment.Registration.Rounds.{
  Round, short, converged, further, Ending, too_few, finished, rounds, KeepsRound, KeepsEnding,
  rounds-Keeps,
}
use ct_icp_comment.Registration.Keypoints.{Keypoints, check_sizes, normalize_frame}
use ct_icp_comment.Registration.Tools.{Tools, SolverState, distort_if}
use ct_icp_comment.Registration.CeresSolver.{ceres_round, ceres_result, weights, do_register_ceres}
use ct_icp_comment.Registration.RobustSolver.{robust_round, robust_result, do_register_robust}
use ct_icp_comment.Registration.GaussNewton.{
  LinearAlgebra, GaussNewtonState, gauss_newton_round, gauss_newton_result,
  do_register_gauss_newton, select_solver, register,
}
use ct_icp_comment.Registration.Contract.{
  Ensures->>=, Ensures-any, Ensures-map, SamePoints-refl, SameStamps, SameStamps-refl,
}
use ct_icp_comment.Registration.Iterations.{IsOf, ceres_round-Keeps, robust_round-Keeps}
use ct_icp_comment.Registration.Solved.{IsFrom, gauss_newton_round-Keeps}
use ct_icp_comment.MotionModel.{MotionModel}

-- A round that keeps more keeps its invariant.
KeepsRound-weaken :
    {S : Type 0} (P R : S → Type 0) (F : ℕ → S → Type 0)
    → ((n : ℕ) (s : S) → F n s → P s)
    → (r : Round S) → KeepsRound P R F r
    → KeepsRound P (λ s. Unit) (λ n s. P s) r
KeepsRound-weaken P R F few (short n s) h = few n s h
KeepsRound-weaken P R F few (converged s) h = (h.0, tt)
KeepsRound-weaken P R F few (further s) h = (h.0, tt)

-- An invariant of the state at the end of the rounds
abbrev EndsIn : {S : Type 0} → (S → Type 0) → Ending S → Type 0
EndsIn P (too_few n s) = P s
EndsIn P (finished iter s) = P s

rounds-EndsIn :
    {S : Type 0} (round : S → Outcome (Round S)) (P : S → Type 0)
    → ((s : S) → P s → Ensures (KeepsRound P (λ s. Unit) (λ n s. P s)) (round s))
    → (left iter : ℕ) (s : S) → P s
    → Ensures (EndsIn P) (rounds round left iter s)
rounds-EndsIn {S = S} round P keep left iter s p =
    Ensures-map ends (rounds round left iter s)
      (rounds-Keeps round P (λ s. Unit) (λ n s. P s) keep left iter s p (inr tt))
  where
    ends : (e : Ending S) → KeepsEnding P (λ s. Unit) (λ n s. P s) (iter + left) e → EndsIn P e
    ends (too_few n s) h = h
    ends (finished i s) h = h.0

module _ {D V Q : Type 0} ⦃d : Double D⦄ ⦃v : Vectors D V⦄ ⦃q : Quaternions D V Q⦄ (t : Tools D V Q)
    (l : LinearAlgebra D V Q) (o : RegistrationOptions D) (k : Keypoints D V)
    (f : TrajectoryFrame D V Q) where
  abbrev HasStampsOf : SolverSummary × Keypoints D V × TrajectoryFrame D V Q → Type 0
  HasStampsOf r = SameStamps f r.2

  ceres_result-stamps :
      (e : Ending (SolverState D V Q))
      → EndsIn (IsOf t o k f) e
      → Ensures HasStampsOf (ceres_result t o e)
  unfolding ceres_result
  ceres_result-stamps (too_few n s) h = h.stamps
  ceres_result-stamps (finished iter s) h = grind (arith, h.stamps)

  robust_result-stamps :
      (e : Ending (SolverState D V Q))
      → EndsIn (IsOf t o k f) e
      → Ensures HasStampsOf (robust_result t o e)
  unfolding robust_result
  robust_result-stamps (too_few n s) h = h.stamps
  robust_result-stamps (finished iter s) h = grind (arith, h.stamps)

  gauss_newton_result-stamps :
      (e : Ending (GaussNewtonState D V Q))
      → EndsIn (IsFrom t l o k f) e
      → HasStampsOf (gauss_newton_result t l o e)
  unfolding gauss_newton_result
  gauss_newton_result-stamps (too_few n s) h = h.stamps
  gauss_newton_result-stamps (finished iter s) h = h.stamps

  do_register_ceres-stamps :
      (model : Option (MotionModel D V Q)) → Ensures HasStampsOf (do_register_ceres t o k f model)
  unfolding do_register_ceres
  do_register_ceres-stamps model = Ensures-any _ (check_sizes k) _ (λ sizes.
      Ensures-any _ (distort_if o (normalize_frame f) k _) _ (λ b.
        Ensures-any _ (weights t o) _ (λ w.
          Ensures->>= (EndsIn (IsOf t o k f)) _ (rounds (ceres_round t o model w) _ 0 _)
            (ceres_result t o)
            (rounds-EndsIn (ceres_round t o model w) (IsOf t o k f)
              (λ s h.
                Ensures-map (KeepsRound-weaken _ _ _ (λ n s' few. few.0))
                  (ceres_round t o model w s) (ceres_round-Keeps t o k f model w s h))
              (pos_part o.num_iters_icp) 0 _
              (record { points = SamePoints-refl k; stamps = SameStamps-refl f }))
            ceres_result-stamps)))

  do_register_robust-stamps :
      (model : Option (MotionModel D V Q)) → Ensures HasStampsOf (do_register_robust t o k f model)
  unfolding do_register_robust
  do_register_robust-stamps model = Ensures-any _ (check_sizes k) _ (λ sizes.
      Ensures->>= (EndsIn (IsOf t o k f)) _ (rounds (robust_round t o model) _ 0 _)
        (robust_result t o)
        (rounds-EndsIn (robust_round t o model) (IsOf t o k f)
          (λ s h.
            Ensures-map (KeepsRound-weaken _ _ _ (λ n s' few. few.0)) (robust_round t o model s)
              (robust_round-Keeps t o k f model s h))
          (pos_part o.num_iters_icp) 0 _
          (record { points = SamePoints-refl k; stamps = SameStamps-refl f }))
        robust_result-stamps)

  do_register_gauss_newton-stamps :
      (model : Option (MotionModel D V Q))
      → Ensures HasStampsOf (do_register_gauss_newton t l o k f model)
  unfolding do_register_gauss_newton
  do_register_gauss_newton-stamps model =
      Ensures->>= (EndsIn (IsFrom t l o k f)) _ (rounds (gauss_newton_round t l o model) _ 0 _) _
        (rounds-EndsIn (gauss_newton_round t l o model) (IsFrom t l o k f)
          (λ s h.
            Ensures-map (KeepsRound-weaken _ _ _ (λ n s' few. few))
              (gauss_newton_round t l o model s) (gauss_newton_round-Keeps t l o k f model s h))
          (pos_part o.num_iters_icp) 0 _
          (record { points = SamePoints-refl k; stamps = SameStamps-refl f }))
        gauss_newton_result-stamps

  select_solver-stamps :
      (x : Solver) (model : Option (MotionModel D V Q))
      → Ensures HasStampsOf (select_solver t l o x k f model)
  select_solver-stamps gn model = do_register_gauss_newton-stamps model
  select_solver-stamps ceres model = do_register_ceres-stamps model
  select_solver-stamps robust model = do_register_robust-stamps model

module _ {D V Q : Type 0} ⦃d : Double D⦄ ⦃v : Vectors D V⦄ ⦃q : Quaternions D V Q⦄ where
  register-stamps :
      (t : Tools D V Q) (l : LinearAlgebra D V Q) (o : RegistrationOptions D)
      (points : List (WPoint D V Q)) (f : TrajectoryFrame D V Q)
      (model : Option (MotionModel D V Q))
      → Ensures (λ r. SameStamps f r.2) (register t l o points f model)
  unfolding register
  register-stamps t l o points f model =
      Ensures->>= _ _ (select_solver t l o o.solver _ f model) _
        (select_solver-stamps t l o _ f o.solver model) (λ r h. h)

  -- A kit whose registration is that of `CT_ICP_Registration`, with what it calls and the options that
  -- the odometry does not read. The number of residuals, which is -1 before the first round of a robust
  -- registration, is 0 there.
  abbrev pub registration_kit :
      (kit : Kit D V Q)
      → (kit.MotionModel → MotionModel D V Q)
      → (kit.SlamMap → kit.Strategy → Tools D V Q)
      → LinearAlgebra D V Q
      → (IcpOptions D → RegistrationOptions D)
      → Kit D V Q
  registration_kit kit model_of tools l options = record kit {
    register = λ icp m points f model strategy. do
      r ← register (tools m strategy) l (options icp) points f (Option.map model_of model)
      ok (
        record { success = r.0.success; num_residuals_used = pos_part r.0.num_residuals_used },
        r.1,
        r.2,
      );
  }

  -- The registration of such a kit keeps the instants and the frame ids of its frame, with each of the
  -- three solvers and all options.
  pub registration_kit-KeepsStamps :
      (kit : Kit D V Q) (model_of : kit.MotionModel → MotionModel D V Q)
      (tools : kit.SlamMap → kit.Strategy → Tools D V Q) (l : LinearAlgebra D V Q)
      (options : IcpOptions D → RegistrationOptions D)
      → KeepsStamps (registration_kit kit model_of tools l options)
  registration_kit-KeepsStamps kit model_of tools l options icp m points f model strategy =
      Ensures->>= _ _
        (register (tools m strategy) l (options icp) points f (Option.map model_of model)) _
        (register-stamps (tools m strategy) l (options icp) points f (Option.map model_of model))
        (λ r h. h)
