-- ===== src/Odometry/Levels.antt =====
-- The levels of robustness of an attempt: how `SetRobustLevel` and `IncreaseRobustnessLevel` change it.
use native.Mathlib.Nat.{pow-suc}
use ct_icp_comment.Common.{
  ap, ℕ, zero, suc, ◌+◌, ◌-◌, ◌*◌, ◌^◌, ◌≤◌, ◌≡◌, refl, ◌∙◌, Double, ℤ, pos, pos_part, ltb_ℤ, min,
  max, arith, false, Bool-cases, inl, inr,
}
use ct_icp_comment.Odometry.Kit.{Kit}
use ct_icp_comment.Odometry.Options.{IcpOptions}
use ct_icp_comment.Odometry.Attempt.{
  Attempt, relax, increase_robustness_level, raise_level, set_robust_level,
}

abbrev pub iterate {ℓ} : {A : Type ℓ} → ℕ → (A → A) → A → A
iterate zero f a = a
iterate (suc n) f a = iterate n f (f a)

module _ {D V Q : Type 0} ⦃d : Double D⦄ (k : Kit D V Q) where
  raise_level-iterate :
      (fuel : ℕ) (level : ℤ) (a : Attempt k)
      → pos_part level ≤ a.robust_level + fuel
      → (raise_level k fuel level a
          ≡ iterate (pos_part level - a.robust_level) (increase_robustness_level k) a)
        × ((raise_level k fuel level a).robust_level ≡ max a.robust_level (pos_part level))
  unfolding raise_level increase_robustness_level
  raise_level-iterate zero level a h =
      let e : pos_part level - a.robust_level ≡ 0 = omega arith in (rw e, omega arith)
  raise_level-iterate (suc fuel) level a h = elim (Bool-cases (ltb_ℤ (pos a.robust_level) level)) [
    | inl e ↦
        let more : pos_part level - a.robust_level ≡ suc (pos_part level - (a.robust_level + 1)) =
          ground arith in
        let (same, top) =
          raise_level-iterate fuel level (increase_robustness_level k a) (ground arith) in
        rw (e, raise_level, more) (same, ground (arith, top))
    | inr e ↦
        let less : pos_part level - a.robust_level ≡ 0 = ground arith in
        rw (e, raise_level, less) (refl, ground arith)
  ]

  -- The loop of `SetRobustLevel` ends: it raises the attempt once for each level that is missing, and the
  -- attempt is then at the level asked for, or at its own if that is higher.
  set_robust_level-iterate :
      (level : ℤ) (a : Attempt k)
      → (set_robust_level k level a
          ≡ iterate (pos_part level - a.robust_level) (increase_robustness_level k) a)
        × ((set_robust_level k level a).robust_level ≡ max a.robust_level (pos_part level))
  unfolding set_robust_level
  set_robust_level-iterate level a = raise_level-iterate (pos_part level) level a (omega arith)

module _ {D : Type 0} ⦃d : Double D⦄ where
  iterate-relax_counts :
      (n : ℕ) (o : IcpOptions D) (iters ls : ℕ)
      → o.num_iters_icp ≡ pos iters
      → iters ≤ 50
      → o.ls_max_num_iters ≡ pos ls
      → ((iterate n relax o).num_iters_icp ≡ pos (min (iters + 20 * n) 50))
        × ((iterate n relax o).ls_max_num_iters ≡ pos (ls + 30 * n))
  unfolding relax
  iterate-relax_counts zero o iters ls h b l =
      (rw h (ap pos (omega arith)), rw l (ap pos (omega arith)))
  iterate-relax_counts (suc n) o iters ls h b l =
      let (i, j) =
        iterate-relax_counts n (relax o) (min (iters + 20) 50) (ls + 30) (rw h (ground arith))
          (omega arith) (rw l refl) in
      (i ∙ ap pos (omega arith), j ∙ ap pos (omega arith))

  iterate-relax_unlimited :
      (n : ℕ) (o : IcpOptions D)
      → ltb_ℤ (pos 0) o.max_num_residuals ≡ false
      → (iterate n relax o).max_num_residuals ≡ o.max_num_residuals
  unfolding relax
  iterate-relax_unlimited zero o h = refl
  iterate-relax_unlimited (suc n) o h =
      let same : (relax o).max_num_residuals ≡ o.max_num_residuals = ground arith in
      iterate-relax_unlimited n (relax o) (rw same h) ∙ same

  iterate-relax_limit :
      (n : ℕ) (o : IcpOptions D) (m : ℕ)
      → o.max_num_residuals ≡ pos m
      → (iterate n relax o).max_num_residuals ≡ pos (m * 2 ^ n)
  unfolding relax
  iterate-relax_limit zero o m h = rw h (ap pos (omega arith))
  iterate-relax_limit (suc n) o m h =
      iterate-relax_limit n (relax o) (m * 2) (rw h (ground arith))
      ∙ ap pos (grind (arith, pow-suc))

  -- From at most 50 iterations of the registration: after n rounds the iterations of the solver are 30 n
  -- more, those of the registration 20 n more but at most 50, and the number of residuals is doubled n times; no limit (a negative number, or 0) stays
  -- no limit.
  pub iterate-relax :
      (n : ℕ) (o : IcpOptions D) (iters ls : ℕ)
      → o.num_iters_icp ≡ pos iters
      → iters ≤ 50
      → o.ls_max_num_iters ≡ pos ls
      → ((iterate n relax o).num_iters_icp ≡ pos (min (iters + 20 * n) 50))
        × ((iterate n relax o).ls_max_num_iters ≡ pos (ls + 30 * n))
        × (ltb_ℤ (pos 0) o.max_num_residuals ≡ false
            → (iterate n relax o).max_num_residuals ≡ o.max_num_residuals)
        × ((m : ℕ)
            → o.max_num_residuals ≡ pos m
            → (iterate n relax o).max_num_residuals ≡ pos (m * 2 ^ n))
  iterate-relax n o iters ls h b l =
      let (i, j) = iterate-relax_counts n o iters ls h b l in
      (i, j, iterate-relax_unlimited n o, iterate-relax_limit n o)
