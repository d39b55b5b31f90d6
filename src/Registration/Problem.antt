-- ===== src/Registration/Problem.antt =====
-- The problem that an `ICPOptimizationBuilder` makes (src/ct_icp/ct_icp.cpp).
use ct_icp_comment.Common.{
  ℕ, zero, suc, ◌+◌, ◌-◌, ◌≤◌, ◌≡◌, refl, sym, ap, ◌∙◌, subst, inl, inr, true, false, ◌||◌, Option,
  none, some, List, [], ◌∷◌, ◌++◌, map, append_assoc, append-nil, arith, length, take,
  if◌then◌else◌, Bool-cases, ℤ, pos, negsuc, pos_part, ltb_ℤ, leb_ℤ, ok,
}
use ct_icp_comment.Odometry.Options.{PoseParametrization}
use ct_icp_comment.Registration.{RegistrationOptions}
use ct_icp_comment.Registration.Builder.{
  CostFunction, Functor, empty_functor, clear_functor, ResidualBlock, icp_block, Problem, Builder,
  add_functors, get_problem, set_problem_values,
}

module _ {D V : Type 0} where
  -- The cost functions that were set, in their order
  abbrev pub costs : List (Functor D V) → List (CostFunction D V)
  costs [] = []
  costs (f ∷ fs) = elim f.cost_function [ none ↦ costs fs | some cost ↦ cost ∷ costs fs ]

-- All of them where `most` is not positive, else the first `most`, of which `count` are taken
unfoldable pub first_costs {ℓ} : {A : Type ℓ} → ℤ → ℕ → List A → List A
first_costs most count cs = if leb_ℤ most (pos 0) then cs else take (pos_part most - count) cs

leb_suc : (m : ℕ) → leb_ℤ (pos (suc m)) (pos 0) ≡ false
leb_suc m = ground arith

first_costs_full :
    {A : Type 0} (most : ℤ) (count : ℕ) (cs : List A)
    → (leb_ℤ most (pos 0) || ltb_ℤ (pos count) most) ≡ false
    → first_costs most count cs ≡ []
unfolding first_costs
first_costs_full (negsuc n) count cs h = absurd (ground arith)
first_costs_full (pos zero) count cs h = absurd (ground arith)
first_costs_full (pos (suc m)) count cs h =
    let none_left : suc m - count ≡ 0 = ground arith in rw (leb_suc m, none_left) refl

first_costs_more :
    {A : Type 0} (most : ℤ) (count : ℕ) (c : A) (cs : List A)
    → (leb_ℤ most (pos 0) || ltb_ℤ (pos count) most) ≡ true
    → first_costs most count (c ∷ cs) ≡ c ∷ first_costs most (count + 1) cs
unfolding first_costs
first_costs_more (negsuc n) count c cs h = ground arith
first_costs_more (pos zero) count c cs h = ground arith
first_costs_more (pos (suc m)) count c cs h =
    let one_left : suc m - count ≡ suc (suc m - (count + 1)) = ground arith in
    rw (leb_suc m, one_left) refl

take_nil : {A : Type 0} (n : ℕ) → take {A = A} n [] ≡ []
take_nil zero = refl
take_nil (suc n) = refl

first_costs_nil : {A : Type 0} (most : ℤ) (count : ℕ) → first_costs {A = A} most count [] ≡ []
unfolding first_costs
first_costs_nil most count = elim (Bool-cases (leb_ℤ most (pos 0))) [
  | inl h ↦ rw h refl
  | inr h ↦ rw h (take_nil (pos_part most - count))
]

cleared-length :
    {D V : Type 0} (fs gs : List (Functor D V))
    → length fs ≡ length gs
    → map clear_functor fs ≡ map (λ f. empty_functor) gs
cleared-length [] [] h = refl
cleared-length [] (g ∷ gs) h = absurd (omega arith)
cleared-length (f ∷ fs) [] h = absurd (omega arith)
cleared-length (f ∷ fs) (g ∷ gs) h =
    ap (λ r. empty_functor ∷ r) (cleared-length fs gs (omega arith))

module _ {D V Q : Type 0} where
  -- What the loop over the functors makes of a problem
  abbrev Adds : PoseParametrization → ℤ → Problem D V Q → ℕ → List (Functor D V) → Type 0
  Adds p most problem count fs =
      let r = add_functors p most problem count fs in
      let cs = first_costs most count (costs fs) in
      (r.0 ≡ problem ++ map (icp_block p) cs) × (r.1 ≡ count + length cs) × (length r.2 ≡ length fs)

  with_functor :
      (p : PoseParametrization) (most : ℤ) (problem : Problem D V Q) (count : ℕ)
      (c : Option (CostFunction D V)) (id : Option ℕ) (fs : List (Functor D V))
      → Adds p most problem count fs
      → ((problem' : Problem D V Q) → Adds p most problem' (count + 1) fs)
      → Adds p most problem count (record { cost_function = c; block_id = id } ∷ fs)
  unfolding add_functors
  with_functor p most problem count none id fs skipped added =
      (skipped.0, skipped.1, ap suc skipped.2)
  with_functor p most problem count (some cost) id fs skipped added =
      elim (Bool-cases (leb_ℤ most (pos 0) || ltb_ℤ (pos count) most)) [
        | inl fits ↦
            let after = added (problem ++ icp_block p cost ∷ []) in
            rw (first_costs_more most count cost (costs fs) fits, fits, add_functors)
              (
                after.0
                    ∙ append_assoc problem (icp_block p cost ∷ [])
                        (map (icp_block p) (first_costs most (count + 1) (costs fs))),
                omega (arith, after.1),
                ap suc after.2,
              )
        | inr full ↦
            let nothing = first_costs_full most count (costs fs) full in
            rw (first_costs_full most count (cost ∷ costs fs) full, full, add_functors)
              (
                skipped.0 ∙ ap (λ cs. problem ++ map (icp_block p) cs) nothing,
                skipped.1 ∙ ap (λ cs. count + length cs) nothing,
                ap suc skipped.2,
              )
      ]

  add_functors_lem :
      (p : PoseParametrization) (most : ℤ) (problem : Problem D V Q) (count : ℕ)
      (fs : List (Functor D V))
      → Adds p most problem count fs
  unfolding add_functors
  add_functors_lem p most problem count [] =
      rw (first_costs_nil most count) (sym (append-nil problem), omega arith, refl)
  add_functors_lem p most problem count (f ∷ fs) =
      with_functor p most problem count f.cost_function f.block_id fs
        (add_functors_lem p most problem count fs)
        (λ problem'. add_functors_lem p most problem' (count + 1) fs)

  values_cleared :
      (evaluate : ResidualBlock D V Q → D) (problem : Problem D V Q) (fs : List (Functor D V))
      (residuals : List D)
      → length residuals ≤ length fs
      → set_problem_values evaluate problem (map (λ f. empty_functor) fs) residuals ≡ ok residuals
  unfolding set_problem_values
  values_cleared evaluate problem [] [] h = refl
  values_cleared evaluate problem (f ∷ fs) [] h = refl
  values_cleared evaluate problem [] (r ∷ rs) h = absurd (omega arith)
  values_cleared evaluate problem (f ∷ fs) (r ∷ rs) h =
      rw (values_cleared evaluate problem fs rs (omega arith)) refl

  -- The problem has a residual block for each cost function that is set, in their order, and for no
  -- more than the largest number of residuals where that number is positive. The number that comes with
  -- it is the number of its blocks, and every functor of the builder is cleared.
  pub get_problem_lem :
      (o : RegistrationOptions D) (b : Builder D V)
      → let chosen = first_costs b.max_num_residuals 0 (costs b.functors) in
        let r : Problem D V Q × ℕ × Builder D V = get_problem o b in
        (r.0 ≡ map (icp_block o.parametrization) chosen)
        × (r.1 ≡ length chosen)
        × (r.2 ≡ record b { functors = map (λ f. empty_functor) b.functors })
  unfolding get_problem
  get_problem_lem o b =
      let added = add_functors_lem o.parametrization b.max_num_residuals [] 0 b.functors in
      (
        added.0,
        omega (arith, added.1),
        ap (λ fs. record b { functors = fs })
            (cleared-length
              (add_functors {Q = Q} o.parametrization b.max_num_residuals [] 0 b.functors).2
              b.functors added.2),
      )

  -- The values of the residuals are not written: after GetProblem no functor has the id of its block,
  -- so that SetProblemValues leaves every array that is no longer than the functors.
  pub set_problem_values-get_problem :
      (o : RegistrationOptions D) (b : Builder D V) (evaluate : ResidualBlock D V Q → D)
      (problem : Problem D V Q) (residuals : List D)
      → length residuals ≤ length b.functors
      → let r : Problem D V Q × ℕ × Builder D V = get_problem o b in
        set_problem_values evaluate problem r.2.functors residuals ≡ ok residuals
  set_problem_values-get_problem o b evaluate problem residuals h =
      subst
        (λ (b' : Builder D V).
          set_problem_values evaluate problem b'.functors residuals ≡ ok residuals)
        (sym (get_problem_lem o b).2) (values_cleared evaluate problem b.functors residuals h)
