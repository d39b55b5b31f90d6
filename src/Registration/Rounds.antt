-- ===== src/Registration/Rounds.antt =====
-- The rounds of a solver (src/ct_icp/ct_icp.cpp), a loop with a largest number of rounds that a round
-- can end: at once with a failure, or after it.
use ct_icp_comment.Common.{
  subst, ℕ, zero, suc, ◌+◌, ◌≤◌, ◌<◌, ◌⊎◌, Outcome, ok, fail, ◌>>=◌, Ensures, arith, inl, inr,
  subst,
}

-- What a round does: it finds too few residuals, it ends the loop, or it goes on.
pub data Round (S : Type 0) : Type 0 where
  short : ℕ → S → Round S
  converged : S → Round S
  further : S → Round S

-- How the rounds end: with too few residuals, or after a number of rounds that do not count the one
-- that ended the loop
pub data Ending (S : Type 0) : Type 0 where
  too_few : ℕ → S → Ending S
  finished : ℕ → S → Ending S

-- The loop after a round
abbrev pub after_round :
    {S : Type 0} → (ℕ → S → Outcome (Ending S)) → ℕ → Round S → Outcome (Ending S)
after_round rest iter (short n s) = ok (too_few n s)
after_round rest iter (converged s) = ok (finished iter s)
after_round rest iter (further s) = rest (iter + 1) s

module _ {S : Type 0} where
  -- What the rounds keep: `P` before the first round, `R` after each that finds enough residuals, and
  -- `F` after one that does not.
  abbrev pub KeepsRound : (P R : S → Type 0) (F : ℕ → S → Type 0) → Round S → Type 0
  KeepsRound P R F (short n s) = F n s
  KeepsRound P R F (converged s) = P s × R s
  KeepsRound P R F (further s) = P s × R s

  abbrev pub KeepsEnding : (P R : S → Type 0) (F : ℕ → S → Type 0) (most : ℕ) → Ending S → Type 0
  KeepsEnding P R F most (too_few n s) = F n s
  KeepsEnding P R F most (finished iter s) = P s × (iter ≤ most) × R s

  -- The loop after a round keeps what its rest keeps.
  after_round-Keeps :
      (P R : S → Type 0) (F : ℕ → S → Type 0) (left iter : ℕ) (rest : ℕ → S → Outcome (Ending S))
      → ((s : S) → P s → R s → Ensures (KeepsEnding P R F (iter + 1 + left)) (rest (iter + 1) s))
      → (r : Outcome (Round S)) → Ensures (KeepsRound P R F) r
      → Ensures (KeepsEnding P R F (iter + suc left)) (r >>= after_round rest iter)
  after_round-Keeps P R F left iter rest more (fail why) h = tt
  after_round-Keeps P R F left iter rest more (ok (short n s)) h = h
  after_round-Keeps P R F left iter rest more (ok (converged s)) h = (h.0, omega arith, h.1)
  after_round-Keeps P R F left iter rest more (ok (further s)) h =
      subst (λ n. Ensures (KeepsEnding P R F n) (rest (iter + 1) s)) (omega arith) (more s h.0 h.1)

module _ {S : Type 0} (round : S → Outcome (Round S)) where
  unfoldable pub rounds : ℕ → ℕ → S → Outcome (Ending S)
  rounds zero iter s = ok (finished iter s)
  rounds (suc left) iter s = do r ← round s; after_round (rounds left) iter r

  pub rounds-Keeps :
      (P R : S → Type 0) (F : ℕ → S → Type 0)
      → ((s : S) → P s → Ensures (KeepsRound P R F) (round s))
      → (left iter : ℕ) (s : S) → P s
      → (0 < left) ⊎ R s
      → Ensures (KeepsEnding P R F (iter + left)) (rounds left iter s)
  unfolding rounds
  rounds-Keeps P R F keep zero iter s p (inl h) = absurd (omega arith)
  rounds-Keeps P R F keep zero iter s p (inr r) = (p, omega arith, r)
  rounds-Keeps P R F keep (suc left) iter s p begun =
      after_round-Keeps P R F left iter (rounds left)
        (λ s' p' r'. rounds-Keeps P R F keep left (iter + 1) s' p' (inr r')) (round s) (keep s p)
