-- ===== src/Queue/Runs.antt =====
-- The blocking queue over sequences of steps: its order and its capacity.
use ct_icp_comment.Common.{
  drop, ℕ, suc, ◌+◌, ◌-◌, ◌≡◌, refl, sym, ap, subst, Bool, List, [], ◌∷◌, ◌++◌, length,
  length-append, append_assoc, append-nil, Option, none, some, arith, Bool-cases, inl, inr, ltb,
  drop, ◌∙◌, ◌↔◌,
}
use mathlib.Core.Option.{some-injective}
use ct_icp_comment.Queue.{
  BlockingQueue, Event, pushed, popped, cleared, resized, Run, step_push, step_emplace, step_pop,
  step_clear, step_resize, step_wait, step_wait_with, done, next, push, emplace, pop, trim, pop_all,
  clear, set_max_capacity, empty, blocking_pop, blocking_pop_with, blocking_op, wait_ends,
  k_invalid_index,
}

module _ {ℓ} {A : Type ℓ} where
  -- The first list is the second one with some items left out.
  pub data IsSublist : List A → List A → Type ℓ where
    sub_nil : IsSublist [] []
    sub_keep : (a : A) {xs ys : List A} → IsSublist xs ys → IsSublist (a ∷ xs) (a ∷ ys)
    sub_skip : (a : A) {xs ys : List A} → IsSublist xs ys → IsSublist xs (a ∷ ys)

  abbrev pub pushes : List (Event A) → List A
  pushes [] = []
  pushes (pushed a ∷ es) = a ∷ pushes es
  pushes (popped o ∷ es) = pushes es
  pushes (cleared ∷ es) = pushes es
  pushes (resized n ∷ es) = pushes es

  abbrev pub pops : List (Event A) → List A
  pops [] = []
  pops (pushed a ∷ es) = pops es
  pops (popped none ∷ es) = pops es
  pops (popped (some a) ∷ es) = a ∷ pops es
  pops (cleared ∷ es) = pops es
  pops (resized n ∷ es) = pops es

  IsSublist-refl : (xs : List A) → IsSublist xs xs
  IsSublist-refl [] = sub_nil
  IsSublist-refl (x ∷ xs) = sub_keep x (IsSublist-refl xs)

  IsSublist-trim :
      (n : ℕ) (xs : List A) (ys zs : List A)
      → IsSublist ys (trim n xs ++ zs)
      → IsSublist ys (xs ++ zs)
  unfolding trim
  IsSublist-trim n [] ys zs s = s
  IsSublist-trim n (x ∷ xs) ys zs s = elim (Bool-cases (ltb n (length (x ∷ xs)))) [
    | inl e ↦ sub_skip x (IsSublist-trim n xs ys zs (rw e at s))
    | inr e ↦ rw e at s
  ]

  IsSublist-pop_all :
      (xs : List A) (ys zs : List A) → IsSublist ys (pop_all xs ++ zs) → IsSublist ys (xs ++ zs)
  unfolding pop_all
  IsSublist-pop_all [] ys zs s = s
  IsSublist-pop_all (x ∷ xs) ys zs s = sub_skip x (IsSublist-pop_all xs ys zs s)

  -- a queue to which an item was added
  IsSublist-push :
      (n : ℕ) (a : A) (xs ys zs : List A)
      → IsSublist ys (trim n (xs ++ a ∷ []) ++ zs)
      → IsSublist ys (xs ++ a ∷ zs)
  IsSublist-push n a xs ys zs s =
      subst (IsSublist ys) (append_assoc xs (a ∷ []) zs) (IsSublist-trim n (xs ++ a ∷ []) ys zs s)

  IsSublist-pop :
      (n : ℕ) (xs : List A) (es : List (Event A)) (ys zs : List A)
      → IsSublist (pops es ++ ys) ((pop (record { max_capacity = n; queue = xs })).1.queue ++ zs)
      → IsSublist
          (pops (popped (pop (record { max_capacity = n; queue = xs })).0 ∷ es) ++ ys)
          (xs ++ zs)
  unfolding pop
  IsSublist-pop n [] es ys zs s = s
  IsSublist-pop n (x ∷ xs) es ys zs s = sub_keep x s

  -- A wait that ends has popped.
  blocking_op-pop :
      (c : Bool) (t : ℕ) (o : Bool) (q : BlockingQueue A) (x : Option A) (r : BlockingQueue A)
      → blocking_op c t o q ≡ some (x, r)
      → pop q ≡ (x, r)
  unfolding blocking_op
  blocking_op-pop c t o q x r h = elim (Bool-cases (wait_ends c t o)) [
    | inl e ↦ some-injective _ _ (rw e at h)
    | inr e ↦
        (let bad : Path (Option (Option A × BlockingQueue A)) none (some (x, r)) = rw e at h in cc)
  ]

  IsSublist-wait :
      (q r : BlockingQueue A) (o : Option A) (es : List (Event A)) (ys zs : List A)
      → pop q ≡ (o, r)
      → IsSublist (pops es ++ ys) (r.queue ++ zs)
      → IsSublist (pops (popped o ∷ es) ++ ys) (q.queue ++ zs)
  IsSublist-wait q r o es ys zs h s =
      subst (λ (w : Option A). IsSublist (pops (popped w ∷ es) ++ ys) (q.queue ++ zs))
        (ap (λ w. w.0) h)
        (IsSublist-pop q.max_capacity q.queue es ys zs (
          subst (λ (w : BlockingQueue A). IsSublist (pops es ++ ys) (w.queue ++ zs))
            (sym (ap (λ w. w.1) h)) s))

  -- The queue is first in, first out: what is popped in a run, followed by what is left, is what was in
  -- the queue at first, followed by what is pushed, with some items left out.
  pub Run-IsSublist :
      {q r : BlockingQueue A} {es : List (Event A)}
      → Run q es r
      → IsSublist (pops es ++ r.queue) (q.queue ++ pushes es)
  unfolding push emplace clear set_max_capacity blocking_pop blocking_pop_with
  Run-IsSublist (done q) =
      subst (IsSublist q.queue) (sym (append-nil q.queue)) (IsSublist-refl q.queue)
  Run-IsSublist (next (step_push a q) run) =
      IsSublist-push q.max_capacity a q.queue _ _ (Run-IsSublist run)
  Run-IsSublist (next (step_emplace a q) run) =
      IsSublist-push q.max_capacity a q.queue _ _ (Run-IsSublist run)
  Run-IsSublist (next (step_pop q) run) =
      IsSublist-pop q.max_capacity q.queue _ _ _ (Run-IsSublist run)
  Run-IsSublist (next (step_wait t o {q = q} {r = r} h) run) =
      IsSublist-wait q r _ _ _ _ (blocking_op-pop _ _ _ q _ r h) (Run-IsSublist run)
  Run-IsSublist (next (step_wait_with c t o {q = q} {r = r} h) run) =
      IsSublist-wait q r _ _ _ _ (blocking_op-pop _ _ _ q _ r h) (Run-IsSublist run)
  Run-IsSublist (next (step_clear q) run) = IsSublist-pop_all q.queue _ _ (Run-IsSublist run)
  Run-IsSublist (next (step_resize n q) run) = Run-IsSublist run

  trim-drop : (n : ℕ) (xs : List A) → trim n xs ≡ drop (length xs - n) xs
  unfolding trim
  trim-drop n [] = ground arith
  trim-drop n (x ∷ xs) = elim (Bool-cases (ltb n (length (x ∷ xs)))) [
    | inl e ↦
        let longer : length (x ∷ xs) - n ≡ suc (length xs - n) = ground arith in
        rw (e, longer) (trim-drop n xs)
    | inr e ↦ let none_over : length (x ∷ xs) - n ≡ 0 = ground arith in rw (e, none_over) refl
  ]

  -- The items that a push leaves are the last ones that fit: as many of the front are dropped as there are
  -- too many.
  pub push_lem :
      (a : A) (q : BlockingQueue A)
      → (push a q).queue ≡ drop (length q.queue + 1 - q.max_capacity) (q.queue ++ a ∷ [])
  unfolding push
  push_lem a q =
      trim-drop q.max_capacity (q.queue ++ a ∷ [])
      ∙ ap (λ n. drop (n - q.max_capacity) (q.queue ++ a ∷ [])) (length-append q.queue (a ∷ []))

  -- A blocking pop without a timeout goes on waiting if and only if the queue is empty.
  pub blocking_pop_iff :
      (is_over : Bool) (q : BlockingQueue A)
      → (blocking_pop k_invalid_index is_over q ≡ none) ↔ (q.queue ≡ [])
  unfolding blocking_pop blocking_op wait_ends empty
  blocking_pop_iff is_over q = ground (arith, q.queue)
