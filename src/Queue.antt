-- ===== src/Queue.antt =====
-- `blocking_queue` (include/SlamCore/concurrent/blocking_queue.h). The mutex makes every operation one
-- step, so that a program with several threads is a sequence of steps (Queue/Runs).
pub mod Runs
use ct_icp_comment.Common.{
  ℕ, zero, suc, Bool, true, false, not, ◌&&◌, ◌||◌, List, [], ◌∷◌, ◌++◌, length, Option, none, some,
  ltb, ◌==◌, ◌≡◌, if◌then◌else◌,
}

-- `slam::kInvalidIndex` as a `size_t`
abbrev pub k_invalid_index : ℕ
k_invalid_index = 0xffff_ffff_ffff_ffff

pub record BlockingQueue {ℓ} (A : Type ℓ) : Type ℓ where
  pub max_capacity : ℕ
  pub queue : List A

-- whether a wait ends: its condition holds, or it has a timeout that is over
unfoldable pub wait_ends : Bool → ℕ → Bool → Bool
wait_ends check_cv timeout_ms is_over = check_cv || (not (timeout_ms == k_invalid_index) && is_over)

-- What a call that returns has done.
pub data Event {ℓ} (A : Type ℓ) : Type ℓ where
  pushed : A → Event A
  popped : Option A → Event A
  cleared : Event A
  resized : ℕ → Event A

module _ {ℓ} {A : Type ℓ} where
  unfoldable pub new_queue : ℕ → BlockingQueue A
  new_queue capacity = record { max_capacity = capacity; queue = [] }

  -- `while (queue_.size() > max_capacity) queue_.pop();`
  unfoldable pub trim : ℕ → List A → List A
  trim capacity [] = []
  trim capacity (x ∷ xs) =
      let rest = trim capacity xs in if ltb capacity (length (x ∷ xs)) then rest else x ∷ xs

  unfoldable pub push : A → BlockingQueue A → BlockingQueue A
  push item q = record q { queue = trim q.max_capacity (q.queue ++ item ∷ []) }

  unfoldable pub emplace : A → BlockingQueue A → BlockingQueue A
  emplace item q = record q { queue = trim q.max_capacity (q.queue ++ item ∷ []) }

  unfoldable pub pop : BlockingQueue A → Option A × BlockingQueue A
  pop q = elim q.queue [ [] ↦ (none, q) | front ∷ rest ↦ (some front, record q { queue = rest }) ]

  unfoldable pub empty : BlockingQueue A → Bool
  empty q = elim q.queue [ [] ↦ true | front ∷ rest ↦ false ]

  unfoldable pub size : BlockingQueue A → ℕ
  size q = length q.queue

  -- `while (!queue_.empty()) queue_.pop();`
  unfoldable pub pop_all : List A → List A
  pop_all [] = []
  pop_all (x ∷ xs) = pop_all xs

  unfoldable pub clear : BlockingQueue A → BlockingQueue A
  clear q = record q { queue = pop_all q.queue }

  unfoldable pub set_max_capacity : ℕ → BlockingQueue A → BlockingQueue A
  set_max_capacity capacity q = record q { max_capacity = capacity }

  -- `BLOCKING_OP_MEMBER`: nothing while the call waits, or what it returns
  unfoldable pub blocking_op :
      Bool → ℕ → Bool → BlockingQueue A → Option (Option A × BlockingQueue A)
  blocking_op check_cv timeout_ms is_over q =
      if wait_ends check_cv timeout_ms is_over then some (pop q) else none

  unfoldable pub blocking_pop : ℕ → Bool → BlockingQueue A → Option (Option A × BlockingQueue A)
  blocking_pop timeout_ms is_over q = blocking_op (not (empty q)) timeout_ms is_over q

  unfoldable pub blocking_pop_with :
      Bool → ℕ → Bool → BlockingQueue A → Option (Option A × BlockingQueue A)
  blocking_pop_with release_condition timeout_ms is_over q =
      blocking_op (release_condition || not (empty q)) timeout_ms is_over q

  -- One operation on the queue, by whatever thread.
  pub data Step : BlockingQueue A → Event A → BlockingQueue A → Type ℓ where
    step_push : (a : A) (q : BlockingQueue A) → Step q (pushed a) (push a q)
    step_emplace : (a : A) (q : BlockingQueue A) → Step q (pushed a) (emplace a q)
    step_pop : (q : BlockingQueue A) → Step q (popped (pop q).0) (pop q).1
    step_wait :
        (timeout_ms : ℕ) (is_over : Bool) {o : Option A} {q r : BlockingQueue A}
        → blocking_pop timeout_ms is_over q ≡ some (o, r)
        → Step q (popped o) r
    step_wait_with :
        (release : Bool) (timeout_ms : ℕ) (is_over : Bool) {o : Option A} {q r : BlockingQueue A}
        → blocking_pop_with release timeout_ms is_over q ≡ some (o, r)
        → Step q (popped o) r
    step_clear : (q : BlockingQueue A) → Step q cleared (clear q)
    step_resize : (n : ℕ) (q : BlockingQueue A) → Step q (resized n) (set_max_capacity n q)

  pub data Run : BlockingQueue A → List (Event A) → BlockingQueue A → Type ℓ where
    done : (q : BlockingQueue A) → Run q [] q
    next :
        {q r s : BlockingQueue A} {e : Event A} {es : List (Event A)}
        → Step q e r
        → Run r es s
        → Run q (e ∷ es) s
