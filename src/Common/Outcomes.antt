-- ===== src/Common/Outcomes.antt =====
-- A run of code that a failed check can stop: `CHECK` and `SLAM_CHECK_STREAM` abort the program, and
-- some functions throw. The reason that is kept is the place of the check.
use mathlib.Core.Path.{◌≡◌, refl}
use mathlib.Core.Logic.{◌⊎◌, inl, inr}
use mathlib.Core.Bool.{Bool, true, false}
use mathlib.Core.Option.{Option, none, some}

pub data Failure : Type 0 where
  empty_frame : Failure
  wrong_frame : Failure
  wrong_timestamp : Failure
  not_a_rotation : Failure
  callback_failed : Failure
  bad_index : Failure
  bad_layout : Failure
  missing_name : Failure
  not_resizable : Failure
  null_buffer : Failure
  -- a pointer to an object that was destroyed
  dangling : Failure
  not_implemented : Failure
  bad_alpha : Failure
  bad_weights : Failure
  bad_size : Failure
  parameters_set : Failure
  not_usable : Failure
  uninitialized : Failure

pub data Outcome {ℓ} (A : Type ℓ) : Type ℓ where
  ok : A → Outcome A
  fail : Failure → Outcome A

-- `CHECK(b)`, with the failure that it means
abbrev pub check : Bool → Failure → Outcome (Unit {0})
check b why = elim b [ true ↦ ok tt | false ↦ fail why ]

infixl 5 ◌>>=◌
abbrev pub ◌>>=◌ {μ ν} : {S : Type μ} {T : Type ν} → Outcome S → (S → Outcome T) → Outcome T
run >>= continue = elim run [ ok s ↦ continue s | fail why ↦ fail why ]

infixl 5 ◌>>◌
abbrev pub ◌>>◌ {μ} : {T : Type μ} → Outcome (Unit {0}) → Outcome T → Outcome T
run >> after = run >>= λ done. after

-- A value that the code reads without a test: out of range is a failure here.
abbrev pub require {ℓ} : {A : Type ℓ} → Option A → Failure → Outcome A
require none e = fail e
require (some a) e = ok a

-- What holds of the value of a run that is not stopped.
abbrev pub Ensures {ℓ κ} : {A : Type ℓ} → (A → Type κ) → Outcome A → Type κ
Ensures P (ok a) = P a
Ensures P (fail e) = Unit

-- A run that is not stopped, and what holds of its value.
abbrev pub Succeeds {ℓ} : {A : Type ℓ} → (A → Type 0) → Outcome A → Type 0
Succeeds P (ok a) = P a
Succeeds P (fail e) = ⊥

pub Succeeds->>= {μ ν} :
    {S : Type μ} {T : Type ν} (P : S → Type 0) (Q : T → Type 0) (m : Outcome S) (f : S → Outcome T)
    → Succeeds P m
    → ((s : S) → P s → Succeeds Q (f s))
    → Succeeds Q (m >>= f)
Succeeds->>= P Q (ok s) f p h = h s p
Succeeds->>= P Q (fail why) f p h = elim p [ ]

pub Succeeds-map {μ} :
    {S : Type μ} (P Q : S → Type 0) (m : Outcome S)
    → Succeeds P m
    → ((s : S) → P s → Q s)
    → Succeeds Q m
Succeeds-map P Q (ok s) p h = h s p
Succeeds-map P Q (fail why) p h = p

pub >>=-cong {μ ν} :
    {S : Type μ} {T : Type ν} (m : Outcome S) (f g : S → Outcome T)
    → ((s : S) → f s ≡ g s)
    → (m >>= f) ≡ (m >>= g)
>>=-cong (ok s) f g h = h s
>>=-cong (fail why) f g h = refl

pub >>=_assoc {μ ν κ} :
    {S : Type μ} {T : Type ν} {U : Type κ} (m : Outcome S) (f : S → Outcome T) (g : T → Outcome U)
    → (m >>= f >>= g) ≡ (m >>= λ s. f s >>= g)
>>=_assoc (ok s) f g = refl
>>=_assoc (fail why) f g = refl

-- The parts of a chain that was not stopped.
pub >>=-ok {μ ν} :
    {S : Type μ} {T : Type ν} (m : Outcome S) (f : S → Outcome T) {t : T}
    → (m >>= f) ≡ ok t
    → (s : S) × (m ≡ ok s) × (f s ≡ ok t)
>>=-ok (ok s) f h = (s, refl, h)
>>=-ok (fail why) f h = cc

pub check-ok : (b : Bool) (why : Failure) {u : Unit {0}} → check b why ≡ ok u → b ≡ true
check-ok true why h = refl
check-ok false why h = cc

pub require-ok {ℓ} :
    {A : Type ℓ} (o : Option A) (why : Failure) {a : A} → require o why ≡ ok a → o ≡ some a
require-ok none why h = cc
require-ok (some a) why h = cc

pub Outcome-cases {ℓ} :
    {A : Type ℓ} (m : Outcome A) → ((a : A) × (m ≡ ok a)) ⊎ ((e : Failure) × (m ≡ fail e))
Outcome-cases (ok a) = inl (a, refl)
Outcome-cases (fail e) = inr (e, refl)

-- What holds of a value that is there.
abbrev pub Finishes {ℓ} : {A : Type ℓ} → (A → Type 0) → Option A → Type 0
Finishes P none = ⊥
Finishes P (some a) = P a
