-- ===== src/Common/Doubles.antt =====
-- The operations that the code makes on values of type `double`. The program's text fixes no more
-- about them than their names, so they are an interface; `IsOrdered` has the laws of the order away
-- from NaN, which a theorem takes where it needs them.
use Prim.Native.Nat.{ℕ, ◌+◌, ◌-◌, ◌*◌, ◌/◌, ◌^◌}
use mathlib.Core.Path.{◌≡◌}
use mathlib.Core.Bool.{Bool, true, false, not}
use native.Mathlib.Omega.{arith}
use ct_icp_comment.Common.Ints.{ℤ, pos}
use ct_icp_comment.Common.Tests.{ltb, leb, ◌==◌ as nat_eq, if◌then◌else◌}

pub record Double (D : Type 0) : Type 0 where
  pub lt : D → D → Bool
  pub le : D → D → Bool
  pub eq : D → D → Bool
  pub add : D → D → D
  pub sub : D → D → D
  pub mul : D → D → D
  pub div : D → D → D
  pub neg : D → D
  pub acos : D → D
  pub pi : D
  -- the casts to `int` and to `short`
  pub to_int : D → ℤ
  pub to_short : D → ℤ
  pub ceil : D → ℤ
  -- `decimal m e` is the literal m / 10 ^ e
  pub decimal : ℕ → ℕ → D

module _ {D : Type 0} ⦃d : Double D⦄ where
  -- `std::min` and `std::max`
  abbrev pub fmin : D → D → D
  fmin a b = if d.lt b a then b else a

  abbrev pub fmax : D → D → D
  fmax a b = if d.lt a b then b else a

-- The order of the doubles that are not NaN.
pub record IsOrdered (D : Type 0) ⦃d : Double D⦄ : Type 0 where
  pub lt_irrefl : (x : D) → d.lt x x ≡ false
  pub lt_trans : (x y z : D) → d.lt x y ≡ true → d.lt y z ≡ true → d.lt x z ≡ true
  pub not_lt_trans : (x y z : D) → d.lt x y ≡ false → d.lt y z ≡ false → d.lt x z ≡ false
  pub le-eq-not-lt : (x y : D) → d.le x y ≡ not (d.lt y x)

-- A model of the interface: fixed point numbers with six places, cut off at zero.
abbrev pub unit : ℕ
unit = 1_000_000

instance abbrev pub fixed_double : Double ℕ
fixed_double = record {
  lt = ltb;
  le = leb;
  eq = nat_eq;
  add = ◌+◌;
  sub = ◌-◌;
  mul = λ a b. a * b / unit;
  div = λ a b. a * unit / b;
  neg = λ a. 0;
  acos = λ a. 0;
  pi = 3_141_592;
  to_int = λ a. pos (a / unit);
  to_short = λ a. pos (a / unit);
  ceil = λ a. pos ((a + 999_999) / unit);
  decimal = λ m e. m * unit / 10 ^ e;
}

pub ℕ-IsOrdered : IsOrdered ℕ ⦃d = fixed_double⦄
ℕ-IsOrdered = record {
  lt_irrefl = λ x. ground arith;
  lt_trans = λ x y z p q. ground arith;
  not_lt_trans = λ x y z p q. ground arith;
  le-eq-not-lt = λ x y. ground arith;
}
