-- ===== src/Common/Ints.antt =====
-- The `int` values of the program, with the comparisons that the code makes. `negsuc n` is -(n + 1).
use Prim.Native.Nat.{ℕ, zero, suc, ◌+◌, ◌-◌, ◌*◌, ◌%◌, ◌≤◌}
use mathlib.Core.Path.{◌≡◌}
use mathlib.Core.Bool.{Bool, true, false}
use native.Mathlib.Omega.{arith}
use ct_icp_comment.Common.Tests.{ltb, leb, if◌then◌else◌}

pub data ℤ : Type 0 where
  pos : ℕ → ℤ
  negsuc : ℕ → ℤ

abbrev pub pos_part : ℤ → ℕ
pos_part (pos n) = n
pos_part (negsuc n) = 0

abbrev pub neg_part : ℤ → ℕ
neg_part (pos n) = 0
neg_part (negsuc n) = suc n

infix 50 ◌≤ℤ◌
abbrev pub ◌≤ℤ◌ : ℤ → ℤ → Type 0
a ≤ℤ b = pos_part a + neg_part b ≤ pos_part b + neg_part a

abbrev pub ltb_ℤ : ℤ → ℤ → Bool
ltb_ℤ a b = ltb (pos_part a + neg_part b) (pos_part b + neg_part a)

abbrev pub leb_ℤ : ℤ → ℤ → Bool
leb_ℤ a b = leb (pos_part a + neg_part b) (pos_part b + neg_part a)

-- `a + n` for a constant `n` that is not negative.
abbrev pub add_ℕ : ℤ → ℕ → ℤ
add_ℕ (pos a) n = pos (a + n)
add_ℕ (negsuc zero) zero = negsuc 0
add_ℕ (negsuc zero) (suc n) = pos n
add_ℕ (negsuc (suc a)) zero = negsuc (suc a)
add_ℕ (negsuc (suc a)) (suc n) = add_ℕ (negsuc a) n

-- The conversion of an `int` to a 64 bit unsigned integer that a mixed comparison makes.
abbrev pub to_size : ℤ → ℕ
to_size (pos n) = n
to_size (negsuc n) = 0xffff_ffff_ffff_ffff - n

abbrev pub max_ℤ : ℤ → ℤ → ℤ
max_ℤ a b = elim (ltb_ℤ a b) [ true ↦ b | false ↦ a ]

abbrev pub min_ℤ : ℤ → ℤ → ℤ
min_ℤ a b = elim (ltb_ℤ b a) [ true ↦ b | false ↦ a ]

-- The integer a - b.
abbrev pub diff : ℕ → ℕ → ℤ
diff a b = if leb b a then pos (a - b) else negsuc (b - a - 1)

infixl 60 ◌+ℤ◌
abbrev pub ◌+ℤ◌ : ℤ → ℤ → ℤ
a +ℤ b = diff (pos_part a + pos_part b) (neg_part a + neg_part b)

infixl 60 ◌-ℤ◌
abbrev pub ◌-ℤ◌ : ℤ → ℤ → ℤ
a -ℤ b = diff (pos_part a + neg_part b) (neg_part a + pos_part b)

-- The conversion of an `int` to `short`, which keeps the low 16 bits.
abbrev pub narrow_short : ℤ → ℤ
narrow_short (pos n) = diff ((n + 0x8000) % 0x10000) 0x8000
narrow_short (negsuc n) = diff ((0xffff - n % 0x10000 + 0x8000) % 0x10000) 0x8000

-- `n * a` for a size `n`.
abbrev pub scale : ℕ → ℤ → ℤ
scale n a = diff (n * pos_part a) (n * neg_part a)

pub diff_parts : (a b : ℕ) → pos_part (diff a b) + b ≡ a + neg_part (diff a b)
diff_parts a b = ground arith

pub add_ℕ_parts :
    (a : ℤ) (n : ℕ) → pos_part (add_ℕ a n) + neg_part a ≡ pos_part a + neg_part (add_ℕ a n) + n
add_ℕ_parts (pos a) n = omega arith
add_ℕ_parts (negsuc zero) zero = omega arith
add_ℕ_parts (negsuc zero) (suc n) = omega arith
add_ℕ_parts (negsuc (suc a)) zero = omega arith
add_ℕ_parts (negsuc (suc a)) (suc n) = omega (arith, add_ℕ_parts (negsuc a) n)
