-- ===== src/Base/Int.antt =====
-- The integers that a `bigint` and a NUMERIC(78, 0) column hold, over the native numbers.
use Prim.Native.Nat.{ℕ, suc, ◌+◌, ◌-◌, ◌*◌, ◌/◌, ◌≤◌}
use mathlib.Core.Bool.{Bool}
use omen_backend.Base.Tests.{ltb, leb, if◌then◌else◌}

-- `negsuc n` is -(n + 1).
pub data ℤ : Type 0 where
  pos : ℕ → ℤ
  negsuc : ℕ → ℤ

abbrev pub pos_part : ℤ → ℕ
pos_part (pos n) = n
pos_part (negsuc n) = 0

abbrev pub neg_part : ℤ → ℕ
neg_part (pos n) = 0
neg_part (negsuc n) = suc n

-- a - b, as an integer.
abbrev pub sub_ℕ : ℕ → ℕ → ℤ
sub_ℕ a b = if leb b a then pos (a - b) else negsuc (b - a - 1)

infixl 65 ◌+ℤ◌ ◌-ℤ◌
infixl 70 ◌*ℤ◌
infix 50 ◌≤ℤ◌
abbrev pub ◌+ℤ◌ : ℤ → ℤ → ℤ
pos a +ℤ pos b = pos (a + b)
pos a +ℤ negsuc b = sub_ℕ a (suc b)
negsuc a +ℤ pos b = sub_ℕ b (suc a)
negsuc a +ℤ negsuc b = negsuc (a + b + 1)

abbrev pub ◌-ℤ◌ : ℤ → ℤ → ℤ
pos a -ℤ pos b = sub_ℕ a b
pos a -ℤ negsuc b = pos (a + suc b)
negsuc a -ℤ pos b = negsuc (a + b)
negsuc a -ℤ negsuc b = sub_ℕ (suc b) (suc a)

abbrev pub ◌≤ℤ◌ : ℤ → ℤ → Type 0
a ≤ℤ b = pos_part a + neg_part b ≤ pos_part b + neg_part a

abbrev pub ltb_ℤ : ℤ → ℤ → Bool
ltb_ℤ a b = ltb (pos_part a + neg_part b) (pos_part b + neg_part a)

abbrev pub leb_ℤ : ℤ → ℤ → Bool
leb_ℤ a b = leb (pos_part a + neg_part b) (pos_part b + neg_part a)

-- The integer -n.
abbrev pub negate : ℕ → ℤ
negate n = sub_ℕ 0 n

-- The product of two bigints.
abbrev pub ◌*ℤ◌ : ℤ → ℤ → ℤ
pos a *ℤ pos b = pos (a * b)
pos a *ℤ negsuc b = negate (a * suc b)
negsuc a *ℤ pos b = negate (suc a * b)
negsuc a *ℤ negsuc b = pos (suc a * suc b)

-- The quotient of a bigint by a positive divisor, which drops the fraction (towards 0).
abbrev pub quot : ℤ → ℕ → ℤ
quot (pos a) d = pos (a / d)
quot (negsuc a) d = negate (suc a / d)
