-- ===== src/Prelude/Int.antt =====
-- Signed integers over the native numbers, and the exact decimals that JavaScript's `number`
-- stands for in this program: rounding, infinities and NaN are not modelled (a missing number is
-- an `Option`).
use Prim.Native.Nat.{ℕ, suc, ◌+◌, ◌-◌, ◌*◌}
use mathlib.Core.Bool.{Bool, true, false, ◌&&◌}
use mathlib.Core.Path.{◌≡◌}
use mathlib.Core.Logic.{◌↔◌}
use native.Mathlib.Omega.{arith}
use stridetastic.Prelude.Tests.{ltb, leb, eqb, if◌then◌else◌}

-- `negsuc n` is -(n + 1).
pub data ℤ : Type 0 where
  pos : ℕ → ℤ
  negsuc : ℕ → ℤ

abbrev pub pos_part : ℤ → ℕ
pos_part (pos n) = n
pos_part (negsuc n) = 0

abbrev pub neg_part : ℤ → ℕ
neg_part (pos n) = 0
neg_part (negsuc n) = suc n

-- a - b, as an integer.
abbrev pub sub_ℕ : ℕ → ℕ → ℤ
sub_ℕ a b = if leb b a then pos (a - b) else negsuc (b - a - 1)

infixl 65 ◌-ℤ◌
unfoldable pub ◌-ℤ◌ : ℤ → ℤ → ℤ
a -ℤ b = sub_ℕ (pos_part a + neg_part b) (neg_part a + pos_part b)

abbrev pub ltb_ℤ : ℤ → ℤ → Bool
ltb_ℤ a b = ltb (pos_part a + neg_part b) (pos_part b + neg_part a)

-- `num / (over + 1)`
pub record Decimal : Type 0 where
  pub num : ℤ
  pub over : ℕ

abbrev pub int : ℤ → Decimal
int z = record { num = z; over = 0 }

-- Orders are decided by cross multiplication.
abbrev pub leb_dec : Decimal → Decimal → Bool
leb_dec a b =
    leb (pos_part a.num * suc b.over + neg_part b.num * suc a.over)
      (pos_part b.num * suc a.over + neg_part a.num * suc b.over)

abbrev pub ltb_dec : Decimal → Decimal → Bool
ltb_dec a b =
    ltb (pos_part a.num * suc b.over + neg_part b.num * suc a.over)
      (pos_part b.num * suc a.over + neg_part a.num * suc b.over)

-- `x === 0`
abbrev pub is_zero : Decimal → Bool
is_zero a = eqb (pos_part a.num) 0 && eqb (neg_part a.num) 0

-- `Math.abs(x)`
abbrev pub abs : Decimal → Decimal
abs a = record a { num = pos (pos_part a.num + neg_part a.num) }

-- `x / n` for a positive whole number `n = suc k`
abbrev pub over_suc : Decimal → ℕ → Decimal
over_suc a k = record a { over = suc a.over * suc k - 1 }

abbrev pub eqb_ℤ : ℤ → ℤ → Bool
eqb_ℤ (pos a) (pos b) = eqb a b
eqb_ℤ (negsuc a) (negsuc b) = eqb a b
eqb_ℤ _ _ = false

pub eqb_ℤ_iff : (a b : ℤ) → (eqb_ℤ a b ≡ true) ↔ (a ≡ b)
eqb_ℤ_iff (pos a) (pos b) = ground arith
eqb_ℤ_iff (negsuc a) (negsuc b) = ground arith
eqb_ℤ_iff (pos a) (negsuc b) = ground arith
eqb_ℤ_iff (negsuc a) (pos b) = ground arith
