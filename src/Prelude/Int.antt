-- ===== src/Prelude/Int.antt =====
-- Signed integers over the native numbers: differences of instants, which may be negative.
use Prim.Native.Nat.{ℕ, suc, ◌+◌, ◌-◌, ◌≤◌, ◌<◌}
use mathlib.Core.Path.{◌≡◌}
use mathlib.Core.Logic.{◌↔◌}
use mathlib.Core.Bool.{Bool, true}
use native.Mathlib.Omega.{arith}
use web_accessible.Prelude.Tests.{ltb, leb, if◌then◌else◌}

-- `negsuc n` is -(n + 1).
pub data ℤ : Type 0 where
  pos : ℕ → ℤ
  negsuc : ℕ → ℤ

abbrev pub pos_part : ℤ → ℕ
pos_part (pos n) = n
pos_part (negsuc n) = 0

abbrev pub neg_part : ℤ → ℕ
neg_part (pos n) = 0
neg_part (negsuc n) = suc n

-- a - b, as an integer.
abbrev pub sub_ℕ : ℕ → ℕ → ℤ
sub_ℕ a b = if leb b a then pos (a - b) else negsuc (b - a - 1)

abbrev pub leb_ℤ : ℤ → ℤ → Bool
leb_ℤ a b = leb (pos_part a + neg_part b) (pos_part b + neg_part a)

abbrev pub ltb_ℤ : ℤ → ℤ → Bool
ltb_ℤ a b = ltb (pos_part a + neg_part b) (pos_part b + neg_part a)

-- The signed difference of two instants against a bound.
pub sub_ℕ-le_iff : (a b n : ℕ) → (leb_ℤ (sub_ℕ a b) (pos n) ≡ true) ↔ (a ≤ b + n)
sub_ℕ-le_iff a b n = ground arith

pub sub_ℕ-lt_iff : (a b n : ℕ) → (ltb_ℤ (sub_ℕ a b) (pos n) ≡ true) ↔ (a < b + n)
sub_ℕ-lt_iff a b n = ground arith
