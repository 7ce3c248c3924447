-- ===== src/Base/Int.antt =====
-- Signed integers over the native numbers, and the casts between `int16_t` and `uint16_t`.
use Prim.Native.Nat.{ℕ, suc, ◌-◌, ◌/◌, ◌%◌, ◌^◌, ◌<◌}
use mathlib.Core.Path.{◌≡◌}
use native.Mathlib.Omega.{arith}
use n_rf5340_presence_test.Base.Tests.{ltb, ◌==◌, if◌then◌else◌}
use mathlib.Core.Bool.{Bool, true, false}

-- `negsuc n` is -(n + 1).
pub data ℤ : Type 0 where
  pos : ℕ → ℤ
  negsuc : ℕ → ℤ

-- `(int16_t)w` of a 16-bit word: two's complement.
unfoldable pub to_i16 : ℕ → ℤ
to_i16 w = if ltb w (2 ^ 15) then pos w else negsuc (2 ^ 16 - w - 1)

-- `(uint16_t)v`: the value modulo 2 ^ 16.
unfoldable pub of_i16 : ℤ → ℕ
of_i16 (pos n) = n % 2 ^ 16
of_i16 (negsuc n) = 2 ^ 16 - 1 - n % 2 ^ 16

-- `v / 2` of C: towards zero.
unfoldable pub halve : ℤ → ℤ
halve (pos n) = pos (n / 2)
halve (negsuc n) = if ltb n 1 then pos 0 else negsuc (suc n / 2 - 1)

abbrev pub IsI16 : ℤ → Type 0
IsI16 (pos n) = n < 2 ^ 15
IsI16 (negsuc n) = n < 2 ^ 15

pub to_i16-of_i16 : (v : ℤ) → IsI16 v → to_i16 (of_i16 v) ≡ v
unfolding to_i16 of_i16
to_i16-of_i16 (pos n) h = ground arith
to_i16-of_i16 (negsuc n) h = ground arith

pub of_i16-lt : (v : ℤ) → of_i16 v < 2 ^ 16
unfolding of_i16
of_i16-lt (pos n) = omega arith
of_i16-lt (negsuc n) = omega arith

pub to_i16-IsI16 : (w : ℕ) → w < 2 ^ 16 → IsI16 (to_i16 w)
unfolding to_i16
to_i16-IsI16 w h = ground arith

pub halve-IsI16 : (v : ℤ) → IsI16 v → IsI16 (halve v)
unfolding halve
halve-IsI16 (pos n) h = omega arith
halve-IsI16 (negsuc n) h = ground arith

-- Tests on a C return code.
abbrev pub is_zero : ℤ → Bool
is_zero (pos n) = n == 0
is_zero (negsuc n) = false

abbrev pub is_neg : ℤ → Bool
is_neg (pos n) = false
is_neg (negsuc n) = true

pub neg_not_zero : (c : ℤ) → is_neg c ≡ true → is_zero c ≡ true → ⊥
neg_not_zero (pos n) h k = cc
neg_not_zero (negsuc n) h k = cc
