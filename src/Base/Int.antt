-- ===== src/Base/Int.antt =====
-- Signed integers over the native numbers, and Go's int64 on them: every operation wraps in two's
-- complement, through the 64-bit pattern of its value.
use Prim.Native.Nat.{ℕ, suc, ◌+◌, ◌-◌, ◌≤◌, ◌<◌, ◌%◌, ◌^◌}
use mathlib.Core.Path.{◌≡◌}
use mathlib.Core.Logic.{◌↔◌}
use mathlib.Core.Bool.{Bool, true}
use native.Mathlib.Omega.{arith}
use greyd_v.Base.Tests.{ltb, leb, ◌==◌, if◌then◌else◌}

-- `negsuc n` is -(n + 1).
pub data ℤ : Type 0 where
  pos : ℕ → ℤ
  negsuc : ℕ → ℤ

abbrev pub pos_part : ℤ → ℕ
pos_part (pos n) = n
pos_part (negsuc n) = 0

abbrev pub neg_part : ℤ → ℕ
neg_part (pos n) = 0
neg_part (negsuc n) = suc n

abbrev pub ltb_ℤ : ℤ → ℤ → Bool
ltb_ℤ a b = ltb (pos_part a + neg_part b) (pos_part b + neg_part a)

abbrev pub leb_ℤ : ℤ → ℤ → Bool
leb_ℤ a b = leb (pos_part a + neg_part b) (pos_part b + neg_part a)

abbrev pub eq_ℤ : ℤ → ℤ → Bool
eq_ℤ a b = pos_part a + neg_part b == pos_part b + neg_part a

infix 50 ◌≤ℤ◌
abbrev pub ◌≤ℤ◌ : ℤ → ℤ → Type 0
a ≤ℤ b = pos_part a + neg_part b ≤ pos_part b + neg_part a

pub eq_ℤ_iff : (a b : ℤ) → (eq_ℤ a b ≡ true) ↔ (a ≡ b)
eq_ℤ_iff (pos m) (pos n) = ground arith
eq_ℤ_iff (pos m) (negsuc n) = ground arith
eq_ℤ_iff (negsuc m) (pos n) = ground arith
eq_ℤ_iff (negsuc m) (negsuc n) = ground arith

-- `uint64(x)` of an int64.
unfoldable pub to_word : ℤ → ℕ
to_word (pos n) = n
to_word (negsuc n) = 2 ^ 64 - 1 - n

-- `int64(w)` of a uint64, which is reduced to 64 bits first.
unfoldable pub of_word : ℕ → ℤ
of_word w = let u = w % 2 ^ 64 in if ltb u (2 ^ 63) then pos u else negsuc (2 ^ 64 - 1 - u)

-- An int64 addition.
unfoldable pub add64 : ℤ → ℤ → ℤ
unfolding to_word of_word
add64 a b = of_word (to_word a + to_word b)

-- The values of an int64.
abbrev pub InRange : ℤ → Type 0
InRange (pos n) = n < 2 ^ 63
InRange (negsuc n) = n < 2 ^ 63

pub of_word-to_word : (z : ℤ) → InRange z → of_word (to_word z) ≡ z
unfolding of_word to_word
of_word-to_word (pos n) h = ground arith
of_word-to_word (negsuc n) h = ground arith

pub of_word-InRange : (w : ℕ) → InRange (of_word w)
unfolding of_word
of_word-InRange w = ground arith

pub to_word-lt : (z : ℤ) → InRange z → to_word z < 2 ^ 64
unfolding to_word
to_word-lt (pos n) h = omega arith
to_word-lt (negsuc n) h = omega arith

-- Where the sum of two non-negative int64 fits, it does not wrap.
pub add64_pos : (a b : ℕ) → a + b < 2 ^ 63 → add64 (pos a) (pos b) ≡ pos (a + b)
unfolding add64
add64_pos a b h = ground arith

pub add64-InRange : (a b : ℤ) → InRange (add64 a b)
unfolding add64
add64-InRange a b = ground arith
