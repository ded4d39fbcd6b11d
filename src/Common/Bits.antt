-- ===== src/Common/Bits.antt =====
-- Facts about the bit operations at variables: `^` and `&` digit by digit, and their bounds.
use Prim.Native.Nat.{
  ℕ, zero, suc, ◌+◌, ◌-◌, ◌*◌, ◌/◌, ◌%◌, ◌^◌, ◌≤◌, ◌<◌, min, bit_and, bit_xor, digits,
  bit_and-bitwise, bit_xor-bitwise, bitwise, differ,
}
use mathlib.Core.Path.{◌≡◌, refl, sym, ap, ◌∙◌}
use mathlib.Core.Bool.{Bool, true, ◌&&◌}
use native.Mathlib.Nat.{pow-suc}
use native.Mathlib.Omega.{arith}

-- Over a small range, every value is checked by evaluation.
unfoldable pub each_below : ℕ → (ℕ → Bool) → Bool
each_below zero p = true
each_below (suc n) p = p n && each_below n p

pub each_below_sound : (n : ℕ) (p : ℕ → Bool) (x : ℕ) → each_below n p ≡ true → x < n → p x ≡ true
unfolding each_below
each_below_sound zero p x h lt = absurd (omega arith)
each_below_sound (suc n) p x h lt = ground (arith, each_below_sound n p x)

-- The native operations are a recursion on binary digits, on fuel; enough fuel gives one result.
module _ (low : ℕ → ℕ) (pair : ℕ → ℕ → ℕ) where
  spent : (b n : ℕ) → digits low pair n zero b ≡ low b
  spent b zero = refl
  spent b (suc n) = refl

  enough : (a b n m : ℕ) → a ≤ n → a ≤ m → digits low pair n a b ≡ digits low pair m a b
  enough zero b n m p q = spent b n ∙ sym (spent b m)
  enough (suc a) b zero m p q = absurd (omega arith)
  enough (suc a) b (suc n) zero p q = absurd (omega arith)
  enough (suc a) b (suc n) (suc m) p q =
      ap (λ d. d * 2 + pair (suc a % 2) (b % 2))
        (enough (suc a / 2) (b / 2) n m (omega arith) (omega arith))

  halve :
      (a b : ℕ)
      → bitwise low pair (suc a) b
        ≡ bitwise low pair (suc a / 2) (b / 2) * 2 + pair (suc a % 2) (b % 2)
  halve a b = omega (arith, enough (suc a / 2) (b / 2) a (suc a / 2) (omega arith) (omega arith))

-- One digit of `^`.
differ_lem : (a b : ℕ) → differ a b ≡ (a - b) + (b - a)
differ_lem zero b = omega arith
differ_lem (suc a) zero = omega arith
differ_lem (suc a) (suc b) = omega (arith, differ_lem a b)

zero-bit_xor : (b : ℕ) → bit_xor 0 b ≡ b
zero-bit_xor b = bit_xor-bitwise 0 b

bit_xor_digits : (a b : ℕ) → bit_xor a b ≡ bit_xor (a / 2) (b / 2) * 2 + differ (a % 2) (b % 2)
bit_xor_digits zero b = omega (arith, zero-bit_xor b, zero-bit_xor (b / 2))
bit_xor_digits (suc a) b = simp bit_xor-bitwise (halve (λ y. y) differ a b)

pub bit_xor_step :
    (a b : ℕ) → bit_xor a b ≡ bit_xor (a / 2) (b / 2) * 2 + ((a % 2 - b % 2) + (b % 2 - a % 2))
bit_xor_step a b = omega (arith, bit_xor_digits a b, differ_lem (a % 2) (b % 2))

-- `^` does not leave the width of its operands.
pub bit_xor-lt : (k a b : ℕ) → a < 2 ^ k → b < 2 ^ k → bit_xor a b < 2 ^ k
bit_xor-lt zero zero b p q = omega (arith, zero-bit_xor b)
bit_xor-lt zero (suc a) b p q = absurd (omega arith)
bit_xor-lt (suc k) a b p q = omega (
  arith,
  pow-suc 2 k,
  bit_xor_step a b,
  bit_xor-lt k (a / 2) (b / 2) (omega (arith, pow-suc 2 k)) (omega (arith, pow-suc 2 k)),
)

bit_xor-zero_fuel : (n a : ℕ) → a ≤ n → bit_xor a 0 ≡ a
bit_xor-zero_fuel n zero h = refl
bit_xor-zero_fuel zero (suc a) h = absurd (omega arith)
bit_xor-zero_fuel (suc n) (suc a) h =
    omega (arith, bit_xor_step (suc a) 0, bit_xor-zero_fuel n (suc a / 2) (omega arith))

pub bit_xor-zero : (a : ℕ) → bit_xor a 0 ≡ a
bit_xor-zero a = bit_xor-zero_fuel a a (omega arith)

bit_xor_cancel_fuel : (n a b : ℕ) → a ≤ n → bit_xor a b ≡ 0 → a ≡ b
bit_xor_cancel_fuel n zero b h e = omega (arith, zero-bit_xor b)
bit_xor_cancel_fuel zero (suc a) b h e = absurd (omega arith)
bit_xor_cancel_fuel (suc n) (suc a) b h e = omega (
  arith,
  bit_xor_step (suc a) b,
  bit_xor_cancel_fuel n (suc a / 2) (b / 2) (omega arith) (omega (arith, bit_xor_step (suc a) b)),
)

-- Only equal numbers differ nowhere.
pub bit_xor_cancel : (a b : ℕ) → bit_xor a b ≡ 0 → a ≡ b
bit_xor_cancel a b e = bit_xor_cancel_fuel a a b (omega arith) e

and_halves : (a b : ℕ) → bit_and a b ≡ min (a % 2) (b % 2) + bit_and (a / 2) (b / 2) * 2
and_halves zero b = simp bit_and-bitwise (omega arith)
and_halves (suc a) b = simp bit_and-bitwise (omega (arith, halve (λ y. 0) min a b))

and_nothing : (n a : ℕ) → a ≤ n → bit_and a 0 ≡ 0
and_nothing n zero h = refl
and_nothing zero (suc a) h = absurd (omega arith)
and_nothing (suc n) (suc a) h =
    omega (arith, and_halves (suc a) 0, and_nothing n (suc a / 2) (omega arith))

pub bit_and-one : (a : ℕ) → bit_and a 1 ≡ a % 2
bit_and-one a = omega (arith, and_halves a 1, and_nothing (a / 2) (a / 2) (omega arith))
