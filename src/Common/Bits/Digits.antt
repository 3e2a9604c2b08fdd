-- ===== src/Common/Bits/Digits.antt =====
-- The binary digits of the native bit operations, one at a time from the lowest.
use Prim.Native.Nat.{
  ℕ, zero, suc, ◌+◌, ◌-◌, ◌*◌, ◌/◌, ◌%◌, ◌≤◌, min, max, bit_and, bit_or, digits, bitwise,
  bit_and-bitwise, bit_or-bitwise,
}
use mathlib.Core.Path.{◌≡◌, refl, sym, ◌∙◌}
use native.Mathlib.Omega.{arith}
use native.Mathlib.Nat.{suc-add}

-- Induction on the number of binary digits.
module _ {ℓ} (P : ℕ → Type ℓ) (none : P 0) (digit : (a : ℕ) → P (suc a / 2) → P (suc a)) where
  halving_below : (bound : ℕ) (a : ℕ) → a ≤ bound → P a
  halving_below bound zero le = none
  halving_below zero (suc a) le = absurd (omega arith)
  halving_below (suc bound) (suc a) le = digit a (halving_below bound (suc a / 2) (omega arith))

  pub halving : (a : ℕ) → P a
  halving a = halving_below a a (omega arith)

module _ (rest : ℕ → ℕ) (op : ℕ → ℕ → ℕ) where
  no_digits : (fuel b : ℕ) → digits rest op fuel 0 b ≡ rest b
  no_digits zero b = refl
  no_digits (suc fuel) b = refl

  more_fuel :
      (fuel extra a b : ℕ) → a ≤ fuel → digits rest op (fuel + extra) a b ≡ digits rest op fuel a b
  more_fuel fuel extra zero b le = no_digits (fuel + extra) b ∙ sym (no_digits fuel b)
  more_fuel zero extra (suc a) b le = absurd (omega arith)
  more_fuel (suc fuel) extra (suc a) b le =
      rw (suc-add, more_fuel fuel extra (suc a / 2) (b / 2) (omega arith))

  lowest_digit :
      (a b : ℕ)
      → bitwise rest op (suc a) b ≡ bitwise rest op (suc a / 2) (b / 2) * 2 + op (suc a % 2) (b % 2)
  lowest_digit a b =
      let half = suc a / 2 in
      let spare : half + (a - half) ≡ a = omega arith in
      let stable = rw spare at (more_fuel half (a - half) half (b / 2) (omega arith)) in
      omega (arith, stable)

pub bit_or-nothing_left : (b : ℕ) → bit_or 0 b ≡ b
bit_or-nothing_left b = bit_or-bitwise 0 b

pub bit_and-nothing_left : (b : ℕ) → bit_and 0 b ≡ 0
bit_and-nothing_left b = bit_and-bitwise 0 b

pub bit_or-digit : (x y : ℕ) → bit_or x y ≡ bit_or (x / 2) (y / 2) * 2 + max (x % 2) (y % 2)
bit_or-digit zero y = omega (arith, bit_or-nothing_left y, bit_or-nothing_left (y / 2))
bit_or-digit (suc x) y =
    bit_or-bitwise (suc x) y
    ∙ lowest_digit (λ t. t) max x y
    ∙ omega (arith, bit_or-bitwise (suc x / 2) (y / 2))

pub bit_and-digit : (x y : ℕ) → bit_and x y ≡ bit_and (x / 2) (y / 2) * 2 + min (x % 2) (y % 2)
bit_and-digit zero y = omega (arith, bit_and-nothing_left y, bit_and-nothing_left (y / 2))
bit_and-digit (suc x) y =
    bit_and-bitwise (suc x) y
    ∙ lowest_digit (λ t. zero) min x y
    ∙ omega (arith, bit_and-bitwise (suc x / 2) (y / 2))

pub bit_or-nothing_right : (a : ℕ) → bit_or a 0 ≡ a
bit_or-nothing_right =
    halving (λ a. bit_or a 0 ≡ a) refl (λ a above. omega (arith, bit_or-digit (suc a) 0, above))

pub bit_and-nothing_right : (a : ℕ) → bit_and a 0 ≡ 0
bit_and-nothing_right =
    halving (λ a. bit_and a 0 ≡ 0) refl (λ a above. omega (arith, bit_and-digit (suc a) 0, above))
