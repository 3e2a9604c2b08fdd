-- ===== src/Common/Bits/Masks.antt =====
-- Single bits: setting one in a number, and testing for one, at every width.
use Prim.Native.Nat.{ℕ, zero, suc, ◌/◌, ◌^◌, ◌<◌, bit_and, bit_or}
use mathlib.Core.Path.{◌≡◌, refl, ◌∙◌}
use mathlib.Core.Logic.{◌≢◌}
use native.Mathlib.Decide.{dec_lt}
use native.Mathlib.Omega.{arith}
use native.Mathlib.Nat.{pow-suc}
use jpgsync.Common.Bits.Digits.{
  bit_or-digit, bit_and-digit, bit_and-nothing_left, bit_and-nothing_right,
}

pub pow_pos : (k : ℕ) → 0 < 2 ^ k
pow_pos zero = omega arith
pow_pos (suc k) = omega (arith, pow-suc 2 k, pow_pos k)

-- A higher bit than `a` has is not set in it.
pub bit_and-pow_of_lt : (k a : ℕ) → a < 2 ^ k → bit_and a (2 ^ k) ≡ 0
bit_and-pow_of_lt zero a h = let e : a ≡ 0 = omega arith in rw e (bit_and-nothing_left 1)
bit_and-pow_of_lt (suc k) a h =
    let half : 2 ^ suc k / 2 ≡ 2 ^ k = omega (arith, pow-suc 2 k) in
    bit_and-digit a (2 ^ suc k)
    ∙ rw (half, bit_and-pow_of_lt k (a / 2) (omega (arith, pow-suc 2 k)))
        (omega (arith, pow-suc 2 k))

-- Nor is a lower bit set in `2 ^ k`.
bit_and-pow_lower : (k i : ℕ) → i < k → bit_and (2 ^ k) (2 ^ i) ≡ 0
bit_and-pow_lower zero i h = absurd (omega arith)
bit_and-pow_lower (suc k) zero h =
    bit_and-digit (2 ^ suc k) 1
    ∙ rw (bit_and-nothing_right (2 ^ suc k / 2)) (omega (arith, pow-suc 2 k))
bit_and-pow_lower (suc k) (suc i) h =
    let half_k : 2 ^ suc k / 2 ≡ 2 ^ k = omega (arith, pow-suc 2 k) in
    let half_i : 2 ^ suc i / 2 ≡ 2 ^ i = omega (arith, pow-suc 2 i) in
    bit_and-digit (2 ^ suc k) (2 ^ suc i)
    ∙ rw (half_k, half_i, bit_and-pow_lower k i (omega arith))
        (omega (arith, pow-suc 2 k, pow-suc 2 i))

pub pow-lt_pow : (i k : ℕ) → k < i → 2 ^ k < 2 ^ i
pow-lt_pow zero k h = absurd (omega arith)
pow-lt_pow (suc i) zero h = omega (arith, pow-suc 2 i, pow_pos i)
pow-lt_pow (suc i) (suc k) h = omega (arith, pow-suc 2 i, pow-suc 2 k, pow-lt_pow i k)

pub bit_and-pow_ne : (k i : ℕ) → k ≢ i → bit_and (2 ^ k) (2 ^ i) ≡ 0
bit_and-pow_ne k i ne = elim (dec_lt i k) [
  | yes lt ↦ bit_and-pow_lower k i lt
  | no ge ↦ bit_and-pow_of_lt i (2 ^ k) (pow-lt_pow i k (omega arith))
]

pub bit_and-pow_self : (k : ℕ) → bit_and (2 ^ k) (2 ^ k) ≡ 2 ^ k
bit_and-pow_self zero = refl
bit_and-pow_self (suc k) =
    let half : 2 ^ suc k / 2 ≡ 2 ^ k = omega (arith, pow-suc 2 k) in
    bit_and-digit (2 ^ suc k) (2 ^ suc k)
    ∙ rw (half, bit_and-pow_self k) (omega (arith, pow-suc 2 k))

pub bit_or-lt_pow : (k a b : ℕ) → a < 2 ^ k → b < 2 ^ k → bit_or a b < 2 ^ k
bit_or-lt_pow zero a b ha hb =
    let e : a ≡ 0 = omega arith in let f : b ≡ 0 = omega arith in rw (e, f) (omega arith)
bit_or-lt_pow (suc k) a b ha hb = omega (
  arith,
  pow-suc 2 k,
  bit_or-digit a b,
  bit_or-lt_pow k (a / 2) (b / 2) (omega (arith, pow-suc 2 k)) (omega (arith, pow-suc 2 k)),
)
