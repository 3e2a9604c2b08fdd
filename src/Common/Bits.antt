-- ===== src/Common/Bits.antt =====
-- `bit_or` of a shifted number with a number below the shift is their sum, at every width.
pub mod Digits
pub mod Masks
use Prim.Native.Nat.{ℕ, zero, suc, ◌+◌, ◌*◌, ◌/◌, ◌%◌, ◌^◌, ◌≤◌, ◌<◌, bit_or}
use mathlib.Core.Path.{◌≡◌, refl, ap, ◌∙◌}
use native.Mathlib.Omega.{arith}
use native.Mathlib.Nat.{pow-suc}
use Digits.{halving, bit_or-digit}
pub use Digits.{bit_or-nothing_left, bit_or-nothing_right}

double : (k a : ℕ) → a * 2 ^ suc k ≡ a * 2 ^ k * 2
double k a = omega (arith, ap (λ (t : ℕ). a * t) (pow-suc 2 k))

bit_or_double : (m b : ℕ) → bit_or (m * 2) b ≡ bit_or m (b / 2) * 2 + b % 2
bit_or_double m b = bit_or-digit (m * 2) b ∙ rw half (omega arith)
  where
    half : m * 2 / 2 ≡ m
    half = omega arith

-- A value above bit `k`, and a value below it.
pub bit_or_shifted : (k a b : ℕ) → b < 2 ^ k → bit_or (a * 2 ^ k) b ≡ a * 2 ^ k + b
bit_or_shifted zero a b h =
    let e : b ≡ 0 = omega arith in rw e (bit_or-nothing_right (a * 2 ^ 0) ∙ omega arith)
bit_or_shifted (suc k) a b h =
    let below : b / 2 < 2 ^ k = omega (arith, pow-suc 2 k) in
    rw (double k a) (bit_or_double (a * 2 ^ k) b ∙ omega (arith, bit_or_shifted k a (b / 2) below))

pub bit_or-eq-add : (k a m b : ℕ) → m ≡ a * 2 ^ k → b < 2 ^ k → bit_or m b ≡ m + b
bit_or-eq-add k a m b e h = rw e (bit_or_shifted k a b h)
