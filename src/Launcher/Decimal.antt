-- ===== src/Launcher/Decimal.antt =====
-- Numbers as `operator<<` prints them.
use jpgsync.Common.{
  ℕ, zero, suc, ◌+◌, ◌-◌, ◌*◌, ◌^◌, ◌/◌, ◌%◌, ◌≤◌, ◌<◌, ◌≡◌, refl, ◌∙◌, true, List, [], ◌∷◌, ◌++◌,
  arith, ltb, All, All-append, length, length-append, if◌then◌else◌, Bool-cases, inl, inr,
}
use jpgsync.Cli.Port.{IsDigit, value_from}

-- The digits of a number; its halving by tens ends within as many rounds as it is large.
unfoldable pub decimal_from : ℕ → ℕ → List ℕ
decimal_from zero n = []
decimal_from (suc fuel) n =
    let above = decimal_from fuel (n / 10) ++ (b'0' + n % 10) ∷ [] in
    if ltb n 10 then (b'0' + n) ∷ [] else above

unfoldable pub decimal : ℕ → List ℕ
decimal n = decimal_from (suc n) n

value_from-append :
    (acc : ℕ) (xs ys : List ℕ) → value_from acc (xs ++ ys) ≡ value_from (value_from acc xs) ys
unfolding value_from
value_from-append acc [] ys = refl
value_from-append acc (x ∷ xs) ys = value_from-append (10 * acc + (x - b'0')) xs ys

value-decimal_from : (fuel n : ℕ) → n < fuel → value_from 0 (decimal_from fuel n) ≡ n
unfolding decimal_from value_from
value-decimal_from zero n lt = absurd (omega arith)
value-decimal_from (suc fuel) n lt = elim (Bool-cases (ltb n 10)) [
  | inl small ↦ rw small (omega arith)
  | inr large ↦ rw large (
      value_from-append 0 (decimal_from fuel (n / 10)) ((b'0' + n % 10) ∷ [])
      ∙ omega (arith, value-decimal_from fuel (n / 10) (ground arith)))
]

digits-decimal_from : (fuel n : ℕ) → All IsDigit (decimal_from fuel n)
unfolding decimal_from
digits-decimal_from zero n = tt
digits-decimal_from (suc fuel) n = elim (Bool-cases (ltb n 10)) [
  | inl small ↦ rw small (ground arith, tt)
  | inr large ↦ rw large (
      All-append (decimal_from fuel (n / 10)) ((b'0' + n % 10) ∷ []) IsDigit
        (digits-decimal_from fuel (n / 10), (ground arith, tt)))
]

-- The digits of a number denote it.
pub value-decimal : (n : ℕ) → value_from 0 (decimal n) ≡ n
unfolding decimal
value-decimal n = value-decimal_from (suc n) n (omega arith)

pub digits-decimal : (n : ℕ) → All IsDigit (decimal n)
unfolding decimal
digits-decimal n = digits-decimal_from (suc n) n

length-decimal_from : (k fuel n : ℕ) → n < 10 ^ suc k → length (decimal_from fuel n) ≤ suc k
unfolding decimal_from
length-decimal_from k zero n lt = omega arith
length-decimal_from zero (suc fuel) n lt =
    let small : ltb n 10 ≡ true = ground arith in rw small (omega arith)
length-decimal_from (suc k) (suc fuel) n lt = elim (Bool-cases (ltb n 10)) [
  | inl small ↦ rw small (omega arith)
  | inr large ↦ rw large (
      omega (
        arith,
        length-append (decimal_from fuel (n / 10)) ((b'0' + n % 10) ∷ []),
        length-decimal_from k fuel (n / 10) (omega arith),
      ))
]

-- A number below 10 ^ 5 has five digits at most.
pub length-decimal : (n : ℕ) → n < 100000 → length (decimal n) ≤ 5
unfolding decimal
length-decimal n lt = length-decimal_from 4 (suc n) n lt

pub decimal_some : (n : ℕ) → 0 < length (decimal n)
unfolding decimal decimal_from
decimal_some n = elim (Bool-cases (ltb n 10)) [
  | inl small ↦ rw small (omega arith)
  | inr large ↦
      rw large (omega (arith, length-append (decimal_from n (n / 10)) ((b'0' + n % 10) ∷ [])))
]
