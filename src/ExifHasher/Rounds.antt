-- ===== src/ExifHasher/Rounds.antt =====
-- A number of entries, rounded down to a multiple of the threshold.
use native.Mathlib.Nat.{suc-mod, mod-lt, mod-eq_of_lt, mod_self, mod-le, mod-one}
use jpgsync.Common.{
  ℕ, suc, ◌+◌, ◌-◌, ◌%◌, ◌≤◌, ◌<◌, ◌≡◌, ◌≢◌, sym, ◌⊎◌, inl, inr, ap, ◌∙◌, arith, dec_lt,
}

abbrev pub whole : ℕ → ℕ → ℕ
whole t n = n - n % t

pub whole-le : (t n : ℕ) → whole t n ≤ n
whole-le t n = omega arith

-- One more entry fills up a packet, or not.
pub whole_full : (t n : ℕ) → 0 < t → suc n % t ≡ 0 → whole t (suc n) ≡ whole t n + t
whole_full t n ht e = elim (dec_lt (suc (n % t)) t) [
  | yes p ↦ absurd (omega (arith, suc-mod n t, mod-eq_of_lt p))
  | no p ↦ omega (arith, mod-lt n ht, mod-le n t)
]

pub whole_more : (t n : ℕ) → 0 < t → suc n % t ≢ 0 → whole t (suc n) ≡ whole t n
whole_more t n ht ne = elim (dec_lt (suc (n % t)) t) [
  | yes p ↦ omega (arith, suc-mod n t, mod-eq_of_lt p, mod-le n t)
  | no p ↦
      let e : suc (n % t) ≡ t = omega (arith, mod-lt n ht) in
      absurd (ne (suc-mod n t ∙ ap (λ k. k % t) e ∙ mod_self t))
]

-- The threshold test behind an entry, on a count `size` that is the number of entries, or with the
-- threshold 1.
module _ (t n size told : ℕ) (pos : 0 < t) (sized : (size ≡ suc n) ⊎ (t ≡ 1)) where
  pub told_full : told ≡ whole t n → size % t ≡ 0 → told + t ≡ whole t (suc n)
  told_full e f = elim sized [
    | inl p ↦ omega (arith, whole_full t n pos (ap (λ k. k % t) (sym p) ∙ f))
    | inr p ↦ ground (arith, mod-one n, mod-one (suc n))
  ]

  pub told_more : told ≡ whole t n → size % t ≢ 0 → told ≡ whole t (suc n)
  told_more e f = elim sized [
    | inl p ↦ omega (arith, whole_more t n pos (λ g. f (ap (λ k. k % t) p ∙ g)))
    | inr p ↦ absurd (f (ap (λ k. size % k) p ∙ mod-one size))
  ]
