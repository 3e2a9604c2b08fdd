-- ===== src/ExifHasher/Walking.antt =====
-- How many entries a walk of `Get` reaches (src/exif_hasher.cpp).
use jpgsync.Common.{
  ℕ, zero, suc, ◌≡◌, inl, inr, List, [], ◌∷◌, some, Option-cases, drop, arith, length,
}
use jpgsync.ExifHasher.{Entry, Hasher, follow, get_walk}

length-follow : (n : ℕ) (es reached : List Entry) → follow n es ≡ some reached → length reached ≡ n
unfolding follow
length-follow zero es reached e = ground arith
length-follow (suc n) [] reached e = cc
length-follow (suc n) (x ∷ es) reached e = elim (Option-cases (follow n es)) [
  | inl null ↦ absurd (ground (arith, null))
  | inr (more, e') ↦ ground (arith, length-follow n es more e')
]

pub length-get_walk :
    (n : ℕ) (h after : Hasher) (reached : List Entry)
    → get_walk n h ≡ some (reached, after)
    → length reached ≡ n
unfolding get_walk
length-get_walk n h after reached e = elim (Option-cases (follow n (drop h.new_entry h.entries))) [
  | inl null ↦ absurd (ground (arith, null))
  | inr (more, e') ↦ ground (arith, length-follow n (drop h.new_entry h.entries) more e')
]

pub get_walk-nothing :
    (h after : Hasher) (reached : List Entry) → get_walk 0 h ≡ some (reached, after) → reached ≡ []
unfolding get_walk follow
get_walk-nothing h after reached walk = ground arith
