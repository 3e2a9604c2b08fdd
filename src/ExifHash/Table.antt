-- ===== src/ExifHash/Table.antt =====
-- What the hash tables of the program use: operator== and std::hash<ExifHash> (src/exif_hash.hpp).
use jpgsync.Common.{◌+◌, ◌*◌, ◌^◌, ◌≡◌, refl, true, ◌↔◌, arith, Bool-cases, inl, inr}
use jpgsync.ExifHash.{ExifHash, IsHash, eq, hash_code}

-- operator== answers true exactly for equal hashes.
pub eq_iff : (a b : ExifHash) → (eq a b ≡ true) ↔ (a ≡ b)
unfolding eq
eq_iff a b = ground arith

pub eq_refl : (a : ExifHash) → eq a a ≡ true
eq_refl a = (eq_iff a a).1 refl

pub dec_hash : (a b : ExifHash) → Dec (a ≡ b)
dec_hash a b = elim (Bool-cases (eq a b)) [
  | inl e ↦ yes ((eq_iff a b).0 e)
  | inr e ↦ no (λ p. absurd (cc (e, (eq_iff a b).1 p)))
]

-- For words that fit 32 bits the 64-bit arithmetic of std::hash does not wrap: the code is the value
-- of the five words as digits in base 31.
pub hash_code_lem :
    (h : ExifHash)
    → IsHash h
    → hash_code h ≡ h.word0 * 31 ^ 4 + h.word1 * 31 ^ 3 + h.word2 * 31 ^ 2 + h.word3 * 31 + h.word4
unfolding hash_code
hash_code_lem h v = omega arith
