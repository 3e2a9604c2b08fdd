-- ===== src/ExifHasher/Sets.antt =====
-- The unordered sets of hashes: what a list of members says when its order is forgotten.
use mathlib.Core.Bool.{Bool-set}
use mathlib.Core.Quot
use mathlib.Core.Quot.{Quot, Quot-set}
use jpgsync.Common.{◌≡◌, refl, ap, Bool, ◌||◌, List, [], ◌∷◌, ◌++◌, arith}
use jpgsync.ExifHash.{ExifHash}
use jpgsync.ExifHasher.{count}

abbrev pub SameHashes : List ExifHash → List ExifHash → Type 0
SameHashes xs ys = (h : ExifHash) → count xs h ≡ count ys h

abbrev pub HashSet : Type 0
HashSet = Quot SameHashes

unfoldable pub set_of : List ExifHash → HashSet
set_of hs = Quot.mk hs

pub set_of_same : (xs ys : List ExifHash) → SameHashes xs ys → set_of xs ≡ set_of ys
unfolding set_of
set_of_same xs ys same = Quot.sound same

unfoldable pub member : ExifHash → HashSet → Bool
member h = Quot.lift Bool-set (λ xs. count xs h) (λ xs ys same. same h)

-- Equal sets have the same members.
pub same_of_set : (xs ys : List ExifHash) → set_of xs ≡ set_of ys → SameHashes xs ys
unfolding set_of member
same_of_set xs ys e h = ap (member h) e

pub count-++ :
    (xs ys : List ExifHash) (h : ExifHash) → count (xs ++ ys) h ≡ (count xs h || count ys h)
unfolding count
count-++ [] ys h = refl
count-++ (x ∷ xs) ys h = ground (arith, count-++ xs ys h)

-- The order of the members is forgotten.
pub set_of_swapped : (xs ys : List ExifHash) → set_of (xs ++ ys) ≡ set_of (ys ++ xs)
set_of_swapped xs ys =
    set_of_same (xs ++ ys) (ys ++ xs) (λ h. ground (arith, count-++ xs ys h, count-++ ys xs h))
