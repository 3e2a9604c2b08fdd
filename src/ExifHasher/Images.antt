-- ===== src/ExifHasher/Images.antt =====
-- Which images are listed when the hashing thread has ended (`Run` in src/exif_hasher.cpp).
use jpgsync.Common.{
  ℕ, ◌≡◌, refl, ap, ◌∙◌, sym, Bool, true, false, ◌&&◌, inl, inr, List, [], ◌∷◌, ◌++◌, arith,
  Bool-cases, if◌then◌else◌,
}
use jpgsync.ExifHash.{ExifHash, exif_hash, eq}
use jpgsync.ExifHash.Table.{eq_iff}
use jpgsync.ExifHasher.{Entry, Hashed, thrown, unhashed, digest, count, insert}

module _ (hash_exif : List ℕ → Hashed) where
  -- The hashed images, in the order in which the generator names them, up to the first empty path and
  -- up to an exception.
  unfoldable pub images : List (List ℕ) → List Entry
  images [] = []
  images ([] ∷ rest) = []
  images ((c ∷ cs) ∷ rest) =
      let after = images rest in
      elim (hash_exif (c ∷ cs)) [
        | thrown ↦ []
        | unhashed ↦ after
        | digest d ↦ (record { hash = exif_hash d; path = c ∷ cs }) ∷ after
      ]

-- All but the entries with a given hash.
unfoldable pub without : ExifHash → List Entry → List Entry
without h [] = []
without h (e ∷ es) = let rest = without h es in if eq h e.hash then rest else e ∷ rest

-- Of the entries with one hash the first.
unfoldable pub distinct : List Entry → List Entry
unfolding without
distinct [] = []
distinct (e ∷ es) = e ∷ without e.hash (distinct es)

unfoldable pub withouts : List ExifHash → List Entry → List Entry
withouts [] es = es
withouts (h ∷ hs) es = without h (withouts hs es)

without_comm :
    (g h : ExifHash) (es : List Entry) → without g (without h es) ≡ without h (without g es)
unfolding without
without_comm g h [] = refl
without_comm g h (e ∷ es) = ground (arith, without_comm g h es)

without_again : (h : ExifHash) (es : List Entry) → without h (without h es) ≡ without h es
unfolding without
without_again h [] = refl
without_again h (e ∷ es) = ground (arith, without_again h es)

withouts-without :
    (hs : List ExifHash) (h : ExifHash) (es : List Entry)
    → withouts hs (without h es) ≡ without h (withouts hs es)
unfolding withouts
withouts-without [] h es = refl
withouts-without (g ∷ hs) h es =
    ap (without g) (withouts-without hs h es) ∙ without_comm g h (withouts hs es)

withouts_seen :
    (hs : List ExifHash) (h : ExifHash) (es : List Entry)
    → count hs h ≡ true
    → withouts hs (without h es) ≡ withouts hs es
unfolding withouts count
withouts_seen [] h es c = cc
withouts_seen (g ∷ hs) h es c = elim (Bool-cases (eq g h)) [
  | inl same ↦
      withouts-without (g ∷ hs) h es ∙ rw ((eq_iff g h).0 same) (without_again h (withouts hs es))
  | inr other ↦ ap (without g) (withouts_seen hs h es (rw other at c))
]

withouts-cons :
    (hs : List ExifHash) (e : Entry) (es : List Entry)
    → withouts hs (e ∷ es) ≡ (if count hs e.hash then withouts hs es else e ∷ withouts hs es)
unfolding withouts count without
withouts-cons [] e es = refl
withouts-cons (h ∷ hs) e es = ground (arith, withouts-cons hs e es)

withouts-append :
    (hs : List ExifHash) (h : ExifHash) (es : List Entry)
    → withouts (hs ++ h ∷ []) es ≡ withouts hs (without h es)
unfolding withouts
withouts-append [] h es = refl
withouts-append (g ∷ hs) h es = ap (without g) (withouts-append hs h es)

-- What is still to be listed, when the set holds `hs` and the images `es` are to come.
abbrev pub to_list : Bool → List ExifHash → List Entry → List Entry
to_list true hs es = withouts hs (distinct es)
to_list false hs es = es

-- A new image, of a hash that the set holds or not.
pub to_list_seen :
    (unique : Bool) (hs : List ExifHash) (e : Entry) (es : List Entry)
    → (unique && count hs e.hash) ≡ true
    → to_list unique hs (e ∷ es) ≡ to_list unique hs es
unfolding distinct
to_list_seen true hs e es c =
    withouts-cons hs e (without e.hash (distinct es))
    ∙ rw c (withouts_seen hs e.hash (distinct es) c)
to_list_seen false hs e es c = cc

pub to_list_new :
    (unique : Bool) (hs : List ExifHash) (e : Entry) (es : List Entry)
    → (unique && count hs e.hash) ≡ false
    → to_list unique hs (e ∷ es) ≡ e ∷ to_list unique (insert e.hash hs) es
unfolding distinct insert
to_list_new true hs e es c =
    withouts-cons hs e (without e.hash (distinct es))
    ∙ rw c (ap (◌∷◌ e) (sym (withouts-append hs e.hash (distinct es))))
to_list_new false hs e es c = refl
