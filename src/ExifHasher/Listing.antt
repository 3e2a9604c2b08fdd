-- ===== src/ExifHasher/Listing.antt =====
-- When the hashing thread has ended, each hash is listed once (`Run` in src/exif_hasher.cpp).
use jpgsync.Common.{
  ℕ, ◌≡◌, refl, ap, ◌∙◌, sym, Bool, true, false, ◌&&◌, inl, inr, List, [], ◌∷◌, ◌++◌, append_assoc,
  append-nil, arith, Bool-cases, some, if◌then◌else◌,
}
use jpgsync.ExifHash.{ExifHash, exif_hash}
use jpgsync.ExifHasher.{
  Entry, Hashed, thrown, unhashed, digest, Hasher, exif_hasher, count, insert, link, Producer,
  hashing, linked, finishing, finished, terminated, add_hashed, run_step, get_take, get_walk,
}
use jpgsync.ExifHasher.Images.{
  images, without, distinct, withouts, to_list, to_list_seen, to_list_new,
}
use jpgsync.ExifHasher.Steps.{System, Step, produce, walk, Reach, start, later}
use jpgsync.ExifHasher.Steps
use jpgsync.ExifHasher.Delivery.{HasEnded}

pub get_walk-keeps :
    (taken : ℕ) (h after : Hasher) (reached : List Entry)
    → get_walk taken h ≡ some (reached, after)
    → (after.entries ≡ h.entries) × (after.hashes ≡ h.hashes)
unfolding get_walk
get_walk-keeps taken h after reached w = ground arith

module _ (t : ℕ) (unique : Bool) (hash_exif : List ℕ → Hashed) where
  abbrev remaining : Producer → List Entry
  remaining (hashing ps) = images hash_exif ps
  remaining (linked ps) = images hash_exif ps
  remaining _ = []

  -- The entries that will be linked when the thread has ended.
  listing : Producer → Hasher → List Entry
  listing p h = h.entries ++ to_list unique h.hashes (remaining p)

  to_list-nil : (b : Bool) (hs : List ExifHash) → to_list b hs [] ≡ []
  unfolding distinct withouts without
  to_list-nil true [] = refl
  to_list-nil true (h ∷ hs) = ap (without h) (to_list-nil true hs)
  to_list-nil false hs = refl

  listing-link :
      (h : Hasher) (d path : List ℕ) (rest : List (List ℕ))
      → (unique && count h.hashes (exif_hash d)) ≡ false
      → listing (linked rest) (link (exif_hash d) path h)
        ≡ h.entries
          ++ to_list unique h.hashes
              ((record { hash = exif_hash d; path = path }) ∷ images hash_exif rest)
  unfolding listing link
  listing-link h d path rest c =
      let e : Entry = record { hash = exif_hash d; path = path } in
      append_assoc h.entries (e ∷ [])
        (to_list unique (insert (exif_hash d) h.hashes) (images hash_exif rest))
      ∙ ap (◌++◌ h.entries) (sym (to_list_new unique h.hashes e (images hash_exif rest) c))

  images_digest :
      (c : ℕ) (cs d : List ℕ) (rest : List (List ℕ))
      → hash_exif (c ∷ cs) ≡ digest d
      → images hash_exif ((c ∷ cs) ∷ rest)
        ≡ (record { hash = exif_hash d; path = c ∷ cs }) ∷ images hash_exif rest
  unfolding images
  images_digest c cs d rest e = rw (e, images)

  listing-path :
      (h : Hasher) (c : ℕ) (cs : List ℕ) (rest : List (List ℕ)) (r : Hashed)
      → hash_exif (c ∷ cs) ≡ r
      → listing (add_hashed unique r (c ∷ cs) rest h).0 (add_hashed unique r (c ∷ cs) rest h).1
        ≡ listing (hashing ((c ∷ cs) ∷ rest)) h
  unfolding add_hashed listing
  listing-path h c cs rest thrown e = unfold images in rw (e, images)
  listing-path h c cs rest unhashed e = unfold images in rw (e, images)
  listing-path h c cs rest (digest d) e =
      elim (Bool-cases (unique && count h.hashes (exif_hash d))) [
        | inl old ↦
            rw (old, images_digest c cs d rest e)
              (ap (◌++◌ h.entries) (
                sym (
                  to_list_seen unique h.hashes (record { hash = exif_hash d; path = c ∷ cs })
                    (images hash_exif rest) old)))
        | inr new ↦ rw (new, images_digest c cs d rest e) (listing-link h d (c ∷ cs) rest new)
      ]

  listing-run_step :
      (p : Producer) (h : Hasher)
      → listing (run_step t unique hash_exif p h).0 (run_step t unique hash_exif p h).1
        ≡ listing p h
  unfolding run_step listing images
  listing-run_step (hashing []) h = refl
  listing-run_step (hashing ([] ∷ rest)) h = refl
  listing-run_step (hashing ((c ∷ cs) ∷ rest)) h =
      listing-path h c cs rest (hash_exif (c ∷ cs)) refl
  listing-run_step (linked rest) h = ground arith
  listing-run_step finishing h = refl
  listing-run_step finished h = refl
  listing-run_step terminated h = refl

  Step-listing :
      {s u : System}
      → Step t unique hash_exif s u
      → listing u.producer u.hasher ≡ listing s.producer s.hasher
  Step-listing {s} produce = listing-run_step s.producer s.hasher
  Step-listing {s} (Steps.take wanted e ready) = unfold listing get_take in refl
  Step-listing {s} (walk {taken} {reached} {after} e w) =
      let (es, hs) = get_walk-keeps taken s.hasher after reached w in unfold listing in rw (es, hs)

  Reach-listing :
      {paths : List (List ℕ)} {s : System}
      → Reach t unique hash_exif paths s
      → listing s.producer s.hasher ≡ to_list unique [] (images hash_exif paths)
  Reach-listing start = unfold listing exif_hasher in refl
  Reach-listing (later r st) = Step-listing st ∙ Reach-listing r

  to_list-start : (b : Bool) (es : List Entry) → to_list b [] es ≡ (if b then distinct es else es)
  unfolding withouts
  to_list-start true es = refl
  to_list-start false es = refl

  -- At every point the entries begin the list that they come to.
  pub listed_so_far :
      {paths : List (List ℕ)} {s : System}
      → Reach t unique hash_exif paths s
      → (more : List Entry) × (s.hasher.entries ++ more
          ≡ (if unique then distinct (images hash_exif paths) else images hash_exif paths))
  unfolding listing
  listed_so_far {paths} {s} r = (
    to_list unique s.hasher.hashes (remaining s.producer),
    Reach-listing r ∙ to_list-start unique (images hash_exif paths),
  )

  listing-ended : (p : Producer) (h : Hasher) → HasEnded p → listing p h ≡ h.entries
  unfolding listing
  listing-ended p h (inl e) = rw (e, to_list-nil unique h.hashes) (append-nil h.entries)
  listing-ended p h (inr e) = rw (e, to_list-nil unique h.hashes) (append-nil h.entries)

  -- For a threshold above 0 and `unique`, or the threshold 1: when the hashing thread has ended, the
  -- entries are the hashed images in their order, all of them or with `unique` the first of each
  -- hash.
  pub listed_once :
      {paths : List (List ℕ)} {s : System}
      → Reach t unique hash_exif paths s
      → HasEnded s.producer
      → s.hasher.entries
        ≡ (if unique then distinct (images hash_exif paths) else images hash_exif paths)
  listed_once {paths} {s} r e =
      sym (listing-ended s.producer s.hasher e)
      ∙ Reach-listing r
      ∙ to_list-start unique (images hash_exif paths)
