-- ===== src/ExifHasher/Tells.antt =====
-- The hashing thread of src/exif_hasher.cpp: how many entries it has announced to `Get` at each point.
use native.Mathlib.Nat.{mod-le, mod-one}
use jpgsync.Common.{
  ℕ, ◌+◌, ◌-◌, ◌≤◌, ◌<◌, ◌≡◌, Bool, true, false, ◌⊎◌, inl, inr, List, [], ◌∷◌, Option, none, some,
  arith, length, length-append, Bool-cases, ◌&&◌,
}
use jpgsync.ExifHash.{exif_hash}
use jpgsync.ExifHasher.{
  Hashed, Hasher, thrown, unhashed, digest, count, link, Producer, hashing, linked, finishing,
  finished, terminated, add_hashed, run_step,
}
use jpgsync.ExifHasher.Rounds.{whole, told_full, told_more}

-- The entries of which the hashing thread has told `Get`, out of `n` that are linked.
abbrev pub announced : ℕ → Producer → ℕ → ℕ
announced t (hashing _) n = whole t n
announced t (linked _) n = whole t (n - 1)
announced t finishing n = whole t n
announced t finished n = n
announced t terminated n = whole t n

abbrev pub is_finished : Producer → Bool
is_finished finished = true
is_finished _ = false

abbrev pub HasLinked : Producer → ℕ → Type 0
HasLinked (linked _) n = 0 < n
HasLinked _ n = Unit

abbrev pub taken_of : Option ℕ → ℕ
taken_of none = 0
taken_of (some n) = n

-- The hashing thread's part: `moved` entries are taken from the announced ones.
pub record Tells (t moved : ℕ) (p : Producer) (h : Hasher) : Type 0 where
  pub sized : (length h.hashes ≡ length h.entries) ⊎ (t ≡ 1)
  pub accounted : moved + h.new_entry_count ≡ announced t p (length h.entries)
  pub has_linked : HasLinked p (length h.entries)
  pub closing : h.done ≡ is_finished p

module _ (t : ℕ) (unique : Bool) (hash_exif : List ℕ → Hashed) where
  module _ (pos : 0 < t) (mode : (unique ≡ true) ⊎ (t ≡ 1)) (moved : ℕ) where
    link-Tells :
        (h : Hasher) (d path : List ℕ) (rest ps : List (List ℕ))
        → (unique && count h.hashes (exif_hash d)) ≡ false
        → Tells t moved (hashing ps) h
        → Tells t moved (linked rest) (link (exif_hash d) path h)
    unfolding link
    link-Tells h d path rest ps fresh v = ground (
      arith,
      mode,
      length-append h.entries (record { hash = exif_hash d; path = path } ∷ []),
      length-append h.hashes (exif_hash d ∷ []),
    )

    add_hashed-Tells :
        (r : Hashed) (h : Hasher) (path : List ℕ) (rest ps : List (List ℕ))
        → Tells t moved (hashing ps) h
        → Tells t moved (add_hashed unique r path rest h).0 (add_hashed unique r path rest h).1
    unfolding add_hashed
    add_hashed-Tells thrown h path rest ps v = ground arith
    add_hashed-Tells unhashed h path rest ps v = ground arith
    add_hashed-Tells (digest d) h path rest ps v =
        elim (Bool-cases (unique && count h.hashes (exif_hash d))) [
          | inl old ↦ rw old (ground arith)
          | inr new ↦ rw new (link-Tells h d path rest ps new v)
        ]

    test-Tells :
        (h : Hasher) (rest : List (List ℕ))
        → Tells t moved (linked rest) h
        → Tells t moved
            (run_step t unique hash_exif (linked rest) h).0
            (run_step t unique hash_exif (linked rest) h).1
    unfolding run_step
    test-Tells h rest v =
        let n = length h.entries - 1 in
        let told = moved + h.new_entry_count in
        ground (
          arith,
          told_full t n (length h.hashes) told pos (ground arith),
          told_more t n (length h.hashes) told pos (ground arith),
        )

    pub run_step-Tells :
        (p : Producer) (h : Hasher)
        → Tells t moved p h
        → Tells t moved (run_step t unique hash_exif p h).0 (run_step t unique hash_exif p h).1
    unfolding run_step
    run_step-Tells (hashing []) h v = ground arith
    run_step-Tells (hashing ([] ∷ rest)) h v = ground arith
    run_step-Tells (hashing ((c ∷ cs) ∷ rest)) h v =
        add_hashed-Tells (hash_exif (c ∷ cs)) h (c ∷ cs) rest _ v
    run_step-Tells (linked rest) h v = test-Tells h rest v
    run_step-Tells finishing h v =
        ground
          (arith, mod-le (length h.hashes) t, mod-one (length h.hashes), mod-one (length h.entries))
    run_step-Tells finished h v = v
    run_step-Tells terminated h v = v

pub announced-le : (t : ℕ) (p : Producer) (n : ℕ) → announced t p n ≤ n
announced-le t (hashing _) n = omega arith
announced-le t (linked _) n = omega arith
announced-le t _ n = omega arith
