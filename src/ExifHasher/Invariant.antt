-- ===== src/ExifHasher/Invariant.antt =====
-- What holds at every point of an execution: which entries are announced to `Get`, and which it has
-- returned (src/exif_hasher.cpp).
use mathlib.Core.Option.{some-injective}
use mathlib.Core.Path.{subst}
use jpgsync.Common.{
  ℕ, zero, suc, ◌+◌, ◌≤◌, ◌<◌, ◌≡◌, refl, ap, ◌∙◌, sym, Bool, true, ◌⊎◌, inl, inr, List, [], ◌∷◌,
  ◌++◌, none, some, arith, length, take, drop, take-add, append-nil, length-drop, ◌&&◌, Bool-cases,
}
use jpgsync.ExifHash.{exif_hash}
use jpgsync.ExifHasher.{
  Entry, Hashed, Hasher, thrown, unhashed, digest, exif_hasher, count, link, Producer, hashing,
  linked, finishing, finished, terminated, add_hashed, run_step, get_take, get_walk, follow,
}
use jpgsync.ExifHasher.Steps.{System, init, Step, produce, walk, Reach, start, later}
use jpgsync.ExifHasher.Steps
use jpgsync.ExifHasher.Tells.{Tells, announced-le, taken_of, run_step-Tells}

module _ (t : ℕ) (unique : Bool) (hash_exif : List ℕ → Hashed) where
  -- The hashing thread adds entries at the end, and does not move `new_entry_`.
  link-entries :
      (r : Hashed) (h : Hasher) (path : List ℕ) (rest : List (List ℕ))
      → (more : List Entry) × ((add_hashed unique r path rest h).1.entries ≡ h.entries ++ more)
        × ((add_hashed unique r path rest h).1.new_entry ≡ h.new_entry)
  unfolding add_hashed link
  link-entries thrown h path rest = ([], sym (append-nil h.entries), refl)
  link-entries unhashed h path rest = ([], sym (append-nil h.entries), refl)
  link-entries (digest d) h path rest = elim (Bool-cases (unique && count h.hashes (exif_hash d))) [
    | inl old ↦ ([], rw old (sym (append-nil h.entries)), rw old)
    | inr new ↦ ((record { hash = exif_hash d; path = path }) ∷ [], rw new, rw new)
  ]

  pub run_step-entries :
      (p : Producer) (h : Hasher)
      → (more : List Entry) × ((run_step t unique hash_exif p h).1.entries ≡ h.entries ++ more)
        × ((run_step t unique hash_exif p h).1.new_entry ≡ h.new_entry)
  unfolding run_step
  run_step-entries (hashing []) h = ([], sym (append-nil h.entries), refl)
  run_step-entries (hashing ([] ∷ rest)) h = ([], sym (append-nil h.entries), refl)
  run_step-entries (hashing ((c ∷ cs) ∷ rest)) h = link-entries (hash_exif (c ∷ cs)) h (c ∷ cs) rest
  run_step-entries (linked rest) h = ([], ground (arith, append-nil h.entries), ground arith)
  run_step-entries finishing h = ([], sym (append-nil h.entries), refl)
  run_step-entries finished h = ([], sym (append-nil h.entries), refl)
  run_step-entries terminated h = ([], sym (append-nil h.entries), refl)

-- The state of the whole system.
pub record Inv (t : ℕ) (s : System) : Type 0 where
  pub tells : Tells t (s.hasher.new_entry + taken_of s.taking) s.producer s.hasher
  pub returned : s.delivered ≡ take s.hasher.new_entry s.hasher.entries

-- What `Get` has taken and is still to be taken is linked.
pub Inv-linked :
    (t : ℕ) (s : System)
    → Inv t s
    → s.hasher.new_entry + taken_of s.taking + s.hasher.new_entry_count ≤ length s.hasher.entries
Inv-linked t s v =
    omega (arith, v.tells.accounted, announced-le t s.producer (length s.hasher.entries))

-- The walk of `Get` reaches the entries that it has taken.
follow-take : (n : ℕ) (es : List Entry) → n ≤ length es → follow n es ≡ some (take n es)
unfolding follow
follow-take zero es h = refl
follow-take (suc n) [] h = absurd (omega arith)
follow-take (suc n) (e ∷ es) h = rw (follow-take n es (omega arith))

pub get_walk_lem :
    (n : ℕ) (h : Hasher)
    → h.new_entry + n ≤ length h.entries
    → get_walk n h
      ≡ some (take n (drop h.new_entry h.entries), record h { new_entry = h.new_entry + n })
unfolding get_walk
get_walk_lem n h le = rw (
  follow-take n (drop h.new_entry h.entries) (omega (arith, length-drop h.new_entry h.entries)),
  get_walk,
)

pub take-append_of_le : (n : ℕ) (xs ys : List Entry) → n ≤ length xs → take n (xs ++ ys) ≡ take n xs
take-append_of_le zero xs ys h = refl
take-append_of_le (suc n) [] ys h = absurd (omega arith)
take-append_of_le (suc n) (x ∷ xs) ys h = ap (◌∷◌ x) (take-append_of_le n xs ys (omega arith))

Inv-init : (t : ℕ) (paths : List (List ℕ)) → Inv t (init paths)
unfolding exif_hasher
Inv-init t paths = ground arith

module _ (t : ℕ) (unique : Bool) (hash_exif : List ℕ → Hashed) (pos : 0 < t)
    (mode : (unique ≡ true) ⊎ (t ≡ 1)) where
  produce-Inv :
      (s : System)
      → Inv t s
      → Inv t (record s {
        producer = (run_step t unique hash_exif s.producer s.hasher).0;
        hasher = (run_step t unique hash_exif s.producer s.hasher).1;
      })
  produce-Inv s v =
      let (more, e, n) = run_step-entries t unique hash_exif s.producer s.hasher in
      record {
        tells = rw n (run_step-Tells t unique hash_exif pos mode _ s.producer s.hasher v.tells);
        returned =
            rw (n, e)
              (v.returned
                ∙ sym (
                    take-append_of_le s.hasher.new_entry s.hasher.entries more
                      (omega (arith, Inv-linked t s v))));
      }

  take-Inv :
      (s : System) (wanted : ℕ)
      → s.taking ≡ none
      → Inv t s
      → Inv t (record s {
        taking = some (get_take wanted s.hasher).0;
        hasher = (get_take wanted s.hasher).1;
      })
  unfolding get_take
  take-Inv s wanted e v = ground arith

  walked : System → List Entry × Hasher → System
  walked s p = record s { taking = none; hasher = p.1; delivered = s.delivered ++ p.0 }

  walk-Inv :
      (s : System) (taken : ℕ)
      → s.taking ≡ some taken
      → Inv t s
      → Inv t (
          walked s (
            take taken (drop s.hasher.new_entry s.hasher.entries),
            record s.hasher { new_entry = s.hasher.new_entry + taken },
          ))
  unfolding walked
  walk-Inv s taken e v = ground (arith, take-add s.hasher.new_entry taken s.hasher.entries)

  Step-Inv : {s u : System} → Step t unique hash_exif s u → Inv t s → Inv t u
  unfolding walked
  Step-Inv {s} produce v = produce-Inv s v
  Step-Inv {s} (Steps.take wanted e ready) v = take-Inv s wanted e v
  Step-Inv {s} (walk {taken} {reached} {after} e w) v =
      subst (λ p. Inv t (walked s p))
        (some-injective _ _
          (sym (get_walk_lem taken s.hasher (ground (arith, Inv-linked t s v))) ∙ w))
        (walk-Inv s taken e v)

  pub Reach-Inv : {paths : List (List ℕ)} {s : System} → Reach t unique hash_exif paths s → Inv t s
  Reach-Inv {paths} start = Inv-init t paths
  Reach-Inv (later r st) = Step-Inv st (Reach-Inv r)
