-- ===== src/Tools.antt =====
-- src/jpghash.cpp, which prints the hashes of the images that it is given, and src/jpgln.cpp, which links
-- each of them under its hash. Both hash in the thread of ExifHasher, and ask it for one entry after the
-- other; they differ in what they do with an entry, and in `unique`.
pub mod Listing
mod Runs
use jpgsync.Common.{
  ℕ, zero, suc, ◌≡◌, Bool, true, false, List, [], ◌∷◌, ◌++◌, Option, none, some, chars,
}
use jpgsync.ExifHash.{show}
use jpgsync.ExifHasher.{Entry, Hashed, Hasher, run_step, get_ready, get_take, get_walk}
use jpgsync.ExifHasher.Steps.{System, init}
use jpgsync.Protocol.{Outcome, returned, threw, ◌>>=◌}

-- What jpghash does with an entry; the output is the list of its lines.
unfoldable pub print_hash : List (List ℕ) → Entry → Outcome (List (List ℕ))
print_hash out e = returned (out ++ (show e.hash ++ chars "  " ++ e.path) ∷ [])

-- How link(2) ends: with a directory, with EEXIST, or with another error.
pub data Link {ℓ} (D : Type ℓ) : Type ℓ where
  linked : D → Link D
  exists : Link D
  failed : Link D

-- What jpgln does with an entry, the warning left out; `link` is link(2) on a path and a name.
unfoldable pub link_image {ℓ} :
    {D : Type ℓ}
    → (D → List ℕ → List ℕ → Link D)
    → List (List ℕ) × D
    → Entry
    → Outcome (List (List ℕ) × D)
link_image link (out, d) e =
    let out' = out ++ (chars "ln " ++ e.path ++ b' ' ∷ show e.hash) ∷ [] in
    elim (link d e.path (show e.hash)) [
      | linked d' ↦ returned (out', d')
      | exists ↦ returned (out', d)
      | failed ↦ threw
    ]

-- That on one entry after the other.
unfoldable pub on_all {ℓ} : {O : Type ℓ} → (O → Entry → Outcome O) → O → List Entry → Outcome O
on_all emit out [] = returned out
on_all emit out (e ∷ es) = emit out e >>= λ out'. on_all emit out' es

module _ {O : Type 0} (unique : Bool) (hash_exif : List ℕ → Hashed)
    (emit : O → Entry → Outcome O) where
  -- The states that a tool reaches on the paths of its command line, with its output, and whether its
  -- loop goes on. The hashing thread steps at any time; the loop calls `Get` with the count 1.
  pub data Reach (paths : List (List ℕ)) (out0 : O) : System → O → Bool → Type 0 where
    start : Reach paths out0 (init paths) out0 true
    produce :
        {s : System} {out : O} {going : Bool}
        → Reach paths out0 s out going
        → Reach paths out0
            (record s {
              producer = (run_step 1 unique hash_exif s.producer s.hasher).0;
              hasher = (run_step 1 unique hash_exif s.producer s.hasher).1;
            })
            out
            going
    take :
        {s : System} {out : O}
        → Reach paths out0 s out true
        → s.taking ≡ none
        → get_ready 1 s.hasher ≡ true
        → Reach paths out0
            (record s { taking = some (get_take 1 s.hasher).0; hasher = (get_take 1 s.hasher).1 })
            out
            true
    -- one entry is returned, and the body of the loop deals with it
    body :
        {s : System} {out out' : O} {e : Entry} {after : Hasher}
        → Reach paths out0 s out true
        → s.taking ≡ some 1
        → get_walk 1 s.hasher ≡ some (e ∷ [], after)
        → emit out e ≡ returned out'
        → Reach paths out0
            (record s { taking = none; hasher = after; delivered = s.delivered ++ e ∷ [] })
            out'
            true
    -- the count is 0
    break :
        {s : System} {out : O}
        → Reach paths out0 s out true
        → s.taking ≡ some 0
        → Reach paths out0 s out false
