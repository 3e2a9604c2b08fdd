-- ===== src/ExifHasher.antt =====
-- src/exif_hasher.hpp and src/exif_hasher.cpp: one thread hashes the images that a path generator names
-- and links an entry for each; another takes the entries in batches with `Get`.
--
-- `HashExif` (Exiv2, OpenSSL, mmap) is the parameter `hash_exif`. The linked list behind `dummy_entry_`
-- is a list, and a pointer into it the number of links from `dummy_entry_`. `hashes_` is the list of its
-- members. A step is a stretch of code between two points at which the other thread can see a change:
-- linking an entry, and each critical section of `mutex_`.
pub mod Steps
pub mod Rounds
pub mod Tells
pub mod Invariant
pub mod Walking
pub mod Delivery
pub mod Images
pub mod Listing
pub mod Contents
pub mod Sets
mod Runs
use jpgsync.Common.{
  ℕ, zero, suc, ◌+◌, ◌-◌, ◌%◌, min, Bool, true, false, ◌&&◌, ◌||◌, List, [], ◌∷◌, ◌++◌, Option,
  none, some, length, drop, leb, ◌==◌, if◌then◌else◌,
}
use jpgsync.ExifHash.{ExifHash, exif_hash, eq}

-- The members of `Entry` but `next`.
pub record Entry : Type 0 where
  pub hash : ExifHash
  pub path : List ℕ

-- How a call of `HashExif` ends: with an exception, with false, or with true and a digest.
pub data Hashed : Type 0 where
  thrown : Hashed
  unhashed : Hashed
  digest : List ℕ → Hashed

pub record Hasher : Type 0 where
  pub entries : List Entry
  pub hashes : List ExifHash
  pub new_entry : ℕ
  pub new_entry_count : ℕ
  pub done : Bool

unfoldable pub exif_hasher : Hasher
exif_hasher = record { entries = []; hashes = []; new_entry = 0; new_entry_count = 0; done = false }

-- `count` and `insert` of the unordered set.
unfoldable pub count : List ExifHash → ExifHash → Bool
count [] h = false
count (x ∷ xs) h = eq x h || count xs h

unfoldable pub insert : ExifHash → List ExifHash → List ExifHash
unfolding count
insert h hs = if count hs h then hs else hs ++ h ∷ []

unfoldable pub contains : Hasher → ExifHash → Bool
contains s h = count s.hashes h

unfoldable pub entry_count : Hasher → ℕ
entry_count s = length s.hashes

-- Where the hashing thread stands; the list is what the generator has still to give. After its end the
-- generator gives empty paths.
pub data Producer : Type 0 where
  hashing : List (List ℕ) → Producer  -- head of the loop in `Run`
  linked : List (List ℕ) → Producer  -- an entry is linked, and the threshold not yet tested
  finishing : Producer  -- behind the loop
  finished : Producer
  terminated : Producer  -- an exception has left the thread

-- `tail_ = (tail_->next = new Entry(&*hashes_.insert(h).first, path))`
unfoldable pub link : ExifHash → List ℕ → Hasher → Hasher
unfolding insert
link h path s = record s {
  entries = s.entries ++ (record { hash = h; path = path }) ∷ [];
  hashes = insert h s.hashes;
}

-- The loop body from the result of `HashExif` to the threshold test.
unfoldable pub add_hashed : Bool → Hashed → List ℕ → List (List ℕ) → Hasher → Producer × Hasher
add_hashed unique thrown path rest s = (terminated, s)
add_hashed unique unhashed path rest s = (hashing rest, s)
add_hashed unique (digest d) path rest s =
    if unique && count s.hashes (exif_hash d)
    then (hashing rest, s)
    else (linked rest, link (exif_hash d) path s)

module _ (progress_threshold : ℕ) (unique : Bool) (hash_exif : List ℕ → Hashed) where
  -- The next step of the thread that `Run` starts.
  unfoldable pub run_step : Producer → Hasher → Producer × Hasher
  run_step (hashing []) s = (finishing, s)
  run_step (hashing ([] ∷ rest)) s = (finishing, s)
  run_step (hashing ((c ∷ cs) ∷ rest)) s = add_hashed unique (hash_exif (c ∷ cs)) (c ∷ cs) rest s
  run_step (linked rest) s =
      if length s.hashes % progress_threshold == 0
      then (hashing rest, record s { new_entry_count = s.new_entry_count + progress_threshold })
      else (hashing rest, s)
  run_step finishing s = (
    finished,
    record s {
      new_entry_count = s.new_entry_count + length s.hashes % progress_threshold;
      done = true;
    },
  )
  run_step finished s = (finished, s)
  run_step terminated s = (terminated, s)

-- `Get`: the condition that it waits for, and what it does under the lock.
unfoldable pub get_ready : ℕ → Hasher → Bool
get_ready wanted s = leb wanted s.new_entry_count || s.done

unfoldable pub get_take : ℕ → Hasher → ℕ × Hasher
get_take wanted s =
    let taken = min wanted s.new_entry_count in
    (taken, record s { new_entry_count = s.new_entry_count - taken })

-- `n` links from a node on, with the entries that are reached; `none` is a null pointer's `next`.
unfoldable pub follow : ℕ → List Entry → Option (List Entry)
follow zero es = some []
follow (suc n) [] = none
follow (suc n) (e ∷ es) = elim (follow n es) [ none ↦ none | some reached ↦ some (e ∷ reached) ]

-- `Get` behind the lock. The result is the entries that the caller reaches from the returned pointer
-- with `taken` links.
unfoldable pub get_walk : ℕ → Hasher → Option (List Entry × Hasher)
unfolding follow
get_walk taken s = elim (follow taken (drop s.new_entry s.entries)) [
  | none ↦ none
  | some reached ↦ some (reached, record s { new_entry = s.new_entry + taken })
]
