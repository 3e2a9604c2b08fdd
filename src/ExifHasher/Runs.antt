-- ===== src/ExifHasher/Runs.antt =====
-- Tests of src/exif_hasher.cpp, and its theorems in concrete executions.
use jpgsync.Common.{
  ℕ, zero, suc, ◌≡◌, refl, true, inl, List, [], ◌∷◌, none, some, arith, length, take, replicate,
  ◌==◌, if◌then◌else◌,
}
use jpgsync.ExifHash.{exif_hash, bytes_to_word32, eq}
use jpgsync.ExifHasher.{
  Entry, Hashed, unhashed, digest, Hasher, exif_hasher, finished, hashing, run_step, add_hashed,
  link, insert, count, get_ready, get_take, get_walk,
}
use jpgsync.ExifHasher.Steps.{System, init, Step, produce, Reach, start, later}
use jpgsync.ExifHasher.Steps
use jpgsync.ExifHasher.Images.{images, distinct}
use jpgsync.ExifHasher.Delivery.{
  get_walk_safe, delivered_in_order, get_take_end, run_steps, HasEnded, run_ends,
}
use jpgsync.ExifHasher.Listing.{listed_once}

-- The first character decides: `x` is no image, and the others are their digests.
abbrev by_name : List ℕ → Hashed
by_name [] = unhashed
by_name (c ∷ cs) = if c == b'x' then unhashed else digest (replicate 20 c)

-- Three images, of which two have one hash, and a file that is none.
abbrev paths : List (List ℕ)
paths = (1 ∷ []) ∷ (b'x' ∷ []) ∷ (2 ∷ []) ∷ (1 ∷ 1 ∷ []) ∷ []

abbrev Run : Type 0
Run = (s : System) × Reach 2 true by_name paths s

abbrev produces : ℕ → Run → Run
produces zero r = r
produces (suc k) (s, r) = produces k (_, later r produce)

-- The hashing thread has finished, and nothing is taken yet.
abbrev hashed : Run
hashed = produces 8 (init paths, start)

hashed_state :
    (hashed.0.producer ≡ finished)
    × (hashed.0.hasher.new_entry_count ≡ 2)
    × (length hashed.0.hasher.entries ≡ 2)
unfolding run_step add_hashed link insert count eq exif_hash bytes_to_word32 exif_hasher
hashed_state = (refl, refl, refl)

taken : Run
unfolding run_step add_hashed link insert count eq exif_hash bytes_to_word32 exif_hasher get_ready
taken = (_, later hashed.1 (Steps.take 3 refl refl))

taken_two : taken.0.taking ≡ some 2
unfolding taken get_take
taken_two = refl

get_walk_safe_example : (p : List Entry × Hasher) × (get_walk 2 taken.0.hasher ≡ some p)
get_walk_safe_example = get_walk_safe 2 true by_name (omega arith) (inl refl) taken.1 2 taken_two

walked : Run
unfolding taken get_take get_walk
walked = (_, later taken.1 (Steps.walk {taken = 2} taken_two refl))

delivered_in_order_example :
    (walked.0.delivered ≡ take walked.0.hasher.new_entry walked.0.hasher.entries)
    × (length walked.0.delivered ≡ walked.0.hasher.new_entry)
delivered_in_order_example = delivered_in_order 2 true by_name (omega arith) (inl refl) walked.1

walked_idle : walked.0.taking ≡ none
unfolding walked
walked_idle = refl

walked_ready : get_ready 1 walked.0.hasher ≡ true
unfolding walked get_ready
walked_ready = refl

walked_empty : (get_take 1 walked.0.hasher).0 ≡ 0
unfolding walked get_take
walked_empty = refl

get_take_end_example :
    (walked.0.producer ≡ finished) × (walked.0.delivered ≡ walked.0.hasher.entries)
get_take_end_example =
    get_take_end 2 true by_name (omega arith) (inl refl) walked.1 1 walked_idle (omega arith)
      walked_ready walked_empty

run_ends_example : HasEnded (run_steps 2 true by_name 10 (hashing paths) exif_hasher).0
run_ends_example = run_ends 2 true by_name paths exif_hasher

hashed_finished : hashed.0.producer ≡ finished
unfolding run_step add_hashed link insert count eq exif_hash bytes_to_word32 exif_hasher
hashed_finished = refl

listed_once_example : hashed.0.hasher.entries ≡ distinct (images by_name paths)
listed_once_example = listed_once 2 true by_name hashed.1 (inl hashed_finished)
