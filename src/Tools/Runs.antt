-- ===== src/Tools/Runs.antt =====
-- A run of jpghash on one image and a file that is none, and tests of what the tools do with an entry.
use jpgsync.Common.{
  ℕ, ◌≡◌, refl, Bool, true, false, List, [], ◌∷◌, ◌++◌, chars, replicate, ◌==◌, if◌then◌else◌,
}
use jpgsync.ExifHash.{ExifHash, exif_hash, bytes_to_word32, eq, show}
use jpgsync.ExifHasher.{
  Entry, Hashed, unhashed, digest, exif_hasher, run_step, add_hashed, link, insert, count,
  get_ready, get_take, get_walk, follow,
}
use jpgsync.ExifHasher.Steps.{System}
use jpgsync.ExifHasher.Images.{images}
use jpgsync.Protocol.{returned}
use jpgsync.Tools.{
  print_hash, Link, linked, exists, link_image, on_all, Reach, start, produce, take, body, break,
}
use jpgsync.Tools.Listing.{on_all-images}

abbrev by_name : List ℕ → Hashed
by_name [] = unhashed
by_name (c ∷ cs) = if c == b'x' then unhashed else digest (replicate 20 c)

abbrev paths : List (List ℕ)
paths = chars "a" ∷ chars "x" ∷ []

abbrev Run : Bool → Type 0
Run going =
    (s : System) × (out : List (List ℕ)) × Reach false by_name print_hash paths [] s out going

hashed : Run true
hashed = (_, _, produce (produce start))

asked : Run true
unfolding hashed run_step add_hashed link insert count eq exif_hash bytes_to_word32 exif_hasher
    get_ready
asked = (_, _, take hashed.2 refl refl)

printed : Run true
unfolding asked get_take get_walk follow print_hash
printed = (_, _, body asked.2 refl refl refl)

finished_run : Run true
unfolding printed
finished_run = (_, _, produce (produce (produce printed.2)))

asked_again : Run true
unfolding finished_run
asked_again = (_, _, take finished_run.2 refl refl)

ended : Run false
unfolding asked_again
ended = (_, _, break asked_again.2 refl)

output : ended.1 ≡ chars "6161616161616161616161616161616161616161  a" ∷ []
unfolding ended show jpgsync.ExifHash.show_word
output = refl

on_all-images_example : on_all print_hash [] (images by_name paths) ≡ returned ended.1
on_all-images_example = on_all-images false by_name print_hash ended.2

abbrev image : Entry
image = record { hash = exif_hash (replicate 20 b'a'); path = chars "a" }

abbrev link_of : List (List ℕ) → List ℕ → List ℕ → Link (List (List ℕ))
link_of [] path name = linked (name ∷ [])
link_of (x ∷ xs) path name = exists

-- A second link under one name is passed over.
link_image_twice :
    on_all (link_image link_of) ([], []) (image ∷ image ∷ [])
    ≡ returned (
      (chars "ln a " ++ show image.hash) ∷ (chars "ln a " ++ show image.hash) ∷ [],
      show image.hash ∷ [],
    )
unfolding on_all link_image
link_image_twice = refl
