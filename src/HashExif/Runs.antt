-- ===== src/HashExif/Runs.antt =====
-- A concrete file.
use jpgsync.Common.{ℕ, ◌≡◌, refl, true, false, List, [], ◌∷◌, none, some}
use jpgsync.ExifHasher.{digest}
use jpgsync.HashExif.{
  Opened, open_threw, image, Tools, ended, aborted, undefined, hash_exif, leave, hash_image, unmap,
  close_file, hash_data, exif_str,
}
use jpgsync.HashExif.Mapping.{still_mapped, hash_exif_mapped}

-- An empty file is no image; the others have one entry, whose value is their contents.
abbrev opened : List ℕ → Opened
opened [] = open_threw
opened (b ∷ bs) = image (some ((1 ∷ [], b ∷ bs) ∷ []))

-- Every path names a file with these contents.
abbrev tools : List ℕ → Tools
tools contents = record {
  open_file = λ path. some 3;
  fstat = λ fd. some 2;
  mmap = λ fd size. some contents;
  open_image = opened;
  munmap = λ bytes. true;
  close = λ fd. true;
  sha1 = λ text. text;
}

hash_exif-text : hash_exif (tools (7 ∷ 8 ∷ [])) [] ≡ ended (digest (1 ∷ 7 ∷ 8 ∷ [])) false
unfolding hash_exif hash_image unmap close_file hash_data exif_str
hash_exif-text = refl

-- close fails at the end, and again in the destructor.
hash_exif-unclosed :
    hash_exif (record (tools (7 ∷ 8 ∷ [])) { close = λ fd. false }) [] ≡ aborted false
unfolding hash_exif hash_image unmap close_file leave hash_data exif_str
hash_exif-unclosed = refl

hash_exif-unmappable : hash_exif (record (tools []) { mmap = λ fd size. none }) [] ≡ undefined
unfolding hash_exif
hash_exif-unmappable = refl

hash_exif_mapped_example : still_mapped (hash_exif (tools []) (b'a' ∷ [])) ≡ true
hash_exif_mapped_example = hash_exif_mapped (tools []) (b'a' ∷ []) [] 3 2 refl refl refl refl
