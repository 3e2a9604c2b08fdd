-- ===== src/HashExif.antt =====
-- ExifHasher::HashExif of src/exif_hasher.cpp: the digest of the EXIF data of a file. The kernel's calls,
-- Exiv2 and SHA1 are a parameter; text is a list of characters.
pub mod Mapping
mod Runs
use jpgsync.Common.{ℕ, Bool, true, false, List, [], ◌∷◌, ◌++◌, Option, none, some, if◌then◌else◌}
use jpgsync.ExifHasher.{Hashed, thrown, unhashed, digest}

-- What Exiv2 makes of the bytes of a file: `ImageFactory::open` throws, gives a null pointer, or gives an
-- image, of which `readMetadata` throws (`none`) or finds the keys and values.
pub data Opened : Type 0 where
  open_threw : Opened
  no_image : Opened
  image : Option (List (List ℕ × List ℕ)) → Opened

-- `none` is an exception of the macro for the call, and so is `false`; a `close` that fails fails again.
-- `mmap` gives `none` for MAP_FAILED, which the macro does not see, since it compares with NULL.
pub record Tools : Type 0 where
  pub open_file : List ℕ → Option ℕ
  pub fstat : ℕ → Option ℕ
  pub mmap : ℕ → ℕ → Option (List ℕ)
  pub open_image : List ℕ → Opened
  pub munmap : List ℕ → Bool
  pub close : ℕ → Bool
  pub sha1 : List ℕ → List ℕ

-- How a call ends, with whether the file is still mapped: with a result or an exception, or with the process
-- by an exception of the destructor of `fd`. After MAP_FAILED it reads bytes that are not there.
pub data Ended : Type 0 where
  ended : Hashed → Bool → Ended
  aborted : Bool → Ended
  undefined : Ended

-- The text that is hashed.
unfoldable pub exif_str : List (List ℕ × List ℕ) → List ℕ
exif_str [] = []
exif_str ((key, value) ∷ rest) = key ++ (value ++ exif_str rest)

module _ (tools : Tools) where
  open tools use {open_file, fstat, mmap, open_image, munmap, close, sha1}

  -- Behind `munmap`.
  unfoldable pub hash_data : List (List ℕ × List ℕ) → Hashed
  hash_data [] = unhashed
  hash_data (kv ∷ kvs) = digest (sha1 (exif_str (kv ∷ kvs)))

  -- The destructor of `fd`, which is not closed yet: an exception of it ends the process.
  unfoldable pub leave : ℕ → Hashed → Bool → Ended
  leave fd result mapped = if close fd then ended result mapped else aborted mapped

  -- `fd.Close()`; when it throws, `fd` is still not closed for the destructor.
  unfoldable pub close_file : ℕ → Hashed → Ended
  unfolding leave
  close_file fd result = if close fd then ended result false else leave fd thrown false

  unfoldable pub unmap : ℕ → List ℕ → Hashed → Ended
  unfolding leave close_file
  unmap fd bytes result = if munmap bytes then close_file fd result else leave fd thrown true

  -- From the mapped file on.
  unfoldable pub hash_image : ℕ → List ℕ → Opened → Ended
  unfolding leave unmap
  hash_image fd bytes open_threw = leave fd unhashed true
  hash_image fd bytes no_image = unmap fd bytes unhashed
  hash_image fd bytes (image none) = leave fd thrown true
  hash_image fd bytes (image (some exif_data)) = unmap fd bytes (hash_data exif_data)

  -- Where open fails, -1 has been assigned to `fd`, and the destructor's close fails.
  unfoldable pub hash_exif : List ℕ → Ended
  unfolding leave
  hash_exif path = elim (open_file path) [
    | none ↦ aborted false
    | some fd ↦ elim (fstat fd) [
      | none ↦ leave fd thrown false
      | some size ↦ elim (mmap fd size) [
        | none ↦ undefined
        | some bytes ↦ hash_image fd bytes (open_image bytes)
      ]
    ]
  ]
