-- ===== src/HashExif/Mapping.antt =====
-- When HashExif leaves the file mapped.
use jpgsync.Common.{ℕ, ◌≡◌, refl, Bool, true, false, List, none, some, if◌then◌else◌}
use jpgsync.ExifHasher.{Hashed, thrown, unhashed}
use jpgsync.HashExif.{
  Opened, open_threw, no_image, image, Tools, Ended, ended, aborted, undefined, leave, close_file,
  unmap, hash_data, hash_image, hash_exif,
}

abbrev pub still_mapped : Ended → Bool
still_mapped (ended result mapped) = mapped
still_mapped (aborted mapped) = mapped
still_mapped undefined = false

-- Exiv2 throws.
abbrev pub throws : Opened → Bool
throws open_threw = true
throws no_image = false
throws (image none) = true
throws (image (some exif_data)) = false

module _ (tools : Tools) where
  leave_mapped :
      (fd : ℕ) (result : Hashed) (mapped : Bool)
      → still_mapped (leave tools fd result mapped) ≡ mapped
  unfolding leave
  leave_mapped fd result mapped = go (tools.close fd)
    where
      go :
          (closed : Bool)
          → still_mapped (if closed then ended result mapped else aborted mapped) ≡ mapped
      go true = refl
      go false = refl

  unmap_mapped :
      (fd : ℕ) (bytes : List ℕ) (result : Hashed)
      → tools.munmap bytes ≡ true
      → still_mapped (unmap tools fd bytes result) ≡ false
  unfolding unmap close_file
  unmap_mapped fd bytes result m = rw m (go (tools.close fd))
    where
      go :
          (closed : Bool)
          → still_mapped (if closed then ended result false else leave tools fd thrown false)
            ≡ false
      go true = refl
      go false = leave_mapped fd thrown false

  hash_image_mapped :
      (fd : ℕ) (bytes : List ℕ) (o : Opened)
      → tools.munmap bytes ≡ true
      → still_mapped (hash_image tools fd bytes o) ≡ throws o
  unfolding hash_image
  hash_image_mapped fd bytes open_threw m = leave_mapped fd unhashed true
  hash_image_mapped fd bytes no_image m = unmap_mapped fd bytes unhashed m
  hash_image_mapped fd bytes (image none) m = leave_mapped fd thrown true
  hash_image_mapped fd bytes (image (some exif_data)) m =
      unmap_mapped fd bytes (hash_data tools exif_data) m

  -- If munmap does not fail, a call on a file that can be mapped leaves it mapped exactly if Exiv2
  -- throws.
  pub hash_exif_mapped :
      (path bytes : List ℕ) (fd size : ℕ)
      → tools.open_file path ≡ some fd
      → tools.fstat fd ≡ some size
      → tools.mmap fd size ≡ some bytes
      → tools.munmap bytes ≡ true
      → still_mapped (hash_exif tools path) ≡ throws (tools.open_image bytes)
  unfolding hash_exif
  hash_exif_mapped path bytes fd size o s mm m =
      rw (hash_exif, o, s, mm) (hash_image_mapped fd bytes (tools.open_image bytes) m)
