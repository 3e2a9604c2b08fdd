-- ===== src/Peer/Offer.antt =====
-- How the two sides settle which of the offered images are sent (src/peer.cpp): the downloader reads
-- the offered hashes, and answers with a bit mask of those that it has; the uploader reads the mask.
--
-- A pointer into `found_bitmask` is an index. `found_bit` counts on past 8 as in the source, where the
-- mask's bytes are unsigned char: `*found |= 1 << found_bit` keeps the low eight bits.
pub mod Reading
pub mod Single
pub mod Several
mod Runs
use jpgsync.Common.{
  ℕ, zero, suc, ◌+◌, ◌-◌, ◌*◌, ◌/◌, ◌%◌, ◌^◌, bit_and, bit_or, Bool, true, false, List, [], ◌∷◌,
  ◌++◌, length, get_or, set, take, drop, replicate, map, ◌==◌, if◌then◌else◌,
}
use jpgsync.ExifHash.{ExifHash, exif_hash, to_digest, hash_size}
use jpgsync.ExifHasher.{Entry}
use jpgsync.Host.{Host}
use jpgsync.Protocol.{sync_hashes_per_packet}

-- The variables of the downloader's loop over one offer.
pub record Answer : Type 0 where
  pub missing_hashes : List ExifHash
  pub found_bitmask : List ℕ
  pub found : ℕ
  pub found_bit : ℕ

-- (hash_count + CHAR_BIT - 1) / CHAR_BIT
abbrev pub bitmask_size : ℕ → ℕ
bitmask_size hash_count = (hash_count + 8 - 1) / 8

unfoldable pub no_answer : Answer
no_answer = record {
  missing_hashes = [];
  found_bitmask = replicate (bitmask_size sync_hashes_per_packet) 0;
  found = 0;
  found_bit = 0;
}

-- The step of `found += (++found_bit % CHAR_BIT == 0)`, for the bit behind `bit`.
abbrev pub next_found : ℕ → ℕ → ℕ
next_found found bit = if suc bit % 8 == 0 then suc found else found

-- One hash: `contained` is what `exif_hasher.Contains` answers.
unfoldable pub answer_hash : Bool → ExifHash → Answer → Answer
answer_hash true hash a = record a {
  found_bitmask =
      set a.found_bitmask a.found
        (bit_or (get_or a.found_bitmask a.found 0) (2 ^ a.found_bit) % 256);
}
answer_hash false hash a = record a {
  missing_hashes = a.missing_hashes ++ hash ∷ [];
  found_bit = suc a.found_bit;
  found = next_found a.found a.found_bit;
}

-- The loop over the bytes of an offer of `n` hashes.
unfoldable pub answer_offer : (ExifHash → Bool) → ℕ → List ℕ → Answer → Answer
answer_offer contains zero bytes a = a
answer_offer contains (suc n) bytes a =
    answer_offer contains n (drop hash_size bytes)
      (answer_hash (contains (exif_hash bytes)) (exif_hash bytes) a)

-- The bytes that the downloader sends back.
unfoldable pub confirmation : ℕ → Answer → List ℕ
confirmation hash_count a = take (bitmask_size hash_count) a.found_bitmask

-- The test of the uploader's loop.
unfoldable pub is_missing : List ℕ → ℕ → ℕ → Bool
is_missing found_bitmask found found_bit =
    bit_and (get_or found_bitmask found 0) (2 ^ found_bit) == 0

-- The entries of an offer that the uploader goes on to send.
unfoldable pub to_upload : List ℕ → ℕ → ℕ → List Entry → List Entry
to_upload found_bitmask found found_bit [] = []
to_upload found_bitmask found found_bit (entry ∷ entries) =
    let rest = to_upload found_bitmask (next_found found found_bit) (suc found_bit) entries in
    if is_missing found_bitmask found found_bit then entry ∷ rest else rest

-- The bytes of an offer.
unfoldable pub offer_bytes : Host → List Entry → List ℕ
offer_bytes host [] = []
offer_bytes host (e ∷ es) = to_digest host e.hash ++ offer_bytes host es

-- What the uploader sends of an offer that the downloader has answered.
unfoldable pub uploads : Host → (ExifHash → Bool) → List Entry → List Entry
uploads host contains offer =
    to_upload
      (confirmation (length offer)
        (answer_offer contains (length offer) (offer_bytes host offer) no_answer))
      0 0 offer

-- The hashes whose images the downloader then waits for.
unfoldable pub awaited : Host → (ExifHash → Bool) → List Entry → List ExifHash
awaited host contains offer =
    (answer_offer contains (length offer) (offer_bytes host offer) no_answer).missing_hashes
