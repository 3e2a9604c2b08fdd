-- ===== src/Peer/Update.antt =====
-- The update (src/peer.cpp): the downloader packs the hashes of each batch of its hasher into a packet,
-- and the other side's `update_receiver` collects them. Both go through the packet from its end.
pub mod Packet
pub mod Collecting
mod Runs
use jpgsync.Common.{
  ℕ, zero, suc, ◌*◌, ◌/◌, ◌%◌, Bool, List, [], ◌∷◌, ◌++◌, Option, none, some, length, drop, ◌==◌,
  if◌then◌else◌, not,
}
use jpgsync.ExifHash.{ExifHash, exif_hash, to_digest, hash_size}
use jpgsync.ExifHasher.{Entry, insert}
use jpgsync.Host.{Host}

-- The loop that fills `buf`; `filled` is what stands from `bytes` on.
unfoldable pub fill_packet : Host → List Entry → List ℕ → List ℕ
fill_packet host [] filled = filled
fill_packet host (e ∷ es) filled = fill_packet host es (to_digest host e.hash ++ filled)

-- The loop over the `n` hashes in the packet `buf`.
unfoldable pub insert_hashes : ℕ → List ℕ → List ExifHash → List ExifHash
insert_hashes zero buf received = received
insert_hashes (suc n) buf received =
    insert_hashes n buf (insert (exif_hash (drop (hash_size * n) buf)) received)

-- One round of `update_receiver`, for what `ReadFully` gave; `none` ends its loop.
unfoldable pub receive_update : Bool → List ℕ → List ExifHash → Option (List ExifHash)
receive_update updated buf received =
    if length buf == 0
    then none
    else if not (length buf % hash_size == 0)
    then some received
    else if updated
    then none
    else some (insert_hashes (length buf / hash_size) buf received)
