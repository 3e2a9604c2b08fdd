-- ===== src/Peer/Session.antt =====
-- A sync connection from its first offer to its end (src/peer.cpp, the loops of the downloader and the
-- uploader): an offer, its confirmation, and the images that the confirmation leaves missing.
--
-- `contains` is ExifHasher::Contains of the downloader's hasher, which has ended when the loop begins.
pub mod Exchange
pub mod Rounds
pub mod Loops
pub mod Keeping
pub mod Complete
mod Runs
use jpgsync.Common.{
  ℕ, zero, suc, ◌*◌, Bool, List, [], ◌∷◌, Option, none, some, length, ltb, if◌then◌else◌,
}
use jpgsync.ExifHash.{ExifHash, hash_size}
use jpgsync.ExifHasher.{Entry}
use jpgsync.Host.{Host}
use jpgsync.Protocol.{
  Socket, Outcome, returned, fatal, stuck, ◌>>=◌, sync_hashes_per_packet, read_byte, read_exactly,
  write_byte, write_exactly,
}
use jpgsync.Peer.Offer.{answer_offer, no_answer, bitmask_size, confirmation, offer_bytes, to_upload}
use jpgsync.Peer.Transfer.{Files, ensure, upload_image, download_image}

module _ {S : Type 0} (sock : Socket S) (host : Host) where
  -- The loop of the uploader over the entries of an offer, for those that it sends.
  unfoldable pub upload_images : Files → List Entry → S → Outcome S
  upload_images files [] fd = returned fd
  upload_images files (e ∷ es) fd = do
    fd' ← upload_image sock host files e.path fd
    upload_images files es fd'

  -- An offer, from `missing_entries.size()` to the last image of it.
  unfoldable pub make_offer : Files → List Entry → S → Outcome S
  make_offer files offer fd = do
    (ok, fd1) ← write_byte sock fd (length offer)
    (ok', fd2) ← ensure sock ok (write_exactly sock fd1 (offer_bytes host offer))
    (ok'', found_bitmask, fd3) ←
        ensure sock ok' (read_exactly sock fd2 (bitmask_size (length offer)))
    ensure sock ok'' (upload_images files (to_upload found_bitmask 0 0 offer) fd3)

  unfoldable pub make_offers : Files → List (List Entry) → S → Outcome S
  make_offers files [] fd = returned fd
  make_offers files (offer ∷ offers) fd = do
    fd' ← make_offer files offer fd
    make_offers files offers fd'

  -- `ReadByte` of the uploader, which waits for the end of the update.
  unfoldable pub await_update : S → Outcome S
  await_update fd = do
    (byte, fd') ← read_byte sock fd
    elim byte as (λ _. Outcome S) [ none ↦ fatal | some b ↦ returned fd' ]

  -- What the uploader does on its connection.
  unfoldable pub upload_all : Files → List (List Entry) → S → Outcome S
  unfolding await_update make_offers
  upload_all files offers fd = do fd' ← await_update fd; make_offers files offers fd'

  module _ (writable : List ℕ → Bool) (dir : List ℕ) where
    -- The loop of the downloader over `missing_hashes`.
    unfoldable pub download_images : List ExifHash → Files → S → Outcome (Files × S)
    download_images [] files fd = returned (files, fd)
    download_images (hash ∷ hashes) files fd = do
      (files', fd') ← download_image sock host writable dir hash files fd
      download_images hashes files' fd'

    -- The answer to an offer of `hash_count` hashes, and the download of what is missing.
    unfoldable pub serve_offer : (ExifHash → Bool) → ℕ → Files → S → Outcome (Files × S)
    serve_offer contains hash_count files fd =
        let answering = do
          (ok, buf, fd1) ← read_exactly sock fd (hash_count * hash_size)
          let a = answer_offer contains hash_count buf no_answer
          (ok', fd2) ← ensure sock ok (write_exactly sock fd1 (confirmation hash_count a))
          ensure sock ok' (download_images a.missing_hashes files fd2)
        in if ltb sync_hashes_per_packet hash_count then fatal else answering

    -- `for (size_t hash_count; ReadByte(sync_fd, &hash_count); )`: each round reads a byte at least.
    unfoldable pub serve_offers : (ExifHash → Bool) → ℕ → Files → S → Outcome (Files × S)
    serve_offers contains zero files fd = stuck
    serve_offers contains (suc fuel) files fd = do
      (len, fd1) ← read_byte sock fd
      elim len as (λ _. Outcome (Files × S)) [
        | none ↦ returned (files, fd1)
        | some hash_count ↦
            serve_offer contains hash_count files fd1 >>= (λ r. serve_offers contains fuel r.0 r.1)
      ]

    -- What the downloader does on its connection behind the update. `byte` has no value in the source,
    -- and the answer of `WriteByte` is not looked at.
    unfoldable pub download_all : (ExifHash → Bool) → ℕ → ℕ → Files → S → Outcome (Files × S)
    unfolding serve_offers
    download_all contains byte fuel files fd = do
      (ok, fd') ← write_byte sock fd byte
      serve_offers contains fuel files fd'
