-- ===== src/Peer/Sync.antt =====
-- One direction of a sync, from the two directories to the files that arrive (src/peer.cpp,
-- `Peer::Sync`): the hashers of both peers, the update, the offers and the images, one after the other.
pub mod Threads
pub mod Agreement
mod Runs
use mathlib.Core.List.{flatten}
use mathlib.Core.Path.{subst}
use jpgsync.Common.{
  ℕ, suc, ◌+◌, ◌≤◌, ◌<◌, ◌≡◌, refl, ap, sym, ◌∙◌, Bool, true, false, List, [], ◌∷◌, ◌++◌,
  append_assoc, ◌%◌, Option, none, some, arith, All, length, Bool-cases, inl, inr, if◌then◌else◌,
}
use jpgsync.ExifHash.{ExifHash}
use jpgsync.ExifHasher.{Entry, Hashed, contains, count, get_ready, get_take}
use jpgsync.ExifHasher.Steps.{System, Reach}
use jpgsync.ExifHasher.Images.{images, distinct}
use jpgsync.ExifHasher.Delivery.{HasEnded, get_take_end}
use jpgsync.ExifHasher.Listing.{listed_once}
use jpgsync.ExifHasher.Contents.{
  hashes_of, contains-hashes_of, count-distinct, images-IsHash, distinct-All,
}
use jpgsync.Host.{Host}
use jpgsync.Peer.Offer.Reading.{AllHashes}
use jpgsync.Protocol.{Socket, returned, update_hashes_per_packet, sync_hashes_per_packet}
use jpgsync.Protocol.Stream.{Stream}
use jpgsync.Protocol.Messages.{Gives, read_byte_lem, write_byte_lem}
use jpgsync.Peer.Choice.{offers_in_rounds}
use jpgsync.Peer.Choice.Offers.{not_received}
use jpgsync.Peer.Choice.Rounds.{Growing}
use jpgsync.Peer.Transfer.{Files}
use jpgsync.Peer.Update.Collecting
use jpgsync.Peer.Update.Collecting.{Collector, collector, Arrival, brings, received_settled}
use jpgsync.Peer.Session.{await_update, upload_all, download_all}
use jpgsync.Peer.Session.Exchange.{IsUploadable, arrive}
use jpgsync.Peer.Session.Loops.{offers_stream, masks}
use jpgsync.Peer.Session.Complete.{lacking, serve_offers-of_parts, rounds_end}

-- What a directory is to the program: the paths that its generator gives, and what they hash to.
pub record Directory : Type 0 where
  pub paths : List (List ℕ)
  pub hash_exif : List ℕ → Hashed

abbrev pub images_of : Directory → List Entry
images_of d = images d.hash_exif d.paths

-- The specification: of each hash the first image that has it, if no image of the other side has it.
abbrev pub missing_images : Directory → Directory → List Entry
missing_images ours theirs =
    lacking (count (hashes_of (images_of theirs))) (distinct (images_of ours))

-- The states of the hasher that `Peer::Sync` runs.
abbrev pub Hashing : Directory → System → Type 0
Hashing d s = Reach update_hashes_per_packet true d.hash_exif d.paths s

-- The loop that sends the update has ended: a call of `Get` has answered 0.
pub record UpdateSent (s : System) : Type 0 where
  pub idle : s.taking ≡ none
  pub ready : get_ready update_hashes_per_packet s.hasher ≡ true
  pub nothing : (get_take update_hashes_per_packet s.hasher).0 ≡ 0

-- The packets that were taken have just the hashes of those that were sent.
abbrev pub AllArrived : List Arrival → List Entry → Type 0
AllArrived taken delivered = (h : ExifHash) → brings taken h ≡ count (hashes_of delivered) h

lacking_same :
    (p q : ExifHash → Bool) (es : List Entry)
    → ((h : ExifHash) → p h ≡ q h)
    → lacking p es ≡ lacking q es
unfolding lacking
lacking_same p q [] same = refl
lacking_same p q (e ∷ es) same = rw (same e.hash, lacking_same p q es same)

listed :
    (d : Directory) (s : System)
    → Hashing d s
    → HasEnded s.producer
    → s.hasher.entries ≡ distinct (images_of d)
listed d s r ended = listed_once update_hashes_per_packet true d.hash_exif r ended

update_ends :
    (d : Directory) (s : System)
    → Hashing d s
    → UpdateSent s
    → (s.producer ≡ jpgsync.ExifHasher.finished) × (s.delivered ≡ s.hasher.entries)
update_ends d s r u =
    get_take_end update_hashes_per_packet true d.hash_exif (omega arith) (inl refl) r
      update_hashes_per_packet u.idle (omega arith) u.ready u.nothing

-- What the downloader's hasher has when its update is sent, and what the uploader knows of it.
pub contains_images :
    (d : Directory) (s : System) (h : ExifHash)
    → Hashing d s
    → HasEnded s.producer
    → contains s.hasher h ≡ count (hashes_of (images_of d)) h
contains_images d s h r ended =
    contains-hashes_of h update_hashes_per_packet true d.hash_exif r
    ∙ ap (λ es. count (hashes_of es) h) (listed d s r ended)
    ∙ count-distinct h (images_of d)

module _ (host : Host) where
  received_contains :
      (d : Directory) (s : System) {taken later : List Arrival} {before after : Collector}
      (h : ExifHash)
      → Hashing d s
      → UpdateSent s
      → AllArrived taken s.delivered
      → Collecting.Reach host collector taken before
      → before.updated ≡ true
      → Collecting.Reach host before later after
      → count after.received h ≡ contains s.hasher h
  received_contains d s h r u all b marked a =
      received_settled host h b marked a
      ∙ all h
      ∙ ap (λ es. count (hashes_of es) h) (update_ends d s r u).1
      ∙ sym (contains-hashes_of h update_hashes_per_packet true d.hash_exif r)

  -- The ends of a connection, for offers that are together the entries whose hashes the updates have
  -- not brought.
  pub sync_of_offers :
      {S : Type 0} {sock : Socket S} (stream : Stream sock) (ours theirs : Directory)
      (sources files : Files) (writable : List ℕ → Bool) (dir : List ℕ) (s_up s_down : System)
      (received : List ExifHash) (os : List (List Entry)) (byte : ℕ) (a c : S)
      → Hashing ours s_up
      → HasEnded s_up.producer
      → Hashing theirs s_down
      → HasEnded s_down.producer
      → ((h : ExifHash) → count received h ≡ contains s_down.hasher h)
      → All (IsUploadable sources) (missing_images ours theirs)
      → flatten os ≡ not_received received s_up.hasher.entries
      → All (λ o. (0 < length o) × (length o ≤ sync_hashes_per_packet)) os
      → stream.pending a ≡ byte % 256 ∷ masks host (contains s_down.hasher) sources os
      → stream.pending c ≡ offers_stream host (contains s_down.hasher) sources os
      → Gives stream
          (upload_all sock host sources os a)
          (λ a'. a')
          []
          (stream.sent a ++ offers_stream host (contains s_down.hasher) sources os)
        × Gives stream
            (download_all sock host writable dir
              (contains s_down.hasher)
              byte
              (suc (length os))
              files
              c)
            (λ c'. (arrive writable dir sources (missing_images ours theirs) files, c'))
            []
            (stream.sent c ++ byte % 256 ∷ masks host (contains s_down.hasher) sources os)
  unfolding upload_all await_update download_all
  sync_of_offers stream ours theirs sources files writable dir s_up s_down received os byte a c ru
        ended rd over known up made sizes pa pc =
      let entries = listed ours s_up ru ended in
      let spec : lacking (contains s_down.hasher) s_up.hasher.entries ≡ missing_images ours theirs =
        ap (lacking (contains s_down.hasher)) entries
        ∙ lacking_same (contains s_down.hasher) (count (hashes_of (images_of theirs)))
            (distinct (images_of ours)) (λ h. contains_images theirs s_down h rd over) in
      let valid =
        subst AllHashes (sym entries)
          (distinct-All _ (images_of ours) (images-IsHash ours.hash_exif ours.paths)) in
      let r =
        read_byte_lem stream a (byte % 256) (masks host (contains s_down.hasher) sources os) pa in
      let w = write_byte_lem stream c byte in
      let (offered, served) =
        serve_offers-of_parts host (contains s_down.hasher) sources stream received
          s_up.hasher.entries os r.fd' w.fd' writable dir files known valid
          (subst (All (IsUploadable sources)) (sym spec) up) made sizes r.left (w.left ∙ pc) in
      (
        record {
          fd' = offered.fd';
          result = rw r.result offered.result;
          left = offered.left;
          wrote = offered.wrote ∙ rw r.wrote;
        },
        record {
          fd' = served.fd';
          result = rw w.result (
              served.result
              ∙ ap (λ es. returned (arrive writable dir sources es files, served.fd')) spec);
          left = served.left;
          wrote =
              served.wrote
              ∙ rw w.wrote (
                  append_assoc (stream.sent c) (byte % 256 ∷ [])
                    (masks host (contains s_down.hasher) sources os));
        },
      )

  -- Let both hashers have listed their directories, let the downloader's update be sent and arrive
  -- whole, in any order, before its end is marked, and let the rounds of the uploader, for the
  -- counts that they load, process all of its entries and make the offers `os`. If the images that
  -- the other side has not can be sent, and each side reads what the other writes, from the byte
  -- behind the update on, then both ends come to their end, and the files of the downloader are
  -- those where just these images have arrived: of each hash that no image of its directory has,
  -- the first image of the uploader's directory.
  pub sync_missing_images :
      {S : Type 0} {sock : Socket S} (stream : Stream sock) (ours theirs : Directory)
      (sources files : Files) (writable : List ℕ → Bool) (dir : List ℕ) (s_up s_down : System)
      {taken later : List Arrival} {before after : Collector} (totals : List ℕ)
      (os : List (List Entry)) (byte : ℕ) (a c : S)
      → Hashing ours s_up
      → HasEnded s_up.producer
      → Hashing theirs s_down
      → UpdateSent s_down
      → AllArrived taken s_down.delivered
      → Collecting.Reach host collector taken before
      → before.updated ≡ true
      → Collecting.Reach host before later after
      → All (IsUploadable sources) (missing_images ours theirs)
      → Growing 0 totals (length s_up.hasher.entries)
      → offers_in_rounds after.received totals s_up.hasher.entries 0
        ≡ some (os, length s_up.hasher.entries)
      → stream.pending a ≡ byte % 256 ∷ masks host (contains s_down.hasher) sources os
      → stream.pending c ≡ offers_stream host (contains s_down.hasher) sources os
      → Gives stream
          (upload_all sock host sources os a)
          (λ a'. a')
          []
          (stream.sent a ++ offers_stream host (contains s_down.hasher) sources os)
        × Gives stream
            (download_all sock host writable dir
              (contains s_down.hasher)
              byte
              (suc (length os))
              files
              c)
            (λ c'. (arrive writable dir sources (missing_images ours theirs) files, c'))
            []
            (stream.sent c ++ byte % 256 ∷ masks host (contains s_down.hasher) sources os)
  sync_missing_images stream ours theirs sources files writable dir s_up s_down {after = after}
        totals os byte a c ru ended rd sent all b marked la up grows made pa pc =
      let (parts, sizes) = rounds_end after.received s_up.hasher.entries totals os grows made in
      sync_of_offers stream ours theirs sources files writable dir s_up s_down after.received os
        byte a c ru ended rd (inl (update_ends theirs s_down rd sent).0)
        (λ h. received_contains theirs s_down h rd sent all b marked la) up parts sizes pa pc
