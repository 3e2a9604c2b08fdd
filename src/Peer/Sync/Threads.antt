-- ===== src/Peer/Sync/Threads.antt =====
-- One direction of a sync between two processes whose threads run in any order (src/peer.cpp,
-- `Peer::Sync`).
use mathlib.Core.List.{flatten}
use jpgsync.Common.{
  ℕ, suc, ◌≡◌, ap, sym, ◌∙◌, Bool, true, inl, List, [], ◌∷◌, ◌++◌, ◌%◌, arith, All, length,
  take_of_le,
}
use jpgsync.ExifHash.{ExifHash}
use jpgsync.ExifHasher.{contains, count}
use jpgsync.ExifHasher.Images.{distinct}
use jpgsync.ExifHasher.Listing.{listed_once}
use jpgsync.ExifHasher.Contents.{hashes_of, contains-hashes_of}
use jpgsync.Host.{Host}
use jpgsync.Protocol.{Socket, update_hashes_per_packet}
use jpgsync.Protocol.Stream.{Stream}
use jpgsync.Protocol.Messages.{Gives}
use jpgsync.Peer.Choice.Offers.{not_received}
use jpgsync.Peer.Transfer.{Files}
use jpgsync.Peer.Update.Collecting
use jpgsync.Peer.Update.Collecting.{Collector, collector, Arrival, received_settled}
use jpgsync.Peer.Session.{upload_all, download_all}
use jpgsync.Peer.Session.Exchange.{IsUploadable, arrive}
use jpgsync.Peer.Session.Loops.{offers_stream, masks}
use jpgsync.Peer.Session.Complete.{not_received-eq-lacking}
use jpgsync.Peer.Process.{Process, Reach, closed}
use jpgsync.Peer.Process.Alone.{system-Reach}
use jpgsync.Peer.Process.Ends.{update_complete}
use jpgsync.Peer.Process.Leaving.{left_closed}
use jpgsync.Peer.Progress.{left}
use jpgsync.Peer.Process.Offered.{offers_made}
use jpgsync.Peer.Sync.{Directory, images_of, missing_images, AllArrived, sync_of_offers}

-- The states of a process that syncs the directory, where the other side's update brings `received`.
abbrev pub Running : Directory → List ExifHash → Process → Type 0
Running d received p = Reach d.hash_exif received d.paths p

-- A process that has closed its update has listed its directory.
pub closed_listed :
    (d : Directory) {received : List ExifHash} {p : Process}
    → Running d received p
    → p.sending ≡ closed
    → p.system.hasher.entries ≡ distinct (images_of d)
closed_listed d r over =
    listed_once update_hashes_per_packet true d.hash_exif (system-Reach r)
      (inl (update_complete r over).0)

-- Its offers are then all that the update has not brought, if the uploader has processed all.
closed_offers :
    (d : Directory) {received : List ExifHash} {p : Process}
    → Running d received p
    → p.sending ≡ closed
    → p.processed_entry_count ≡ p.hasher_entry_count
    → flatten p.offers ≡ not_received received p.system.hasher.entries
closed_offers d {p = p} r over all =
    (offers_made r).0
    ∙ ap (not_received _) (
        take_of_le p.processed_entry_count p.system.hasher.entries
          (omega (arith, all, (update_complete r over).3, ap length (closed_listed d r over))))

-- They are then the images that the other side has not, if the update has brought all its hashes.
pub offers_missing :
    (ours theirs : Directory) (received : List ExifHash) (p : Process)
    → Running ours received p
    → p.sending ≡ closed
    → p.processed_entry_count ≡ p.hasher_entry_count
    → ((h : ExifHash) → count received h ≡ count (hashes_of (images_of theirs)) h)
    → flatten p.offers ≡ missing_images ours theirs
offers_missing ours theirs received p r over all known =
    closed_offers ours r over all
    ∙ ap (not_received received) (closed_listed ours r over)
    ∙ not_received-eq-lacking (count (hashes_of (images_of theirs))) received
        (distinct (images_of ours)) known

module _ (host : Host) where
  pub received_sent :
      (d : Directory) {other : List ExifHash} {q : Process} {taken later : List Arrival}
      {before after : Collector} (h : ExifHash)
      → Running d other q
      → q.sending ≡ closed
      → AllArrived taken (flatten q.batches)
      → Collecting.Reach host collector taken before
      → before.updated ≡ true
      → Collecting.Reach host before later after
      → count after.received h ≡ contains q.system.hasher h
  received_sent d h r over all b marked a =
      received_settled host h b marked a
      ∙ all h
      ∙ ap (λ es. count (hashes_of es) h)
          ((update_complete r over).1 ∙ sym (closed_listed d r over))
      ∙ sym (contains-hashes_of h update_hashes_per_packet true d.hash_exif (system-Reach r))

  -- Let two processes sync, with their threads interleaved in any order. Let the uploader have left its
  -- loop, with all entries processed that its own downloader counted. Let the other side's downloader
  -- have closed its update, and let its packets have arrived, in any order, before the end of the
  -- update is marked. If the images that the other side has not can be sent, and each side reads what
  -- the other writes, from the byte behind the update on, then both ends of the connection come to
  -- their end, and the files of the downloader are those where just these images have arrived: of each
  -- hash that no image of its directory has, the first image of the uploader's directory.
  pub sync_processes :
      {S : Type 0} {sock : Socket S} (stream : Stream sock) (ours theirs : Directory)
      (sources files : Files) (writable : List ℕ → Bool) (dir : List ℕ) (p q : Process)
      (other : List ExifHash) {taken later : List Arrival} {before after : Collector} (byte : ℕ)
      (a c : S)
      → Running ours after.received p
      → p.uploader ≡ left
      → p.processed_entry_count ≡ p.hasher_entry_count
      → Running theirs other q
      → q.sending ≡ closed
      → AllArrived taken (flatten q.batches)
      → Collecting.Reach host collector taken before
      → before.updated ≡ true
      → Collecting.Reach host before later after
      → All (IsUploadable sources) (missing_images ours theirs)
      → stream.pending a ≡ byte % 256 ∷ masks host (contains q.system.hasher) sources p.offers
      → stream.pending c ≡ offers_stream host (contains q.system.hasher) sources p.offers
      → Gives stream
          (upload_all sock host sources p.offers a)
          (λ a'. a')
          []
          (stream.sent a ++ offers_stream host (contains q.system.hasher) sources p.offers)
        × Gives stream
            (download_all sock host writable dir
              (contains q.system.hasher)
              byte
              (suc (length p.offers))
              files
              c)
            (λ c'. (arrive writable dir sources (missing_images ours theirs) files, c'))
            []
            (stream.sent c ++ byte % 256 ∷ masks host (contains q.system.hasher) sources p.offers)
  sync_processes stream ours theirs sources files writable dir p q other {after = after} byte a c rp
        gone all rq over_q arrived b marked la up pa pc =
      let over_p = left_closed rp gone in
      sync_of_offers host stream ours theirs sources files writable dir p.system q.system
        after.received p.offers byte a c (system-Reach rp) (inl (update_complete rp over_p).0)
        (system-Reach rq) (inl (update_complete rq over_q).0)
        (λ h. received_sent theirs h rq over_q arrived b marked la) up
        (closed_offers ours rp over_p all) (offers_made rp).1 pa pc
