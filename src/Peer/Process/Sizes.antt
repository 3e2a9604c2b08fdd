-- ===== src/Peer/Process/Sizes.antt =====
-- The sizes of what a process sends ahead of the images, in bytes (src/peer.cpp, src/protocol.cpp).
use mathlib.Core.List.{flatten}
use mathlib.Core.Path.{subst}
use jpgsync.Common.{
  ℕ, ◌-◌, ◌%◌, ◌≤◌, ◌<◌, ◌≡◌, refl, sym, ◌∙◌, true, inl, inr, List, [], ◌∷◌, arith, length, take,
  drop, take-append-drop, All, All-append_left, Bool-cases,
}
use jpgsync.Host.{Host}
use jpgsync.ExifHash.{ExifHash}
use jpgsync.ExifHasher.{Entry, Hashed, count}
use jpgsync.ExifHasher.Delivery.{delivered_in_order}
use jpgsync.ExifHasher.Images.{images}
use jpgsync.ExifHasher.Listing.{listed_so_far}
use jpgsync.ExifHasher.Contents.{images-IsHash, distinct-All}
use jpgsync.Protocol.{ip_mss, update_hashes_per_packet}
use jpgsync.Peer.Choice.Offers.{not_received}
use jpgsync.Peer.Offer.{offer_bytes}
use jpgsync.Peer.Offer.Reading.{AllHashes}
use jpgsync.Peer.Session.Complete.{All-flatten}
use jpgsync.Peer.Session.Rounds.{length-offer_bytes}
use jpgsync.Peer.Update.{fill_packet}
use jpgsync.Peer.Update.Packet.{length-fill_packet}
use jpgsync.Peer.Process.Holding.{unsent, FitsUpdate}
use jpgsync.Peer.Process.{Process, Reach}
use jpgsync.Peer.Process.Alone.{system-Reach}
use jpgsync.Peer.Process.Counts.{Inv-Reach}
use jpgsync.Peer.Process.Ends.{Sent-Reach}
use jpgsync.Peer.Process.Offered.{FitsOffer, offers_made}

-- A datagram holds one hash or more, and no more bytes than are sent in one piece.
abbrev pub FitsDatagram : Host → List Entry → Type 0
FitsDatagram host es =
    (0 < length (fill_packet host es []))
    × (length (fill_packet host es []) ≤ ip_mss - 16)
    × (length (fill_packet host es []) % 20 ≡ 0)

-- The number of hashes fits the byte that is sent ahead of them.
abbrev pub FitsMessage : Host → List Entry → Type 0
FitsMessage host es =
    (0 < length es) × (length es < 256) × (length (offer_bytes host es) ≤ ip_mss - 20)

module _ (host : Host) where
  All-FitsDatagram :
      (xss : List (List Entry))
      → AllHashes (flatten xss)
      → All FitsUpdate xss
      → All (FitsDatagram host) xss
  unfolding flatten
  All-FitsDatagram [] hs sizes = tt
  All-FitsDatagram (xs ∷ xss) hs ((pos, le), sizes) =
      let (h, hs') = All-flatten _ xs xss hs in
      let bytes = length-fill_packet host xs [] h in
      ((omega arith, omega arith, omega arith), All-FitsDatagram xss hs' sizes)

  All-FitsMessage :
      (xss : List (List Entry))
      → AllHashes (flatten xss)
      → All FitsOffer xss
      → All (FitsMessage host) xss
  unfolding flatten
  All-FitsMessage [] hs sizes = tt
  All-FitsMessage (xs ∷ xss) hs ((pos, le), sizes) =
      let (h, hs') = All-flatten _ xs xss hs in
      let bytes = length-offer_bytes host (λ g. true) xs h in
      ((omega arith, omega arith, omega arith), All-FitsMessage xss hs' sizes)

AllHashes-not_received :
    (received : List ExifHash) (es : List Entry)
    → AllHashes es
    → AllHashes (not_received received es)
unfolding not_received
AllHashes-not_received received [] h = tt
AllHashes-not_received received (e ∷ es) (h, hs) = elim (Bool-cases (count received e.hash)) [
  | inl old ↦ rw old (AllHashes-not_received received es hs)
  | inr new ↦ rw new (h, AllHashes-not_received received es hs)
]

module _ {hash_exif : List ℕ → Hashed} {received : List ExifHash} {paths : List (List ℕ)} where
  entries-AllHashes :
      {s : Process} → Reach hash_exif received paths s → AllHashes s.system.hasher.entries
  entries-AllHashes {s} r =
      let (more, e) = listed_so_far update_hashes_per_packet true hash_exif (system-Reach r) in
      All-append_left s.system.hasher.entries more _ (
        subst AllHashes (sym e)
          (distinct-All _ (images hash_exif paths) (images-IsHash hash_exif paths)))

  taken-AllHashes :
      (n : ℕ) {s : Process}
      → Reach hash_exif received paths s
      → AllHashes (take n s.system.hasher.entries)
  taken-AllHashes n {s} r =
      All-append_left (take n s.system.hasher.entries) (drop n s.system.hasher.entries) _
        (subst AllHashes (sym (take-append-drop n s.system.hasher.entries)) (entries-AllHashes r))

  sent-AllHashes : {s : Process} → Reach hash_exif received paths s → AllHashes (flatten s.batches)
  sent-AllHashes {s} r =
      let first =
        (delivered_in_order update_hashes_per_packet true hash_exif (omega arith) (inl refl)
          (system-Reach r)).0 in
      All-append_left (flatten s.batches) (unsent s.sending) _ (
        subst AllHashes (sym ((Inv-Reach r).packed ∙ first))
          (taken-AllHashes s.system.hasher.new_entry r))

  -- In every reachable state of a process, whatever the images hash to: each packet of the update that
  -- was sent has one hash at least and nothing but whole hashes, and no more bytes than are sent in one
  -- piece; and of each offer the number of hashes is not 0 and fits the byte that announces it, and the
  -- hashes no more bytes than are sent in one piece.
  pub sizes_fit :
      (host : Host) {s : Process}
      → Reach hash_exif received paths s
      → All (FitsDatagram host) s.batches × All (FitsMessage host) s.offers
  sizes_fit host {s} r =
      let made = offers_made r in
      (
        All-FitsDatagram host s.batches (sent-AllHashes r) (Sent-Reach r).sizes,
        All-FitsMessage host s.offers
            (subst AllHashes (sym made.0) (
              AllHashes-not_received received (take s.processed_entry_count s.system.hasher.entries)
                (taken-AllHashes s.processed_entry_count r)))
            made.1,
      )
