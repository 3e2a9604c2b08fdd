-- ===== src/Peer/Process/Offered.antt =====
-- The offers of a process: whatever the threads do, they are the entries that the uploader has gone
-- through.
use mathlib.Core.List.{flatten}
use mathlib.Core.Option.{some-injective}
use mathlib.Core.Path.{subst}
use jpgsync.Common.{
  ℕ, suc, ◌≤◌, ◌<◌, ◌≡◌, refl, ap, sym, ◌∙◌, true, false, List, [], ◌∷◌, ◌++◌, some, append-nil,
  arith, length, take, drop, take-add, take-append_left, All, All-append, ◌==◌,
}
use jpgsync.ExifHash.{ExifHash}
use jpgsync.ExifHasher.{Entry, Hashed, Hasher, get_take, get_walk}
use jpgsync.ExifHasher.Invariant.{run_step-entries, take-append_of_le}
use jpgsync.ExifHasher.Listing.{get_walk-keeps}
use jpgsync.Protocol.{sync_hashes_per_packet, update_hashes_per_packet}
use jpgsync.Peer.Progress.{loaded}
use jpgsync.Peer.Choice.{Choice, choose}
use jpgsync.Peer.Choice.Offers.{Chosen, not_received, not_received-append}
use jpgsync.Peer.Process.Holding.{flatten-append}
use jpgsync.Peer.Process.{
  produced, walked, add_offer, Process, Step, Reach, hash, ask, batch, finish, add_count,
  notify_progress, send, close, load, await, leave, wake, offer, start, later,
}
use jpgsync.Peer.Process.Uploading.{Knows-le}
use jpgsync.Peer.Process.Counts.{Inv-Reach, delivered-le, choose_of_loaded}

-- The size of an offer, in hashes.
abbrev pub FitsOffer : List Entry → Type 0
FitsOffer es = (0 < length es) × (length es ≤ sync_hashes_per_packet)

record Made (received : List ExifHash) (entries : List Entry) (processed : ℕ)
    (offers : List (List Entry)) : Type 0 where
  all : flatten offers ≡ not_received received (take processed entries)
  sizes : All FitsOffer offers

flatten-add_offer :
    (offers : List (List Entry)) (es : List Entry)
    → flatten (add_offer offers es) ≡ flatten offers ++ es
flatten-add_offer offers [] = sym (append-nil (flatten offers))
flatten-add_offer offers (e ∷ es) = flatten-append offers (e ∷ es)

All-add_offer :
    (offers : List (List Entry)) (es : List Entry)
    → length es ≤ sync_hashes_per_packet
    → All FitsOffer offers
    → All FitsOffer (add_offer offers es)
All-add_offer offers [] le all = all
All-add_offer offers (e ∷ es) le all =
    All-append offers ((e ∷ es) ∷ []) FitsOffer (all, ((omega arith, le), tt))

processed-le :
    {hash_exif : List ℕ → Hashed} {received : List ExifHash} {paths : List (List ℕ)} (s : Process)
    → Reach hash_exif received paths s
    → (s.processed_entry_count ≤ s.hasher_entry_count)
      × (s.hasher_entry_count ≤ length s.system.hasher.entries)
processed-le s r =
    let v = Inv-Reach r in
    (
      Knows-le s.uploader s.processed_entry_count s.hasher_entry_count v.knows,
      omega (arith, v.tally, delivered-le r),
    )

Made-walk :
    (received : List ExifHash) (s : Process) (taken : ℕ) {reached : List Entry} {after : Hasher}
    → get_walk taken s.system.hasher ≡ some (reached, after)
    → Made received s.system.hasher.entries s.processed_entry_count s.offers
    → Made received (walked reached after s.system).hasher.entries s.processed_entry_count s.offers
Made-walk received s taken {reached} {after} walk v =
    let (same, hs) = get_walk-keeps taken s.system.hasher after reached walk in
    subst (λ es. Made received es s.processed_entry_count s.offers) (sym same) v

module _ {hash_exif : List ℕ → Hashed} {received : List ExifHash} {paths : List (List ℕ)} where
  Made-hash :
      (s : Process)
      → Reach hash_exif received paths s
      → Made received s.system.hasher.entries s.processed_entry_count s.offers
      → Made received (produced hash_exif s.system).hasher.entries s.processed_entry_count s.offers
  Made-hash s r v =
      let (more, e, n) =
        run_step-entries update_hashes_per_packet true hash_exif s.system.producer
          s.system.hasher in
      let (le, le') = processed-le s r in
      record {
        all =
            rw
              (
                e,
                take-append_of_le s.processed_entry_count s.system.hasher.entries more
                    (omega arith),
              )
              v.all;
        sizes = v.sizes;
      }

  Made-offer :
      (s : Process) {total : ℕ} {c : Choice}
      → Reach hash_exif received paths s
      → s.uploader ≡ loaded total
      → (s.processed_entry_count == total) ≡ false
      → choose received total
          (drop s.processed_entry_count s.system.hasher.entries)
          s.processed_entry_count
          []
        ≡ some c
      → Made received s.system.hasher.entries s.processed_entry_count s.offers
      → Made received s.system.hasher.entries c.processed_entry_count
          (add_offer s.offers c.missing_entries)
  Made-offer s {total} {c} r here some_more chosen v =
      let (c', is_c', found, le) =
        choose_of_loaded s (Inv-Reach r) (delivered-le r) here some_more in
      let x =
        subst
          (Chosen received total s.processed_entry_count
            (drop s.processed_entry_count s.system.hasher.entries) [])
          (some-injective c' c (sym is_c' ∙ chosen)) found in
      let entries = s.system.hasher.entries in
      let reached : take c.processed_entry_count entries
          ≡ take s.processed_entry_count entries ++ x.passed =
        rw (x.counted, take-add s.processed_entry_count (length x.passed) entries, x.left)
          (ap (◌++◌ (take s.processed_entry_count entries))
            (take-append_left (length x.passed) x.passed c.ahead refl)) in
      record {
        all =
            flatten-add_offer s.offers c.missing_entries
            ∙ rw (x.chosen, v.all)
                (sym (not_received-append received (take s.processed_entry_count entries) x.passed))
            ∙ ap (not_received received) (sym reached);
        sizes = All-add_offer s.offers c.missing_entries x.fits v.sizes;
      }

  Made-Step :
      {s t : Process}
      → Reach hash_exif received paths s
      → Step hash_exif received s t
      → Made received s.system.hasher.entries s.processed_entry_count s.offers
      → Made received t.system.hasher.entries t.processed_entry_count t.offers
  unfolding get_take
  Made-Step {s} r hash v = Made-hash s r v
  Made-Step r (ask here free ready) v = v
  Made-Step {s} r (batch {taken} here taking walk) v = Made-walk received s (suc taken) walk v
  Made-Step {s} r (finish here taking walk) v = Made-walk received s 0 walk v
  Made-Step r (add_count here) v = v
  Made-Step r (notify_progress here) v = v
  Made-Step r (send here) v = v
  Made-Step r (close here) v = v
  Made-Step r (load here) v = v
  Made-Step r (await here all on) v = v
  Made-Step r (leave here all over) v = v
  Made-Step r (wake here) v = v
  Made-Step {s} r (offer here some_more chosen) v = Made-offer s r here some_more chosen v

  Made-Reach :
      {s : Process}
      → Reach hash_exif received paths s
      → Made received s.system.hasher.entries s.processed_entry_count s.offers
  Made-Reach start = record { all = unfold flatten not_received in refl; sizes = tt }
  Made-Reach (later r st) = Made-Step r st (Made-Reach r)

  -- In every reachable state of a process: its offers, one after the other, are the entries that the
  -- uploader has processed without those whose hashes were received, each once and in their order. Each
  -- offer has one hash at least and no more than a packet holds. The uploader has processed no more
  -- entries than the downloader has counted, and those are linked.
  pub offers_made :
      {s : Process}
      → Reach hash_exif received paths s
      → (flatten s.offers
          ≡ not_received received (take s.processed_entry_count s.system.hasher.entries))
        × All FitsOffer s.offers
        × (s.processed_entry_count ≤ s.hasher_entry_count)
        × (s.hasher_entry_count ≤ length s.system.hasher.entries)
  offers_made {s} r =
      let v = Made-Reach r in let (le, le') = processed-le s r in (v.all, v.sizes, le, le')

  -- In every reachable state in which the uploader has loaded a count that is not the number of entries
  -- it has processed, its next round follows no null pointer: it processes one entry at least, and none
  -- that the downloader has not counted.
  pub choose_safe :
      {s : Process} {total : ℕ}
      → Reach hash_exif received paths s
      → s.uploader ≡ loaded total
      → (s.processed_entry_count == total) ≡ false
      → (c : Choice) × (choose received total
            (drop s.processed_entry_count s.system.hasher.entries)
            s.processed_entry_count
            []
          ≡ some c)
        × (s.processed_entry_count < c.processed_entry_count)
        × (c.processed_entry_count ≤ s.hasher_entry_count)
  choose_safe {s} r here some_more =
      let (c, is_c, x, le) = choose_of_loaded s (Inv-Reach r) (delivered-le r) here some_more in
      (c, is_c, omega (arith, x.counted, x.some_passed), omega (arith, x.not_past, le))
