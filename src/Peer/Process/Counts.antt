-- ===== src/Peer/Process/Counts.antt =====
-- What the counters and the packets of a process are at every point of an execution.
use mathlib.Core.List.{flatten}
use jpgsync.Common.{
  ℕ, ◌+◌, ◌≤◌, ◌≡◌, refl, ap, sym, ◌∙◌, true, false, inl, List, [], ◌∷◌, ◌++◌, some, append-nil,
  arith, length, length-append, length-drop, length-take, drop, ◌==◌,
}
use jpgsync.ExifHash.{ExifHash}
use mathlib.Core.Option.{some-injective}
use mathlib.Core.Path.{subst}
use jpgsync.ExifHasher.{Hashed, exif_hasher}
use jpgsync.ExifHasher.Delivery.{delivered_in_order}
use jpgsync.Protocol.{update_hashes_per_packet}
use jpgsync.Peer.Choice.{Choice, choose}
use jpgsync.Peer.Choice.Offers.{Chosen, choose_lem}
use jpgsync.Peer.Progress.{loaded}
use jpgsync.Peer.Process.Holding.{uncounted, unsent, is_open, flatten-append}
use jpgsync.Peer.Process.Uploading.{
  Knows, Knows-le, Knows-more, Knows-notify, Obeys, Obeys-notify, Obeys-close,
}
use jpgsync.ExifHasher.Walking.{get_walk-nothing}
use jpgsync.Peer.Process.Alone.{system-Reach}
use jpgsync.Peer.Process.{
  init, getting, Process, Step, Reach, hash, ask, batch, finish, add_count, notify_progress, send,
  close, load, await, leave, wake, offer, start, later,
}

pub record Inv (s : Process) : Type 0 where
  pub tally : s.hasher_entry_count + uncounted s.sending ≡ length s.system.delivered
  pub packed : flatten s.batches ++ unsent s.sending ≡ s.system.delivered
  pub knows : Knows s.uploader s.processed_entry_count s.hasher_entry_count
  pub obeys : Obeys s.uploader s.hashing
  pub open_until : s.hashing ≡ is_open s.sending

all_packed : (s : Process) → Inv s → s.sending ≡ getting → flatten s.batches ≡ s.system.delivered
unfolding unsent
all_packed s v here = sym (append-nil (flatten s.batches)) ∙ rw here at (v.packed)

module _ {received : List ExifHash} where
  -- What the uploader has loaded is linked, and it can go on.
  pub choose_of_loaded :
      (s : Process) {total : ℕ}
      → Inv s
      → length s.system.delivered ≤ length s.system.hasher.entries
      → s.uploader ≡ loaded total
      → (s.processed_entry_count == total) ≡ false
      → (c : Choice) × (choose received total
            (drop s.processed_entry_count s.system.hasher.entries)
            s.processed_entry_count
            []
          ≡ some c)
        × Chosen received total s.processed_entry_count
            (drop s.processed_entry_count s.system.hasher.entries)
            []
            c
        × (total ≤ s.hasher_entry_count)
  choose_of_loaded s {total} v linked here some_more =
      let (le, le') : Knows (loaded total) s.processed_entry_count s.hasher_entry_count =
        rw here at (v.knows) in
      let (c, is_c, r) =
        choose_lem received total (drop s.processed_entry_count s.system.hasher.entries)
          s.processed_entry_count [] (ground (arith, le))
          (omega (
            arith,
            le,
            le',
            v.tally,
            linked,
            length-drop s.processed_entry_count s.system.hasher.entries,
          ))
          (omega arith) in
      (c, is_c, r, le')

module _ {hash_exif : List ℕ → Hashed} {received : List ExifHash} where
  Inv-Step :
      {s t : Process}
      → Step hash_exif received s t
      → length s.system.delivered ≤ length s.system.hasher.entries
      → Inv s
      → Inv t
  unfolding uncounted unsent flatten
  Inv-Step hash linked v = record {
    tally = v.tally;
    packed = v.packed;
    knows = v.knows;
    obeys = v.obeys;
    open_until = v.open_until;
  }
  Inv-Step (ask here idle ready) linked v = record {
    tally = v.tally;
    packed = v.packed;
    knows = v.knows;
    obeys = v.obeys;
    open_until = v.open_until;
  }
  Inv-Step {s} (batch {taken} {reached} {after} here taking walk) linked v = record {
    tally = omega (arith, v.tally, ap uncounted here, length-append s.system.delivered reached);
    packed = ap (λ d. d ++ reached) (all_packed s v here);
    knows = v.knows;
    obeys = v.obeys;
    open_until = v.open_until ∙ ap is_open here;
  }
  Inv-Step {s} (finish {reached} {after} here taking walk) linked v = record {
    tally = omega (
      arith,
      v.tally,
      ap uncounted here,
      length-append s.system.delivered reached,
      ap length (get_walk-nothing s.system.hasher after reached walk),
    );
    packed =
        rw (get_walk-nothing s.system.hasher after reached walk)
          (rw here at (v.packed) ∙ sym (append-nil s.system.delivered));
    knows = v.knows;
    obeys = v.obeys;
    open_until = v.open_until ∙ ap is_open here;
  }
  Inv-Step {s} (add_count {es} here) linked v = record {
    tally = omega (arith, v.tally, ap uncounted here);
    packed = rw here at (v.packed);
    knows = Knows-more s.uploader s.processed_entry_count s.hasher_entry_count (length es) v.knows;
    obeys = v.obeys;
    open_until = v.open_until ∙ ap is_open here;
  }
  Inv-Step {s} (notify_progress {es} here) linked v = record {
    tally = omega (arith, v.tally, ap uncounted here);
    packed = rw here at (v.packed);
    knows = Knows-notify s.uploader s.processed_entry_count s.hasher_entry_count v.knows;
    obeys = Obeys-notify s.uploader s.hashing v.obeys;
    open_until = v.open_until ∙ ap is_open here;
  }
  Inv-Step {s} (send {es} here) linked v = record {
    tally = omega (arith, v.tally, ap uncounted here);
    packed =
        append-nil (flatten (s.batches ++ es ∷ []))
        ∙ flatten-append s.batches es
        ∙ rw here at (v.packed);
    knows = v.knows;
    obeys = v.obeys;
    open_until = v.open_until ∙ ap is_open here;
  }
  Inv-Step {s} (close here) linked v = record {
    tally = omega (arith, v.tally, ap uncounted here);
    packed = rw here at (v.packed);
    knows = Knows-notify s.uploader s.processed_entry_count s.hasher_entry_count v.knows;
    obeys = Obeys-close s.uploader;
    open_until = refl;
  }
  Inv-Step {s} (load here) linked v = record {
    tally = v.tally;
    packed = v.packed;
    knows = (Knows-le s.uploader s.processed_entry_count s.hasher_entry_count v.knows, omega arith);
    obeys = tt;
    open_until = v.open_until;
  }
  Inv-Step {s} (await here all on) linked v = record {
    tally = v.tally;
    packed = v.packed;
    knows = Knows-le s.uploader s.processed_entry_count s.hasher_entry_count v.knows;
    obeys = on;
    open_until = v.open_until;
  }
  Inv-Step {s} (leave here all over) linked v = record {
    tally = v.tally;
    packed = v.packed;
    knows = Knows-le s.uploader s.processed_entry_count s.hasher_entry_count v.knows;
    obeys = over;
    open_until = v.open_until;
  }
  Inv-Step {s} (wake here) linked v = record {
    tally = v.tally;
    packed = v.packed;
    knows = Knows-le s.uploader s.processed_entry_count s.hasher_entry_count v.knows;
    obeys = tt;
    open_until = v.open_until;
  }
  Inv-Step {s} (offer {total} {c} here some_more chosen) linked v = record {
    tally = v.tally;
    packed = v.packed;
    knows =
        let (c', is_c', r, le) = choose_of_loaded s v linked here some_more in
        subst (λ c. c.processed_entry_count ≤ s.hasher_entry_count)
          (some-injective c' c (sym is_c' ∙ chosen)) (omega (arith, le, r.not_past));
    obeys = tt;
    open_until = v.open_until;
  }

pub Inv-init : (paths : List (List ℕ)) → Inv (init paths)
unfolding uncounted unsent flatten exif_hasher
Inv-init paths = record {
  tally = refl;
  packed = refl;
  knows = omega arith;
  obeys = tt;
  open_until = refl;
}

module _ {hash_exif : List ℕ → Hashed} {received : List ExifHash} {paths : List (List ℕ)} where
  -- What `Get` has returned is linked.
  pub delivered-le :
      {s : Process}
      → Reach hash_exif received paths s
      → length s.system.delivered ≤ length s.system.hasher.entries
  delivered-le {s} r =
      let (first, sized) =
        delivered_in_order update_hashes_per_packet true hash_exif (omega arith) (inl refl)
          (system-Reach r) in
      omega (arith, ap length first, length-take s.system.hasher.new_entry s.system.hasher.entries)

  pub Inv-Reach : {s : Process} → Reach hash_exif received paths s → Inv s
  Inv-Reach start = Inv-init paths
  Inv-Reach (later r st) = Inv-Step st (delivered-le r) (Inv-Reach r)
