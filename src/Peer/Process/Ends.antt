-- ===== src/Peer/Process/Ends.antt =====
-- The end of the update that a process sends: by then the packets have all entries of its hasher.
use mathlib.Core.List.{flatten}
use jpgsync.Common.{
  ℕ, suc, ◌≤◌, ◌≡◌, refl, ap, sym, ◌∙◌, true, inl, List, [], ◌∷◌, ◌++◌, none, some, append-nil,
  arith, length, All, All-append, ==_iff,
}
use jpgsync.ExifHash.{ExifHash}
use jpgsync.ExifHasher.{
  Entry, Hashed, Hasher, Producer, finished, exif_hasher, run_step, get_ready, get_take, get_walk,
  follow,
}
use jpgsync.ExifHasher.Steps.{System}
use jpgsync.ExifHasher.Tells.{taken_of}
use jpgsync.ExifHasher.Delivery.{get_take_end}
use jpgsync.ExifHasher.Images.{images, distinct}
use jpgsync.ExifHasher.Listing.{get_walk-keeps, listed_once}
use jpgsync.ExifHasher.Walking.{length-get_walk, get_walk-nothing}
use jpgsync.Protocol.{update_hashes_per_packet}
use jpgsync.Peer.Process.{
  produced, asked, walked, Sending, getting, closed, Process, Step, Reach, hash, ask, batch, finish,
  add_count, notify_progress, send, close, load, await, leave, wake, offer, start, later,
}
use jpgsync.Peer.Process.Alone.{system-Reach}
use jpgsync.Peer.Process.Counts.{Inv-Reach}
use jpgsync.Peer.Process.Holding.{uncounted, unsent, FitsUpdate, Held, Idle, is_over, no_end}

abbrev AllReturned : System → Type 0
AllReturned s = (s.producer ≡ finished) × (s.delivered ≡ s.hasher.entries)

pub record Sent (system : System) (sending : Sending) (batches : List (List Entry)) : Type 0 where
  bounded : taken_of system.taking ≤ update_hashes_per_packet
  idle : Idle sending system.taking
  held : Held sending
  pub sizes : All FitsUpdate batches
  over : is_over sending system.taking ≡ true → AllReturned system

AllReturned-produced :
    (hash_exif : List ℕ → Hashed) (s : System) → AllReturned s → AllReturned (produced hash_exif s)
unfolding run_step
AllReturned-produced hash_exif s (fin, all) = rw fin (refl, all)

Sent-init : (paths : List (List ℕ)) → Sent (jpgsync.ExifHasher.Steps.init paths) getting []
Sent-init paths = record {
  bounded = omega arith;
  idle = tt;
  held = tt;
  sizes = tt;
  over = λ e. absurd (cc e);
}

take-le : (h : Hasher) → (get_take update_hashes_per_packet h).0 ≤ update_hashes_per_packet
unfolding get_take
take-le h = omega arith

batch-fits :
    (s : Process) {taken : ℕ} {reached : List Entry} {after : Hasher}
    → Sent s.system s.sending s.batches
    → s.system.taking ≡ some (suc taken)
    → get_walk (suc taken) s.system.hasher ≡ some (reached, after)
    → FitsUpdate reached
batch-fits s {taken} {reached} {after} v taking walk =
    let size = length-get_walk (suc taken) s.system.hasher after reached walk in
    let le : suc taken ≤ update_hashes_per_packet = rw taking at (v.bounded) in
    (omega arith, omega arith)

finish-over :
    (s : Process) {reached : List Entry} {after : Hasher}
    → AllReturned s.system
    → get_walk 0 s.system.hasher ≡ some (reached, after)
    → AllReturned (walked reached after s.system)
finish-over s {reached} {after} (fin, all) walk =
    let (same, hs) = get_walk-keeps 0 s.system.hasher after reached walk in
    (
      fin,
      rw (get_walk-nothing s.system.hasher after reached walk, same)
          (append-nil s.system.delivered ∙ all),
    )

module _ {hash_exif : List ℕ → Hashed} {received : List ExifHash} {paths : List (List ℕ)} where
  take-over :
      (s : Process)
      → Reach hash_exif received paths s
      → s.system.taking ≡ none
      → get_ready update_hashes_per_packet s.system.hasher ≡ true
      → (get_take update_hashes_per_packet s.system.hasher).0 ≡ 0
      → AllReturned (asked s.system)
  unfolding get_take
  take-over s r free ready none_left =
      get_take_end update_hashes_per_packet true hash_exif (omega arith) (inl refl) (system-Reach r)
        update_hashes_per_packet free (omega arith) ready none_left

  Sent-Step :
      {s t : Process}
      → Reach hash_exif received paths s
      → Step hash_exif received s t
      → Sent s.system s.sending s.batches
      → Sent t.system t.sending t.batches
  Sent-Step {s} r hash v = record {
    bounded = v.bounded;
    idle = v.idle;
    held = v.held;
    sizes = v.sizes;
    over = λ e. AllReturned-produced hash_exif s.system (v.over e);
  }
  Sent-Step {s} r (ask here free ready) v = record {
    bounded = take-le s.system.hasher;
    idle = rw here tt;
    held = v.held;
    sizes = v.sizes;
    over = λ e.
        take-over s r free ready
          ((==_iff (get_take update_hashes_per_packet s.system.hasher).0 0).0 (rw here at (e)));
  }
  Sent-Step {s} r (batch {taken} {reached} {after} here taking walk) v = record {
    bounded = omega arith;
    idle = refl;
    held = batch-fits s v taking walk;
    sizes = v.sizes;
    over = λ e. absurd (cc e);
  }
  Sent-Step {s} r (finish {reached} {after} here taking walk) v = record {
    bounded = omega arith;
    idle = refl;
    held = tt;
    sizes = v.sizes;
    over = λ e. finish-over s (v.over (rw (here, taking) refl)) walk;
  }
  Sent-Step {s} r (add_count here) v = record {
    bounded = v.bounded;
    idle = rw here at (v.idle);
    held = rw here at (v.held);
    sizes = v.sizes;
    over = λ e. absurd (cc e);
  }
  Sent-Step {s} r (notify_progress here) v = record {
    bounded = v.bounded;
    idle = rw here at (v.idle);
    held = rw here at (v.held);
    sizes = v.sizes;
    over = λ e. absurd (cc e);
  }
  Sent-Step {s} r (send {es} here) v = record {
    bounded = v.bounded;
    idle = tt;
    held = tt;
    sizes = All-append s.batches (es ∷ []) FitsUpdate (v.sizes, (rw here at (v.held), tt));
    over = λ e. absurd (no_end s.system.taking (rw here at (v.idle)) e);
  }
  Sent-Step {s} r (close here) v = record {
    bounded = v.bounded;
    idle = rw here at (v.idle);
    held = tt;
    sizes = v.sizes;
    over = λ e. v.over (rw here refl);
  }
  Sent-Step r (load here) v = v
  Sent-Step r (await here all on) v = v
  Sent-Step r (leave here all over) v = v
  Sent-Step r (wake here) v = v
  Sent-Step r (offer here some_more chosen) v = v

  pub Sent-Reach :
      {s : Process} → Reach hash_exif received paths s → Sent s.system s.sending s.batches
  Sent-Reach start = Sent-init paths
  Sent-Reach (later r st) = Sent-Step r st (Sent-Reach r)

  -- When the downloader has closed the update, in whatever order the threads have run: hashing is
  -- finished, the packets that were sent have, one after the other, the first image of each hash in the
  -- order of the generator, each packet has one hash at least and no more than fit, and
  -- `hasher_entry_count` is the number of those images.
  pub update_complete :
      {s : Process}
      → Reach hash_exif received paths s
      → s.sending ≡ closed
      → (s.system.producer ≡ finished)
        × (flatten s.batches ≡ distinct (images hash_exif paths))
        × All FitsUpdate s.batches
        × (s.hasher_entry_count ≡ length (distinct (images hash_exif paths)))
  unfolding uncounted unsent
  update_complete {s} r here =
      let v = Inv-Reach r in
      let sent = Sent-Reach r in
      let (fin, all) = sent.over (rw here refl) in
      let listed =
        all ∙ listed_once update_hashes_per_packet true hash_exif (system-Reach r) (inl fin) in
      let packed : flatten s.batches ++ [] ≡ s.system.delivered = rw here at (v.packed) in
      (
        fin,
        sym (append-nil (flatten s.batches)) ∙ packed ∙ listed,
        sent.sizes,
        omega (arith, v.tally, ap uncounted here, ap length listed),
      )
