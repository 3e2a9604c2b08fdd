-- ===== src/Peer/Process/Closing.antt =====
-- Once hashing is finished the downloader can always go on until it has closed the update.
use jpgsync.Common.{
  ℕ, zero, suc, ◌+◌, ◌<◌, ◌≡◌, refl, ap, ◌∙◌, true, inl, inr, List, none, some, Option-cases, arith,
  length, length-append,
}
use jpgsync.ExifHash.{ExifHash}
use jpgsync.ExifHasher.{Entry, Hashed, finished, get_take}
use jpgsync.ExifHasher.Delivery.{get_walk_safe, get_ready_finished}
use jpgsync.ExifHasher.Listing.{get_walk-keeps}
use jpgsync.Protocol.{update_hashes_per_packet}
use jpgsync.Peer.Process.{
  Sending, getting, counting, notifying, packing, closing, closed, Process, Reach, ask, batch,
  finish, add_count, notify_progress, send, close, later,
}
use jpgsync.Peer.Process.Continuing.{stop, go, join, Run-Reach, Downloading}
use jpgsync.Peer.Process.Alone.{system-Reach}
use jpgsync.Peer.Process.Counts.{delivered-le}
use jpgsync.ExifHasher.Walking.{length-get_walk}

module _ (hash_exif : List ℕ → Hashed) (received : List ExifHash) where
  -- A batch that `Get` gave is counted and sent.
  record Back (s : Process) : Type 0 where
    t : Process
    run : Downloading hash_exif received s t
    here : t.sending ≡ getting
    same : t.system ≡ s.system

  -- A call of `Get` that has taken `n` entries gives them, and they are sent.
  record Gave (s : Process) (n : ℕ) : Type 0 where
    t : Process
    run : Downloading hash_exif received s t
    here : t.sending ≡ getting
    free : t.system.taking ≡ none
    producer : t.system.producer ≡ s.system.producer
    entries : t.system.hasher.entries ≡ s.system.hasher.entries
    delivered : length t.system.delivered ≡ length s.system.delivered + n

  abbrev pub Closes : Process → Type 0
  Closes s = (t : Process) × Downloading hash_exif received s t × (t.sending ≡ closed)

module _ {hash_exif : List ℕ → Hashed} {received : List ExifHash} where
  send_packing :
      (s : Process) (es : List Entry) → s.sending ≡ packing es → Back hash_exif received s
  send_packing s es e = record { t = _; run = go (send e) refl stop; here = refl; same = refl }

  send_notifying :
      (s : Process) (es : List Entry) → s.sending ≡ notifying es → Back hash_exif received s
  send_notifying s es e = record {
    t = _;
    run = go (notify_progress e) refl (go (send refl) refl stop);
    here = refl;
    same = refl;
  }

  send_counting :
      (s : Process) (es : List Entry) → s.sending ≡ counting es → Back hash_exif received s
  send_counting s es e = record {
    t = _;
    run = go (add_count e) refl (go (notify_progress refl) refl (go (send refl) refl stop));
    here = refl;
    same = refl;
  }

  close_from :
      {s t : Process}
      → Downloading hash_exif received s t
      → Closes hash_exif received t
      → Closes hash_exif received s
  close_from r (u, r', e) = (u, join r r', e)

module _ {hash_exif : List ℕ → Hashed} {received : List ExifHash} {paths : List (List ℕ)} where
  -- A call of `Get` that has taken nothing ends the loop.
  end_taken :
      {s : Process}
      → Reach hash_exif received paths s
      → s.sending ≡ getting
      → s.system.taking ≡ some 0
      → Closes hash_exif received s
  end_taken {s} r here taking =
      let ((reached, after), walk) =
        get_walk_safe update_hashes_per_packet true hash_exif (omega arith) (inl refl)
          (system-Reach r) 0 taking in
      (_, go (finish here taking walk) refl (go (close refl) refl stop), refl)

  batch_taken :
      {s : Process} (n : ℕ)
      → Reach hash_exif received paths s
      → s.sending ≡ getting
      → s.system.taking ≡ some (suc n)
      → Gave hash_exif received s (suc n)
  batch_taken {s} n r here taking =
      let ((reached, after), walk) =
        get_walk_safe update_hashes_per_packet true hash_exif (omega arith) (inl refl)
          (system-Reach r) (suc n) taking in
      let sent : Back hash_exif received _ = send_counting _ reached refl in
      record {
        t = sent.t;
        run = go (batch here taking walk) refl sent.run;
        here = sent.here;
        free = ap (λ y. y.taking) sent.same;
        producer = ap (λ y. y.producer) sent.same;
        entries =
            ap (λ y. y.hasher.entries) sent.same
            ∙ (get_walk-keeps (suc n) s.system.hasher after reached walk).0;
        delivered =
            ap (λ y. length y.delivered) sent.same
            ∙ omega (
              arith,
              length-append s.system.delivered reached,
              length-get_walk (suc n) s.system.hasher after reached walk,
            );
      }

  drain_taken :
      (fuel n : ℕ) {s : Process}
      → Reach hash_exif received paths s
      → s.system.producer ≡ finished
      → s.sending ≡ getting
      → s.system.taking ≡ some n
      → length s.system.hasher.entries < suc fuel + length s.system.delivered
      → ((t : Process)
          → Reach hash_exif received paths t
          → t.system.producer ≡ finished
          → t.sending ≡ getting
          → length t.system.hasher.entries < fuel + length t.system.delivered
          → Closes hash_exif received t)
      → Closes hash_exif received s
  drain_taken fuel zero r over here taking fits more = end_taken r here taking
  drain_taken fuel (suc n) r over here taking fits more =
      let g = batch_taken n r here taking in
      close_from g.run (
        more g.t (Run-Reach r g.run) (g.producer ∙ over) g.here
          (omega (arith, ap length g.entries, g.delivered)))

  -- One round of the loop for each entry that is left, and one more.
  drain :
      (fuel : ℕ) {s : Process}
      → Reach hash_exif received paths s
      → s.system.producer ≡ finished
      → s.sending ≡ getting
      → length s.system.hasher.entries < fuel + length s.system.delivered
      → Closes hash_exif received s
  unfolding get_take
  drain zero r over here fits = absurd (omega (arith, delivered-le r))
  drain (suc fuel) {s} r over here fits = elim (Option-cases s.system.taking) [
    | inl free ↦
        let ready =
          get_ready_finished update_hashes_per_packet true hash_exif (omega arith) (inl refl)
            (system-Reach r) update_hashes_per_packet over in
        let asks = ask here free ready in
        close_from (go asks refl stop) (
          drain_taken fuel (get_take update_hashes_per_packet s.system.hasher).0 (later r asks) over
            here refl fits (λ t. drain fuel {s = t}))
    | inr (n, taking) ↦ drain_taken fuel n r over here taking fits (λ t. drain fuel {s = t})
  ]

  drain_back :
      {s : Process}
      → Reach hash_exif received paths s
      → s.system.producer ≡ finished
      → Back hash_exif received s
      → Closes hash_exif received s
  drain_back {s} r over b = close_from b.run (
      drain (suc (length b.t.system.hasher.entries)) (Run-Reach r b.run)
        (ap (λ y. y.producer) b.same ∙ over) b.here (omega arith))

  closes_at :
      (at_now : Sending) {s : Process}
      → Reach hash_exif received paths s
      → s.system.producer ≡ finished
      → s.sending ≡ at_now
      → Closes hash_exif received s
  closes_at getting {s} r over here =
      drain (suc (length s.system.hasher.entries)) r over here (omega arith)
  closes_at (counting es) {s} r over here = drain_back r over (send_counting s es here)
  closes_at (notifying es) {s} r over here = drain_back r over (send_notifying s es here)
  closes_at (packing es) {s} r over here = drain_back r over (send_packing s es here)
  closes_at closing r over here = (_, go (close here) refl stop, refl)
  closes_at closed {s} r over here = (s, stop, here)

  -- From every reachable state in which hashing is finished the downloader can go on until it has
  -- closed the update, without a step of the uploader.
  pub closes :
      {s : Process}
      → Reach hash_exif received paths s
      → s.system.producer ≡ finished
      → Closes hash_exif received s
  closes {s} r over = closes_at s.sending r over refl
