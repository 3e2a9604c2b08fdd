-- ===== src/Peer/Update/Collecting.antt =====
-- The threads of the uploader that share `received_hashes` (src/peer.cpp): `update_receiver`, whose
-- rounds hold `updated_mutex`, and the uploader itself, which sets `updated` under it. DCCP may lose
-- packets or give them in another order.
use mathlib.Core.Option.{some-injective}
use jpgsync.Common.{
  ℕ, suc, ◌*◌, ◌%◌, ◌<◌, ◌≡◌, ◌≢◌, refl, sym, ap, ◌∙◌, Bool, true, false, ◌||◌, List, [], ◌∷◌, none,
  some, arith, length,
}
use jpgsync.ExifHash.{ExifHash}
use jpgsync.ExifHasher.{Entry, insert, count}
use jpgsync.ExifHasher.Contents.{count-insert, hashes_of}
use jpgsync.Host.{Host}
use jpgsync.Peer.Offer.Reading.{AllHashes}
use jpgsync.Peer.Update.{fill_packet, receive_update}
use jpgsync.Peer.Update.Packet.{insert_all, length-fill_packet, receive_update-fill_packet}

pub record Collector : Type 0 where
  pub received : List ExifHash
  pub updated : Bool
  pub receiving : Bool

abbrev pub collector : Collector
collector = record { received = []; updated = false; receiving = true }

-- What the receiver reads: the packet of a batch, or something that is no whole number of hashes.
pub data Arrival : Type 0 where
  whole : List Entry → Arrival
  cut : List ℕ → Arrival

-- Whether one of them has the hash.
unfoldable pub brings : List Arrival → ExifHash → Bool
brings [] h = false
brings (whole es ∷ taken) h = count (hashes_of es) h || brings taken h
brings (cut buf ∷ taken) h = brings taken h

abbrev pub IsArrival : Arrival → Type 0
IsArrival (whole es) = AllHashes es × 0 < length es
IsArrival (cut buf) = length buf % 20 ≢ 0

module _ (host : Host) where
  unfoldable pub bytes : Arrival → List ℕ
  bytes (whole es) = fill_packet host es []
  bytes (cut buf) = buf

  -- The states that the two threads reach from one, with what the receiver has taken on the way, the
  -- latest first.
  pub data Reach (from : Collector) : List Arrival → Collector → Type 0 where
    start : Reach from [] from
    collect :
        {taken : List Arrival} {s : Collector} {received : List ExifHash} (a : Arrival)
        → Reach from taken s
        → s.receiving ≡ true
        → IsArrival a
        → receive_update s.updated (bytes a) s.received ≡ some received
        → Reach from (a ∷ taken) (record s { received = received })
    -- the end of the connection, or a packet behind the end of the update
    stop :
        {taken : List Arrival} {s : Collector} (buf : List ℕ)
        → Reach from taken s
        → s.receiving ≡ true
        → receive_update s.updated buf s.received ≡ none
        → Reach from taken (record s { receiving = false })
    mark :
        {taken : List Arrival} {s : Collector}
        → Reach from taken s
        → Reach from taken (record s { updated = true })

count-insert_all :
    (es : List Entry) (hs : List ExifHash) (h : ExifHash)
    → count (insert_all es hs) h ≡ (count (hashes_of es) h || count hs h)
unfolding insert_all count
count-insert_all [] hs h = refl
count-insert_all (e ∷ es) hs h =
    ground (arith, count-insert_all es (insert e.hash hs) h, count-insert e.hash h hs)

receive_update_cut :
    (buf : List ℕ) (updated : Bool) (received r : List ExifHash)
    → length buf % 20 ≢ 0
    → receive_update updated buf received ≡ some r
    → received ≡ r
unfolding receive_update
receive_update_cut buf updated received r ne e = ground arith

receive_update_marked :
    (buf : List ℕ) (received r : List ExifHash)
    → receive_update true buf received ≡ some r
    → received ≡ r
unfolding receive_update
receive_update_marked buf received r e = ground arith

-- A packet behind the end of the update is not taken.
receive_update_late :
    (buf : List ℕ) (k : ℕ) (received r : List ExifHash)
    → length buf ≡ 20 * suc k
    → receive_update true buf received ≡ some r
    → ⊥
unfolding receive_update
receive_update_late buf k received r h e = ground arith

brings-cons :
    (a : Arrival) (taken : List Arrival) (h : ExifHash)
    → brings (a ∷ taken) h ≡ (brings (a ∷ []) h || brings taken h)
unfolding brings
brings-cons (whole es) taken h = ground arith
brings-cons (cut buf) taken h = refl

none_before : (b : Bool) (h : ExifHash) → (b || count collector.received h) ≡ b
unfolding count
none_before b h = ground arith

module _ (host : Host) where
  -- What one arrival adds.
  collect_lem :
      (a : Arrival) (updated : Bool) (received r : List ExifHash) (h : ExifHash)
      → IsArrival a
      → receive_update updated (bytes host a) received ≡ some r
      → count r h ≡ (brings (a ∷ []) h || count received h)
  unfolding brings bytes
  collect_lem (cut buf) updated received r h ok e =
      ap (λ hs. count hs h) (sym (receive_update_cut buf updated received r ok e))
  collect_lem (whole []) updated received r h (v, pos) e = absurd (omega arith)
  collect_lem (whole (x ∷ xs)) true received r h (v, pos) e = absurd (
      receive_update_late (fill_packet host (x ∷ xs) []) (length xs) received r
        (length-fill_packet host (x ∷ xs) [] v ∙ omega arith) e)
  collect_lem (whole (x ∷ xs)) false received r h (v, pos) e =
      let same : insert_all (x ∷ xs) received ≡ r =
        some-injective (insert_all (x ∷ xs) received) r
          (sym (receive_update-fill_packet host x xs received v) ∙ e) in
      ap (λ hs. count hs h) (sym same) ∙ count-insert_all (x ∷ xs) received h ∙ ground arith

  update_frozen_from :
      {from to : Collector} {taken : List Arrival}
      → Reach host from taken to
      → from.updated ≡ true
      → (to.updated ≡ true) × (to.received ≡ from.received)
  update_frozen_from start u = (u, refl)
  update_frozen_from (collect {s = s} {received = r} a reach on ok e) u =
      let (u', same) = update_frozen_from reach u in
      (u', sym (receive_update_marked (bytes host a) s.received r (rw u' at e)) ∙ same)
  update_frozen_from (stop buf reach on e) u = update_frozen_from reach u
  update_frozen_from (mark reach) u = (refl, (update_frozen_from reach u).1)

  -- The received hashes are those before and those of the packets that the receiver took.
  pub received_brought :
      {from to : Collector} {taken : List Arrival} (h : ExifHash)
      → Reach host from taken to
      → count to.received h ≡ (brings taken h || count from.received h)
  unfolding brings
  received_brought h start = refl
  received_brought h (collect {taken = taken} {s = s} {received = r} a reach on ok e) = ground (
    arith,
    received_brought h reach,
    collect_lem a s.updated s.received r h ok e,
    brings-cons a taken h,
  )
  received_brought h (stop buf reach on e) = received_brought h reach
  received_brought h (mark reach) = received_brought h reach

  -- However packets are lost, repeated or given in another order: from the end of the update on, the
  -- hashes that the uploader finds in the set are just those of the packets that the receiver took
  -- before, whatever else arrives.
  pub received_settled :
      {s t : Collector} {taken later : List Arrival} (h : ExifHash)
      → Reach host collector taken s
      → s.updated ≡ true
      → Reach host s later t
      → count t.received h ≡ brings taken h
  received_settled {s = s} {taken = taken} h before u after =
      ap (λ hs. count hs h) (update_frozen_from after u).1
      ∙ received_brought h before
      ∙ none_before (brings taken h) h
