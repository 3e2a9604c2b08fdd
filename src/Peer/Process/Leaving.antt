-- ===== src/Peer/Process/Leaving.antt =====
-- A process can always come to its end: hashing finishes, then the downloader closes the update, then the
-- uploader leaves its loop.
use mathlib.Core.Path.{subst}
use jpgsync.Common.{
  ℕ, zero, suc, ◌+◌, ◌<◌, ◌≡◌, ◌≢◌, refl, ap, sym, ◌∙◌, Bool, true, false, inl, inr, List,
  Bool-cases, arith, ◌==◌, ==_iff,
}
use jpgsync.ExifHash.{ExifHash}
use jpgsync.ExifHasher.{Hashed, thrown}
use jpgsync.Peer.Progress.{Uploader, loading, loaded, waiting, left}
use jpgsync.Peer.Process.Holding.{is_open}
use jpgsync.Peer.Process.{
  Sending, getting, counting, notifying, packing, closing, closed, Process, Reach, load, leave,
  offer, later,
}
use jpgsync.Peer.Process.Counts.{Inv-Reach}
use jpgsync.Peer.Process.Uploading.{Obeys}
use jpgsync.Peer.Process.Offered.{choose_safe, offers_made}
use jpgsync.Peer.Process.Finishing.{closes_alone}
use jpgsync.Peer.Process.Continuing.{
  stop, go, join, Run-Reach, Prompt, Downloading-Prompt, AtHead, AtHead-Run,
}

module _ (hash_exif : List ℕ → Hashed) (received : List ExifHash) where
  abbrev pub Leaves : Process → Type 0
  Leaves s =
      (t : Process) × Prompt hash_exif received s t × (t.sending ≡ closed) × (t.uploader ≡ left)

  -- With all entries processed that were counted.
  abbrev pub Completes : Process → Type 0
  Completes s =
      (t : Process) × Prompt hash_exif received s t
      × (t.sending ≡ closed)
      × (t.uploader ≡ left)
      × (t.processed_entry_count ≡ t.hasher_entry_count)

no_wait : (b : Bool) → b ≡ true → b ≡ false → ⊥
no_wait true on over = cc
no_wait false on over = cc

is_open-closed : (x : Sending) → is_open x ≡ false → x ≡ closed
is_open-closed getting e = cc
is_open-closed (counting es) e = cc
is_open-closed (notifying es) e = cc
is_open-closed (packing es) e = cc
is_open-closed closing e = cc
is_open-closed closed e = refl

module _ {hash_exif : List ℕ → Hashed} {received : List ExifHash} {paths : List (List ℕ)} where
  -- The uploader leaves only when the update is closed.
  pub left_closed :
      {s : Process} → Reach hash_exif received paths s → s.uploader ≡ left → s.sending ≡ closed
  left_closed {s} r e =
      let v = Inv-Reach r in
      let over : Obeys left s.hashing = subst (λ u. Obeys u s.hashing) e v.obeys in
      is_open-closed s.sending (sym v.open_until ∙ over)

  pub closed_over :
      {s : Process} → Reach hash_exif received paths s → s.sending ≡ closed → s.hashing ≡ false
  closed_over {s} r e = (Inv-Reach r).open_until ∙ ap is_open e

  -- From the head of its loop.
  ends_loading :
      (fuel : ℕ) {s : Process}
      → Reach hash_exif received paths s
      → s.sending ≡ closed
      → s.uploader ≡ loading
      → s.hasher_entry_count < fuel + s.processed_entry_count
      → Completes hash_exif received s
  ends_loading zero {s} r over head fits = absurd (omega (arith, (offers_made r).2))
  ends_loading (suc fuel) {s} r over head fits =
      elim (Bool-cases (s.processed_entry_count == s.hasher_entry_count)) [
        | inl all ↦ (
          _,
          go (load head) refl (
              go
                (leave refl ((==_iff s.processed_entry_count s.hasher_entry_count).0 all)
                  (closed_over r over))
                refl stop),
          over,
          refl,
          (==_iff s.processed_entry_count s.hasher_entry_count).0 all,
        )
        | inr some_more ↦
            let (c, is_c, more, le) = choose_safe (later r (load head)) refl some_more in
            let offers = offer refl some_more is_c in
            let (t, r', e, e', all) =
              ends_loading fuel (later (later r (load head)) offers) over refl (omega arith) in
            (t, go (load head) refl (go offers refl r'), e, e', all)
      ]

  ends_at :
      (u : Uploader) {s : Process}
      → Reach hash_exif received paths s
      → s.sending ≡ closed
      → s.uploader ≡ u
      → Leaves hash_exif received s
  ends_at loading {s} r over e =
      let (t, r', e', e'', all) = ends_loading (suc s.hasher_entry_count) r over e (omega arith) in
      (t, r', e', e'')
  ends_at (loaded n) {s} r over e = elim (Bool-cases (s.processed_entry_count == n)) [
    | inl all ↦ (
      _,
      go (leave e ((==_iff s.processed_entry_count n).0 all) (closed_over r over)) refl stop,
      over,
      refl,
    )
    | inr some_more ↦
        let (c, is_c, more, le) = choose_safe r e some_more in
        let offers = offer e some_more is_c in
        let (t, r', e, e', all) =
          ends_loading (suc s.hasher_entry_count) (later r offers) over refl (omega arith) in
        (t, go offers refl r', e, e')
  ]
  ends_at waiting {s} r over e =
      let on : Obeys waiting s.hashing = subst (λ u. Obeys u s.hashing) e (Inv-Reach r).obeys in
      absurd (no_wait s.hashing on (closed_over r over))
  ends_at left {s} r over e = (s, stop, over, e)

  -- Let `HashExif` throw for no image. Then the threads never block each other: from every reachable
  -- state there is an execution, in which no wait ends without a notification, that closes the update
  -- and in which the uploader leaves its loop.
  pub can_end :
      {s : Process}
      → Reach hash_exif received paths s
      → ((path : List ℕ) → hash_exif path ≢ thrown)
      → Leaves hash_exif received s
  can_end r safe =
      let (s2, r2, over) = closes_alone r safe in
      let (t, r3, e, e') = ends_at s2.uploader (Run-Reach r r2) over refl in
      (t, join (Downloading-Prompt r2) r3, e, e')

  head_loading :
      (u : Uploader) {s : Process}
      → Reach hash_exif received paths s
      → s.sending ≡ closed
      → s.uploader ≡ u
      → AtHead u
      → u ≡ loading
  head_loading loading r over e head = refl
  head_loading (loaded n) r over e head = absurd head
  head_loading waiting {s} r over e head =
      let on : Obeys waiting s.hashing = subst (λ u. Obeys u s.hashing) e (Inv-Reach r).obeys in
      absurd (no_wait s.hashing on (closed_over r over))
  head_loading left r over e head = absurd head

  -- Let `HashExif` throw for no image. From every reachable state in which the uploader is at the head
  -- of its loop, or waits, there is an execution, in which no wait ends without a notification, that
  -- closes the update and in which the uploader leaves its loop with all entries processed.
  pub can_complete :
      {s : Process}
      → Reach hash_exif received paths s
      → AtHead s.uploader
      → ((path : List ℕ) → hash_exif path ≢ thrown)
      → Completes hash_exif received s
  can_complete r head safe =
      let (s2, r2, over) = closes_alone r safe in
      let a2 = Run-Reach r r2 in
      let at_load = head_loading s2.uploader a2 over refl (AtHead-Run r2 head) in
      let (t, r3, e, e', all) =
        ends_loading (suc s2.hasher_entry_count) a2 over at_load (omega arith) in
      (t, join (Downloading-Prompt r2) r3, e, e', all)
