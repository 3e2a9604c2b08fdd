-- ===== src/Peer/Progress/Races.antt =====
-- What the interleavings of the two threads allow: the uploader never runs past what the hasher has, and
-- does not wait for ever, but it can leave entries out.
use mathlib.Core.Path.{subst}
use jpgsync.Common.{
  ℕ, ◌+◌, ◌≤◌, ◌≡◌, refl, ap, Bool, true, false, List, [], ◌∷◌, ◌==◌, if◌then◌else◌, Bool-cases,
  inl, inr, arith,
}
use jpgsync.Peer.Progress.{
  Progress, Downloader, getting, notifying, closed, Uploader, loading, loaded, waiting, left,
  notify, get_batch, downloader_step, uploader_step, download, upload, Reach, start, later,
}

unfoldable pub sum : List ℕ → ℕ
sum [] = 0
sum (k ∷ ks) = k + sum ks

-- The entries that the uploader knows of.
abbrev seen : Uploader → ℕ
seen loading = 0
seen (loaded n) = n
seen waiting = 0
seen left = 0

abbrev OpenWait : Uploader → Bool → Type 0
OpenWait waiting hashing = hashing ≡ true
OpenWait loading hashing = Unit {0}
OpenWait (loaded n) hashing = Unit {0}
OpenWait left hashing = Unit {0}

record Inv (total : ℕ) (s : Progress) : Type 0 where
  counted : s.hasher_entry_count + sum s.batches ≡ total
  processed : s.processed_entry_count ≤ s.hasher_entry_count
  known : seen s.uploader ≤ s.hasher_entry_count
  waits : OpenWait s.uploader s.hashing

seen-notify : (u : Uploader) (n : ℕ) → seen u ≤ n → seen (notify u) ≤ n
seen-notify loading n h = h
seen-notify (loaded k) n h = h
seen-notify waiting n h = h
seen-notify left n h = h

notified : (u : Uploader) (hashing : Bool) → OpenWait (notify u) hashing
notified loading hashing = tt
notified (loaded n) hashing = tt
notified waiting hashing = tt
notified left hashing = tt

Inv-get_batch :
    (t : ℕ) (b : List ℕ) (s : Progress) → s.batches ≡ b → Inv t s → Inv t (get_batch b s)
unfolding get_batch sum
Inv-get_batch t [] s e v = record {
  counted = v.counted;
  processed = v.processed;
  known = seen-notify s.uploader s.hasher_entry_count v.known;
  waits = notified s.uploader false;
}
Inv-get_batch t (k ∷ ks) s e v = record {
  counted = omega (arith, v.counted, ap sum e);
  processed = omega (arith, v.processed);
  known = omega (arith, v.known);
  waits = v.waits;
}

Inv-downloader_step :
    (t : ℕ) (d : Downloader) (s : Progress) → Inv t s → Inv t (downloader_step d s)
unfolding downloader_step
Inv-downloader_step t getting s v = Inv-get_batch t s.batches s refl v
Inv-downloader_step t notifying s v = record {
  counted = v.counted;
  processed = v.processed;
  known = seen-notify s.uploader s.hasher_entry_count v.known;
  waits = notified s.uploader s.hashing;
}
Inv-downloader_step t closed s v = v

left_or_waiting : (b : Bool) → OpenWait (if b then waiting else left) b
left_or_waiting true = refl
left_or_waiting false = tt

nothing_seen : (b : Bool) (n : ℕ) → seen (if b then waiting else left) ≤ n
nothing_seen true n = omega arith
nothing_seen false n = omega arith

Inv-uploader_step :
    (t more : ℕ) (u : Uploader) (s : Progress)
    → s.uploader ≡ u
    → Inv t s
    → Inv t (uploader_step more u s)
unfolding uploader_step
Inv-uploader_step t more loading s e v = record {
  counted = v.counted;
  processed = v.processed;
  known = omega arith;
  waits = tt;
}
Inv-uploader_step t more (loaded n) s e v = elim (Bool-cases (s.processed_entry_count == n)) [
  | inl all ↦ rw all (record {
    counted = v.counted;
    processed = v.processed;
    known = nothing_seen s.hashing s.hasher_entry_count;
    waits = left_or_waiting s.hashing;
  })
  | inr some_more ↦ rw some_more (record {
    counted = v.counted;
    processed = omega (arith, v.known, ap seen e);
    known = omega arith;
    waits = tt;
  })
]
Inv-uploader_step t more waiting s e v = record {
  counted = v.counted;
  processed = v.processed;
  known = omega arith;
  waits = tt;
}
Inv-uploader_step t more left s e v = v

-- The uploader has loaded the count 0, and the downloader is at the call of `Get`.
abbrev stale : List ℕ → ℕ → Progress
stale rest count = record {
  batches = rest;
  downloader = getting;
  hasher_entry_count = count;
  hashing = true;
  uploader = loaded 0;
  processed_entry_count = 0;
}

module _ {batches : List ℕ} where
  Inv-Reach : {s : Progress} → Reach batches s → Inv (sum batches) s
  Inv-Reach start = record {
    counted = omega arith;
    processed = omega arith;
    known = omega arith;
    waits = tt;
  }
  Inv-Reach (later {s} r download) = Inv-downloader_step (sum batches) s.downloader s (Inv-Reach r)
  Inv-Reach (later {s} r (upload more)) =
      Inv-uploader_step (sum batches) more s.uploader s refl (Inv-Reach r)

  -- In every reachable state the uploader has processed no more entries than the downloader has counted,
  -- and those are no more than the batches of the hasher have together.
  pub processed_bounded :
      {s : Progress}
      → Reach batches s
      → (s.processed_entry_count ≤ s.hasher_entry_count) × (s.hasher_entry_count ≤ sum batches)
  processed_bounded r = let v = Inv-Reach r in (v.processed, omega (arith, v.counted))

  -- In no reachable state does the uploader wait when the hashing is over.
  pub never_waits_closed :
      {s : Progress} → Reach batches s → s.uploader ≡ waiting → s.hashing ≡ true
  never_waits_closed {s} r e = subst (λ u. OpenWait u s.hashing) e (Inv-Reach r).waits

  drain :
      (rest : List ℕ) (count : ℕ)
      → Reach batches (stale rest count)
      → (n : ℕ) × Reach batches (stale [] n) × (n ≡ count + sum rest)
  unfolding downloader_step get_batch sum
  drain [] count r = (count, r, omega arith)
  drain (k ∷ ks) count r =
      let (n, r', e) = drain ks (count + k) (later (later r download) download) in
      (n, r', omega arith)

  stale_start : Reach batches (stale batches 0)
  unfolding uploader_step
  stale_start = later start (upload 0)

-- Whatever batches the hasher has, there is an execution in which the uploader ends without having
-- processed any entry, although the downloader has counted all of them.
pub leaves_early :
    (batches : List ℕ)
    → (s : Progress) × Reach batches s
      × (s.uploader ≡ left)
      × (s.processed_entry_count ≡ 0)
      × (s.hasher_entry_count ≡ sum batches)
unfolding downloader_step get_batch uploader_step
leaves_early batches =
    let (n, r, e) = drain batches 0 stale_start in
    (_, later (later r download) (upload 0), refl, refl, omega (arith, e))
