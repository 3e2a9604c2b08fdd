-- ===== src/Peer/Progress/Ends.antt =====
-- The end of the uploader: once hashing is over it comes to its end by itself.
use mathlib.Core.Path.{subst}
use jpgsync.Common.{
  ℕ, zero, suc, ◌+◌, ◌-◌, ◌*◌, ◌≤◌, ◌<◌, ◌≡◌, refl, ap, sym, ◌∙◌, false, List, ◌==◌, Bool-cases,
  ◌⊎◌, inl, inr, arith,
}
use jpgsync.Peer.Progress.{Progress, Uploader, loading, loaded, waiting, left, uploader_step, Reach}
use jpgsync.Peer.Progress.Races.{processed_bounded}

-- `k` steps of the uploader, while the downloader does nothing; `mores` says how far each goes.
unfoldable pub upload_steps : ℕ → (ℕ → ℕ) → Progress → Progress
upload_steps zero mores s = s
upload_steps (suc k) mores s =
    upload_steps k (λ i. mores (suc i)) (uploader_step (mores 0) s.uploader s)

-- What it has loaded is the final count, and it has not left before.
abbrev UpToDate : Uploader → ℕ → ℕ → Type 0
UpToDate loading processed count = Unit
UpToDate (loaded n) processed count = n ≡ count
UpToDate waiting processed count = ⊥
UpToDate left processed count = processed ≡ count

record IsFinal (s : Progress) : Type 0 where
  over : s.hashing ≡ false
  bounded : s.processed_entry_count ≤ s.hasher_entry_count
  up_to_date : UpToDate s.uploader s.processed_entry_count s.hasher_entry_count

-- An upper bound on the steps that are left, with `n` entries to process.
steps_left : Uploader → ℕ → ℕ
steps_left loading n = 2 * n + 2
steps_left (loaded k) n = 2 * n + 1
steps_left waiting n = 0
steps_left left n = 0

abbrev remaining : Progress → ℕ
remaining s = s.hasher_entry_count - s.processed_entry_count

-- A step keeps that, and the bound goes down unless the uploader has left.
IsFinal-uploader_step :
    (more : ℕ) (u : Uploader) (s : Progress)
    → s.uploader ≡ u
    → IsFinal s
    → IsFinal (uploader_step more u s)
      × ((u ≡ left)
          ⊎ (steps_left (uploader_step more u s).uploader (remaining (uploader_step more u s))
              < steps_left u (remaining s)))
      × ((uploader_step more u s).hasher_entry_count ≡ s.hasher_entry_count)
unfolding uploader_step steps_left
IsFinal-uploader_step more loading s e f =
    (record { over = f.over; bounded = f.bounded; up_to_date = refl }, inr (omega arith), refl)
IsFinal-uploader_step more (loaded n) s e f =
    let final : n ≡ s.hasher_entry_count =
      subst (λ u. UpToDate u s.processed_entry_count s.hasher_entry_count) e f.up_to_date in
    elim (Bool-cases (s.processed_entry_count == n)) [
      | inl all ↦
          rw (all, f.over)
            (
              record { over = refl; bounded = f.bounded; up_to_date = ground arith },
              inr (omega arith),
              refl,
            )
      | inr some_more ↦ rw some_more (
        record { over = f.over; bounded = omega arith; up_to_date = tt },
        inr (ground (arith, f.bounded)),
        refl,
      )
    ]
IsFinal-uploader_step more waiting s e f =
    absurd (subst (λ u. UpToDate u s.processed_entry_count s.hasher_entry_count) e f.up_to_date)
IsFinal-uploader_step more left s e f = (f, inl refl, refl)

upload_steps_left :
    (k : ℕ) (mores : ℕ → ℕ) (s : Progress) → s.uploader ≡ left → upload_steps k mores s ≡ s
unfolding upload_steps uploader_step
upload_steps_left zero mores s e = refl
upload_steps_left (suc k) mores s e =
    ap (λ u. upload_steps k (λ i. mores (suc i)) (uploader_step (mores 0) u s)) e
    ∙ upload_steps_left k (λ i. mores (suc i)) s e

at_end :
    (u : Uploader) (processed count n : ℕ)
    → UpToDate u processed count
    → steps_left u n ≤ 0
    → (u ≡ left) × (processed ≡ count)
unfolding steps_left
at_end loading processed count n f h = absurd (omega arith)
at_end (loaded k) processed count n f h = absurd (omega arith)
at_end waiting processed count n f h = absurd f
at_end left processed count n f h = (refl, f)

upload_steps_end :
    (k : ℕ) (mores : ℕ → ℕ) (s : Progress)
    → IsFinal s
    → steps_left s.uploader (remaining s) ≤ k
    → ((upload_steps k mores s).uploader ≡ left)
      × ((upload_steps k mores s).processed_entry_count ≡ s.hasher_entry_count)
unfolding upload_steps
upload_steps_end zero mores s f h =
    at_end s.uploader s.processed_entry_count s.hasher_entry_count (remaining s) f.up_to_date h
upload_steps_end (suc k) mores s f h =
    let (f', progress, same) = IsFinal-uploader_step (mores 0) s.uploader s refl f in
    elim progress [
      | inl e ↦
          rw (upload_steps_left (suc k) mores s e)
            (e, subst (λ u. UpToDate u s.processed_entry_count s.hasher_entry_count) e f.up_to_date)
      | inr lt ↦
          let (gone, all) =
            upload_steps_end k (λ i. mores (suc i)) (uploader_step (mores 0) s.uploader s) f'
              (omega arith) in
          (gone, all ∙ same)
    ]

-- Let hashing be over when the uploader is at the head of its loop. However far it goes in each round, it
-- leaves the loop within two steps for each entry that it has not processed and two more, and it has then
-- processed every entry that the downloader has counted.
pub uploader_completes :
    {batches : List ℕ} {s : Progress} (mores : ℕ → ℕ)
    → Reach batches s
    → s.hashing ≡ false
    → s.uploader ≡ loading
    → ((upload_steps (2 * (s.hasher_entry_count - s.processed_entry_count) + 2) mores s).uploader
        ≡ left)
      × ((upload_steps
            (2 * (s.hasher_entry_count - s.processed_entry_count) + 2)
            mores
            s).processed_entry_count
          ≡ s.hasher_entry_count)
unfolding steps_left
uploader_completes {s = s} mores r over head =
    upload_steps_end (2 * (s.hasher_entry_count - s.processed_entry_count) + 2) mores s
      (record {
        over = over;
        bounded = (processed_bounded r).0;
        up_to_date =
            subst (λ u. UpToDate u s.processed_entry_count s.hasher_entry_count) (sym head) tt;
      })
      (omega (arith, ap (λ u. steps_left u (remaining s)) head))
