-- ===== src/Peer/Progress/Runs.antt =====
-- Executions of the two threads on a hasher that gives batches of 2 and 3 entries.
use jpgsync.Common.{◌≡◌, refl, false, [], ◌∷◌}
use jpgsync.Peer.Progress.{
  Progress, loading, waiting, Reach, start, later, download, upload, downloader_step, get_batch,
  uploader_step,
}

abbrev Run : Type 0
Run = (s : Progress) × Reach (2 ∷ 3 ∷ []) s

-- The downloader counts the first batch, and the uploader processes two entries of it.
abbrev processed_two : Run
processed_two = (_, later (later (later start download) (upload 0)) (upload 1))

processed_two_count :
    (processed_two.0.processed_entry_count ≡ 2) × (processed_two.0.hasher_entry_count ≡ 2)
unfolding downloader_step get_batch uploader_step
processed_two_count = (refl, refl)

-- The uploader finds nothing counted.
waits : Run
waits = (_, later (later start (upload 0)) (upload 0))

waits_waiting : waits.0.uploader ≡ waiting
unfolding waits uploader_step
waits_waiting = refl

-- The downloader has counted both batches, and hashing is over.
over : Run
over = (_, later (later (later (later (later start download) download) download) download) download)

over_state : (over.0.hashing ≡ false) × (over.0.uploader ≡ loading)
unfolding over downloader_step get_batch
over_state = (refl, refl)
