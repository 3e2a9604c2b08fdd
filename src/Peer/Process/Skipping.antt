-- ===== src/Peer/Process/Skipping.antt =====
-- An execution in which the uploader leaves its loop although it has seen no entry.
use jpgsync.Common.{ℕ, ◌≡◌, ◌≢◌, refl, List, [], length}
use jpgsync.ExifHash.{ExifHash}
use jpgsync.ExifHasher.{Hashed, thrown}
use jpgsync.ExifHasher.Images.{images, distinct}
use jpgsync.Peer.Progress.{left}
use jpgsync.Peer.Process.{Process, Reach, closed, start, later, load, leave}
use jpgsync.Peer.Process.Continuing.{Run-Reach, Stale-Run}
use jpgsync.Peer.Process.Ends.{update_complete}
use jpgsync.Peer.Process.Finishing.{closes_alone}
use jpgsync.Peer.Process.Leaving.{closed_over}

-- Let `HashExif` throw for no image. Whatever the directory has, there is an execution in which the
-- update is complete and every image of it counted, but the uploader leaves its loop without having
-- processed an entry or made an offer.
pub leaves_unseen :
    (hash_exif : List ℕ → Hashed) (received : List ExifHash) (paths : List (List ℕ))
    → ((path : List ℕ) → hash_exif path ≢ thrown)
    → (s : Process) × Reach hash_exif received paths s
      × (s.sending ≡ closed)
      × (s.uploader ≡ left)
      × (s.offers ≡ [])
      × (s.processed_entry_count ≡ 0)
      × (s.hasher_entry_count ≡ length (distinct (images hash_exif paths)))
leaves_unseen hash_exif received paths safe =
    let stale : Reach hash_exif received paths _ = later start (load refl) in
    let (s, run, over) = closes_alone stale safe in
    let (at_test, none_processed, none_offered) = Stale-Run run (refl, refl, refl) in
    let r = Run-Reach stale run in
    (
      _,
      later r (leave at_test none_processed (closed_over r over)),
      over,
      refl,
      none_offered,
      none_processed,
      (update_complete r over).3,
    )
