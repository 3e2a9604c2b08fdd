-- ===== src/Peer/Progress.antt =====
-- How the uploader learns of the entries of its own hasher (src/peer.cpp, `hasher_entry_count`,
-- `hashing`, `hasher_progress` and its mutex). The downloader thread adds each batch that `Get` gives,
-- and at the end clears `hashing`; the uploader loads the count, and waits while it has processed all
-- it saw.
--
-- A step is the code of one thread between two accesses to what they share. In the source the test of
-- `hashing` and the wait lie in one critical section, and so do the reset of `hashing` and the last
-- notification; `fetch_add` and the notification behind it do not.
pub mod Races
pub mod Ends
mod Runs
use jpgsync.Common.{ℕ, suc, ◌+◌, min, Bool, true, false, List, [], ◌∷◌, ◌==◌, if◌then◌else◌}

pub data Downloader : Type 0 where
  getting : Downloader  -- at the call of `Get`
  notifying : Downloader  -- between `fetch_add` and `notify_one`
  closed : Downloader  -- `hashing` is false

pub data Uploader : Type 0 where
  loading : Uploader  -- head of the loop
  loaded : ℕ → Uploader  -- with this `total_entry_count`
  waiting : Uploader  -- in `hasher_progress.wait`
  left : Uploader  -- behind the loop

pub record Progress : Type 0 where
  -- the sizes of the batches that `Get` has still to give, before it gives none
  pub batches : List ℕ
  pub downloader : Downloader
  pub hasher_entry_count : ℕ
  pub hashing : Bool
  pub uploader : Uploader
  pub processed_entry_count : ℕ

abbrev pub init : List ℕ → Progress
init batches = record {
  batches = batches;
  downloader = getting;
  hasher_entry_count = 0;
  hashing = true;
  uploader = loading;
  processed_entry_count = 0;
}

-- `notify_one`: at most one thread waits.
abbrev pub notify : Uploader → Uploader
notify loading = loading
notify (loaded n) = loaded n
notify waiting = loading
notify left = left

unfoldable pub get_batch : List ℕ → Progress → Progress
get_batch [] s = record s { downloader = closed; hashing = false; uploader = notify s.uploader }
get_batch (k ∷ ks) s = record s {
  batches = ks;
  downloader = notifying;
  hasher_entry_count = s.hasher_entry_count + k;
}

unfoldable pub downloader_step : Downloader → Progress → Progress
downloader_step getting s = get_batch s.batches s
downloader_step notifying s = record s { downloader = getting; uploader = notify s.uploader }
downloader_step closed s = s

-- With entries to process the uploader goes on to `more + 1` of them, and not past the count it loaded.
-- A wait can also end without a notification.
unfoldable pub uploader_step : ℕ → Uploader → Progress → Progress
uploader_step more loading s = record s { uploader = loaded s.hasher_entry_count }
uploader_step more (loaded n) s =
    if s.processed_entry_count == n
    then record s { uploader = if s.hashing then waiting else left }
    else record s {
      uploader = loading;
      processed_entry_count = min n (suc (s.processed_entry_count + more));
    }
uploader_step more waiting s = record s { uploader = loading }
uploader_step more left s = s

pub data Step (s : Progress) : Progress → Type 0 where
  download : Step s (downloader_step s.downloader s)
  upload : (more : ℕ) → Step s (uploader_step more s.uploader s)

pub data Reach (batches : List ℕ) : Progress → Type 0 where
  start : Reach batches (init batches)
  later : {s t : Progress} → Reach batches s → Step s t → Reach batches t
