-- ===== src/Peer/Process/Continuing.antt =====
-- Continuations of an execution by steps of some kinds only.
use jpgsync.Common.{ℕ, ◌≡◌, refl, Bool, true, false, List, ap}
use jpgsync.ExifHash.{ExifHash}
use jpgsync.ExifHasher.{Entry, Hashed}
use jpgsync.Peer.Progress.{Uploader, loading, loaded, waiting, left, notify}
use jpgsync.Peer.Process.{
  Process, Step, Reach, hash, ask, batch, finish, add_count, notify_progress, send, close, load,
  await, leave, wake, offer, later,
}

module _ (hash_exif : List ℕ → Hashed) (received : List ExifHash) where
  abbrev pub is_wake : (s t : Process) → Step hash_exif received s t → Bool
  is_wake s t (wake here) = true
  is_wake s t _ = false

  abbrev pub is_upload : (s t : Process) → Step hash_exif received s t → Bool
  is_upload s t (load here) = true
  is_upload s t (await here all on) = true
  is_upload s t (leave here all over) = true
  is_upload s t (wake here) = true
  is_upload s t (offer here some_more chosen) = true
  is_upload s t _ = false

  pub data Run (barred : (s t : Process) → Step hash_exif received s t → Bool)
      : Process → Process → Type 0 where
    stop : {s : Process} → Run barred s s
    go :
        {s t u : Process} (st : Step hash_exif received s t)
        → barred s t st ≡ false
        → Run barred t u
        → Run barred s u

  -- No wait ends without a notification.
  abbrev pub Prompt : Process → Process → Type 0
  Prompt = Run is_wake

  -- The uploader does nothing.
  abbrev pub Downloading : Process → Process → Type 0
  Downloading = Run is_upload

-- The uploader stands between a load and its test.
abbrev pub Stale : ℕ → ℕ → List (List Entry) → Process → Type 0
Stale n processed offers s =
    (s.uploader ≡ loaded n) × (s.processed_entry_count ≡ processed) × (s.offers ≡ offers)

-- The uploader is at the head of its loop, or waits to get there.
abbrev pub AtHead : Uploader → Type 0
AtHead loading = Unit
AtHead (loaded n) = ⊥
AtHead waiting = Unit
AtHead left = ⊥

AtHead-notify : (u : Uploader) → AtHead u → AtHead (notify u)
AtHead-notify loading head = tt
AtHead-notify (loaded n) head = head
AtHead-notify waiting head = tt
AtHead-notify left head = head

module _ {hash_exif : List ℕ → Hashed} {received : List ExifHash} where
  pub join :
      {barred : (s t : Process) → Step hash_exif received s t → Bool} {s t u : Process}
      → Run hash_exif received barred s t
      → Run hash_exif received barred t u
      → Run hash_exif received barred s u
  join stop r = r
  join (go st e r) r' = go st e (join r r')

  pub Run-Reach :
      {barred : (s t : Process) → Step hash_exif received s t → Bool} {paths : List (List ℕ)}
      {s t : Process}
      → Reach hash_exif received paths s
      → Run hash_exif received barred s t
      → Reach hash_exif received paths t
  Run-Reach a stop = a
  Run-Reach a (go st e r) = Run-Reach (later a st) r

  wakes_upload :
      {s t : Process} (st : Step hash_exif received s t)
      → is_upload hash_exif received s t st ≡ false
      → is_wake hash_exif received s t st ≡ false
  wakes_upload (wake here) e = cc
  wakes_upload hash e = refl
  wakes_upload (ask here free ready) e = refl
  wakes_upload (batch here taking walk) e = refl
  wakes_upload (finish here taking walk) e = refl
  wakes_upload (add_count here) e = refl
  wakes_upload (notify_progress here) e = refl
  wakes_upload (send here) e = refl
  wakes_upload (close here) e = refl
  wakes_upload (load here) e = refl
  wakes_upload (await here all on) e = refl
  wakes_upload (leave here all over) e = refl
  wakes_upload (offer here some_more chosen) e = refl

  pub Downloading-Prompt :
      {s t : Process} → Downloading hash_exif received s t → Prompt hash_exif received s t
  Downloading-Prompt stop = stop
  Downloading-Prompt (go st e r) = go st (wakes_upload st e) (Downloading-Prompt r)

  Stale-Step :
      {n processed : ℕ} {offers : List (List Entry)} {s t : Process}
      (st : Step hash_exif received s t)
      → is_upload hash_exif received s t st ≡ false
      → Stale n processed offers s
      → Stale n processed offers t
  Stale-Step hash e v = v
  Stale-Step (ask here free ready) e v = v
  Stale-Step (batch here taking walk) e v = v
  Stale-Step (finish here taking walk) e v = v
  Stale-Step (add_count here) e v = v
  Stale-Step (notify_progress here) e (at_test, same, no_more) = (ap notify at_test, same, no_more)
  Stale-Step (send here) e v = v
  Stale-Step (close here) e (at_test, same, no_more) = (ap notify at_test, same, no_more)
  Stale-Step (load here) e v = cc
  Stale-Step (await here all on) e v = cc
  Stale-Step (leave here all over) e v = cc
  Stale-Step (wake here) e v = cc
  Stale-Step (offer here some_more chosen) e v = cc

  pub Stale-Run :
      {n processed : ℕ} {offers : List (List Entry)} {s t : Process}
      → Downloading hash_exif received s t
      → Stale n processed offers s
      → Stale n processed offers t
  Stale-Run stop v = v
  Stale-Run (go st e r) v = Stale-Run r (Stale-Step st e v)

  AtHead-Step :
      {s t : Process} (st : Step hash_exif received s t)
      → is_upload hash_exif received s t st ≡ false
      → AtHead s.uploader
      → AtHead t.uploader
  AtHead-Step hash e v = v
  AtHead-Step (ask here free ready) e v = v
  AtHead-Step (batch here taking walk) e v = v
  AtHead-Step (finish here taking walk) e v = v
  AtHead-Step (add_count here) e v = v
  AtHead-Step {s} (notify_progress here) e v = AtHead-notify s.uploader v
  AtHead-Step (send here) e v = v
  AtHead-Step {s} (close here) e v = AtHead-notify s.uploader v
  AtHead-Step (load here) e v = cc
  AtHead-Step (await here all on) e v = cc
  AtHead-Step (leave here all over) e v = cc
  AtHead-Step (wake here) e v = cc
  AtHead-Step (offer here some_more chosen) e v = cc

  pub AtHead-Run :
      {s t : Process} → Downloading hash_exif received s t → AtHead s.uploader → AtHead t.uploader
  AtHead-Run stop v = v
  AtHead-Run (go st e r) v = AtHead-Run r (AtHead-Step st e v)
