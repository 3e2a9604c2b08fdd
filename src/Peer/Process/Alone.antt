-- ===== src/Peer/Process/Alone.antt =====
-- What the downloader sends of its hasher, as the update: all entries, each once and in their order.
use jpgsync.Common.{ℕ, true, List}
use jpgsync.ExifHash.{ExifHash}
use jpgsync.ExifHasher.{Hashed}
use jpgsync.ExifHasher.Steps
use jpgsync.ExifHasher.Steps.{System}
use jpgsync.Protocol.{update_hashes_per_packet}
use jpgsync.Peer.Process.{
  Process, Reach, hash, ask, batch, finish, add_count, notify_progress, send, close, load, await,
  leave, wake, offer, start, later,
}

module _ {hash_exif : List ℕ → Hashed} {received : List ExifHash} {paths : List (List ℕ)} where
  -- The hasher of a process takes the steps of a hasher that is alone.
  pub system-Reach :
      {s : Process}
      → Reach hash_exif received paths s
      → Steps.Reach update_hashes_per_packet true hash_exif paths s.system
  system-Reach start = Steps.start
  system-Reach (later r hash) = Steps.later (system-Reach r) Steps.produce
  system-Reach (later r (ask here idle ready)) =
      Steps.later (system-Reach r) (Steps.take update_hashes_per_packet idle ready)
  system-Reach (later r (batch here taken walk)) =
      Steps.later (system-Reach r) (Steps.walk taken walk)
  system-Reach (later r (finish here taken walk)) =
      Steps.later (system-Reach r) (Steps.walk taken walk)
  system-Reach (later r (add_count here)) = system-Reach r
  system-Reach (later r (notify_progress here)) = system-Reach r
  system-Reach (later r (send here)) = system-Reach r
  system-Reach (later r (close here)) = system-Reach r
  system-Reach (later r (load here)) = system-Reach r
  system-Reach (later r (await here all on)) = system-Reach r
  system-Reach (later r (leave here all over)) = system-Reach r
  system-Reach (later r (wake here)) = system-Reach r
  system-Reach (later r (offer here some_more chosen)) = system-Reach r
