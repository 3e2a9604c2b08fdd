-- ===== src/Peer/Process.antt =====
-- The threads of one process during a sync (src/peer.cpp, `Peer::Sync`): the hashing thread, the
-- downloader while it sends the update, and the uploader while it makes offers, interleaved in any
-- order.
--
-- A step is the code of one thread between two accesses to what they share. `received` is the set of
-- hashes that the uploader consults, which nothing changes once it has begun (Peer.Update.Collecting).
-- The entry that `latest_entry` points to is the one behind `processed_entry_count` links. What ends
-- the process, such as an exception of a socket, is no step.
pub mod Alone
pub mod Holding
pub mod Uploading
pub mod Counts
pub mod Ends
pub mod Offered
pub mod Sizes
pub mod Continuing
pub mod Closing
pub mod Finishing
pub mod Leaving
pub mod Skipping
pub mod Runs
use jpgsync.Common.{
  ℕ, zero, suc, ◌+◌, ◌≡◌, Bool, true, false, List, [], ◌∷◌, ◌++◌, Option, none, some, length, drop,
  ◌==◌,
}
use jpgsync.ExifHash.{ExifHash}
use jpgsync.ExifHasher.{Entry, Hashed, Hasher, run_step, get_ready, get_take, get_walk}
use jpgsync.ExifHasher.Steps.{System}
use jpgsync.Protocol.{update_hashes_per_packet}
use jpgsync.Peer.Progress.{Uploader, loading, loaded, waiting, left, notify}
use jpgsync.Peer.Choice.{Choice, choose}

-- Where the downloader stands in the loop that sends the update; the list is the batch that `Get` gave.
pub data Sending : Type 0 where
  getting : Sending  -- at `Get`, or in it
  counting : List Entry → Sending  -- before `fetch_add`
  notifying : List Entry → Sending  -- before `notify_one`
  packing : List Entry → Sending  -- before the packet is filled and sent
  closing : Sending  -- behind the loop
  closed : Sending  -- `hashing` is false

pub record Process : Type 0 where
  pub system : System
  pub sending : Sending
  pub hasher_entry_count : ℕ
  pub hashing : Bool
  -- the batches whose packets were sent
  pub batches : List (List Entry)
  pub uploader : Uploader
  pub processed_entry_count : ℕ
  -- the offers that were made
  pub offers : List (List Entry)

abbrev pub init : List (List ℕ) → Process
init paths = record {
  system = jpgsync.ExifHasher.Steps.init paths;
  sending = getting;
  hasher_entry_count = 0;
  hashing = true;
  batches = [];
  uploader = loading;
  processed_entry_count = 0;
  offers = [];
}

-- An empty offer is not made.
abbrev pub add_offer : List (List Entry) → List Entry → List (List Entry)
add_offer offers [] = offers
add_offer offers (e ∷ es) = offers ++ (e ∷ es) ∷ []

abbrev pub produced : (List ℕ → Hashed) → System → System
produced hash_exif s = record s {
  producer = (run_step update_hashes_per_packet true hash_exif s.producer s.hasher).0;
  hasher = (run_step update_hashes_per_packet true hash_exif s.producer s.hasher).1;
}

abbrev pub asked : System → System
asked s = record s {
  taking = some (get_take update_hashes_per_packet s.hasher).0;
  hasher = (get_take update_hashes_per_packet s.hasher).1;
}

abbrev pub walked : List Entry → Hasher → System → System
walked reached after s = record s {
  taking = none;
  hasher = after;
  delivered = s.delivered ++ reached;
}

module _ (hash_exif : List ℕ → Hashed) (received : List ExifHash) where
  pub data Step (s : Process) : Process → Type 0 where
    hash : Step s (record s { system = produced hash_exif s.system })
    ask :
        s.sending ≡ getting
        → s.system.taking ≡ none
        → get_ready update_hashes_per_packet s.system.hasher ≡ true
        → Step s (record s { system = asked s.system })
    batch :
        {taken : ℕ} {reached : List Entry} {after : Hasher}
        → s.sending ≡ getting
        → s.system.taking ≡ some (suc taken)
        → get_walk (suc taken) s.system.hasher ≡ some (reached, after)
        → Step s (record s { system = walked reached after s.system; sending = counting reached })
    finish :
        {reached : List Entry} {after : Hasher}
        → s.sending ≡ getting
        → s.system.taking ≡ some 0
        → get_walk 0 s.system.hasher ≡ some (reached, after)
        → Step s (record s { system = walked reached after s.system; sending = closing })
    add_count :
        {es : List Entry}
        → s.sending ≡ counting es
        → Step s (record s {
          hasher_entry_count = s.hasher_entry_count + length es;
          sending = notifying es;
        })
    notify_progress :
        {es : List Entry}
        → s.sending ≡ notifying es
        → Step s (record s { uploader = notify s.uploader; sending = packing es })
    send :
        {es : List Entry}
        → s.sending ≡ packing es
        → Step s (record s { batches = s.batches ++ es ∷ []; sending = getting })
    close :
        s.sending ≡ closing
        → Step s (record s { hashing = false; uploader = notify s.uploader; sending = closed })
    load : s.uploader ≡ loading → Step s (record s { uploader = loaded s.hasher_entry_count })
    await :
        {total : ℕ}
        → s.uploader ≡ loaded total
        → s.processed_entry_count ≡ total
        → s.hashing ≡ true
        → Step s (record s { uploader = waiting })
    leave :
        {total : ℕ}
        → s.uploader ≡ loaded total
        → s.processed_entry_count ≡ total
        → s.hashing ≡ false
        → Step s (record s { uploader = left })
    -- also without a notification
    wake : s.uploader ≡ waiting → Step s (record s { uploader = loading })
    offer :
        {total : ℕ} {c : Choice}
        → s.uploader ≡ loaded total
        → (s.processed_entry_count == total) ≡ false
        → choose received total
            (drop s.processed_entry_count s.system.hasher.entries)
            s.processed_entry_count
            []
          ≡ some c
        → Step s (record s {
          uploader = loading;
          processed_entry_count = c.processed_entry_count;
          offers = add_offer s.offers c.missing_entries;
        })

  pub data Reach (paths : List (List ℕ)) : Process → Type 0 where
    start : Reach paths (init paths)
    later : {s t : Process} → Reach paths s → Step s t → Reach paths t
