-- ===== src/Peer/Sync/Runs.antt =====
-- The theorem on a whole sync, for a directory of two images and another that has one of them.
mod Both
use mathlib.Core.List.{flatten}
use jpgsync.Common.{
  ℕ, zero, suc, ◌≡◌, refl, Bool, true, List, [], ◌∷◌, ◌++◌, some, arith, All, replicate, inl,
  length,
}
use jpgsync.Cli.{rfind}
use jpgsync.ExifHash.{eq, exif_hash, to_digest, to_network_order_byte, bytes_to_word32}
use jpgsync.ExifHasher.{
  Entry, exif_hasher, finished, run_step, add_hashed, link, insert, count, contains, get_ready,
  get_take, get_walk, follow,
}
use jpgsync.ExifHasher.Steps
use jpgsync.ExifHasher.Steps.{System, init, start, later, produce}
use jpgsync.ExifHasher.Images.{images, distinct, without}
use jpgsync.ExifHash.Codec.{exif_hash-IsHash}
use jpgsync.Protocol.Messages.{Gives}
use jpgsync.Protocol.Choppy.{Wire, choppy, choppy_stream}
use jpgsync.Peer.Choice.{offers_in_rounds, choose}
use jpgsync.Peer.Choice.Rounds.{Growing}
use jpgsync.Peer.Offer.{answer_offer, answer_hash, no_answer, confirmation, offer_bytes}
use jpgsync.Peer.Transfer.{Files, to_filename}
use jpgsync.Peer.Update.Packet.{insert_all, receive_update-fill_packet}
use jpgsync.Peer.Update.Collecting
use jpgsync.Peer.Update.Collecting.{Collector, collector, Arrival, whole, brings}
use jpgsync.Peer.Session.{upload_all, download_all}
use jpgsync.Peer.Session.Exchange.{IsUploadable, arrive}
use jpgsync.Peer.Session.Loops.{offers_stream, masks}
use jpgsync.Peer.Session.Complete.{lacking}
use jpgsync.Host.{little_endian}
use jpgsync.Protocol.{update_hashes_per_packet}
use jpgsync.Peer.Process.Runs.{
  by_name, image, two, one, leaves, leaves_left, other_closes, other_closed, leaves_all,
  other_batches, both,
}
use jpgsync.Peer.Sync.Threads.{sync_processes}
use jpgsync.Peer.Sync.{Directory, Hashing, UpdateSent, AllArrived, missing_images}

abbrev pub ours : Directory
ours = record { paths = two; hash_exif = by_name }

abbrev pub theirs : Directory
theirs = record { paths = one; hash_exif = by_name }

abbrev found : List Entry
found = image 1 (1 ∷ 1 ∷ []) ∷ []

abbrev pub arrived : List Arrival
arrived = whole found ∷ []

pub one_arrived : AllArrived arrived found
unfolding brings
one_arrived h = ground arith

abbrev pub before : Collector
before = record { received = insert_all found []; updated = true; receiving = true }

pub collected : Collecting.Reach little_endian collector arrived before
unfolding Collecting.bytes
collected = Collecting.mark (
    Collecting.collect (whole found) Collecting.start refl
      ((exif_hash-IsHash (replicate 20 1), tt), omega arith)
      (receive_update-fill_packet little_endian (image 1 (1 ∷ 1 ∷ [])) [] []
        (exif_hash-IsHash (replicate 20 1), tt)))

abbrev sources : Files
sources path = some (9 ∷ path)

abbrev old : Files
old path = some (3 ∷ [])

abbrev everywhere : List ℕ → Bool
everywhere path = true

missing_seven : All (IsUploadable sources) (missing_images ours theirs)
unfolding lacking count eq images distinct without exif_hash bytes_to_word32 to_filename rfind
missing_seven = (
  record {
    first = 9;
    others = 7 ∷ [];
    holds = refl;
    fits = omega arith;
    short = omega arith;
    no_nul = (refl, tt);
  },
  tt,
)

arrived_all : AllArrived arrived (flatten other_closes.0.batches)
unfolding brings flatten
arrived_all h = rw other_batches (one_arrived h)

process_wire : Wire
process_wire = record {
  input = 5 ∷ masks little_endian (contains other_closes.0.system.hasher) sources leaves.0.offers;
  output = [];
}

other_wire : Wire
other_wire = record {
  input =
      offers_stream little_endian (contains other_closes.0.system.hasher) sources leaves.0.offers;
  output = [];
}

sync_processes_example :
    Gives choppy_stream
      (upload_all choppy little_endian sources leaves.0.offers process_wire)
      (λ a'. a')
      []
      ([]
        ++ offers_stream little_endian
            (contains other_closes.0.system.hasher)
            sources
            leaves.0.offers)
    × Gives choppy_stream
        (download_all choppy little_endian everywhere
          (b'd' ∷ [])
          (contains other_closes.0.system.hasher)
          5
          (suc (length leaves.0.offers))
          old
          other_wire)
        (λ c'. (arrive everywhere (b'd' ∷ []) sources (missing_images ours theirs) old, c'))
        []
        ([]
          ++ 5
            ∷ masks little_endian (contains other_closes.0.system.hasher) sources leaves.0.offers)
unfolding choppy_stream process_wire other_wire insert_all insert
sync_processes_example =
    sync_processes little_endian choppy_stream ours theirs sources old everywhere (b'd' ∷ [])
      leaves.0 other_closes.0 both 5 process_wire other_wire leaves.1 leaves_left leaves_all
      other_closes.1 other_closed arrived_all collected refl Collecting.start missing_seven refl
      refl
