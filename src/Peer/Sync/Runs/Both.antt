-- ===== src/Peer/Sync/Runs/Both.antt =====
-- Both directions of the sync of Peer.Sync.Runs, at processes that have come to their end.
use mathlib.Core.List.{flatten}
use jpgsync.Common.{◌≡◌, refl, true, List, [], ◌∷◌, ◌++◌, arith, replicate}
use jpgsync.ExifHash.{eq, exif_hash, bytes_to_word32}
use jpgsync.ExifHash.Codec.{exif_hash-IsHash}
use jpgsync.ExifHasher.{Entry, insert, count}
use jpgsync.ExifHasher.Contents.{hashes_of}
use jpgsync.ExifHasher.Sets.{set_of}
use jpgsync.Host.{little_endian}
use jpgsync.Peer.Update.Packet.{insert_all, receive_update-fill_packet}
use jpgsync.Peer.Update.Collecting
use jpgsync.Peer.Update.Collecting.{Collector, collector, Arrival, whole, brings}
use jpgsync.Peer.Process.Runs.{
  image, leaves, leaves_left, leaves_closed, leaves_all, leaves_batches, other_leaves, other_left,
  other_all, other_leaves_batches,
}
use jpgsync.Peer.Sync.{images_of, missing_images, AllArrived}
use jpgsync.Peer.Sync.Agreement.{received_set, peers_agree}
use jpgsync.Peer.Sync.Runs.{ours, theirs, arrived, one_arrived, collected}

one_arrived_left : AllArrived arrived (flatten other_leaves.0.batches)
unfolding brings flatten
one_arrived_left h = rw other_leaves_batches (one_arrived h)

abbrev found_two : List Entry
found_two = image 7 (7 ∷ []) ∷ image 1 (1 ∷ []) ∷ []

abbrev two_arrive : List Arrival
two_arrive = whole found_two ∷ []

two_arrived : AllArrived two_arrive (flatten leaves.0.batches)
unfolding brings flatten
two_arrived h = rw leaves_batches (ground arith)

abbrev before_two : Collector
before_two = record { received = insert_all found_two []; updated = true; receiving = true }

collected_two : Collecting.Reach little_endian collector two_arrive before_two
unfolding Collecting.bytes
collected_two = Collecting.mark (
    Collecting.collect (whole found_two) Collecting.start refl
      ((exif_hash-IsHash (replicate 20 7), (exif_hash-IsHash (replicate 20 1), tt)), omega arith)
      (receive_update-fill_packet little_endian (image 7 (7 ∷ [])) (image 1 (1 ∷ []) ∷ []) []
        (exif_hash-IsHash (replicate 20 7), (exif_hash-IsHash (replicate 20 1), tt))))

received_set_example : set_of before_two.received ≡ set_of (hashes_of (images_of ours))
received_set_example =
    received_set little_endian ours leaves.1 leaves_closed two_arrived collected_two refl
      Collecting.start

peers_agree_example :
    (flatten leaves.0.offers ≡ missing_images ours theirs)
    × (flatten other_leaves.0.offers ≡ missing_images theirs ours)
    × (set_of (hashes_of (images_of theirs ++ flatten leaves.0.offers))
        ≡ set_of (hashes_of (images_of ours ++ flatten other_leaves.0.offers)))
unfolding insert_all insert count eq exif_hash bytes_to_word32
peers_agree_example =
    peers_agree little_endian ours theirs leaves.0 other_leaves.0 leaves.1 other_leaves.1
      leaves_left other_left leaves_all other_all one_arrived_left collected refl Collecting.start
      two_arrived collected_two refl Collecting.start
