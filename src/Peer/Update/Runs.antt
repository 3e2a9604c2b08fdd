-- ===== src/Peer/Update/Runs.antt =====
-- Tests of the update exchange of src/peer.cpp, and its theorem at a concrete batch.
use jpgsync.Common.{ℕ, List, none, ◌≡◌, refl, true, false, [], ◌∷◌, some, arith}
use jpgsync.ExifHasher.{Entry}
use jpgsync.Host.{little_endian}
use jpgsync.Peer.Update.{fill_packet, receive_update}
use jpgsync.Peer.Update.Collecting.{
  Collector, collector, Arrival, whole, bytes, Reach, start, collect, mark,
}
use jpgsync.Peer.Update.Packet.{insert_all, receive_update-fill_packet}

abbrev image : ℕ → Entry
image n = record {
  hash = record { word0 = n; word1 = 0; word2 = 0; word3 = 0; word4 = 1 };
  path = n ∷ [];
}

-- A packet that is no whole number of hashes is passed over.
receive_update_cut : receive_update false (1 ∷ 2 ∷ 3 ∷ []) [] ≡ some []
unfolding receive_update
receive_update_cut = refl

receive_update-fill_packet_example :
    receive_update false (fill_packet little_endian (image 1 ∷ image 2 ∷ []) []) []
    ≡ some (insert_all (image 1 ∷ image 2 ∷ []) [])
receive_update-fill_packet_example =
    receive_update-fill_packet little_endian (image 1) (image 2 ∷ []) [] (omega arith)

abbrev sent : List Arrival
sent = whole (image 1 ∷ image 2 ∷ []) ∷ []

-- A batch arrives, then the end of the update is marked, and then another packet.
abbrev taken_state : Collector
taken_state = record collector { received = insert_all (image 1 ∷ image 2 ∷ []) [] }

before : Reach little_endian collector sent (record taken_state { updated = true })
unfolding bytes
before = mark (
    collect (whole (image 1 ∷ image 2 ∷ [])) start refl (omega arith)
      receive_update-fill_packet_example)

late : receive_update true (fill_packet little_endian (image 3 ∷ []) []) taken_state.received ≡ none
unfolding receive_update fill_packet jpgsync.ExifHash.to_digest
    jpgsync.ExifHash.to_network_order_byte little_endian
late = refl
