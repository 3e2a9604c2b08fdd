-- ===== src/Peer/Update/Packet.antt =====
-- A packet that is received whole adds the hashes of the batch, in the batch's order (src/peer.cpp).
use jpgsync.Common.{
  ℕ, suc, ◌+◌, ◌*◌, ◌/◌, ◌≡◌, refl, sym, ap, ◌∙◌, false, List, [], ◌∷◌, ◌++◌, some, append_assoc,
  append-nil, arith, length, length-append, drop, drop-append_left, All,
}
use jpgsync.ExifHash.{ExifHash, IsHash, exif_hash, to_digest}
use jpgsync.ExifHash.Codec.{exif_hash-to_digest, length-to_digest}
use jpgsync.ExifHasher.{Entry, insert}
use jpgsync.Host.{Host}
use jpgsync.Peer.Update.{fill_packet, insert_hashes, receive_update}

-- The hashes of a batch, inserted one after the other.
unfoldable pub insert_all : List Entry → List ExifHash → List ExifHash
insert_all [] received = received
insert_all (e ∷ es) received = insert_all es (insert e.hash received)

abbrev AllHashes : List Entry → Type 0
AllHashes es = All (λ e. IsHash e.hash) es

receive_update_whole :
    (buf : List ℕ) (k : ℕ) (received : List ExifHash)
    → length buf ≡ 20 * suc k
    → receive_update false buf received ≡ some (insert_hashes (suc k) buf received)
unfolding receive_update
receive_update_whole buf k received h =
    let hashes : length buf / 20 ≡ suc k = omega arith in ground (arith, hashes)

module _ (host : Host) where
  fill_packet-append :
      (es : List Entry) (filled more : List ℕ)
      → fill_packet host es (filled ++ more) ≡ fill_packet host es filled ++ more
  unfolding fill_packet
  fill_packet-append [] filled more = refl
  fill_packet-append (e ∷ es) filled more =
      ap (fill_packet host es) (sym (append_assoc (to_digest host e.hash) filled more))
      ∙ fill_packet-append es (to_digest host e.hash ++ filled) more

  pub length-fill_packet :
      (es : List Entry) (filled : List ℕ)
      → AllHashes es
      → length (fill_packet host es filled) ≡ 20 * length es + length filled
  unfolding fill_packet
  length-fill_packet [] filled v = omega arith
  length-fill_packet (e ∷ es) filled v = omega (
    arith,
    length-fill_packet es (to_digest host e.hash ++ filled) v.1,
    length-append (to_digest host e.hash) filled,
    length-to_digest host e.hash v.0,
  )

  packet-cons :
      (e : Entry) (es : List Entry) (behind : List ℕ)
      → fill_packet host (e ∷ es) [] ++ behind
        ≡ fill_packet host es [] ++ (to_digest host e.hash ++ behind)
  packet-cons e es behind =
      unfold fill_packet in
      sym (fill_packet-append es (to_digest host e.hash ++ []) behind)
      ∙ ap (λ d. fill_packet host es (d ++ behind)) (append-nil (to_digest host e.hash))
      ∙ fill_packet-append es [] (to_digest host e.hash ++ behind)

  -- `behind` is the part of the packet that the loop has been through.
  insert_hashes-fill_packet :
      (es : List Entry) (behind : List ℕ) (received : List ExifHash)
      → AllHashes es
      → insert_hashes (length es) (fill_packet host es [] ++ behind) received
        ≡ insert_all es received
  unfolding insert_hashes insert_all
  insert_hashes-fill_packet [] behind received v = refl
  insert_hashes-fill_packet (e ∷ es) behind received v =
      let rest = to_digest host e.hash ++ behind in
      let packet : fill_packet host (e ∷ es) [] ++ behind ≡ fill_packet host es [] ++ rest =
        packet-cons e es behind in
      let here : exif_hash (drop (20 * length es) (fill_packet host es [] ++ rest)) ≡ e.hash =
        ap exif_hash (
          drop-append_left (20 * length es) (fill_packet host es []) rest
            (omega (arith, length-fill_packet es [] v.1)))
        ∙ exif_hash-to_digest host e.hash behind v.0 in
      ap (λ b. insert_hashes (suc (length es)) b received) packet
      ∙ ap (λ h. insert_hashes (length es) (fill_packet host es [] ++ rest) (insert h received))
          here
      ∙ insert_hashes-fill_packet es rest (insert e.hash received) v.1

  -- While the update goes on, a packet of one hash or more whose words fit 32 bits, if it arrives
  -- whole, adds each of them to the received ones, first to last.
  pub receive_update-fill_packet :
      (e : Entry) (es : List Entry) (received : List ExifHash)
      → AllHashes (e ∷ es)
      → receive_update false (fill_packet host (e ∷ es) []) received
        ≡ some (insert_all (e ∷ es) received)
  receive_update-fill_packet e es received v =
      receive_update_whole (fill_packet host (e ∷ es) []) (length es) received
        (length-fill_packet (e ∷ es) [] v ∙ omega arith)
      ∙ ap some (
          ap (λ b. insert_hashes (suc (length es)) b received)
            (sym (append-nil (fill_packet host (e ∷ es) [])))
          ∙ insert_hashes-fill_packet (e ∷ es) [] received v)
