-- ===== src/Peer/Connect/Pairing.antt =====
-- Whatever connections the threads of the two sides got, the download connection of each side is in the
-- end the upload connection of the other.
use jpgsync.Common.{ℕ, ◌≡◌, ◌∙◌, ◌%◌, refl, Bool, true, false, not, List, [], ◌∷◌, ◌++◌, ◌==◌}
use jpgsync.Protocol.{Socket}
use jpgsync.Protocol.Stream.{Stream}
use jpgsync.Protocol.Messages.{Gives, read_byte_lem, write_byte_lem}
use jpgsync.Peer.Connect.{byte_of, differ, init_sync_connection, SyncFds, settle}

bool_read : (b : Bool) → not (byte_of b == 0) ≡ b
bool_read true = refl
bool_read false = refl

one_byte : (b : Bool) → byte_of b % 256 ≡ byte_of b
one_byte true = refl
one_byte false = refl

-- The connections of a side whose main thread, which calls for the uploads, got the connection `up`.
abbrev pub connections : Bool → SyncFds
connections up = record { download_fd = byte_of (not up); upload_fd = byte_of up }

abbrev pub Crossed : SyncFds → SyncFds → Type 0
Crossed a b = (a.download_fd ≡ b.upload_fd) × (a.upload_fd ≡ b.download_fd)

settled :
    (m_up s_up : Bool)
    → Crossed
        (settle (differ (differ m_up s_up) false) (connections m_up))
        (settle true (connections s_up))
unfolding settle
settled true true = (refl, refl)
settled true false = (refl, refl)
settled false true = (refl, refl)
settled false false = (refl, refl)

module _ {S : Type 0} {sock : Socket S} (stream : Stream sock) where
  open stream use {pending, sent}

  -- A side sends its own bit, and compares the bit that comes with it.
  pub init_sync_connection_lem :
      (fd : S) (download peer_download : Bool) (rest : List ℕ)
      → pending fd ≡ byte_of peer_download ∷ rest
      → Gives stream
          (init_sync_connection sock fd download)
          (λ fd'. (differ peer_download download, fd'))
          rest
          (sent fd ++ byte_of download ∷ [])
  unfolding init_sync_connection
  init_sync_connection_lem fd download peer rest e =
      let w = write_byte_lem stream fd (byte_of download) in
      let r = read_byte_lem stream w.fd' (byte_of peer) rest (w.left ∙ e) in
      record {
        fd' = r.fd';
        result = rw (w.result, r.result, bool_read peer);
        left = r.left;
        wrote = r.wrote ∙ w.wrote ∙ rw (one_byte download);
      }

  -- Let the main thread of the master have got the connection `m_up`, and that of the slave `s_up`, and
  -- let the slave have sent on each connection whether the thread that uses it downloads. Then the
  -- answer of the master's call, with which it settles its descriptors while the slave keeps its own,
  -- makes the download connection of each side the upload connection of the other.
  pub init_sync_connection-settle :
      (fd : S) (m_up s_up : Bool) (rest : List ℕ)
      → pending fd ≡ byte_of (differ m_up s_up) ∷ rest
      → (matched : Bool) × Gives stream
          (init_sync_connection sock fd false)
          (λ fd'. (matched, fd'))
          rest
          (sent fd ++ 0 ∷ [])
        × Crossed (settle matched (connections m_up)) (settle true (connections s_up))
  init_sync_connection-settle fd m_up s_up rest e =
      let answer = init_sync_connection_lem fd false (differ m_up s_up) rest e in
      (differ (differ m_up s_up) false, answer, settled m_up s_up)
