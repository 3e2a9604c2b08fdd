-- ===== src/Peer/Connect/Runs.antt =====
-- Tests of the opening of the connections, and the pairing theorem on a concrete connection.
use jpgsync.Common.{◌≡◌, refl, Bool, true, false, [], ◌∷◌}
use jpgsync.Closeable.{new_fd, fd_of, assign, close_unless_closed}
use jpgsync.Protocol.{returned, threw, fatal, write_byte, read_byte}
use jpgsync.Protocol.Messages.{Gives}
use jpgsync.Protocol.Choppy.{Wire, choppy, choppy_stream}
use jpgsync.Peer.Connect.{init_sync_connection, settle, update_initializer}
use jpgsync.Peer.Connect.Pairing.{Crossed, connections, init_sync_connection-settle}

abbrev peer_downloads : Wire
peer_downloads = record { input = 1 ∷ []; output = [] }

-- The other side has closed the connection.
init_sync_connection-closed :
    init_sync_connection choppy (record { input = []; output = [] }) true ≡ fatal
unfolding init_sync_connection write_byte read_byte
init_sync_connection-closed = refl

-- The second caller finds the connection made.
update_initializer-twice :
    (update_initializer (returned 7) new_fd (3 ∷ []) ≡ returned (fd_of 7, 7 ∷ 3 ∷ []))
    × (update_initializer threw (fd_of 7) (7 ∷ 3 ∷ []) ≡ returned (fd_of 7, 7 ∷ 3 ∷ []))
unfolding update_initializer new_fd fd_of assign close_unless_closed
update_initializer-twice = (refl, refl)

init_sync_connection-settle_example :
    (matched : Bool) × Gives choppy_stream
      (init_sync_connection choppy peer_downloads false)
      (λ fd'. (matched, fd'))
      []
      (0 ∷ [])
    × Crossed (settle matched (connections true)) (settle true (connections false))
unfolding choppy_stream
init_sync_connection-settle_example =
    init_sync_connection-settle choppy_stream peer_downloads true false [] refl
