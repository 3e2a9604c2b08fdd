-- ===== src/Peer/Connect.antt =====
-- How the two sides open the connections (src/peer.cpp, Peer::InitSyncConnection and the start of
-- Peer::Sync). Each side opens two sync connections from two threads, one for its downloads and one for
-- its uploads; which of the two connections a thread gets is left to chance on both sides.
pub mod Pairing
mod Runs
use jpgsync.Common.{
  ℕ, Bool, true, false, not, List, [], ◌∷◌, Option, none, some, ◌==◌, if◌then◌else◌,
}
use jpgsync.Closeable.{Fd, assign}
use jpgsync.Protocol.{Socket, Outcome, returned, fatal, ◌>>=◌, read_byte, write_byte}

-- A bool as the byte that is sent.
abbrev pub byte_of : Bool → ℕ
byte_of true = 1
byte_of false = 0

-- `a != b` on bool.
abbrev pub differ : Bool → Bool → Bool
differ true b = not b
differ false b = b

-- `Peer::InitSyncConnection`. A byte that is read into a bool is true unless it is 0.
unfoldable pub init_sync_connection : {S : Type 0} → Socket S → S → Bool → Outcome (Bool × S)
init_sync_connection sock fd download = do
  (wrote, fd') ← write_byte sock fd (byte_of download)
  let reading = do
    (read, fd'') ← read_byte sock fd'
    elim read [ none ↦ fatal | some b ↦ returned (differ (not (b == 0)) download, fd'') ]
  if wrote then reading else fatal

-- The descriptors of `Sync`.
pub record SyncFds : Type 0 where
  pub download_fd : ℕ
  pub upload_fd : ℕ

-- `if (!matched) std::swap(download_fd, upload_fd);`
unfoldable pub settle : Bool → SyncFds → SyncFds
settle matched fds =
    if matched then fds else record { download_fd = fds.upload_fd; upload_fd = fds.download_fd }

-- `update_initializer`, under its mutex: `init` is a call of `InitUpdateConnection`, which gives a
-- descriptor; `open_fds` are the open descriptors after it.
unfoldable pub update_initializer : Outcome ℕ → Fd → List ℕ → Outcome (Fd × List ℕ)
update_initializer init update_fd open_fds =
    let opening = init >>= (λ fd. assign fd update_fd (fd ∷ open_fds)) in
    if update_fd.closed then opening else returned (update_fd, open_fds)
