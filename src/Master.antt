-- ===== src/Master.antt =====
-- src/master.cpp: the side that listens. What the kernel does on bind, listen, getsockname, accept and
-- socket is a parameter; `net` is its state. A port that is passed to bind or comes from getsockname
-- is in network byte order.
pub mod Listening
pub mod Accepting
pub mod Ending
mod Runs
use jpgsync.Common.{
  ℕ, zero, suc, Bool, true, false, List, [], ◌∷◌, Option, none, some, ◌==◌, if◌then◌else◌,
}
use jpgsync.Host.{Host}
use jpgsync.Closeable.{Fd, new_fd, assign, close}
use jpgsync.Protocol.{
  Socket, Outcome, returned, threw, fatal, stuck, ◌>>=◌, sys_call, write_exactly,
}
use jpgsync.Peer.Connect.{init_sync_connection}

-- `none` is the result -1. `open_fds` are the open descriptors.
pub record Kernel (N : Type 0) : Type 0 where
  pub socket : N → Option (ℕ × N)
  pub bind : N → ℕ → ℕ → Option N
  pub listen : N → ℕ → Option N
  pub getsockname : N → ℕ → Option ℕ
  pub accept : N → ℕ → Option (ℕ × N)
  pub open_fds : N → List ℕ
  pub with_open_fds : List ℕ → N → N

-- The members of `Master`.
pub record Master : Type 0 where
  pub sync_port : ℕ
  pub update_port : ℕ
  pub update_sock : Fd
  pub sync_sock : Fd

-- `Master::Master`; the source leaves `update_port_` without a value, which is read after `Listen` only.
unfoldable pub master : Master
unfolding new_fd
master = record { sync_port = 0; update_port = 0; update_sock = new_fd; sync_sock = new_fd }

unfoldable pub set_port : ℕ → Master → Master
set_port port m = record m { sync_port = port }

module _ {N : Type 0} (host : Host) (kernel : Kernel N) where
  open kernel use {socket, bind, listen, getsockname, accept, open_fds, with_open_fds}

  -- `BindAndListen`: the port is not put into network byte order.
  unfoldable pub bind_and_listen : N → ℕ → ℕ → Outcome (ℕ × N)
  bind_and_listen net sock port = do
    net' ← sys_call (bind net sock port)
    net'' ← sys_call (listen net' sock)
    let asked = do
      sin_port ← sys_call (getsockname net'' sock)
      returned (host.ntohs sin_port, net'')
    if port == 0 then asked else returned (port, net'')

  -- `update_sock_ = ...` and `sync_sock_ = ...`
  unfoldable pub assign_fd : ℕ → Fd → N → Outcome (Fd × N)
  assign_fd n fd net = do
    (fd', fds) ← assign n fd (open_fds net)
    returned (fd', with_open_fds fds net)

  unfoldable pub listen_all : Master → N → Outcome (ℕ × Master × N)
  listen_all m net = do
    (fd, net1) ← sys_call (socket net)
    (update_sock, net2) ← assign_fd fd m.update_sock net1
    (update_port, net3) ← bind_and_listen net2 update_sock.res 0
    (fd', net4) ← sys_call (socket net3)
    (sync_sock, net5) ← assign_fd fd' m.sync_sock net4
    (port, net6) ← bind_and_listen net5 sync_sock.res m.sync_port
    returned (
      port,
      record m { update_sock = update_sock; update_port = update_port; sync_sock = sync_sock },
      net6,
    )

  -- Leaving `Master::InitUpdateConnection`, by a value or an exception, closes `update_sock_`. That is
  -- done in a destructor, where an exception ends the process.
  unfoldable pub close_on_exit : Outcome ℕ → Master → N → Outcome ℕ × Master × N
  close_on_exit result m net = elim (close m.update_sock (open_fds net)) [
    | returned (fd, fds) ↦ (result, record m { update_sock = fd }, with_open_fds fds net)
    | threw ↦ (fatal, m, net)
    | fatal ↦ (fatal, m, net)
    | stuck ↦ (stuck, m, net)
  ]

  -- `Master::InitUpdateConnection`, whose exceptions too leave a state.
  unfoldable pub init_update_connection : Master → N → Outcome ℕ × Master × N
  init_update_connection m net =
      let accepted : Outcome ℕ × Master × N = elim (accept net m.update_sock.res) [
        | none ↦ close_on_exit threw m net
        | some (fd, net') ↦ close_on_exit (returned fd) m net'
      ] in
      if m.update_sock.closed then (fatal, m, net) else accepted

  -- `Master::InitSyncConnection` on the connection that `Accept` gave.
  unfoldable pub greet : {S : Type 0} → Socket S → Master → S → Bool → Outcome (Bool × S)
  greet sock m sync_fd download = do
    (wrote, fd) ← write_exactly sock sync_fd (host.store16 (host.htons m.update_port))
    let going_on = init_sync_connection sock fd download
    if wrote then going_on else fatal
