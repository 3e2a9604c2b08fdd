-- ===== src/Slave.antt =====
-- src/slave.cpp: the side that connects. What getaddrinfo, socket and connect do is a parameter.
pub mod Connecting
mod Runs
use jpgsync.Common.{ℕ, Bool, true, false, List, [], ◌∷◌, ◌++◌, Option, none, some, if◌then◌else◌}
use jpgsync.Host.{Host}
use jpgsync.Protocol.{Socket, Outcome, returned, threw, fatal, ◌>>=◌, sys_call, read_exactly}
use jpgsync.Peer.Connect.{init_sync_connection}

-- The member `protocol` of Protocol<SOCK_DCCP>, the update protocol without RELIABLE_UPDATE, and of
-- Protocol<SOCK_STREAM>.
pub data IpProtocol : Type 0 where
  ipproto_dccp : IpProtocol
  ipproto_tcp : IpProtocol

-- `A` is an address of getaddrinfo's list, which is `none` on an error; `socket` gives a new descriptor
-- when `opened` are open, and `connect` is true where connect(2) succeeds.
pub record Kernel (A : Type 0) : Type 0 where
  pub getaddrinfo : List ℕ → ℕ → IpProtocol → Option (List A)
  pub socket : List ℕ → A → Option ℕ
  pub connect : ℕ → A → Bool

-- The members of `AddrInfo`; of its hints the protocol, which is all that differs between two of them.
pub record AddrInfo (A : Type 0) : Type 0 where
  pub host : List ℕ
  pub port : ℕ
  pub protocol : IpProtocol
  pub resolved_asi : List A

unfoldable pub addr_info : {A : Type 0} → List ℕ → IpProtocol → AddrInfo A
addr_info host protocol = record { host = host; port = 0; protocol = protocol; resolved_asi = [] }

module _ {A : Type 0} (kernel : Kernel A) where
  open kernel use {getaddrinfo, socket, connect}

  -- `AddrInfo::Resolve`
  unfoldable pub resolve : ℕ → AddrInfo A → Outcome (AddrInfo A)
  resolve port ai = do
    found ← sys_call (getaddrinfo ai.host port ai.protocol)
    returned (record ai { port = port; resolved_asi = found })

  -- The loop of `AddrInfo::Connect`: `refused` is `exception != NULL`. The result is `*fd`, or `none`
  -- for false, and beside it the descriptors that are open then.
  unfoldable pub connect_from : Bool → List A → List ℕ → Outcome (Option ℕ) × List ℕ
  connect_from true [] opened = (threw, opened)
  connect_from false [] opened = (returned none, opened)
  connect_from refused (ai ∷ ais) opened = elim (socket opened ai) [
    | none ↦ (threw, opened)
    | some fd ↦
        let rest = connect_from true ais (fd ∷ opened) in
        if connect fd ai then (returned (some fd), fd ∷ opened) else rest
  ]

  -- `AddrInfo::Connect`
  unfoldable pub connect_any : AddrInfo A → List ℕ → Outcome (Option ℕ) × List ℕ
  connect_any ai opened = connect_from false ai.resolved_asi opened

  -- The members of `Slave`, once `Attach` has set them.
  pub record Slave : Type 0 where
    pub update_addr_info : AddrInfo A
    pub sync_addr_info : AddrInfo A

  -- `Slave::Attach`
  unfoldable pub attach : List ℕ → ℕ → Outcome Slave
  attach master_host master_port = do
    sync_addr_info ← resolve master_port (addr_info master_host ipproto_tcp)
    returned (record {
      update_addr_info = addr_info master_host ipproto_dccp;
      sync_addr_info = sync_addr_info;
    })

  -- `Slave::InitUpdateConnection`, which is fatal where `Connect` answers false.
  unfoldable pub init_update_connection : Slave → List ℕ → Outcome ℕ × List ℕ
  init_update_connection slave opened =
      let (result, opened') = connect_any slave.update_addr_info opened in
      (result >>= (λ fd. elim fd [ none ↦ fatal | some n ↦ returned n ]), opened')

  -- `Slave::InitSyncConnection` on the connection that `Connect` made.
  unfoldable pub greeted :
      {S : Type 0} → Host → Socket S → Slave → S → Bool → Outcome (Bool × Slave × S)
  greeted host sock slave sync_fd download = do
    (ok, bytes, fd) ← read_exactly sock sync_fd 2
    let going_on = do
      update_addr_info ← resolve (host.ntohs (host.load16 bytes)) slave.update_addr_info
      (matched, fd') ← init_sync_connection sock fd download
      returned (true, record slave { update_addr_info = update_addr_info }, fd')
    if ok then going_on else fatal
