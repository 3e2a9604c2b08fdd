-- ===== src/Master/Listening.antt =====
-- The port that `BindAndListen` returns against the port that the kernel listens on.
use jpgsync.Common.{ℕ, ◌≡◌, ◌≢◌, refl, ◌∙◌, ap, some, ◌==◌, ==_iff, Bool-cases, inl, inr, arith}
use jpgsync.Host.{Host}
use jpgsync.Protocol.{returned}
use jpgsync.Master.{Kernel, bind_and_listen}

-- What bind(2), listen(2) and getsockname(2) are documented to do to the address of a socket: `bound` is
-- its port in network byte order, which for a bind to port 0 the kernel chooses.
pub record Binds {N : Type 0} (kernel : Kernel N) : Type 0 where
  pub bound : N → ℕ → ℕ
  pub bind_bound :
      (net net' : N) (sock port : ℕ)
      → kernel.bind net sock port ≡ some net'
      → port ≢ 0
      → bound net' sock ≡ port
  pub listen_bound :
      (net net' : N) (sock : ℕ)
      → kernel.listen net sock ≡ some net'
      → bound net' sock ≡ bound net sock
  pub getsockname_bound : (net : N) (sock : ℕ) → kernel.getsockname net sock ≡ some (bound net sock)

module _ {N : Type 0} (host : Host) (kernel : Kernel N) (binds : Binds kernel) where
  open binds use {bound, bind_bound, listen_bound, getsockname_bound}

  -- If the socket can be bound and listened on, then for port 0 the result is the port that it listens
  -- on. For another port the result is that port, and what it listens on is the port whose number in
  -- network byte order has the bytes that the wanted port has in memory.
  pub bind_and_listen_lem :
      (net net1 net2 : N) (sock port : ℕ)
      → kernel.bind net sock port ≡ some net1
      → kernel.listen net1 sock ≡ some net2
      → (result : ℕ) × (bind_and_listen host kernel net sock port ≡ returned (result, net2))
        × (port ≡ 0 → host.ntohs (bound net2 sock) ≡ result)
        × (port ≢ 0 → (result ≡ port) × (host.ntohs (bound net2 sock) ≡ host.ntohs port))
  unfolding bind_and_listen
  bind_and_listen_lem net net1 net2 sock port bind listen = elim (Bool-cases (port == 0)) [
    | inl e ↦ (
      host.ntohs (bound net2 sock),
      rw (bind, listen, getsockname_bound net2 sock, e),
      λ z. refl,
      λ nz. absurd (nz ((==_iff port 0).0 e)),
    )
    | inr e ↦ (
      port,
      rw (bind, listen, getsockname_bound net2 sock, e),
      λ z. absurd (ground arith),
      λ nz. (
        refl,
        ap host.ntohs (listen_bound net1 net2 sock listen ∙ bind_bound net net1 sock port bind nz),
      ),
    )
  ]
