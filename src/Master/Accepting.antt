-- ===== src/Master/Accepting.antt =====
-- `Master::InitUpdateConnection` accepts one slave, and closes the listening socket whatever happens.
use jpgsync.Common.{ℕ, ◌≡◌, refl, ◌∙◌, ap, sym, true, false, List, Option, none, some}
use mathlib.Core.Path.{subst}
use jpgsync.Host.{Host}
use jpgsync.Closeable.{is_open, close, forget}
use jpgsync.Closeable.Ownership.{is_open-forget}
use jpgsync.Protocol.{Outcome, returned, threw, fatal}
use jpgsync.Master.{Kernel, Master, init_update_connection, close_on_exit}

-- accept(2) leaves the listening socket open.
pub record Accepts {N : Type 0} (kernel : Kernel N) : Type 0 where
  pub accept_open :
      (net net' : N) (sock fd : ℕ)
      → kernel.accept net sock ≡ some (fd, net')
      → is_open (kernel.open_fds net) sock ≡ true
      → is_open (kernel.open_fds net') sock ≡ true
  pub open_fds-with_open_fds :
      (fds : List ℕ) (net : N) → kernel.open_fds (kernel.with_open_fds fds net) ≡ fds

-- The result of an accept.
abbrev pub accepted {ℓ} : {N : Type ℓ} → Option (ℕ × N) → Outcome ℕ
accepted none = threw
accepted (some (fd, net)) = returned fd

module _ {N : Type 0} (host : Host) (kernel : Kernel N) (accepts : Accepts kernel) where
  open accepts use {accept_open, open_fds-with_open_fds}

  -- What is left behind the call.
  abbrev pub LeavesClosed : ℕ → Outcome ℕ → Outcome ℕ × Master × N → Type 0
  LeavesClosed sock result r =
      (r.0 ≡ result)
      × (r.1.update_sock.closed ≡ true)
      × (is_open (kernel.open_fds r.2) sock ≡ false)
      × ((net' : N) → init_update_connection host kernel r.1 net' ≡ (fatal, r.1, net'))

  close_on_exit_open :
      (result : Outcome ℕ) (m : Master) (net : N)
      → is_open (kernel.open_fds net) m.update_sock.res ≡ true
      → close_on_exit host kernel result m net ≡ (
        result,
        record m { update_sock = record m.update_sock { closed = true } },
        kernel.with_open_fds (forget (kernel.open_fds net) m.update_sock.res) net,
      )
  unfolding close_on_exit close
  close_on_exit_open result m net o = rw (close_on_exit, o)

  close_on_exit_lem :
      (result : Outcome ℕ) (m : Master) (net : N)
      → is_open (kernel.open_fds net) m.update_sock.res ≡ true
      → LeavesClosed m.update_sock.res result (close_on_exit host kernel result m net)
  unfolding init_update_connection
  close_on_exit_lem result m net o =
      subst (LeavesClosed m.update_sock.res result) (sym (close_on_exit_open result m net o)) (
        refl,
        refl,
        ap (λ fds. is_open fds m.update_sock.res) (open_fds-with_open_fds _ net)
            ∙ is_open-forget (kernel.open_fds net) m.update_sock.res,
        λ net'. refl,
      )

  unclosed :
      (m : Master) (net : N) (o : Option (ℕ × N))
      → m.update_sock.closed ≡ false
      → kernel.accept net m.update_sock.res ≡ o
      → init_update_connection host kernel m net ≡ elim o as (λ _. Outcome ℕ × Master × N) [
        | none ↦ close_on_exit host kernel threw m net
        | some (fd, net') ↦ close_on_exit host kernel (returned fd) m net'
      ]
  unfolding init_update_connection
  unclosed m net o c e = simp (init_update_connection, c, e)

  -- If accept(2) leaves the listening socket open: while that is open, the call has the result of accept(2),
  -- and whether that fails or not it leaves the listening socket closed; every later call, whatever the
  -- state of the kernel is then, is fatal and changes nothing.
  pub init_update_connection_lem :
      (m : Master) (net : N)
      → m.update_sock.closed ≡ false
      → is_open (kernel.open_fds net) m.update_sock.res ≡ true
      → LeavesClosed m.update_sock.res
          (accepted (kernel.accept net m.update_sock.res))
          (init_update_connection host kernel m net)
  init_update_connection_lem m net c o = go (kernel.accept net m.update_sock.res) refl
    where
      go :
          (a : Option (ℕ × N))
          → kernel.accept net m.update_sock.res ≡ a
          → LeavesClosed m.update_sock.res (accepted a) (init_update_connection host kernel m net)
      go none e =
          subst (LeavesClosed m.update_sock.res threw) (sym (unclosed m net none c e))
            (close_on_exit_lem threw m net o)
      go (some (fd, net')) e =
          subst (LeavesClosed m.update_sock.res (returned fd))
            (sym (unclosed m net (some (fd, net')) c e))
            (close_on_exit_lem (returned fd) m net' (accept_open net net' m.update_sock.res fd e o))
