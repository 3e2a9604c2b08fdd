-- ===== src/Master/Ending.antt =====
-- The calls of `Master::Listen`, whichever of them fail.
use jpgsync.Common.{ℕ, Bool, true, false, Option, none, some, List, ◌==◌, if◌then◌else◌}
use jpgsync.Host.{Host}
use jpgsync.Closeable.{Fd, assign, close, close_unless_closed, is_open}
use jpgsync.Protocol.{Outcome, sys_call}
use jpgsync.Protocol.Ending.{Ends, bind_Ends}
use jpgsync.Master.{Kernel, Master, bind_and_listen, assign_fd, listen_all}

abbrev Any {ℓ} : {A : Type ℓ} → A → Type 0
Any a = Unit

sys_call-Ends {ℓ} : {A : Type ℓ} (o : Option A) → Ends Any (sys_call o)
sys_call-Ends none = tt
sys_call-Ends (some a) = tt

if_Ends {ℓ} :
    {A : Type ℓ} (test : Bool) (a b : Outcome A)
    → Ends Any a
    → Ends Any b
    → Ends Any (if test then a else b)
if_Ends true a b h k = h
if_Ends false a b h k = k

assign-Ends : (n : ℕ) (fd : Fd) (open_fds : List ℕ) → Ends Any (assign n fd open_fds)
unfolding assign close_unless_closed close
assign-Ends n fd open_fds =
    bind_Ends Any Any (close_unless_closed fd open_fds) _
      (if_Ends fd.closed _ _ tt (if_Ends (is_open open_fds fd.res) _ _ tt tt)) (λ r a. tt)

module _ {N : Type 0} (host : Host) (kernel : Kernel N) where
  bind_and_listen-Ends :
      (net : N) (sock port : ℕ) → Ends Any (bind_and_listen host kernel net sock port)
  unfolding bind_and_listen
  bind_and_listen-Ends net sock port =
      bind_Ends Any Any _ _ (sys_call-Ends (kernel.bind net sock port)) (λ net' a.
        bind_Ends Any Any _ _ (sys_call-Ends (kernel.listen net' sock)) (λ net'' a.
          if_Ends (port == 0) _ _
            (bind_Ends Any Any _ _ (sys_call-Ends (kernel.getsockname net'' sock)) (λ p a. tt)) tt))

  assign_fd-Ends : (n : ℕ) (fd : Fd) (net : N) → Ends Any (assign_fd host kernel n fd net)
  unfolding assign_fd
  assign_fd-Ends n fd net =
      bind_Ends Any Any _ _ (assign-Ends n fd (kernel.open_fds net)) (λ r a. tt)

  pub listen_all-Ends : (m : Master) (net : N) → Ends Any (listen_all host kernel m net)
  unfolding listen_all
  listen_all-Ends m net = bind_Ends Any Any _ _ (sys_call-Ends (kernel.socket net)) (λ (fd, net1) a.
      bind_Ends Any Any _ _ (assign_fd-Ends fd m.update_sock net1) (λ (sock, net2) a.
        bind_Ends Any Any _ _ (bind_and_listen-Ends net2 sock.res 0) (λ (port, net3) a.
          bind_Ends Any Any _ _ (sys_call-Ends (kernel.socket net3)) (λ (fd', net4) a.
            bind_Ends Any Any _ _ (assign_fd-Ends fd' m.sync_sock net4) (λ (sock', net5) a.
              bind_Ends Any Any _ _ (bind_and_listen-Ends net5 sock'.res m.sync_port)
                (λ r a. tt))))))
