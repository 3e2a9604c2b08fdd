-- ===== src/Master/Runs.antt =====
-- The theorems on the listening side with a small kernel, and tests on a little-endian machine.
use jpgsync.Common.{
  ℕ, ◌≡◌, ◌≢◌, refl, sym, ap, ◌∙◌, true, false, List, [], ◌∷◌, Option, none, some, ◌==◌,
  if◌then◌else◌, arith,
}
use jpgsync.Host.{little_endian, swap16}
use jpgsync.Closeable.{is_open}
use jpgsync.Protocol.{returned}
use jpgsync.Master.{Kernel, Master, bind_and_listen, init_update_connection}
use jpgsync.Master.Listening.{Binds, bind_and_listen_lem}
use jpgsync.Master.Accepting.{Accepts, LeavesClosed, init_update_connection_lem}

-- The open descriptors, and the one port that is bound.
record Net : Type 0 where
  fds : List ℕ
  port : ℕ

abbrev chosen : ℕ → ℕ
chosen port = if port == 0 then 4660 else port

abbrev small : Kernel Net
small = record {
  socket = λ net. some (3, record net { fds = 3 ∷ net.fds });
  bind = λ net sock port. some (record net { port = chosen port });
  listen = λ net sock. some net;
  getsockname = λ net sock. some net.port;
  accept = λ net sock. some (9, record net { fds = 9 ∷ net.fds });
  open_fds = λ net. net.fds;
  with_open_fds = λ fds net. record net { fds = fds };
}

abbrev port_of : Option Net → ℕ
port_of none = 0
port_of (some net) = net.port

chosen_lem : (port : ℕ) → port ≢ 0 → chosen port ≡ port
chosen_lem port nz = ground arith

small_binds : Binds small
small_binds = record {
  bound = λ net sock. net.port;
  bind_bound = λ net net' sock port e nz. sym (ap port_of e) ∙ chosen_lem port nz;
  listen_bound = λ net net' sock e. sym (ap port_of e);
  getsockname_bound = λ net sock. refl;
}

abbrev fds_of : Option (ℕ × Net) → List ℕ
fds_of none = []
fds_of (some (fd, net)) = net.fds

still_open : (fds : List ℕ) (sock : ℕ) → is_open fds sock ≡ true → is_open (9 ∷ fds) sock ≡ true
unfolding is_open
still_open fds sock o = ground arith

small_accepts : Accepts small
small_accepts = record {
  accept_open =
      λ net net' sock fd e o. sym (ap (λ r. is_open (fds_of r) sock) e) ∙ still_open net.fds sock o;
  open_fds-with_open_fds = λ fds net. refl;
}

abbrev net : Net
net = record { fds = 3 ∷ []; port = 0 }

-- Asked for 8080, it says so, and listens on port 36895.
listens-8080 :
    (bind_and_listen little_endian small net 3 8080 ≡ returned (8080, record net { port = 8080 }))
    × (little_endian.ntohs 8080 ≡ 36895)
unfolding bind_and_listen little_endian swap16
listens-8080 = (refl, refl)

abbrev port : ℕ
port = 8080

bind_and_listen_lem_example :
    (result : ℕ) × (bind_and_listen little_endian small net 3 8080
      ≡ returned (result, record net { port = 8080 }))
    × (port ≡ 0 → little_endian.ntohs 8080 ≡ result)
    × (port ≢ 0 → (result ≡ port) × (little_endian.ntohs 8080 ≡ little_endian.ntohs 8080))
unfolding small_binds
bind_and_listen_lem_example =
    bind_and_listen_lem little_endian small small_binds net (record net { port = 8080 })
      (record net { port = 8080 }) 3 8080 refl refl

abbrev listening : Master
listening = record {
  sync_port = 0;
  update_port = 4660;
  update_sock = record { res = 3; closed = false };
  sync_sock = record { res = 3; closed = false };
}

init_update_connection_lem_example :
    LeavesClosed little_endian small small_accepts 3
      (returned 9)
      (init_update_connection little_endian small listening net)
unfolding is_open
init_update_connection_lem_example =
    init_update_connection_lem little_endian small small_accepts listening net refl refl
