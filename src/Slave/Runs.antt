-- ===== src/Slave/Runs.antt =====
-- The theorems on the connecting side with a small kernel.
use jpgsync.Common.{ℕ, ◌+◌, ◌≡◌, refl, true, false, ◌==◌, List, [], ◌∷◌, none, some, arith, length}
use jpgsync.Host.{little_endian}
use jpgsync.Protocol.{threw}
use jpgsync.Protocol.Messages.{Gives}
use jpgsync.Protocol.Choppy.{choppy, choppy_stream}
use jpgsync.Master
use jpgsync.Master.{Master, greet}
use jpgsync.Slave.{ipproto_dccp, ipproto_tcp, Kernel, AddrInfo, Slave, connect_any, greeted}
use jpgsync.Slave.Connecting.{HasSockets, connect_any-Refused, greeted-greet}

-- An address is a number, and the odd ones refuse; a host has the addresses 1, 2 and 3.
abbrev small : Kernel ℕ
small = record {
  getaddrinfo = λ host port protocol. elim protocol [
    | ipproto_dccp ↦ some (1 ∷ 2 ∷ 3 ∷ [])
    | ipproto_tcp ↦ some (1 ∷ 2 ∷ [])
  ];
  socket = λ opened a. some (3 + length opened);
  connect = λ fd a. a == 2;
}

abbrev has_sockets : HasSockets small
has_sockets opened a = (3 + length opened, refl)

abbrev addresses : List ℕ → AddrInfo ℕ
addresses found = record {
  host = b'h' ∷ [];
  port = 7;
  protocol = ipproto_dccp;
  resolved_asi = found;
}

connect_any-Refused_example :
    (more : List ℕ) × (connect_any small (addresses (1 ∷ 3 ∷ [])) [] ≡ (threw, more))
    × (length more ≡ 2 + 0)
connect_any-Refused_example =
    connect_any-Refused small has_sockets (addresses (1 ∷ 3 ∷ [])) [] (omega arith)
      (λ fd. refl, (λ fd. refl, tt))

abbrev no_listener : Master.Kernel Unit
no_listener = record {
  socket = λ n. none;
  bind = λ n s p. none;
  listen = λ n s. none;
  getsockname = λ n s. none;
  accept = λ n s. none;
  open_fds = λ n. [];
  with_open_fds = λ fds n. n;
}

abbrev a_master : Master
a_master = record {
  sync_port = 0;
  update_port = 513;
  update_sock = record { res = 3; closed = false };
  sync_sock = record { res = 4; closed = false };
}

abbrev a_slave : Slave small
a_slave = record {
  update_addr_info = addresses [];
  sync_addr_info = record (addresses []) { protocol = ipproto_tcp };
}

greeted-greet_example :
    Gives choppy_stream
      (greet little_endian no_listener choppy a_master
        (record { input = 1 ∷ []; output = [] })
        false)
      (λ a'. (true, a'))
      []
      (2 ∷ 1 ∷ 0 ∷ [])
    × Gives choppy_stream
        (greeted small little_endian choppy a_slave
          (record { input = 2 ∷ 1 ∷ 0 ∷ []; output = [] })
          true)
        (λ b'. (
          true,
          record a_slave {
            update_addr_info = record {
              host = b'h' ∷ [];
              port = 513;
              protocol = ipproto_dccp;
              resolved_asi = 1 ∷ 2 ∷ 3 ∷ [];
            };
          },
          b',
        ))
        []
        (1 ∷ [])
unfolding choppy_stream
greeted-greet_example =
    greeted-greet small choppy_stream little_endian no_listener a_master a_slave
      (record { input = 1 ∷ []; output = [] }) (record { input = 2 ∷ 1 ∷ 0 ∷ []; output = [] })
      false true (1 ∷ 2 ∷ 3 ∷ []) (omega arith) refl refl refl
