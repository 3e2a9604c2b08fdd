-- ===== src/Closeable.antt =====
-- src/util/closeable.hpp and src/util/fd.cpp: a descriptor that is closed when its owner goes away or
-- takes another one. The kernel's table of open descriptors is a list; close(2) fails on a descriptor
-- that is not in it. A destructor that throws ends the process, and has no operation here.
pub mod Ownership
use jpgsync.Common.{
  ℕ, Bool, true, false, List, [], ◌∷◌, Option, none, some, ◌==◌, ◌||◌, if◌then◌else◌,
}
use jpgsync.Protocol.{Outcome, returned, threw, ◌>>=◌}

-- The members `res_` and `closed_`.
pub record Fd : Type 0 where
  pub res : ℕ
  pub closed : Bool

-- `Closeable()`: `res_()` is 0.
unfoldable pub new_fd : Fd
new_fd = record { res = 0; closed = true }

-- `Closeable(const T& res)`
unfoldable pub fd_of : ℕ → Fd
fd_of n = record { res = n; closed = false }

unfoldable pub is_open : List ℕ → ℕ → Bool
is_open [] n = false
is_open (x ∷ xs) n = (x == n) || is_open xs n

unfoldable pub forget : List ℕ → ℕ → List ℕ
forget [] n = []
forget (x ∷ xs) n = if x == n then forget xs n else x ∷ forget xs n

-- `FD::Close`, with the table of open descriptors before and after.
unfoldable pub close : Fd → List ℕ → Outcome (Fd × List ℕ)
close fd open_fds =
    if is_open open_fds fd.res
    then returned (record fd { closed = true }, forget open_fds fd.res)
    else threw

unfoldable pub close_unless_closed : Fd → List ℕ → Outcome (Fd × List ℕ)
close_unless_closed fd open_fds =
    let closing = close fd open_fds in if fd.closed then returned (fd, open_fds) else closing

-- `operator=(const T& res)`
unfoldable pub assign : ℕ → Fd → List ℕ → Outcome (Fd × List ℕ)
assign n fd open_fds = do
  (fd', open_fds') ← close_unless_closed fd open_fds
  returned (record fd' { res = n; closed = false }, open_fds')

-- `~Closeable()`
unfoldable pub destroy : Fd → List ℕ → Outcome (List ℕ)
destroy fd open_fds = do (fd', open_fds') ← close_unless_closed fd open_fds; returned open_fds'
