-- ===== src/Protocol.antt =====
-- src/protocol.hpp and src/protocol.cpp: whole messages over sockets that read and write in pieces, for
-- stream sockets (the sync connections, and with RELIABLE_UPDATE the update connection) and for DCCP.
--
-- The kernel's read(2) and write(2) are a parameter. A call that fails throws SysCallException (the
-- macros of src/util/syscall.hpp). A buffer is the list of the bytes that are read into it.
pub mod Stream
pub mod Writing
pub mod Messages
pub mod Ending
pub mod Choppy
mod Runs
use jpgsync.Common.{
  ℕ, zero, suc, ◌+◌, ◌-◌, ◌/◌, ◌%◌, ◌^◌, Bool, true, false, List, [], ◌∷◌, ◌++◌, Option, none, some,
  length, drop, ltb, ◌==◌, if◌then◌else◌,
}
use jpgsync.Host.{Host}
use jpgsync.ExifHash.{hash_size}

-- `none` is the result -1. A read of no bytes is the end of the stream.
pub record Socket (S : Type 0) : Type 0 where
  pub read : S → ℕ → Option (List ℕ × S)
  pub write : S → List ℕ → Option (ℕ × S)

-- How a function of the program ends; `stuck` is no result of the program: a loop ran out of fuel.
pub data Outcome {ℓ} (A : Type ℓ) : Type ℓ where
  returned : A → Outcome A
  threw : Outcome A
  fatal : Outcome A  -- Logger::Fatal, which terminates the process
  stuck : Outcome A

infixl 5 ◌>>=◌
abbrev pub ◌>>=◌ {ℓ κ} : {A : Type ℓ} {B : Type κ} → Outcome A → (A → Outcome B) → Outcome B
returned a >>= f = f a
threw >>= f = threw
fatal >>= f = fatal
stuck >>= f = stuck

-- The macros `sys_call` and `sys_call_rv` of src/util/syscall.hpp.
abbrev pub sys_call {ℓ} : {A : Type ℓ} → Option A → Outcome A
sys_call none = threw
sys_call (some a) = returned a

-- The constants of src/protocol.cpp; `sizeof(ExifHash)` is 20.
abbrev pub ip_mss : ℕ
ip_mss = 576 - 20

abbrev pub update_hashes_per_packet : ℕ
update_hashes_per_packet = (ip_mss - 16) / hash_size

abbrev pub sync_hashes_per_packet : ℕ
sync_hashes_per_packet = (ip_mss - 20) / hash_size

module _ {S : Type 0} (sock : Socket S) where
  -- The loop of `ReadFully`; `bytes` are those read so far. A round ends the loop or reads a byte at
  -- least, so that `count` rounds and one more are enough.
  unfoldable pub read_loop : ℕ → S → List ℕ → ℕ → Outcome (List ℕ × S)
  read_loop zero fd bytes count = stuck
  read_loop (suc fuel) fd bytes count = elim (sock.read fd (count - length bytes)) [
    | none ↦ threw
    | some ([], fd') ↦ returned (bytes, fd')
    | some (b ∷ bs, fd') ↦
        let rest = read_loop fuel fd' (bytes ++ b ∷ bs) count in
        if length (bytes ++ b ∷ bs) == count then returned (bytes ++ b ∷ bs, fd') else rest
  ]

  unfoldable pub read_fully : S → ℕ → Outcome (List ℕ × S)
  read_fully fd count = read_loop (suc count) fd [] count

  -- The loop of `WriteFully`; the result is `write_count`.
  unfoldable pub write_loop : ℕ → S → List ℕ → ℕ → Outcome (ℕ × S)
  write_loop zero fd bytes write_count = stuck
  write_loop (suc fuel) fd bytes write_count = elim (sock.write fd (drop write_count bytes)) [
    | none ↦ threw
    | some (zero, fd') ↦ returned (write_count, fd')
    | some (suc n, fd') ↦
        let rest = write_loop fuel fd' bytes (write_count + suc n) in
        if write_count + suc n == length bytes then returned (write_count + suc n, fd') else rest
  ]

  unfoldable pub write_fully : S → List ℕ → Outcome (ℕ × S)
  write_fully fd bytes = write_loop (suc (length bytes)) fd bytes 0

  -- The specialisations for SOCK_DCCP: one call.
  unfoldable pub read_fully_dccp : S → ℕ → Outcome (List ℕ × S)
  read_fully_dccp fd count = sys_call (sock.read fd count)

  unfoldable pub write_fully_dccp : S → List ℕ → Outcome (ℕ × S)
  write_fully_dccp fd bytes = sys_call (sock.write fd bytes)

  unfoldable pub read_exactly : S → ℕ → Outcome (Bool × List ℕ × S)
  read_exactly fd count = do
    (bytes, fd') ← read_fully fd count
    returned (length bytes == count, bytes, fd')

  unfoldable pub write_exactly : S → List ℕ → Outcome (Bool × S)
  write_exactly fd bytes = do (n, fd') ← write_fully fd bytes; returned (n == length bytes, fd')

  -- `none` is the answer false, which leaves the caller's variable without a value.
  unfoldable pub read_byte : S → Outcome (Option ℕ × S)
  read_byte fd = do
    (bytes, fd') ← sys_call (sock.read fd 1)
    returned (elim bytes [ [] ↦ none | b ∷ bs ↦ some b ], fd')

  unfoldable pub write_byte : S → ℕ → Outcome (Bool × S)
  write_byte fd integral = do
    (n, fd') ← sys_call (sock.write fd (integral % 256 ∷ []))
    returned (ltb 0 n, fd')

  unfoldable pub read_file_size : Host → S → Outcome (Bool × ℕ × S)
  unfolding read_exactly
  read_file_size host fd = do
    (ok, bytes, fd') ← read_exactly fd 4
    returned (ok, host.ntohl (host.load32 bytes), fd')

  unfoldable pub write_file_size : Host → S → ℕ → Outcome (Bool × S)
  write_file_size host fd file_size =
      write_exactly fd (host.store32 (host.htonl (file_size % 2 ^ 32)))
