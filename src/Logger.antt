-- ===== src/Logger.antt =====
-- src/util/logger.cpp: messages with a tag, and the exit status of the process. Text is a list of
-- characters, and the output the list of the lines that are written.
pub mod Status
mod Runs
use jpgsync.Common.{ℕ, Bool, true, false, List, [], ◌∷◌, ◌++◌, leb, bit_or, if◌then◌else◌}

-- The tags that the callers pass to `Write`.
pub data Tag : Type 0 where
  untagged : Tag
  warning : Tag
  error : Tag
  fatal : Tag

pub record Logger : Type 0 where
  pub name : List ℕ
  pub verbosity : ℕ
  pub os : List (List ℕ)
  pub exit_status : ℕ

unfoldable pub logger : List ℕ → ℕ → Logger
logger name verbosity = record { name = name; verbosity = verbosity; os = []; exit_status = 0 }

abbrev pub tag_text : Tag → List ℕ
tag_text untagged = []
tag_text warning = b'w' ∷ b'a' ∷ b'r' ∷ b'n' ∷ b'i' ∷ b'n' ∷ b'g' ∷ []
tag_text error = b'e' ∷ b'r' ∷ b'r' ∷ b'o' ∷ b'r' ∷ []
tag_text fatal = b'f' ∷ b'a' ∷ b't' ∷ b'a' ∷ b'l' ∷ []

-- `exit_status_ |= 1` and `exit_status_ |= 2`.
abbrev pub status_after : Tag → ℕ → ℕ
status_after untagged status = status
status_after warning status = status
status_after error status = bit_or status 2
status_after fatal status = bit_or status 1

abbrev pub line : List ℕ → Tag → List ℕ → List ℕ
line name untagged msg = msg
line name tag msg = name ++ b':' ∷ b' ' ∷ (tag_text tag ++ b':' ∷ b' ' ∷ msg)

-- `Logger::Write`, under its mutex.
unfoldable pub write : Tag → List ℕ → Logger → Logger
write tag msg l = record l {
  os = l.os ++ line l.name tag msg ∷ [];
  exit_status = status_after tag l.exit_status;
}

unfoldable pub verbose : List ℕ → ℕ → Logger → Logger
verbose msg min_verbosity l = if leb min_verbosity l.verbosity then write untagged msg l else l

-- The calls of a run.
pub data Call : Type 0 where
  call_verbose : List ℕ → ℕ → Call
  call_warn : List ℕ → Call
  call_error : List ℕ → Call
  call_fatal : List ℕ → Call

-- The logger after a call, and whether the process goes on: `Fatal` ends it.
unfoldable pub call : Call → Logger → Logger × Bool
call (call_verbose msg v) l = (verbose msg v l, true)
call (call_warn msg) l = (write warning msg l, true)
call (call_error msg) l = (write error msg l, true)
call (call_fatal msg) l = (write fatal msg l, false)

-- The calls that are made until the process ends.
unfoldable pub calls : List Call → Logger → Logger
calls [] l = l
calls (c ∷ cs) l =
    let after = call c l in let rest = calls cs after.0 in if after.1 then rest else after.0
