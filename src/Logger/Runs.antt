-- ===== src/Logger/Runs.antt =====
-- A concrete run of the logger.
use jpgsync.Common.{◌≡◌, refl, [], ◌∷◌}
use jpgsync.Logger.{
  logger, calls, call_verbose, call_warn, call_error, call_fatal, call, write, verbose,
}
use jpgsync.Logger.Status.{calls-logger, has_error, has_fatal}

-- The message of verbosity 2 is left out, and so is what comes behind the fatal message.
calls-four :
    (calls
      (call_verbose (1 ∷ []) 2 ∷ call_verbose (2 ∷ []) 1 ∷ call_fatal (3 ∷ []) ∷ call_error [] ∷ [])
      (logger (b'j' ∷ []) 1)).os
    ≡ (2 ∷ []) ∷ (b'j' ∷ b':' ∷ b' ' ∷ b'f' ∷ b'a' ∷ b't' ∷ b'a' ∷ b'l' ∷ b':' ∷ b' ' ∷ 3 ∷ []) ∷ []
unfolding calls call write verbose logger
calls-four = refl

calls-logger_example :
    (calls
      (call_error (1 ∷ []) ∷ call_warn [] ∷ call_fatal (3 ∷ []) ∷ [])
      (logger (b'j' ∷ []) 1)).exit_status
    ≡ 3
unfolding has_error has_fatal
calls-logger_example =
    calls-logger (b'j' ∷ []) 1 (call_error (1 ∷ []) ∷ call_warn [] ∷ call_fatal (3 ∷ []) ∷ [])
