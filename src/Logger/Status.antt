-- ===== src/Logger/Status.antt =====
-- The exit status of a logger tells which kinds of messages it has written.
use jpgsync.Common.{
  ℕ, ◌≡◌, refl, ◌∙◌, Bool, true, false, ◌||◌, List, [], ◌∷◌, leb, Bool-cases, inl, inr,
}
use jpgsync.Logger.{
  Logger, warning, error, write, verbose, call, calls, Call, call_verbose, call_warn, call_error,
  call_fatal, logger,
}

-- Whether an error is reported, and whether the run ends with a fatal message.
unfoldable pub has_error : List Call → Bool
has_error [] = false
has_error (call_error msg ∷ cs) = true
has_error (call_fatal msg ∷ cs) = false
has_error (call_verbose msg v ∷ cs) = has_error cs
has_error (call_warn msg ∷ cs) = has_error cs

unfoldable pub has_fatal : List Call → Bool
has_fatal [] = false
has_fatal (call_fatal msg ∷ cs) = true
has_fatal (call_error msg ∷ cs) = has_fatal cs
has_fatal (call_verbose msg v ∷ cs) = has_fatal cs
has_fatal (call_warn msg ∷ cs) = has_fatal cs

-- The status with those two bits.
abbrev pub status : Bool → Bool → ℕ
status true true = 3
status true false = 2
status false true = 1
status false false = 0

verbose_status : (msg : List ℕ) (v : ℕ) (l : Logger) → (verbose msg v l).exit_status ≡ l.exit_status
unfolding verbose write
verbose_status msg v l = elim (Bool-cases (leb v l.verbosity)) [ inl e ↦ rw e | inr e ↦ rw e ]

calls-status :
    (cs : List Call) (l : Logger) (e : Bool)
    → l.exit_status ≡ status e false
    → (calls cs l).exit_status ≡ status (e || has_error cs) (has_fatal cs)
unfolding calls call write has_error has_fatal
calls-status [] l true h = h
calls-status [] l false h = h
calls-status (call_verbose msg v ∷ cs) l e h =
    calls-status cs (verbose msg v l) e (verbose_status msg v l ∙ h)
calls-status (call_warn msg ∷ cs) l e h = calls-status cs (write warning msg l) e h
calls-status (call_error msg ∷ cs) l true h = calls-status cs (write error msg l) true (rw h)
calls-status (call_error msg ∷ cs) l false h = calls-status cs (write error msg l) true (rw h)
calls-status (call_fatal msg ∷ cs) l true h = rw h
calls-status (call_fatal msg ∷ cs) l false h = rw h

-- The exit status of a run of the logger has the bit 2 exactly if an error was reported, and the bit 1
-- exactly if the run ended with a fatal message.
pub calls-logger :
    (name : List ℕ) (verbosity : ℕ) (cs : List Call)
    → (calls cs (logger name verbosity)).exit_status ≡ status (has_error cs) (has_fatal cs)
unfolding logger
calls-logger name verbosity cs = calls-status cs (logger name verbosity) false refl
