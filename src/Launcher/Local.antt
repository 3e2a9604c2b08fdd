-- ===== src/Launcher/Local.antt =====
-- The part of `main` that is one peer itself (src/jpgsync.cpp, with the option --local).
--
-- `Sync` is a parameter: what it comes to, with the exit status of the logger.
use jpgsync.Common.{ℕ, Bool, List, [], ◌∷◌, ◌++◌, Option, chars, if◌then◌else◌}
use jpgsync.Host.{Host}
use jpgsync.Protocol.{Outcome, returned, threw, fatal, stuck, ◌>>=◌}
use jpgsync.Dir.{Dir, DirEntry, open_dir}
use jpgsync.Master.{Master, Kernel, master, listen_all}
use jpgsync.Slave.{Slave, attach}
use jpgsync.Launcher.Decimal.{decimal}
use jpgsync.Launcher.Announce.{listening_line}
use jpgsync.Launcher.Main.{exit_code}

-- How the process ends: by `return`, or by std::terminate. `running` is no end.
pub data Exit : Type 0 where
  exited : ℕ → Exit
  aborted : Exit
  running : Exit

-- The handler of SysCallException calls Logger::Fatal.
abbrev pub exit_of : Outcome ℕ → Exit
exit_of (returned status) = exited status
exit_of threw = aborted
exit_of fatal = aborted
exit_of stuck = running

-- How far a master gets: opendir fails, a call of `Listen` fails, or it listens on a port. `unending` is
-- no end.
pub data Start {ℓ} (A : Type ℓ) : Type ℓ where
  not_opened : Start A
  not_listening : Start A
  listening : ℕ → A → Start A
  unending : Start A

-- `cout << "Listening on port " << master->Listen() << endl`: the text is in cout before `Listen` is called,
-- and the message of Logger::Fatal on cerr, which is tied to cout, writes it out.
unfoldable pub announce {ℓ} : {A : Type ℓ} → Start A → (A → Outcome ℕ) → List ℕ × Exit
announce not_opened sync = ([], aborted)
announce not_listening sync = (chars "Listening on port ", aborted)
announce (listening port a) sync = (listening_line port, exit_of (sync a))
announce unending sync = ([], running)

-- Behind opendir.
unfoldable pub listening_at :
    {N : Type 0} → Dir → Outcome (ℕ × Master × N) → Start (Dir × Master × N)
listening_at dir (returned (port, m, net)) = listening port (dir, m, net)
listening_at dir threw = not_listening
listening_at dir fatal = not_listening
listening_at dir stuck = unending

module _ {N : Type 0} (host : Host) (kernel : Kernel N) where
  -- The directory is opened before the master listens.
  unfoldable pub listened : List ℕ → Option (List DirEntry) → N → Start (Dir × Master × N)
  unfolding listening_at
  listened root listing net = elim (open_dir root listing) as (λ _. Start (Dir × Master × N)) [
    | returned dir ↦ listening_at dir (listen_all host kernel master net)
    | threw ↦ not_opened
    | fatal ↦ not_opened
    | stuck ↦ unending
  ]

  -- Its output and its end.
  unfoldable pub run_master :
      List ℕ → Option (List DirEntry) → N → (Dir × Master × N → Outcome ℕ) → List ℕ × Exit
  unfolding listened announce
  run_master root listing net sync = announce (listened root listing net) sync

module _ {A : Type 0} (kernel : jpgsync.Slave.Kernel A) where
  -- A slave prints nothing.
  unfoldable pub run_slave_process :
      List ℕ
      → Option (List DirEntry)
      → List ℕ
      → ℕ
      → (Dir × Slave kernel → Outcome ℕ)
      → List ℕ × Exit
  run_slave_process root listing master_host master_port sync = (
    [],
    exit_of
        (do dir ← open_dir root listing; s ← attach kernel master_host master_port; sync (dir, s)),
  )

-- The command of the option that tests the connection with netcat, and its exit status.
unfoldable pub nc_command : Bool → List ℕ → ℕ → List ℕ
nc_command is_master master_host master_port =
    if is_master
    then chars "~/bin/mync.sh -l 13579"
    else chars "nc " ++ (master_host ++ b' ' ∷ decimal master_port)

unfoldable pub test_connection : (List ℕ → ℕ) → Bool → List ℕ → ℕ → ℕ
unfolding nc_command exit_code
test_connection system is_master master_host master_port =
    exit_code (system (nc_command is_master master_host master_port))
