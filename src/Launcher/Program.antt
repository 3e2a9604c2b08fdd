-- ===== src/Launcher/Program.antt =====
-- `main` of src/jpgsync.cpp as a whole: the launcher, one peer with --local, or the test with netcat.
--
-- What the option parser finds is a parameter (`none` is its exception); it calls InitDefaults with the
-- arguments that are no options before it returns. So are the network, opendir by the path, and `Sync`.
pub mod Reparsed
mod Runs
use jpgsync.Common.{ℕ, Bool, true, false, not, List, Option, none, some, if◌then◌else◌}
use jpgsync.Host.{Host}
use jpgsync.Protocol.{Outcome}
use jpgsync.Dir.{Dir, DirEntry}
use jpgsync.Master.{Master, Kernel}
use jpgsync.Slave.{Slave}
use jpgsync.Cli.{Root}
use jpgsync.Cli.Defaults.{Defaults, init_defaults}
use jpgsync.Launcher.Main.{Shell, launch}
use jpgsync.Launcher.Roots.{Flags, options_of}
use jpgsync.Launcher.Local.{Exit, exited, aborted, run_master, run_slave_process, test_connection}

pub record CommandLine : Type 0 where
  pub flags : Flags
  pub help : Bool
  pub local : Bool
  pub nc_test : Bool
  pub roots : List (List ℕ)

-- What the process has done when it ends.
pub data Ending : Type 0 where
  usage : ℕ → Ending  -- the usage text, with this exit status
  started : List (List ℕ) × Option ℕ → Ending  -- the commands of the launcher, and its exit status
  tested : ℕ → Ending
  peer : List ℕ × Exit → Ending  -- the output and the end of one peer

-- Without an exit status the launcher ends by an exception.
abbrev pub status_of : Option ℕ → Exit
status_of none = aborted
status_of (some status) = exited status

unfoldable pub exit_of_program : Ending → Exit
exit_of_program (usage status) = exited status
exit_of_program (started (commands, status)) = status_of status
exit_of_program (tested status) = exited status
exit_of_program (peer (output, end)) = end

module _ {N A : Type 0} (host : Host) (kernel : Kernel N) (resolver : jpgsync.Slave.Kernel A)
    (open_listing : List ℕ → Option (List DirEntry)) (net : N)
    (sync_master : Dir × Master × N → Outcome ℕ)
    (sync_slave : Dir × Slave resolver → Outcome ℕ) where
  unfoldable pub run_peer : Bool → Defaults → List ℕ × Exit
  run_peer true d =
      run_master host kernel d.master_root.dir (open_listing d.master_root.dir) net sync_master
  run_peer false d =
      run_slave_process resolver d.slave_root.dir (open_listing d.slave_root.dir) d.master_host
        d.master_port sync_slave

  module _ (shell : Shell) (system : List ℕ → ℕ) where
    unfoldable pub with_defaults : CommandLine → Option Defaults → Ending
    unfolding run_peer
    with_defaults c none = usage 1
    with_defaults c (some d) =
        if c.help
        then usage 0
        else if not c.local
        then started (launch shell (options_of c.flags d))
        else if c.nc_test
        then tested (test_connection system c.flags.master d.master_host d.master_port)
        else peer (run_peer c.flags.master d)

    unfoldable pub program : Option CommandLine → Ending
    unfolding with_defaults
    program none = usage 1
    program (some c) = with_defaults c (init_defaults c.flags.slave c.flags.master c.roots)
