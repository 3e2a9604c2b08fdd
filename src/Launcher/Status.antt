-- ===== src/Launcher/Status.antt =====
-- The exit status of the launcher (src/jpgsync.cpp, `main` without --local).
use jpgsync.Common.{zero, suc, ℕ, ◌<◌, ◌≡◌, ◌↔◌, refl, ap, ◌∙◌, false, List, [], ◌++◌, some, arith}
use jpgsync.Cli.Defaults.{parse_master}
use jpgsync.Launcher.Decimal.{decimal}
use jpgsync.Launcher.Announce.{
  listening_line, slave_arg, master_address, capture-listening_line, parse_master-slave_arg,
}
use jpgsync.Launcher.Main.{
  Shell, Options, execute, exit_code, wait, create_master, create_slave, master_args, slave_args,
  run_slave, run_both, launch,
}

-- The run of the master, and that of the slave behind it.
unfoldable pub master_run : Shell → Options → List (List ℕ) × List ℕ × ℕ
master_run shell o = execute shell (master_args o) (create_master o) []

unfoldable pub slave_run : Shell → Options → ℕ → List (List ℕ) × List ℕ × ℕ
unfolding master_run
slave_run shell o port =
    execute shell (slave_args o (decimal port)) (create_slave o) (master_run shell o).0

-- The status of the slave, or where that is 0 that of the master.
pub first_failure : ℕ → ℕ → ℕ
first_failure zero master = master
first_failure (suc slave) master = suc slave

wait_both :
    (m s : ℕ)
    → ((some (wait m (wait s 0)) ≡ some 0) ↔ (exit_code m ≡ 0 × exit_code s ≡ 0))
      × (some (wait m (wait s 0)) ≡ some (first_failure (exit_code s) (exit_code m)))
unfolding wait first_failure
wait_both m s = ((λ e. (ground arith, ground arith), λ (e, f). ground arith), ground arith)

pub run_both-listening_line :
    (shell : Shell) (o : Options) (port : ℕ) (more : List ℕ)
    → port < 65536
    → (master_run shell o).1 ≡ listening_line port ++ more
    → run_both shell o ≡ (
      (slave_run shell o port).0,
      some (wait (master_run shell o).2 (wait (slave_run shell o port).2 0)),
    )
unfolding run_both run_slave master_run slave_run
run_both-listening_line shell o port more lt e = rw (e, capture-listening_line port more lt) refl

pub launch_both :
    (shell : Shell) (o : Options)
    → o.slave ≡ false
    → o.master ≡ false
    → launch shell o ≡ run_both shell o
unfolding launch
launch_both shell o s m = rw (s, m) refl

-- Neither -s nor -m is given, and the master prints first the line that announces its port. Then the
-- slave is started once, behind the master, with an option -s that it reads as the master's address,
-- and the launcher exits with 0 exactly if WEXITSTATUS of both peers is 0, and otherwise with that of the
-- slave, or of the master where the slave's is 0.
pub launch_succeeds :
    (shell : Shell) (o : Options) (port : ℕ) (more : List ℕ)
    → o.slave ≡ false
    → o.master ≡ false
    → port < 65536
    → (master_run shell o).1 ≡ listening_line port ++ more
    → ((launch shell o).0 ≡ (slave_run shell o port).0)
      × (parse_master (slave_arg o.master_root (decimal port))
          ≡ some (master_address o.master_root, port))
      × ((launch shell o).1 ≡ some 0
          ↔ (exit_code (master_run shell o).2 ≡ 0 × exit_code (slave_run shell o port).2 ≡ 0))
      × ((launch shell o).1
          ≡ some (
              first_failure
                (exit_code (slave_run shell o port).2)
                (exit_code (master_run shell o).2)))
launch_succeeds shell o port more s m lt e =
    let both = launch_both shell o s m ∙ run_both-listening_line shell o port more lt e in
    let (success, first) = wait_both (master_run shell o).2 (slave_run shell o port).2 in
    (
      ap (λ r. r.0) both,
      parse_master-slave_arg o.master_root port lt,
      rw (ap (λ r. r.1) both) success,
      rw (ap (λ r. r.1) both) first,
    )
