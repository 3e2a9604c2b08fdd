-- ===== src/Launcher/Main.antt =====
-- The part of `main` that starts the peers (src/jpgsync.cpp, without the option --local), and
-- Executor::Execute and Wait, which it calls.
use jpgsync.Common.{
  ℕ, ◌/◌, ◌%◌, Bool, ◌&&◌, not, List, [], ◌∷◌, ◌++◌, Option, none, some, chars, ◌==◌, if◌then◌else◌,
}
use jpgsync.Cli.{Root, is_empty}
use jpgsync.Launcher.Commands.{Executor, create, set_arguments}
use jpgsync.Launcher.Capture.{capture_port}
use jpgsync.Launcher.Announce.{slave_arg}

-- What a command writes to its output, and what pclose or system say of its end, given the commands
-- that were started before.
abbrev pub Shell : Type 0
Shell = List (List ℕ) → List ℕ → List ℕ × ℕ

-- The options that it reads, and the arguments behind the roots.
pub record Options : Type 0 where
  pub argv0 : List ℕ
  pub rest : List (List ℕ)
  pub slave : Bool
  pub master : Bool
  pub distribute : Bool
  pub verbosity : ℕ
  pub master_root : Root
  pub slave_root : Root

-- The distribution's exit status is reported, and no more.
abbrev pub distributed : Executor → List (List ℕ) → List (List ℕ)
distributed e started = if is_empty e.dist_cmd then started else started ++ e.dist_cmd ∷ []

-- The commands that were started, and what the last of them writes and exits with.
unfoldable pub execute :
    Shell → List (List ℕ) → Executor → List (List ℕ) → List (List ℕ) × List ℕ × ℕ
unfolding set_arguments
execute shell args e started =
    let before = distributed e started in
    let cmd = (set_arguments args e).cmd in
    let (output, es) = shell before cmd in (before ++ cmd ∷ [], output, es)

-- The macro WEXITSTATUS.
unfoldable pub exit_code : ℕ → ℕ
exit_code status = status / 256 % 256

-- The first exit status that is not 0 is kept.
unfoldable pub wait : ℕ → ℕ → ℕ
unfolding exit_code
wait status exit_status =
    let es = exit_code status in if not (es == 0) && (exit_status == 0) then es else exit_status

abbrev pub create_master : Options → Executor
create_master o = create o.distribute o.verbosity o.master_root o.argv0

abbrev pub create_slave : Options → Executor
create_slave o = create o.distribute o.verbosity o.slave_root o.argv0

abbrev pub local_arg : List ℕ
local_arg = chars "--local"

abbrev pub master_args : Options → List (List ℕ)
master_args o = o.master_root.dir ∷ (o.rest ++ local_arg ∷ chars "-m" ∷ [])

abbrev pub slave_args : Options → List ℕ → List (List ℕ)
slave_args o port =
    o.slave_root.dir ∷ (o.rest ++ local_arg ∷ chars "-s" ∷ slave_arg o.master_root port ∷ [])

-- The slave is started once the master has printed its port; `none` is the exception without one.
unfoldable pub run_slave :
    Shell → Options → ℕ → List (List ℕ) → Option (List ℕ) → List (List ℕ) × Option ℕ
unfolding execute wait
run_slave shell o master_es started none = (started, none)
run_slave shell o master_es started (some port) =
    let (all, output, es) = execute shell (slave_args o port) (create_slave o) started in
    (all, some (wait master_es (wait es 0)))

unfoldable pub run_both : Shell → Options → List (List ℕ) × Option ℕ
unfolding execute run_slave
run_both shell o =
    let (started, output, es) = execute shell (master_args o) (create_master o) [] in
    run_slave shell o es started (capture_port output)

-- One peer, for the option -s or -m.
unfoldable pub run_alone : Shell → Options → Root → List (List ℕ) × Option ℕ
unfolding execute wait
run_alone shell o root =
    let (started, output, es) =
      execute shell (root.dir ∷ (o.rest ++ local_arg ∷ []))
        (create o.distribute o.verbosity root o.argv0) [] in
    (started, some (wait es 0))

-- The commands that `main` starts, and its exit status.
unfoldable pub launch : Shell → Options → List (List ℕ) × Option ℕ
unfolding run_both run_alone
launch shell o =
    if o.slave
    then run_alone shell o o.slave_root
    else if o.master
    then run_alone shell o o.master_root
    else run_both shell o
