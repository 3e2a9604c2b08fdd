-- ===== src/Launcher/Commands.antt =====
-- The commands (src/jpgsync.cpp, Executor, LocalExecutor and RemoteExecutor). A shell command is text.
use jpgsync.Common.{
  ℕ, Bool, true, false, ◌&&◌, not, List, [], ◌∷◌, ◌++◌, chars, same, ltb, if◌then◌else◌,
}
use jpgsync.Cli.{Root, is_empty}

-- The members `cmd_` and `dist_cmd_`, and which of the subclasses the object has.
pub record Executor : Type 0 where
  pub cmd : List ℕ
  pub dist_cmd : List ℕ
  pub remote : Bool

unfoldable pub local_executor : List ℕ → Executor
local_executor argv0 = record { cmd = argv0; dist_cmd = []; remote = false }

-- XXX in the source too
abbrev pub prog_path : List ℕ
prog_path = chars "~/bin/jpgsync"

-- The host part of an ssh command.
unfoldable pub ssh_target : Root → List ℕ
ssh_target root = if is_empty root.user then root.hostname else root.user ++ b'@' ∷ root.hostname

-- The command that copies the program; `rsync` of a path to the same path on the host.
unfoldable pub rsync : ℕ → Root → List ℕ
rsync verbosity root =
    chars "rsync -Laz"
    ++ ((if ltb 0 verbosity then b'v' else b'q')
        ∷ b' '
        ∷ (prog_path ++ b' ' ∷ (root.hostname ++ b':' ∷ (prog_path ++ chars " 1>&2"))))

unfoldable pub remote_executor : Bool → ℕ → Root → Executor
unfolding ssh_target rsync
remote_executor distribute verbosity root =
    let elsewhere =
      not (same root.hostname (chars "localhost"))
      && not (same root.hostname (chars "127.0.0.1")) in
    record {
      cmd = chars "ssh " ++ (ssh_target root ++ (chars " '" ++ prog_path));
      dist_cmd = if distribute && elsewhere then rsync verbosity root else [];
      remote = true;
    }

-- `Executor::Create`
unfoldable pub create : Bool → ℕ → Root → List ℕ → Executor
unfolding local_executor remote_executor
create distribute verbosity root argv0 =
    if is_empty root.hostname
    then local_executor argv0
    else remote_executor distribute verbosity root

-- Each argument behind a space, without quotes.
unfoldable pub spaced : List (List ℕ) → List ℕ
spaced [] = []
spaced (arg ∷ args) = b' ' ∷ (arg ++ spaced args)

-- `SetArguments` of both classes.
unfoldable pub set_arguments : List (List ℕ) → Executor → Executor
unfolding spaced
set_arguments args e = record e {
  cmd = e.cmd ++ (spaced args ++ (if e.remote then b'\'' ∷ [] else []));
}
