-- ===== src/Launcher/Program/Runs.antt =====
-- The launcher's arguments at a small option parser.
use jpgsync.Common.{
  ℕ, ◌+◌, length, ◌≡◌, refl, Bool, true, false, ◌&&◌, List, [], ◌∷◌, Option, none, some, chars,
  arith, ◌==◌, if◌then◌else◌,
}
use jpgsync.Host.{little_endian}
use jpgsync.Protocol.{returned}
use jpgsync.Cli.{Root, init_root, init_host, find, rfind}
use jpgsync.Master
use jpgsync.Slave
use jpgsync.Launcher.Decimal.{decimal}
use jpgsync.Launcher.Announce.{slave_arg}
use jpgsync.Launcher.Main.{Shell, Options, master_args, slave_args}
use jpgsync.Launcher.Local.{run_master, run_slave_process}
use jpgsync.Launcher.Program.{CommandLine, peer, program, usage, with_defaults}
use jpgsync.Launcher.Program.Reparsed.{LocalLine, program-peers}

abbrev same : List ℕ → List ℕ → Bool
same [] [] = true
same [] (y ∷ ys) = false
same (x ∷ xs) [] = false
same (x ∷ xs) (y ∷ ys) = (x == y) && same xs ys

abbrev nothing : CommandLine
nothing = record {
  flags = record {
    argv0 = chars "./jpgsync";
    rest = [];
    slave = none;
    master = false;
    distribute = false;
    verbosity = 0;
  };
  help = false;
  local = false;
  nc_test = false;
  roots = [];
}

-- It knows --local, --help, -m and -s; what else is there is a root. The words are read from the last.
abbrev read_word : List ℕ → CommandLine → CommandLine
read_word word c =
    if same word (chars "--local")
    then record c { local = true }
    else if same word (chars "--help")
    then record c { help = true }
    else if same word (chars "-m")
    then record c { flags = record c.flags { master = true } }
    else record c { roots = word ∷ c.roots }

abbrev read_words : List (List ℕ) → CommandLine
read_words [] = nothing
read_words (w ∷ []) = read_word w nothing
read_words (w ∷ v ∷ ws) =
    let rest = read_words ws in
    let more = read_words (v ∷ ws) in
    if same w (chars "-s")
    then record rest { flags = record rest.flags { slave = some v } }
    else read_word w more

parse : List (List ℕ) → Option CommandLine
parse ws = some (read_words ws)

abbrev options : Options
options = record {
  argv0 = chars "./jpgsync";
  rest = [];
  slave = false;
  master = false;
  distribute = false;
  verbosity = 0;
  master_root = record { dir = chars "/img"; hostname = chars "nas"; user = chars "ann" };
  slave_root = record { dir = chars "photos"; hostname = []; user = [] };
}

master_line : LocalLine none true (chars "/img") (read_words (master_args options))
master_line = record {
  local = refl;
  no_help = refl;
  no_test = refl;
  slave_same = refl;
  master_same = refl;
  one_root = refl;
}

slave_line :
    LocalLine
      (some (slave_arg options.master_root (decimal 4711)))
      false
      (chars "photos")
      (read_words (slave_args options (decimal 4711)))
unfolding slave_arg
slave_line = record {
  local = refl;
  no_help = refl;
  no_test = refl;
  slave_same = refl;
  master_same = refl;
  one_root = refl;
}

-- Its state is the open descriptors.
abbrev kernel : jpgsync.Master.Kernel (List ℕ)
kernel = record {
  socket = λ fds. some (length fds + 3, (length fds + 3) ∷ fds);
  bind = λ fds sock port. some fds;
  listen = λ fds sock. some fds;
  getsockname = λ fds sock. some 0x1234;
  accept = λ fds sock. none;
  open_fds = λ fds. fds;
  with_open_fds = λ fds old. fds;
}

abbrev resolver : jpgsync.Slave.Kernel ℕ
resolver = record {
  getaddrinfo = λ host port protocol. some (1 ∷ 2 ∷ []);
  socket = λ opened a. some (3 + length opened);
  connect = λ fd a. true;
}

abbrev shell : Shell
shell commands cmd = ([], 0)

-- Without roots --help is not heard.
help_unheard :
    program little_endian kernel resolver
      (λ path. some [])
      []
      (λ p. returned 0)
      (λ p. returned 0)
      shell
      (λ cmd. 0)
      (parse (chars "--help" ∷ []))
    ≡ usage 1
unfolding program with_defaults parse jpgsync.Cli.Defaults.init_defaults
help_unheard = refl

program-peers_example :
    (program little_endian kernel resolver
        (λ path. some [])
        []
        (λ p. returned 0)
        (λ p. returned 0)
        shell
        (λ cmd. 0)
        (parse (master_args options))
      ≡ peer (run_master little_endian kernel (chars "/img") (some []) [] (λ p. returned 0)))
    × (program little_endian kernel resolver
          (λ path. some [])
          []
          (λ p. returned 0)
          (λ p. returned 0)
          shell
          (λ cmd. 0)
          (parse (slave_args options (decimal 4711)))
        ≡ peer (
            run_slave_process resolver
              (chars "photos")
              (some [])
              (chars "nas")
              4711
              (λ p. returned 0)))
unfolding parse init_root init_host find rfind
program-peers_example =
    program-peers little_endian kernel resolver (λ path. some []) [] (λ p. returned 0)
      (λ p. returned 0) shell (λ cmd. 0) parse options 4711 (read_words (master_args options))
      (read_words (slave_args options (decimal 4711))) (chars "ann@nas:/img") (chars "photos")
      options.master_root options.slave_root 2 0 (omega arith) refl refl refl master_line refl
      slave_line
