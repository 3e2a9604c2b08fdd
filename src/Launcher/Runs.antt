-- ===== src/Launcher/Runs.antt =====
-- Commands of src/jpgsync.cpp, and a run of a master and a slave on one host.
use jpgsync.Common.{
  ℕ, ◌+◌, length, ◌≡◌, ◌↔◌, refl, true, false, List, [], ◌∷◌, ◌++◌, none, some, chars, arith,
}
use jpgsync.Launcher.Roots.{Flags, options_of, start_peers, placed_roots, start_peers_swapped}
use jpgsync.Cli.{init_root, init_host, find, rfind, Root}
use jpgsync.Cli.Defaults.{parse_master}
use jpgsync.Launcher.Commands.{create, local_executor, set_arguments}
use jpgsync.Launcher.Capture.{words_from, capture_port}
use jpgsync.Launcher.Decimal.{decimal}
use jpgsync.Launcher.Announce.{listening_line, slave_arg}
use jpgsync.Launcher.Main.{Shell, Options, exit_code, launch}
use jpgsync.Host.{little_endian}
use jpgsync.Protocol.{returned}
use jpgsync.Master.{Kernel}
use jpgsync.Launcher.Local.{aborted, listened, run_master}
use jpgsync.Launcher.Unheard.{IsPort, launched, launch-run_master}
use jpgsync.Launcher.Status.{first_failure, master_run, slave_run, launch_succeeds}

abbrev home : Root
home = record { dir = chars "photos"; hostname = []; user = [] }

abbrev away : Root
away = record { dir = chars "/img"; hostname = chars "nas"; user = chars "ann" }

abbrev options : Options
options = record {
  argv0 = chars "./jpgsync";
  rest = chars "-v" ∷ [];
  slave = false;
  master = false;
  distribute = true;
  verbosity = 1;
  master_root = away;
  slave_root = home;
}

-- A master that announces the port 4711 and fails with 2 in the end, and a slave that fails with 3.
abbrev shell : Shell
shell [] cmd = ([], 0)
shell (dist ∷ []) cmd = (listening_line 4711 ++ [], 512)
shell (dist ∷ master ∷ started) cmd = ([], 768)

ssh_command :
    (set_arguments (chars "/img" ∷ chars "-m" ∷ []) (create false 0 away [])).cmd
    ≡ chars "ssh ann@nas '~/bin/jpgsync /img -m'"
unfolding create jpgsync.Launcher.Commands.remote_executor jpgsync.Launcher.Commands.ssh_target
    set_arguments jpgsync.Launcher.Commands.spaced
ssh_command = refl

rsync_command :
    (create true 0 away []).dist_cmd ≡ chars "rsync -Lazq ~/bin/jpgsync nas:~/bin/jpgsync 1>&2"
unfolding create jpgsync.Launcher.Commands.remote_executor jpgsync.Launcher.Commands.rsync
rsync_command = refl

-- The last word stays where the line has no port.
no_port : capture_port (chars "ssh: no route") ≡ some (chars "route")
unfolding capture_port jpgsync.Launcher.Capture.fgets words_from jpgsync.Launcher.Capture.find_port
    jpgsync.Cli.extract_port jpgsync.Cli.extract_from
no_port = refl

announced : (master_run shell options).1 ≡ listening_line 4711 ++ []
unfolding master_run jpgsync.Launcher.Main.execute create jpgsync.Launcher.Commands.remote_executor
    jpgsync.Launcher.Commands.rsync
announced = refl

launch_succeeds_example :
    ((launch shell options).0 ≡ (slave_run shell options 4711).0)
    × (parse_master (slave_arg away (decimal 4711)) ≡ some (chars "nas", 4711))
    × ((launch shell options).1 ≡ some 0 ↔ (
        exit_code (master_run shell options).2 ≡ 0
        × exit_code (slave_run shell options 4711).2 ≡ 0))
    × ((launch shell options).1
        ≡ some (
            first_failure
              (exit_code (slave_run shell options 4711).2)
              (exit_code (master_run shell options).2)))
launch_succeeds_example = launch_succeeds shell options 4711 [] refl refl (omega arith) announced

-- Its state is the open descriptors; the port that is chosen is 0x1234 in the other byte order.
abbrev kernel : Kernel (List ℕ)
kernel = record {
  socket = λ fds. some (length fds + 3, (length fds + 3) ∷ fds);
  bind = λ fds sock port. some fds;
  listen = λ fds sock. some fds;
  getsockname = λ fds sock. some 0x1234;
  accept = λ fds sock. none;
  open_fds = λ fds. fds;
  with_open_fds = λ fds old. fds;
}

-- What the master has printed when bind fails.
listening_refused :
    run_master little_endian
      (record kernel { bind = λ fds sock port. none })
      (chars "/img")
      (some [])
      []
      (λ peer. returned 0)
    ≡ (chars "Listening on port ", aborted)
unfolding listened run_master jpgsync.Launcher.Local.announce jpgsync.Launcher.Local.listening_at
    jpgsync.Dir.open_dir jpgsync.Master.listen_all jpgsync.Master.master
    jpgsync.Master.bind_and_listen jpgsync.Master.assign_fd jpgsync.Closeable.new_fd
    jpgsync.Closeable.assign jpgsync.Closeable.close_unless_closed
listening_refused = refl

-- A master that listens, and a slave.
abbrev listening_shell : Shell
listening_shell [] cmd = ([], 0)
listening_shell (dist ∷ []) cmd = (listening_line 0x3412, 0)
listening_shell (dist ∷ master ∷ started) cmd = ([], 0)

is_port : IsPort (listened little_endian kernel (chars "/img") (some []) [])
unfolding listened run_master jpgsync.Launcher.Local.announce jpgsync.Launcher.Local.listening_at
    jpgsync.Dir.open_dir jpgsync.Master.listen_all jpgsync.Master.master
    jpgsync.Master.bind_and_listen jpgsync.Master.assign_fd jpgsync.Closeable.new_fd
    jpgsync.Closeable.assign jpgsync.Host.swap16 jpgsync.Closeable.close_unless_closed
    listening_line little_endian
is_port = omega arith

announced_port :
    (master_run listening_shell options).1
    ≡ (run_master little_endian kernel (chars "/img") (some []) [] (λ peer. returned 0)).0
unfolding master_run jpgsync.Launcher.Main.execute create jpgsync.Launcher.Commands.remote_executor
    jpgsync.Launcher.Commands.rsync listened run_master jpgsync.Launcher.Local.announce
    jpgsync.Launcher.Local.listening_at jpgsync.Dir.open_dir jpgsync.Master.listen_all
    jpgsync.Master.master jpgsync.Master.bind_and_listen jpgsync.Master.assign_fd
    jpgsync.Closeable.new_fd jpgsync.Closeable.assign jpgsync.Host.swap16
    jpgsync.Closeable.close_unless_closed listening_line little_endian
announced_port = refl

launch-run_master_example :
    (launch listening_shell options
      ≡ launched listening_shell options
          (listened little_endian kernel (chars "/img") (some []) []))
    × (parse_master (slave_arg away (chars "port")) ≡ none)
launch-run_master_example =
    launch-run_master little_endian kernel listening_shell options (chars "/img") (some []) []
      (λ peer. returned 0) refl refl is_port announced_port

abbrev flags : Flags
flags = record {
  argv0 = chars "./jpgsync";
  rest = [];
  slave = none;
  master = false;
  distribute = false;
  verbosity = 0;
}

abbrev remote : Root
remote = record { dir = chars "/img"; hostname = chars "nas"; user = [] }

start_peers_swapped_example :
    (start_peers shell flags (chars "photos" ∷ chars "nas:/img" ∷ [])
      ≡ start_peers shell flags (chars "nas:/img" ∷ chars "photos" ∷ []))
    × (start_peers shell flags (chars "nas:/img" ∷ chars "photos" ∷ [])
        ≡ launch shell
            (options_of flags (placed_roots (chars "photos") (chars "nas:/img") home remote)))
unfolding init_root init_host find rfind
start_peers_swapped_example =
    start_peers_swapped shell flags (chars "photos") (chars "nas:/img") 0 home remote refl refl refl
      refl
