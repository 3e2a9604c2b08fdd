-- ===== src/Launcher/Program/Reparsed.antt =====
-- What the launcher's arguments are to the peers that it starts (src/jpgsync.cpp).
use mathlib.Core.Path.{subst}
use jpgsync.Common.{
  ℕ, zero, suc, ◌+◌, ◌<◌, ◌≡◌, refl, sym, Bool, true, false, inl, inr, List, [], ◌∷◌, Option, none,
  some, drop, take, arith, Option-cases,
}
use jpgsync.Host.{Host}
use jpgsync.Protocol.{Outcome}
use jpgsync.Dir.{Dir, DirEntry}
use jpgsync.Master.{Master, Kernel}
use jpgsync.Slave.{Slave}
use jpgsync.Cli.{Root, find, rfind, init_root, init_host, or_here}
use jpgsync.Cli.Defaults.{Defaults, new_root, init_defaults, parse_master}
use jpgsync.Launcher.Decimal.{decimal}
use jpgsync.Launcher.Announce.{slave_arg, master_address, parse_master-slave_arg}
use jpgsync.Launcher.Main.{Shell, Options, master_args, slave_args}
use jpgsync.Launcher.Local.{run_master, run_slave_process}
use jpgsync.Launcher.Program.{CommandLine, peer, program, with_defaults, run_peer}

rfind-drop :
    (c : ℕ) (str : List ℕ) (p : ℕ) → rfind c str ≡ some p → rfind c (drop (p + 1) str) ≡ none
unfolding rfind
rfind-drop c [] p e = cc
rfind-drop c (x ∷ xs) p e = elim (Option-cases (rfind c xs)) [
  | inl null ↦ let first : p ≡ 0 = ground (arith, null) in rw first null
  | inr (i, found) ↦
      let next : p ≡ suc i = ground (arith, found) in
      let plus : suc i + 1 ≡ suc (i + 1) = omega arith in rw (next, plus) (rfind-drop c xs i found)
]

-- A directory without ':' that is not empty is read as a local root.
abbrev IsPlain : List ℕ → Type 0
IsPlain dir = (rfind b':' dir ≡ none) × (or_here dir ≡ dir)

or_here-IsPlain : (dir : List ℕ) → rfind b':' dir ≡ none → IsPlain (or_here dir)
unfolding rfind
or_here-IsPlain [] e = (refl, refl)
or_here-IsPlain (c ∷ cs) e = (e, refl)

init_host-dir :
    (dir hostname : List ℕ) (root : Root) (kind : ℕ) (r : Root)
    → init_host dir hostname root ≡ some (kind, r)
    → r.dir ≡ dir
unfolding init_host
init_host-dir dir hostname root kind r e = elim (Option-cases (find b'@' hostname)) [
  | inl null ↦ ground (arith, null)
  | inr (pos, found) ↦ ground (arith, found)
]

-- The directory of a root that was read.
init_root-IsPlain :
    (arg : List ℕ) (old : Root) (kind : ℕ) (r : Root)
    → init_root arg old ≡ some (kind, r)
    → IsPlain r.dir
unfolding init_root
init_root-IsPlain arg old kind r e = elim (Option-cases (rfind b':' arg)) [
  | inl null ↦
      let local : or_here arg ≡ r.dir = ground (arith, null) in
      subst IsPlain local (or_here-IsPlain arg null)
  | inr (zero, found) ↦ absurd (ground (arith, found))
  | inr (suc pos, found) ↦
      let made : init_host (or_here (drop (suc pos + 1) arg)) (take (suc pos) arg) old
          ≡ some (kind, r) =
        ground (arith, found) in
      subst IsPlain
        (sym
          (init_host-dir (or_here (drop (suc pos + 1) arg)) (take (suc pos) arg) old kind r made))
        (or_here-IsPlain (drop (suc pos + 1) arg) (rfind-drop b':' arg (suc pos) found))
]

-- Read again it is a local root, with the same directory.
init_root-again :
    (arg : List ℕ) (old : Root) (kind : ℕ) (r : Root)
    → init_root arg old ≡ some (kind, r)
    → init_root r.dir new_root ≡ some (0, record { dir = r.dir; hostname = []; user = [] })
unfolding init_root
init_root-again arg old kind r e =
    let (free, full) = init_root-IsPlain arg old kind r e in rw (init_root, free, full)

-- What the parser finds in the arguments of one peer.
pub record LocalLine (slave : Option (List ℕ)) (master : Bool) (dir : List ℕ) (c : CommandLine)
    : Type 0 where
  pub local : c.local ≡ true
  pub no_help : c.help ≡ false
  pub no_test : c.nc_test ≡ false
  pub slave_same : c.flags.slave ≡ slave
  pub master_same : c.flags.master ≡ master
  pub one_root : c.roots ≡ dir ∷ []

abbrev defaults_of : Root → Root → List ℕ → ℕ → List ℕ → Defaults
defaults_of master_root slave_root host port arg = record {
  master_root = master_root;
  slave_root = slave_root;
  master_host = host;
  master_port = port;
  args = arg ∷ [];
}

abbrev local_root : List ℕ → Root
local_root dir = record { dir = dir; hostname = []; user = [] }

module _ {N A : Type 0} (host : Host) (kernel : Kernel N) (resolver : jpgsync.Slave.Kernel A)
    (open_listing : List ℕ → Option (List DirEntry)) (net : N)
    (sync_master : Dir × Master × N → Outcome ℕ) (sync_slave : Dir × Slave resolver → Outcome ℕ)
    (shell : Shell) (system : List ℕ → ℕ) where
  program_master :
      (c : CommandLine) (dir : List ℕ)
      → LocalLine none true dir c
      → init_root dir new_root ≡ some (0, local_root dir)
      → program host kernel resolver open_listing net sync_master sync_slave shell system (some c)
        ≡ peer (run_master host kernel dir (open_listing dir) net sync_master)
  unfolding program with_defaults run_peer init_defaults
  program_master c dir l e =
      rw (l.slave_same, l.master_same, l.one_root, e, l.local, l.no_help, l.no_test)

  program_slave :
      (c : CommandLine) (dir value master_host : List ℕ) (port : ℕ)
      → LocalLine (some value) false dir c
      → init_root dir new_root ≡ some (0, local_root dir)
      → parse_master value ≡ some (master_host, port)
      → program host kernel resolver open_listing net sync_master sync_slave shell system (some c)
        ≡ peer (run_slave_process resolver dir (open_listing dir) master_host port sync_slave)
  unfolding program with_defaults run_peer init_defaults
  program_slave c dir value master_host port l e m =
      rw (l.slave_same, l.master_same, l.one_root, e, m, l.local, l.no_help, l.no_test)

  -- Let the roots of the launcher have been read from its arguments, and let the parser find in the
  -- arguments that it gives to a peer the option --local, no --help and no test, -m or the value of -s,
  -- and the directory. Then the program that is started so is a master on the directory of the master's
  -- root, or a slave on the directory of the slave's root, which connects to the host of the master's
  -- root, or localhost, at the master's port.
  pub program-peers :
      (parse : List (List ℕ) → Option CommandLine) (o : Options) (port : ℕ) (c_m c_s : CommandLine)
      (arg_m arg_s : List ℕ) (old_m old_s : Root) (kind_m kind_s : ℕ)
      → port < 65536
      → init_root arg_m old_m ≡ some (kind_m, o.master_root)
      → init_root arg_s old_s ≡ some (kind_s, o.slave_root)
      → parse (master_args o) ≡ some c_m
      → LocalLine none true o.master_root.dir c_m
      → parse (slave_args o (decimal port)) ≡ some c_s
      → LocalLine (some (slave_arg o.master_root (decimal port))) false o.slave_root.dir c_s
      → (program host kernel resolver open_listing net sync_master sync_slave shell system
            (parse (master_args o))
          ≡ peer (
              run_master host kernel o.master_root.dir
                (open_listing o.master_root.dir)
                net
                sync_master))
        × (program host kernel resolver open_listing net sync_master sync_slave shell system
              (parse (slave_args o (decimal port)))
            ≡ peer (
                run_slave_process resolver o.slave_root.dir
                  (open_listing o.slave_root.dir)
                  (master_address o.master_root)
                  port
                  sync_slave))
  program-peers parse o port c_m c_s arg_m arg_s old_m old_s kind_m kind_s lt em es pm lm ps ls = (
    rw pm (
        program_master c_m o.master_root.dir lm
          (init_root-again arg_m old_m kind_m o.master_root em)),
    rw ps (
        program_slave c_s o.slave_root.dir (slave_arg o.master_root (decimal port))
          (master_address o.master_root) port ls
          (init_root-again arg_s old_s kind_s o.slave_root es)
          (parse_master-slave_arg o.master_root port lt)),
  )
