-- ===== src/Launcher/Roots.antt =====
-- The way from the roots on the command line to the processes that `main` starts (src/jpgsync.cpp). What
-- the option parser finds is a parameter.
use jpgsync.Common.{
  ℕ, suc, ◌≡◌, ap, sym, ◌∙◌, Bool, true, false, ◌&&◌, ltb, ◌==◌, arith, List, [], ◌∷◌, Option, none,
  some,
}
use jpgsync.Cli.{Root, init_root}
use jpgsync.Cli.Defaults.{Defaults, new_root, init_defaults, place_roots}
use jpgsync.Launcher.Main.{Shell, Options, launch}

-- The options of the command line, and the arguments behind the roots.
pub record Flags : Type 0 where
  pub argv0 : List ℕ
  pub rest : List (List ℕ)
  pub slave : Option (List ℕ)
  pub master : Bool
  pub distribute : Bool
  pub verbosity : ℕ

abbrev pub is_some {ℓ} : {A : Type ℓ} → Option A → Bool
is_some none = false
is_some (some a) = true

unfoldable pub options_of : Flags → Defaults → Options
options_of f d = record {
  argv0 = f.argv0;
  rest = f.rest;
  slave = is_some f.slave;
  master = f.master;
  distribute = f.distribute;
  verbosity = f.verbosity;
  master_root = d.master_root;
  slave_root = d.slave_root;
}

-- `main` without --local and --help: the exception of the roots ends it with 1.
unfoldable pub start_with : Shell → Flags → Option Defaults → List (List ℕ) × Option ℕ
unfolding options_of
start_with shell f none = ([], some 1)
start_with shell f (some d) = launch shell (options_of f d)

unfoldable pub start_peers : Shell → Flags → List (List ℕ) → List (List ℕ) × Option ℕ
unfolding start_with
start_peers shell f roots = start_with shell f (init_defaults f.slave f.master roots)

-- The members that `InitDefaults` sets.
abbrev pub placed_roots : List ℕ → List ℕ → Root → Root → Defaults
placed_roots here there local remote = record {
  master_root = remote;
  slave_root = local;
  master_host = [];
  master_port = 0;
  args = there ∷ here ∷ [];
}

module _ (here there : List ℕ) (kind : ℕ) (local remote : Root) where
  local_first :
      (slave : Option (List ℕ)) (master : Bool)
      → slave ≡ none
      → master ≡ false
      → init_root here new_root ≡ some (0, local)
      → init_root there new_root ≡ some (suc kind, remote)
      → init_defaults slave master (here ∷ there ∷ []) ≡ some (placed_roots here there local remote)
  unfolding init_defaults place_roots
  local_first slave master s m e1 e2 =
      let swap : (ltb 0 (suc kind) && (0 == 0)) ≡ true = ground arith in
      rw (s, m, e1, e2, place_roots, swap)

  remote_first :
      (slave : Option (List ℕ)) (master : Bool)
      → slave ≡ none
      → master ≡ false
      → init_root here new_root ≡ some (0, local)
      → init_root there new_root ≡ some (suc kind, remote)
      → init_defaults slave master (there ∷ here ∷ []) ≡ some (placed_roots here there local remote)
  unfolding init_defaults place_roots
  remote_first slave master s m e1 e2 = rw (s, m, e1, e2)

-- With neither -m nor -s, and of two roots just one remote, the order of the two makes no difference: the
-- same commands are started, with the remote root as the master's, and the exit status is the same.
pub start_peers_swapped :
    (shell : Shell) (f : Flags) (here there : List ℕ) (kind : ℕ) (local remote : Root)
    → f.slave ≡ none
    → f.master ≡ false
    → init_root here new_root ≡ some (0, local)
    → init_root there new_root ≡ some (suc kind, remote)
    → (start_peers shell f (here ∷ there ∷ []) ≡ start_peers shell f (there ∷ here ∷ []))
      × (start_peers shell f (there ∷ here ∷ [])
          ≡ launch shell (options_of f (placed_roots here there local remote)))
unfolding start_peers start_with
start_peers_swapped shell f here there kind local remote s m e1 e2 =
    let placed = local_first here there kind local remote f.slave f.master s m e1 e2 in
    let placed' = remote_first here there kind local remote f.slave f.master s m e1 e2 in
    (ap (start_with shell f) (placed ∙ sym placed'), ap (start_with shell f) placed')
