-- ===== src/Cli/Defaults.antt =====
-- JpgsyncOptions::InitDefaults of src/jpgsync.cpp: which roots the master and the slave get, and the
-- address of the master that a slave is given.
pub mod Swapping
mod Runs
use jpgsync.Common.{
  ℕ, zero, suc, ◌+◌, Bool, true, false, ◌&&◌, not, List, [], ◌∷◌, Option, none, some, length, take,
  drop, ltb, ◌==◌, if◌then◌else◌,
}
use jpgsync.Cli.{Root, init_root, rfind, extract_port}

-- The members that it sets, and the arguments behind argv[0].
pub record Defaults : Type 0 where
  pub master_root : Root
  pub slave_root : Root
  pub master_host : List ℕ
  pub master_port : ℕ
  pub args : List (List ℕ)

abbrev pub new_root : Root
new_root = record { dir = []; hostname = []; user = [] }

infixl 5 ◌>>=◌
abbrev pub ◌>>=◌ {ℓ κ} : {A : Type ℓ} {B : Type κ} → Option A → (A → Option B) → Option B
none >>= f = none
some a >>= f = f a

-- The value HOST:PORT of the option -s.
unfoldable pub parse_master : List ℕ → Option (List ℕ × ℕ)
parse_master value = do
  pos ← rfind b':' value
  port ←
      if ltb 0 pos && not (pos + 1 == length value)
      then extract_port (drop (pos + 1) value)
      else none
  some (take pos value, port)

-- Two roots: the slave's is exchanged with the master's where it is remote and the master's is not.
unfoldable pub place_roots : List ℕ → List ℕ → ℕ × Root → ℕ × Root → Defaults
place_roots arg1 arg2 (kind1, root1) (kind2, root2) =
    if ltb 0 kind2 && (kind1 == 0)
    then record {
      master_root = root2;
      slave_root = root1;
      master_host = [];
      master_port = 0;
      args = arg2 ∷ arg1 ∷ [];
    }
    else record {
      master_root = root1;
      slave_root = root2;
      master_host = [];
      master_port = 0;
      args = arg1 ∷ arg2 ∷ [];
    }

-- `slave` is the value of -s, `master` whether -m is given; `none` is the exception.
unfoldable pub init_defaults : Option (List ℕ) → Bool → List (List ℕ) → Option Defaults
init_defaults (some value) true args = none
init_defaults (some value) false (arg ∷ []) = do
  (kind, root) ← init_root arg new_root
  (host, port) ← parse_master value
  some (record {
    master_root = new_root;
    slave_root = root;
    master_host = host;
    master_port = port;
    args = arg ∷ [];
  })
init_defaults none true (arg ∷ []) = do
  (kind, root) ← init_root arg new_root
  some (record {
    master_root = root;
    slave_root = new_root;
    master_host = [];
    master_port = 0;
    args = arg ∷ [];
  })
init_defaults none false (arg1 ∷ arg2 ∷ []) = do
  root1 ← init_root arg1 new_root
  root2 ← init_root arg2 new_root
  some (place_roots arg1 arg2 root1 root2)
init_defaults slave master args = none
