-- ===== src/Cli/Runs.antt =====
-- Tests of the command line, and its theorems at concrete strings.
use jpgsync.Common.{ℕ, ◌<◌, ◌≡◌, ◌↔◌, refl, List, [], ◌∷◌, none, some, All, arith}
use jpgsync.Cli.{Root, extract_port, extract_from, init_root, init_host, find, rfind}
use jpgsync.Cli.Port.{IsDigit, value_from, extract_port_lem}
use jpgsync.Cli.Roots.{Syntax, remote_user, show_root, init_root-show_root}

abbrev port : List ℕ
port = b'8' ∷ b'0' ∷ []

extract_port-cases :
    (extract_port [] ≡ some 0) × (extract_port (b'6' ∷ b'5' ∷ b'5' ∷ b'3' ∷ b'6' ∷ []) ≡ none)
unfolding extract_port extract_from
extract_port-cases = (refl, refl)

extract_port_lem_example :
    (extract_port port ≡ some 80) ↔ (All IsDigit port × (value_from 0 port ≡ 80) × (80 < 65536))
extract_port_lem_example = extract_port_lem port 80

abbrev no_root : Root
no_root = record { dir = []; hostname = []; user = [] }

-- A user or a host that is empty.
init_root-bad :
    (init_root (b'@' ∷ b'h' ∷ b':' ∷ []) no_root ≡ none)
    × (init_root (b':' ∷ b'd' ∷ []) no_root ≡ none)
unfolding init_root init_host find rfind
init_root-bad = (refl, refl)

abbrev here : Syntax
here = remote_user (b'u' ∷ []) (b'h' ∷ []) []

init_root-show_root_example :
    init_root (b'u' ∷ b'@' ∷ b'h' ∷ b':' ∷ []) no_root
    ≡ some (2, record { dir = b'.' ∷ []; hostname = b'h' ∷ []; user = b'u' ∷ [] })
unfolding show_root
init_root-show_root_example =
    init_root-show_root here no_root (omega arith, omega arith, (refl, tt), tt)
