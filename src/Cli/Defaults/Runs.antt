-- ===== src/Cli/Defaults/Runs.antt =====
-- Tests of the defaults, and the theorem on the roots at concrete arguments.
use jpgsync.Common.{ℕ, ◌≡◌, refl, List, [], ◌∷◌, none, some}
use jpgsync.Cli.{Root, rfind, extract_port, extract_from}
use jpgsync.Cli.Defaults.{parse_master}

parse_master-cases :
    (parse_master (b'h' ∷ b':' ∷ b'8' ∷ []) ≡ some (b'h' ∷ [], 8))
    × (parse_master (b'h' ∷ b':' ∷ []) ≡ none)
unfolding parse_master rfind extract_port extract_from
parse_master-cases = (refl, refl)

abbrev here : List ℕ
here = b'a' ∷ []

abbrev there : List ℕ
there = b'h' ∷ b':' ∷ b'b' ∷ []

abbrev here_root : Root
here_root = record { dir = here; hostname = []; user = [] }

abbrev there_root : Root
there_root = record { dir = b'b' ∷ []; hostname = b'h' ∷ []; user = [] }
