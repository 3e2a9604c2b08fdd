-- ===== src/Cli.antt =====
-- src/jpgsync.cpp: the command line of the program. A string is the list of its characters.
pub mod Port
pub mod Roots
pub mod Defaults
mod Runs
use jpgsync.Common.{
  ℕ, zero, suc, ◌+◌, ◌-◌, ◌*◌, Bool, true, false, ◌&&◌, ◌||◌, not, List, [], ◌∷◌, ◌++◌, Option,
  none, some, length, take, drop, leb, ltb, ◌==◌, if◌then◌else◌,
}

-- The C function isdigit.
abbrev pub is_digit : ℕ → Bool
is_digit c = leb b'0' c && leb c b'9'

-- The loop of `ExtractPort`. The value stays within an int: it is 0xFFFF at most before a digit.
unfoldable pub extract_from : ℕ → List ℕ → Option ℕ
extract_from ret [] = some ret
extract_from ret (c ∷ cs) =
    let ret' = 10 * ret + (c - b'0') in
    let rest = extract_from ret' cs in if not (is_digit c) || ltb 0xFFFF ret' then none else rest

-- `ExtractPort`; `none` is the answer false, and the port it gives fits a uint16_t.
unfoldable pub extract_port : List ℕ → Option ℕ
extract_port cs = extract_from 0 cs

-- `std::string::rfind` and `find` of a character; `none` is npos.
unfoldable pub find : ℕ → List ℕ → Option ℕ
find c [] = none
find c (x ∷ xs) =
    let later : Option ℕ = elim (find c xs) [ none ↦ none | some i ↦ some (suc i) ] in
    if x == c then some 0 else later

unfoldable pub rfind : ℕ → List ℕ → Option ℕ
rfind c [] = none
rfind c (x ∷ xs) = elim (rfind c xs) [
  | none ↦ if x == c then some 0 else none
  | some i ↦ some (suc i)
]

-- `JpgsyncOptions::Root`.
pub record Root : Type 0 where
  pub dir : List ℕ
  pub hostname : List ℕ
  pub user : List ℕ

abbrev pub is_empty : List ℕ → Bool
is_empty [] = true
is_empty (c ∷ cs) = false

-- An empty directory is ".".
abbrev pub or_here : List ℕ → List ℕ
or_here dir = if is_empty dir then b'.' ∷ [] else dir

-- The part of `Root::Init` from `hostname` on; `user` is as it was where there is no '@'.
unfoldable pub init_host : List ℕ → List ℕ → Root → Option (ℕ × Root)
init_host dir hostname root = elim (find b'@' hostname) [
  | none ↦ some (1, record { dir = dir; hostname = hostname; user = root.user })
  | some pos ↦
      if ltb 0 pos && ltb (pos + 1) (length hostname)
      then some
          (2, record { dir = dir; hostname = drop (pos + 1) hostname; user = take pos hostname })
      else none
]

-- `Root::Init`; `none` is the exception.
unfoldable pub init_root : List ℕ → Root → Option (ℕ × Root)
init_root str root = elim (rfind b':' str) [
  | none ↦ some (0, record { dir = or_here str; hostname = []; user = [] })
  | some zero ↦ none
  | some (suc pos) ↦ init_host (or_here (drop (suc pos + 1) str)) (take (suc pos) str) root
]
