-- ===== src/Launcher/Capture.antt =====
-- How the launcher learns the port of the master from its output (src/jpgsync.cpp, Executor::Execute).
use jpgsync.Common.{
  ℕ, zero, suc, Bool, ◌||◌, ◌&&◌, List, [], ◌∷◌, ◌++◌, Option, none, some, leb, ◌==◌, if◌then◌else◌,
}
use jpgsync.Cli.{extract_port}

-- A line as fgets reads it: up to its end, which it keeps, and `n` characters at most.
unfoldable pub fgets : ℕ → List ℕ → List ℕ
fgets zero output = []
fgets (suc n) [] = []
fgets (suc n) (c ∷ output) = let rest = fgets n output in if c == 10 then c ∷ [] else c ∷ rest

-- isspace in the "C" locale.
abbrev pub is_space : ℕ → Bool
is_space c = c == 32 || (leb 9 c && leb c 13)

-- What `iss >> *master_port` reads, one after the other; `word` is the part of one that is read.
unfoldable pub words_from : List ℕ → List ℕ → List (List ℕ)
words_from [] [] = []
words_from (w ∷ word) [] = (w ∷ word) ∷ []
words_from word (c ∷ cs) =
    let next = words_from (word ++ c ∷ []) cs in
    let again = words_from [] cs in
    if is_space c then elim word [ [] ↦ again | w ∷ ws ↦ (w ∷ ws) ∷ again ] else next

-- The loop over them: it ends with the first that is a port. At the end of the line the string keeps
-- the last word.
unfoldable pub find_port : List ℕ → List (List ℕ) → List ℕ
find_port master_port [] = master_port
find_port master_port (word ∷ words) =
    let rest = find_port word words in elim (extract_port word) [ none ↦ rest | some port ↦ word ]

-- `char port_str[126]` holds 125 characters; `none` is the exception for a null pointer of fgets.
-- The line is taken to have no byte 0.
unfoldable pub capture_port : List ℕ → Option (List ℕ)
unfolding fgets words_from find_port
capture_port [] = none
capture_port (c ∷ output) = some (find_port [] (words_from [] (fgets 125 (c ∷ output))))
