-- ===== src/Dir/Listing.antt =====
-- Which paths a `Dir` gives.
use jpgsync.Common.{
  ℕ, zero, suc, ◌<◌, ◌≡◌, refl, ap, ◌∙◌, append_assoc, true, false, List, [], ◌∷◌, ◌++◌, map, some,
  length, take, take-append_left, arith, All,
}
use jpgsync.Protocol.{returned, ◌>>=◌}
use jpgsync.Dir.{Dir, DirEntry, entry, failed, open_dir, next, next_from, generate, replace_from}

-- The names of the entries that are no directories.
unfoldable pub file_names : List DirEntry → List (List ℕ)
file_names [] = []
file_names (failed ∷ es) = file_names es
file_names (entry name true ∷ es) = file_names es
file_names (entry name false ∷ es) = name ∷ file_names es

-- readdir does not fail, and gives no empty name.
abbrev pub IsRead : DirEntry → Type 0
IsRead failed = ⊥
IsRead (entry [] dir) = ⊥
IsRead (entry (c ∷ cs) dir) = Unit {0}

-- The path begins with the prefix.
abbrev pub Keeps : List ℕ → List ℕ → Type 0
Keeps dir path = take (length dir) path ≡ dir

append_cons : (d : List ℕ) (c : ℕ) (cs : List ℕ) → (y : ℕ) × (ys : List ℕ) × (d ++ c ∷ cs ≡ y ∷ ys)
append_cons [] c cs = (c, cs, refl)
append_cons (y ∷ d) c cs = (y, d ++ c ∷ cs, refl)

take-length : (xs : List ℕ) → take (length xs) xs ≡ xs
take-length [] = refl
take-length (x ∷ xs) = ap (◌∷◌ x) (take-length xs)

map-append_assoc :
    (dir : List ℕ) (names : List (List ℕ))
    → map (λ name. (dir ++ b'/' ∷ []) ++ name) names ≡ map (λ name. dir ++ b'/' ∷ name) names
map-append_assoc dir [] = refl
map-append_assoc dir (name ∷ names) =
    rw (append_assoc dir (b'/' ∷ []) name, map-append_assoc dir names)

module _ (dir : List ℕ) where
  abbrev dir_at : List ℕ → List DirEntry → Dir
  dir_at path ahead = record { path = path; prefix_len = length dir; ahead = ahead }

  generate_lem :
      (fuel : ℕ) (path : List ℕ) (ahead : List DirEntry)
      → length ahead < fuel
      → Keeps dir path
      → All IsRead ahead
      → generate fuel (dir_at path ahead) ≡ returned (map (λ name. dir ++ name) (file_names ahead))
  unfolding generate next next_from file_names replace_from
  generate_lem zero path ahead lt k r = absurd (omega arith)
  generate_lem (suc fuel) path [] lt k r = refl
  generate_lem (suc fuel) path (failed ∷ ahead) lt k r = absurd r.0
  generate_lem (suc fuel) path (entry [] d ∷ ahead) lt k r = absurd r.0
  generate_lem (suc fuel) path (entry (c ∷ cs) true ∷ ahead) lt k r =
      generate_lem (suc fuel) path ahead (omega arith) k r.1
  generate_lem (suc fuel) path (entry (c ∷ cs) false ∷ ahead) lt k r =
      let (y, ys, e) = append_cons dir c cs in
      let kept : Keeps dir (y ∷ ys) = rw e at (take-append_left (length dir) dir (c ∷ cs) refl) in
      rw (k, e, generate_lem fuel (y ∷ ys) ahead (omega arith) kept r.1)

-- If readdir does not fail and gives no empty name, the paths that a directory's generator gives are
-- those of its files, in the order of readdir and without the directories, each made of the name of
-- the directory, one slash, and the name of the file.
pub generate-open_dir :
    (dir : List ℕ) (entries : List DirEntry)
    → All IsRead entries
    → (open_dir dir (some entries) >>= generate (suc (length entries)))
      ≡ returned (map (λ name. dir ++ b'/' ∷ name) (file_names entries))
unfolding open_dir
generate-open_dir dir entries r =
    generate_lem (dir ++ b'/' ∷ []) (suc (length entries)) (dir ++ b'/' ∷ []) entries (omega arith)
      (take-length (dir ++ b'/' ∷ [])) r
    ∙ ap returned (map-append_assoc dir (file_names entries))
