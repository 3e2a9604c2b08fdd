-- ===== src/Dir/Runs.antt =====
-- The paths of a small directory.
use jpgsync.Common.{◌≡◌, refl, true, false, List, [], ◌∷◌, some}
use jpgsync.Protocol.{returned, threw, ◌>>=◌}
use jpgsync.Dir.{DirEntry, entry, failed, open_dir, generate, next, next_from}
use jpgsync.Dir.Listing.{generate-open_dir, file_names}

-- The directory "d" with a subdirectory and the files "a" and "b".
abbrev entries : List DirEntry
entries = entry (b'.' ∷ []) true ∷ entry (b'a' ∷ []) false ∷ entry (b'b' ∷ []) false ∷ []

next-failed : next (record { path = []; prefix_len = 0; ahead = failed ∷ [] }) ≡ threw
unfolding next next_from
next-failed = refl

generate-open_dir_example :
    (open_dir (b'd' ∷ []) (some entries) >>= generate 4)
    ≡ returned ((b'd' ∷ b'/' ∷ b'a' ∷ []) ∷ (b'd' ∷ b'/' ∷ b'b' ∷ []) ∷ [])
unfolding file_names
generate-open_dir_example = generate-open_dir (b'd' ∷ []) entries (tt, (tt, (tt, tt)))
