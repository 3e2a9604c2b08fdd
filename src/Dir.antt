-- ===== src/Dir.antt =====
-- src/util/dir.cpp: the path generator, which gives the paths of the files of one directory. What
-- readdir gives is a parameter, as the list of what is still to come.
pub mod Listing
mod Runs
use jpgsync.Common.{
  ℕ, zero, suc, Bool, true, false, List, [], ◌∷◌, ◌++◌, Option, none, some, length, take,
}
use jpgsync.Protocol.{Outcome, returned, threw, stuck, ◌>>=◌}

-- A call of readdir: an entry, with the test `d_type == DT_DIR`, or an error.
pub data DirEntry : Type 0 where
  entry : List ℕ → Bool → DirEntry
  failed : DirEntry

-- The members; `ahead` stands for `dir_`. Behind its last entry readdir gives null.
pub record Dir : Type 0 where
  pub path : List ℕ
  pub prefix_len : ℕ
  pub ahead : List DirEntry

-- `Dir::Dir` on what opendir gives. The initializer of `prefix_len_` reads the member `path_`.
unfoldable pub open_dir : List ℕ → Option (List DirEntry) → Outcome Dir
open_dir path none = threw
open_dir path (some entries) =
    returned (record {
      path = path ++ b'/' ∷ [];
      prefix_len = length (path ++ b'/' ∷ []);
      ahead = entries;
    })

-- `path_.replace(prefix_len_, npos, name)`, for a position that is not past the end.
unfoldable pub replace_from : ℕ → List ℕ → List ℕ → List ℕ
replace_from pos name path = take pos path ++ name

-- `Dir::Next` on what readdir has still to give.
unfoldable pub next_from : List ℕ → ℕ → List DirEntry → Outcome (List ℕ × Dir)
unfolding replace_from
next_from path prefix_len [] =
    returned ([], record { path = []; prefix_len = prefix_len; ahead = [] })
next_from path prefix_len (failed ∷ ahead) = threw
next_from path prefix_len (entry name true ∷ ahead) = next_from path prefix_len ahead
next_from path prefix_len (entry name false ∷ ahead) = returned (
  replace_from prefix_len name path,
  record { path = replace_from prefix_len name path; prefix_len = prefix_len; ahead = ahead },
)

unfoldable pub next : Dir → Outcome (List ℕ × Dir)
next d = next_from d.path d.prefix_len d.ahead

-- The calls of a loop that ends with the first empty path, as those of src/exif_hasher.cpp and
-- test/dir_test.cpp do; `stuck` is the end of the fuel.
unfoldable pub generate : ℕ → Dir → Outcome (List (List ℕ))
generate zero d = stuck
generate (suc fuel) d = do
  (path, d') ← next d
  let later = do paths ← generate fuel d'; returned (path ∷ paths)
  elim path [ [] ↦ returned [] | _ ∷ _ ↦ later ]
