-- ===== src/Cli/Roots.antt =====
-- `Root::Init` against the syntax [[USER@]HOST:]DIR that the program's usage text gives for its roots.
use jpgsync.Common.{
  ℕ, ◌+◌, ◌<◌, ◌≡◌, refl, ap, sym, ◌∙◌, true, false, ◌&&◌, List, [], ◌∷◌, ◌++◌, none, some, All,
  length, drop, ltb, ◌==◌, arith, take-append_left, drop-append_left, length-append, append_assoc,
}
use jpgsync.Cli.{Root, find, rfind, init_root, init_host, or_here}

pub data Syntax : Type 0 where
  local : List ℕ → Syntax
  remote : List ℕ → List ℕ → Syntax
  remote_user : List ℕ → List ℕ → List ℕ → Syntax

unfoldable pub show_root : Syntax → List ℕ
show_root (local dir) = dir
show_root (remote host dir) = host ++ b':' ∷ dir
show_root (remote_user user host dir) = (user ++ b'@' ∷ host) ++ b':' ∷ dir

abbrev pub Free : ℕ → List ℕ → Type 0
Free c xs = All (λ x. (x == c) ≡ false) xs

-- No part but the directory is empty, the directory has no ':', the host alone or the user no '@'.
abbrev pub IsSyntax : Syntax → Type 0
IsSyntax (local dir) = Free b':' dir
IsSyntax (remote host dir) = (0 < length host) × Free b'@' host × Free b':' dir
IsSyntax (remote_user user host dir) =
    (0 < length user) × (0 < length host) × Free b'@' user × Free b':' dir

-- What it denotes; `old` is the user before.
abbrev pub denotes : List ℕ → Syntax → ℕ × Root
denotes old (local dir) = (0, record { dir = or_here dir; hostname = []; user = [] })
denotes old (remote host dir) = (1, record { dir = or_here dir; hostname = host; user = old })
denotes old (remote_user user host dir) =
    (2, record { dir = or_here dir; hostname = host; user = user })

find-none : (c : ℕ) (xs : List ℕ) → Free c xs → find c xs ≡ none
unfolding find
find-none c [] f = refl
find-none c (x ∷ xs) (fx, fs) = rw (fx, find-none c xs fs)

find-append : (c : ℕ) (xs ys : List ℕ) → Free c xs → find c (xs ++ c ∷ ys) ≡ some (length xs)
unfolding find
find-append c [] ys f = ground arith
find-append c (x ∷ xs) ys (fx, fs) = rw (fx, find-append c xs ys fs)

rfind-none : (c : ℕ) (xs : List ℕ) → Free c xs → rfind c xs ≡ none
unfolding rfind
rfind-none c [] f = refl
rfind-none c (x ∷ xs) (fx, fs) = rw (rfind-none c xs fs, fx)

pub rfind-append : (c : ℕ) (xs ys : List ℕ) → Free c ys → rfind c (xs ++ c ∷ ys) ≡ some (length xs)
unfolding rfind
rfind-append c [] ys f = rw (rfind-none c ys f) (ground arith)
rfind-append c (x ∷ xs) ys f = rw (rfind-append c xs ys f)

pub drop_past : (c : ℕ) (xs ys : List ℕ) → drop (length xs + 1) (xs ++ c ∷ ys) ≡ ys
drop_past c xs ys =
    ap (drop (length xs + 1)) (sym (append_assoc xs (c ∷ []) ys))
    ∙ drop-append_left (length xs + 1) (xs ++ c ∷ []) ys (omega (arith, length-append xs (c ∷ [])))

init_root_host :
    (host dir : List ℕ) (root : Root)
    → 0 < length host
    → Free b':' dir
    → init_root (host ++ b':' ∷ dir) root ≡ init_host (or_here dir) host root
unfolding init_root rfind init_host
init_root_host [] dir root h f = absurd (omega arith)
init_root_host (x ∷ xs) dir root h f = rw (
  rfind-append b':' (x ∷ xs) dir f,
  drop_past b':' (x ∷ xs) dir,
  take-append_left (length (x ∷ xs)) (x ∷ xs) (b':' ∷ dir) refl,
)

-- A root that is written by the syntax, with a directory that has no ':', a host and a user, if they are
-- given, that are not empty, and no '@' in the user, or in the host if there is no user, is read as what
-- it denotes. Without a user the member `user` stays what it was for a remote root and is empty for a
-- local one, and an empty directory is ".".
pub init_root-show_root :
    (s : Syntax) (root : Root)
    → IsSyntax s
    → init_root (show_root s) root ≡ some (denotes root.user s)
unfolding init_root show_root init_host
init_root-show_root (local dir) root f = rw (init_root, rfind-none b':' dir f)
init_root-show_root (remote host dir) root (h, fh, fd) =
    init_root_host host dir root h fd ∙ rw (init_host, find-none b'@' host fh)
init_root-show_root (remote_user user host dir) root (u, h, fu, fd) =
    let both : (ltb 0 (length user) && ltb (length user + 1) (length (user ++ b'@' ∷ host)))
        ≡ true =
      ground (arith, length-append user (b'@' ∷ host)) in
    init_root_host (user ++ b'@' ∷ host) dir root (omega (arith, length-append user (b'@' ∷ host)))
      fd
    ∙ rw (
      init_host,
      find-append b'@' user host fu,
      both,
      drop_past b'@' user host,
      take-append_left (length user) user (b'@' ∷ host) refl,
    )
