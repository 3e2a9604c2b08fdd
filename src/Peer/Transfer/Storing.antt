-- ===== src/Peer/Transfer/Storing.antt =====
-- Where the downloader stores an image, and that it spoils no other.
use jpgsync.Common.{
  same, ℕ, ◌⊎◌, ◌≡◌, refl, ap, ap₂, sym, ◌∙◌, Bool, true, false, List, [], ◌∷◌, ◌++◌, Option, none,
  some, ◌==◌, ==_iff, arith, Bool-cases, inl, inr,
}
use jpgsync.ExifHash.{ExifHash, show}
use jpgsync.Peer.Transfer.{Files, put, reopen_end_out, destination, to_path, stored}

pub same_self : (xs : List ℕ) → same xs xs ≡ true
same_self [] = refl
same_self (x ∷ xs) = rw ((==_iff x x).1 refl, same_self xs)

same→eq : (xs ys : List ℕ) → same xs ys ≡ true → xs ≡ ys
same→eq [] [] e = refl
same→eq [] (y ∷ ys) e = absurd (ground arith)
same→eq (x ∷ xs) [] e = absurd (ground arith)
same→eq (x ∷ xs) (y ∷ ys) e = elim (Bool-cases (x == y)) [
  | inl xy ↦ ap₂ (◌∷◌) ((==_iff x y).0 xy) (same→eq xs ys (rw xy at e))
  | inr xy ↦ absurd (ground arith)
]

none-some : (b : ℕ) (bs : List ℕ) → none ≡ some (b ∷ bs) → ⊥
none-some b bs e = absurd (ground arith)

module _ (writable : List ℕ → Bool) where
  opened_is_empty :
      (path : List ℕ) (files : Files) (b : ℕ) (bs : List ℕ)
      → (reopen_end_out writable path files).0 ≡ true
      → files path ≡ some (b ∷ bs)
      → ⊥
  unfolding reopen_end_out
  opened_is_empty path files b bs ok f = elim (Bool-cases (writable path)) [
    | inl w ↦ let e : false ≡ true = rw (reopen_end_out, w, f) at ok in absurd (ground arith)
    | inr w ↦ let e : false ≡ true = rw (reopen_end_out, w) at ok in absurd (ground arith)
  ]

  put_other :
      (path q : List ℕ) (content : List ℕ) (files : Files) (b : ℕ) (bs : List ℕ)
      → (files path ≡ some (b ∷ bs) → ⊥)
      → files q ≡ some (b ∷ bs)
      → put path content files q ≡ some (b ∷ bs)
  unfolding put
  put_other path q content files b bs nothing f = elim (Bool-cases (same path q)) [
    | inl e ↦ absurd (nothing (ap files (same→eq path q e) ∙ f))
    | inr e ↦ rw e f
  ]

  reopen_keeps :
      (path q : List ℕ) (files : Files) (b : ℕ) (bs : List ℕ)
      → files q ≡ some (b ∷ bs)
      → (reopen_end_out writable path files).1 q ≡ some (b ∷ bs)
  unfolding reopen_end_out
  reopen_keeps path q files b bs f = go (writable path) (files path) refl refl
    where
      go :
          (w : Bool) (o : Option (List ℕ))
          → writable path ≡ w
          → files path ≡ o
          → (reopen_end_out writable path files).1 q ≡ some (b ∷ bs)
      go false o w e = rw (reopen_end_out, w) f
      go true none w e =
          rw (reopen_end_out, w, e)
            (put_other path q [] files b bs (λ g. absurd (none-some b bs (sym e ∙ g))) f)
      go true (some []) w e = rw (reopen_end_out, w, e) f
      go true (some (x ∷ xs)) w e = rw (reopen_end_out, w, e) f

  store_keeps :
      (path q content : List ℕ) (files : Files) (b : ℕ) (bs : List ℕ)
      → (reopen_end_out writable path files).0 ≡ true
      → files q ≡ some (b ∷ bs)
      → put path content (reopen_end_out writable path files).1 q ≡ some (b ∷ bs)
  unfolding put
  store_keeps path q content files b bs ok f = elim (Bool-cases (same path q)) [
    | inl e ↦ absurd (opened_is_empty path files b bs ok (ap files (same→eq path q e) ∙ f))
    | inr e ↦ rw e (reopen_keeps path q files b bs f)
  ]

  -- Storing an image leaves every file that has contents as it was, whatever the image's name.
  pub stored-destination :
      (dir filename : List ℕ) (hash : ExifHash) (files : Files) (content q : List ℕ) (b : ℕ)
      (bs : List ℕ)
      → files q ≡ some (b ∷ bs)
      → stored (destination writable dir filename hash files) content q ≡ some (b ∷ bs)
  unfolding stored destination
  stored-destination dir filename hash files content q b bs f =
      let path = to_path dir filename in
      let by_hash = path ++ b'-' ∷ show hash in
      let files1 = (reopen_end_out writable path files).1 in
      elim (Bool-cases (reopen_end_out writable path files).0) [
        | inl ok ↦ rw (destination, ok) (store_keeps path q content files b bs ok f)
        | inr bad ↦ elim (Bool-cases (reopen_end_out writable by_hash files1).0) [
          | inl ok ↦
              rw (destination, bad, ok)
                (store_keeps by_hash q content files1 b bs ok (reopen_keeps path q files b bs f))
          | inr bad' ↦
              rw (destination, bad, bad')
                (reopen_keeps by_hash q files1 b bs (reopen_keeps path q files b bs f))
        ]
      ]

  -- An image whose name is free, or names an empty file, is stored under its name.
  pub stored-named :
      (dir filename : List ℕ) (hash : ExifHash) (files : Files) (content : List ℕ)
      → writable (to_path dir filename) ≡ true
      → (files (to_path dir filename) ≡ none) ⊎ (files (to_path dir filename) ≡ some [])
      → stored (destination writable dir filename hash files) content (to_path dir filename)
        ≡ some content
  unfolding stored destination reopen_end_out put
  stored-named dir filename hash files content w f = elim f [
    | inl e ↦ rw (destination, w, e) (rw (same_self (to_path dir filename)))
    | inr e ↦ rw (destination, w, e) (rw (same_self (to_path dir filename)))
  ]
