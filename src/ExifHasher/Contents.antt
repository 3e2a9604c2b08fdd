-- ===== src/ExifHasher/Contents.antt =====
-- The hashes that `Contains` knows are those of the linked entries (src/exif_hasher.cpp).
use jpgsync.Common.{
  ℕ, ◌%◌, ◌==◌, length, ◌≡◌, refl, sym, ◌∙◌, Bool, true, false, ◌||◌, ◌&&◌, not, List, [], ◌∷◌,
  ◌++◌, map, arith, All, Bool-cases, inl, inr,
}
use jpgsync.ExifHash.{ExifHash, IsHash, exif_hash, eq}
use jpgsync.ExifHash.Codec.{exif_hash-IsHash}
use jpgsync.ExifHash.Table.{eq_iff}
use jpgsync.ExifHasher.{
  Entry, Hashed, thrown, unhashed, digest, Hasher, exif_hasher, Producer, hashing, linked,
  finishing, finished, terminated, count, insert, contains, link, add_hashed, run_step, get_take,
}
use jpgsync.ExifHasher.Steps.{System, produce, take, walk, Reach, start, later}
use jpgsync.ExifHasher.Listing.{get_walk-keeps}
use jpgsync.ExifHasher.Images.{images, distinct, without}

abbrev pub hashes_of : List Entry → List ExifHash
hashes_of es = map (λ e. e.hash) es

pub count-append :
    (hs : List ExifHash) (g h : ExifHash) → count (hs ++ g ∷ []) h ≡ (count hs h || eq g h)
unfolding count
count-append [] g h = ground arith
count-append (x ∷ hs) g h = ground (arith, count-append hs g h)

count_same :
    (hs : List ExifHash) (g h : ExifHash) → count hs g ≡ true → eq g h ≡ true → count hs h ≡ true
count_same hs g h c e = rw (← (eq_iff g h).0 e) c

pub count-insert :
    (g h : ExifHash) (hs : List ExifHash) → count (insert g hs) h ≡ (eq g h || count hs h)
unfolding insert
count-insert g h hs = elim (Bool-cases (count hs g)) [
  | inl seen ↦
      rw seen
        (elim (Bool-cases (eq g h)) [ inl e ↦ rw (e, count_same hs g h seen e) | inr e ↦ rw e ])
  | inr new ↦ rw new (ground (arith, count-append hs g h))
]

count-hashes_of :
    (es : List Entry) (e : Entry) (h : ExifHash)
    → count (hashes_of (es ++ e ∷ [])) h ≡ (count (hashes_of es) h || eq e.hash h)
unfolding count
count-hashes_of [] e h = ground arith
count-hashes_of (x ∷ es) e h = ground (arith, count-hashes_of es e h)

module _ (h : ExifHash) where
  abbrev Agrees : Hasher → Type 0
  Agrees s = count s.hashes h ≡ count (hashes_of s.entries) h

  Agrees-link : (g : ExifHash) (path : List ℕ) (s : Hasher) → Agrees s → Agrees (link g path s)
  unfolding link
  Agrees-link g path s a = ground (
    arith,
    count-insert g h s.hashes,
    count-hashes_of s.entries (record { hash = g; path = path }) h,
  )

  Agrees-add_hashed :
      (unique : Bool) (r : Hashed) (path : List ℕ) (rest : List (List ℕ)) (s : Hasher)
      → Agrees s
      → Agrees (add_hashed unique r path rest s).1
  unfolding add_hashed
  Agrees-add_hashed unique thrown path rest s a = a
  Agrees-add_hashed unique unhashed path rest s a = a
  Agrees-add_hashed unique (digest d) path rest s a =
      elim (Bool-cases (unique && count s.hashes (exif_hash d))) [
        | inl known ↦ rw known a
        | inr new ↦ rw new (Agrees-link (exif_hash d) path s a)
      ]

  module _ (t : ℕ) (unique : Bool) (hash_exif : List ℕ → Hashed) where
    Agrees-run_step :
        (p : Producer) (s : Hasher) → Agrees s → Agrees (run_step t unique hash_exif p s).1
    unfolding run_step
    Agrees-run_step (hashing []) s a = a
    Agrees-run_step (hashing ([] ∷ rest)) s a = a
    Agrees-run_step (hashing ((c ∷ cs) ∷ rest)) s a =
        Agrees-add_hashed unique (hash_exif (c ∷ cs)) (c ∷ cs) rest s a
    Agrees-run_step (linked rest) s a = elim (Bool-cases (length s.hashes % t == 0)) [
      | inl e ↦ rw e a
      | inr e ↦ rw e a
    ]
    Agrees-run_step finishing s a = a
    Agrees-run_step finished s a = a
    Agrees-run_step terminated s a = a

    -- In every reachable state.
    pub contains-hashes_of :
        {paths : List (List ℕ)} {s : System}
        → Reach t unique hash_exif paths s
        → contains s.hasher h ≡ count (hashes_of s.hasher.entries) h
    unfolding contains exif_hasher get_take
    contains-hashes_of start = refl
    contains-hashes_of (later {s = s} r produce) =
        Agrees-run_step s.producer s.hasher (contains-hashes_of r)
    contains-hashes_of (later r (take wanted idle ready)) = contains-hashes_of r
    contains-hashes_of
          (later {s = s} r (walk {taken = n} {reached = reached} {after = after} taken e)) =
        let (entries, hashes) = get_walk-keeps n s.hasher after reached e in
        rw (entries, hashes) (contains-hashes_of r)

dropped :
    (g f h : ExifHash) (c : Bool)
    → eq g f ≡ true
    → (not (eq g h) && c) ≡ (not (eq g h) && (eq f h || c))
dropped g f h c same =
    rw ((eq_iff g f).0 same) (elim (Bool-cases (eq f h)) [ inl e ↦ rw e | inr e ↦ rw e ])

eq_not_sym : (g f : ExifHash) → eq g f ≡ false → eq f g ≡ false
eq_not_sym g f other = elim (Bool-cases (eq f g)) [
  | inl e ↦ absurd (cc (other, (eq_iff g f).1 (sym ((eq_iff f g).0 e))))
  | inr e ↦ e
]

kept :
    (g f h : ExifHash) (c : Bool)
    → eq g f ≡ false
    → (eq f h || (not (eq g h) && c)) ≡ (not (eq g h) && (eq f h || c))
kept g f h c other = elim (Bool-cases (eq g h)) [
  | inl e ↦
      let different : eq f h ≡ false = rw (← (eq_iff g h).0 e) (eq_not_sym g f other) in
      rw (e, different)
  | inr e ↦ rw e
]

-- Leaving duplicates out changes no hash.
count-without :
    (g h : ExifHash) (es : List Entry)
    → count (hashes_of (without g es)) h ≡ (not (eq g h) && count (hashes_of es) h)
unfolding without count
count-without g h [] = ground arith
count-without g h (e ∷ es) =
    let rest = count-without g h es in
    elim (Bool-cases (eq g e.hash)) [
      | inl same ↦ rw same (rest ∙ dropped g e.hash h (count (hashes_of es) h) same)
      | inr other ↦ rw (other, rest) (kept g e.hash h (count (hashes_of es) h) other)
    ]

pub count-distinct :
    (h : ExifHash) (es : List Entry) → count (hashes_of (distinct es)) h ≡ count (hashes_of es) h
unfolding distinct count
count-distinct h [] = refl
count-distinct h (e ∷ es) =
    ground (arith, count-without e.hash h (distinct es), count-distinct h es)

hashed_next :
    (r : Hashed) (path : List ℕ) (after : List Entry)
    → All (λ e. IsHash e.hash) after
    → All
        (λ e. IsHash e.hash)
        (elim r [
          | thrown ↦ []
          | unhashed ↦ after
          | digest d ↦ (record { hash = exif_hash d; path = path }) ∷ after
        ])
hashed_next thrown path after v = tt
hashed_next unhashed path after v = v
hashed_next (digest d) path after v = (exif_hash-IsHash d, v)

pub images-IsHash :
    (hash_exif : List ℕ → Hashed) (paths : List (List ℕ))
    → All (λ e. IsHash e.hash) (images hash_exif paths)
unfolding images
images-IsHash hash_exif [] = tt
images-IsHash hash_exif ([] ∷ rest) = tt
images-IsHash hash_exif ((c ∷ cs) ∷ rest) =
    hashed_next (hash_exif (c ∷ cs)) (c ∷ cs) (images hash_exif rest) (images-IsHash hash_exif rest)

without-All {κ} :
    (P : Entry → Type κ) (g : ExifHash) (es : List Entry) → All P es → All P (without g es)
unfolding without
without-All P g [] v = tt
without-All P g (e ∷ es) (v, vs) = elim (Bool-cases (eq g e.hash)) [
  | inl same ↦ rw same (without-All P g es vs)
  | inr other ↦ rw other (v, without-All P g es vs)
]

pub distinct-All {κ} : (P : Entry → Type κ) (es : List Entry) → All P es → All P (distinct es)
unfolding distinct
distinct-All P [] v = tt
distinct-All P (e ∷ es) (v, vs) = (v, without-All P e.hash (distinct es) (distinct-All P es vs))
