-- ===== src/ExifHash/Text.antt =====
-- The text of a hash, by which files and links are named (operator<< in src/exif_hash.cpp).
use native.Mathlib.Nat.{pow-suc}
use jpgsync.Common.{
  ℕ, zero, suc, ◌+◌, ◌-◌, ◌*◌, ◌/◌, ◌%◌, ◌^◌, ◌<◌, ◌≡◌, refl, sym, ap, ◌∙◌, true, false, List, [],
  ◌∷◌, ◌++◌, append_assoc, append-nil, arith, length, length-append, replicate, length-replicate,
  take, drop, take-append_left, drop-append_left, ◌==◌, ==_iff, Bool-cases, inl, inr, ltb,
  if◌then◌else◌,
}
use jpgsync.ExifHash.{ExifHash, IsHash, hex_digit, hex, set_width, show_word, show}

-- The last `k` hexadecimal digits of `n`.
digits : ℕ → ℕ → List ℕ
digits zero n = []
digits (suc k) n = digits k (n / 16) ++ hex_digit (n % 16) ∷ []

length-digits : (k n : ℕ) → length (digits k n) ≡ k
unfolding digits
length-digits zero n = refl
length-digits (suc k) n =
    omega
      (arith, length-append (digits k (n / 16)) (hex_digit (n % 16) ∷ []), length-digits k (n / 16))

replicate_last : (k d : ℕ) → replicate k d ++ d ∷ [] ≡ d ∷ replicate k d
replicate_last zero d = refl
replicate_last (suc k) d = ap (◌∷◌ d) (replicate_last k d)

digits-zero : (k : ℕ) → digits k 0 ≡ replicate k b'0'
unfolding digits hex_digit
digits-zero zero = refl
digits-zero (suc k) = rw (digits-zero k) (replicate_last k b'0')

digits-suc :
    (k n : ℕ) (acc : List ℕ)
    → digits (suc k) n ++ acc ≡ digits k (n / 16) ++ (hex_digit (n % 16) ∷ acc)
unfolding digits
digits-suc k n acc = append_assoc (digits k (n / 16)) (hex_digit (n % 16) ∷ []) acc

hex_last :
    (fuel n : ℕ) (acc : List ℕ)
    → (n / 16 == 0) ≡ true
    → hex (suc fuel) n acc ≡ hex_digit (n % 16) ∷ acc
unfolding hex
hex_last fuel n acc e = rw e

hex_more :
    (fuel n : ℕ) (acc : List ℕ)
    → (n / 16 == 0) ≡ false
    → hex (suc fuel) n acc ≡ hex fuel (n / 16) (hex_digit (n % 16) ∷ acc)
unfolding hex
hex_more fuel n acc e = rw e

-- `hex` leaves out leading zeros only.
hex-digits :
    (k n : ℕ) (acc : List ℕ)
    → n < 16 ^ suc k
    → (m : ℕ) × (replicate m b'0' ++ hex (suc k) n acc ≡ digits (suc k) n ++ acc)
hex-digits zero n acc h =
    (0, hex_last 0 n acc (ground arith) ∙ sym (digits-suc 0 n acc ∙ unfold digits in refl))
hex-digits (suc k) n acc h = elim (Bool-cases (n / 16 == 0)) [
  | inl e ↦ (
    suc k,
    rw (hex_last (suc k) n acc e, digits-suc (suc k) n acc, (==_iff (n / 16) 0).0 e)
        (rw (digits-zero (suc k))),
  )
  | inr e ↦
      let (m, p) =
        hex-digits k (n / 16) (hex_digit (n % 16) ∷ acc) (omega (arith, pow-suc 16 (suc k))) in
      (m, rw (hex_more (suc k) n acc e, digits-suc (suc k) n acc) p)
]

length-hex_padding :
    (m n : ℕ) → replicate m b'0' ++ hex 8 n [] ≡ digits 8 n ++ [] → m ≡ 8 - length (hex 8 n [])
length-hex_padding m n e = omega (
  arith,
  ap length e,
  length-append (replicate m b'0') (hex 8 n []),
  length-append (digits 8 n) [],
  length-replicate {A = ℕ} m b'0',
  length-digits 8 n,
)

-- A word is shown as its eight hexadecimal digits.
show_word-digits : (w : ℕ) → w < 2 ^ 32 → show_word w ≡ digits 8 w
unfolding show_word set_width
show_word-digits w h =
    let (m, e) = hex-digits 7 w [] (omega arith) in
    rw (← length-hex_padding m w e) (e ∙ append-nil (digits 8 w))

-- The reader that tells words apart by their texts.
hex_value : ℕ → ℕ
hex_value c = if ltb c 58 then c - 48 else c - 87

value : ℕ → List ℕ → ℕ
value acc [] = acc
value acc (c ∷ cs) = value (acc * 16 + hex_value c) cs

hex_value-hex_digit : (d : ℕ) → d < 16 → hex_value (hex_digit d) ≡ d
unfolding hex_value hex_digit
hex_value-hex_digit d h = ground arith

value-append : (acc : ℕ) (xs ys : List ℕ) → value acc (xs ++ ys) ≡ value (value acc xs) ys
unfolding value
value-append acc [] ys = refl
value-append acc (x ∷ xs) ys = value-append (acc * 16 + hex_value x) xs ys

value-digits : (k n : ℕ) → n < 16 ^ k → value 0 (digits k n) ≡ n
unfolding value digits
value-digits zero n h = omega arith
value-digits (suc k) n h =
    value-append 0 (digits k (n / 16)) (hex_digit (n % 16) ∷ [])
    ∙ omega (
      arith,
      value-digits k (n / 16) (omega (arith, pow-suc 16 k)),
      hex_value-hex_digit (n % 16) (omega arith),
    )

read_word : List ℕ → ℕ
read_word text = value 0 (take 8 text)

read_word-show_word : (w : ℕ) (rest : List ℕ) → w < 2 ^ 32 → read_word (show_word w ++ rest) ≡ w
unfolding read_word
read_word-show_word w rest h =
    rw (show_word-digits w h, take-append_left 8 (digits 8 w) rest (sym (length-digits 8 w)))
      (value-digits 8 w (omega arith))

length-show_word : (w : ℕ) → w < 2 ^ 32 → length (show_word w) ≡ 8
length-show_word w h = rw (show_word-digits w h) (length-digits 8 w)

rest-show_word : (w : ℕ) (rest : List ℕ) → w < 2 ^ 32 → drop 8 (show_word w ++ rest) ≡ rest
rest-show_word w rest h = drop-append_left 8 (show_word w) rest (sym (length-show_word w h))

split_word :
    (u w : ℕ) (r s : List ℕ)
    → u < 2 ^ 32
    → w < 2 ^ 32
    → show_word u ++ r ≡ show_word w ++ s
    → (u ≡ w) × (r ≡ s)
split_word u w r s hu hw e = (
  sym (read_word-show_word u r hu) ∙ ap read_word e ∙ read_word-show_word w s hw,
  sym (rest-show_word u r hu) ∙ ap (drop 8) e ∙ rest-show_word w s hw,
)

show_word-injective : (u w : ℕ) → u < 2 ^ 32 → w < 2 ^ 32 → show_word u ≡ show_word w → u ≡ w
show_word-injective u w hu hw e = (split_word u w [] [] hu hw (ap (λ t. t ++ []) e)).0

-- A hash whose words fit 32 bits is shown with forty characters.
pub length-show : (h : ExifHash) → IsHash h → length (show h) ≡ 40
unfolding show
length-show h v = simp (
  length-append,
  length-show_word h.word0 v.fits0,
  length-show_word h.word1 v.fits1,
  length-show_word h.word2 v.fits2,
  length-show_word h.word3 v.fits3,
  length-show_word h.word4 v.fits4,
)

-- Two hashes whose words fit 32 bits and that are shown alike are the same.
pub show-injective : (a b : ExifHash) → IsHash a → IsHash b → show a ≡ show b → a ≡ b
unfolding show
show-injective a b va vb e =
    let (e0, r0) = split_word a.word0 b.word0 _ _ va.fits0 vb.fits0 e in
    let (e1, r1) = split_word a.word1 b.word1 _ _ va.fits1 vb.fits1 r0 in
    let (e2, r2) = split_word a.word2 b.word2 _ _ va.fits2 vb.fits2 r1 in
    let (e3, r3) = split_word a.word3 b.word3 _ _ va.fits3 vb.fits3 r2 in
    let e4 = show_word-injective a.word4 b.word4 va.fits4 vb.fits4 r3 in
    λ i. record { word0 = e0 i; word1 = e1 i; word2 = e2 i; word3 = e3 i; word4 = e4 i }
