-- ===== src/ExifHash/Codec.antt =====
-- The digest and the words of an `ExifHash` determine one another (src/exif_hash.cpp).
use jpgsync.Common.{
  ℕ, suc, ◌+◌, ◌*◌, ◌/◌, ◌%◌, ◌^◌, ◌≤◌, ◌≡◌, refl, ◌∙◌, List, [], ◌∷◌, ◌++◌, arith, length, drop,
  All, take, take_of_le, zero, length-drop, drop-add, take-append-drop,
}
use jpgsync.Common.Bits.{bit_or-eq-add}
use jpgsync.Host.{Host, IsByte, IsU32, network32}
use jpgsync.ExifHash.{
  ExifHash, IsHash, bytes_to_word32, to_network_order_byte, exif_hash, to_digest,
}

-- The word that four bytes stand for, most significant first.
abbrev big_endian_value : ℕ → ℕ → ℕ → ℕ → ℕ
big_endian_value a b c d = a * 2 ^ 24 + b * 2 ^ 16 + c * 2 ^ 8 + d

pub bytes_to_word32_lem :
    (a b c d : ℕ) (rest : List ℕ)
    → IsByte a
    → IsByte b
    → IsByte c
    → IsByte d
    → bytes_to_word32 (a ∷ b ∷ c ∷ d ∷ rest) ≡ big_endian_value a b c d
unfolding bytes_to_word32
bytes_to_word32_lem a b c d rest ha hb hc hd =
    rw (bit_or-eq-add 24 a (a * 2 ^ 24) (b * 2 ^ 16) refl (omega arith)) (
      rw
        (bit_or-eq-add 16 (a * 2 ^ 8 + b) (a * 2 ^ 24 + b * 2 ^ 16) (c * 2 ^ 8) (omega arith)
          (omega arith))
        (rw
          (bit_or-eq-add 8 (a * 2 ^ 16 + b * 2 ^ 8 + c) (a * 2 ^ 24 + b * 2 ^ 16 + c * 2 ^ 8) d
            (omega arith) (omega arith))
          (omega arith)))

bytes_to_word32-lt : (bytes : List ℕ) → IsU32 (bytes_to_word32 bytes)
unfolding bytes_to_word32
bytes_to_word32-lt bytes = omega arith

-- Whatever the bytes are, the words fit their type.
pub exif_hash-IsHash : (digest : List ℕ) → IsHash (exif_hash digest)
unfolding exif_hash
exif_hash-IsHash digest = record {
  fits0 = bytes_to_word32-lt (drop 0 digest);
  fits1 = bytes_to_word32-lt (drop 4 digest);
  fits2 = bytes_to_word32-lt (drop 8 digest);
  fits3 = bytes_to_word32-lt (drop 12 digest);
  fits4 = bytes_to_word32-lt (drop 16 digest);
}

word-to_network_order_byte :
    (w : ℕ) (rest : List ℕ) → IsU32 w → bytes_to_word32 (network32 w ++ rest) ≡ w
word-to_network_order_byte w rest h =
    bytes_to_word32_lem (w / 2 ^ 24 % 256) (w / 2 ^ 16 % 256) (w / 2 ^ 8 % 256) (w % 256) rest
      (omega arith) (omega arith) (omega arith) (omega arith)
    ∙ omega arith

network32_lem :
    (a b c d : ℕ)
    → IsByte a
    → IsByte b
    → IsByte c
    → IsByte d
    → network32 (big_endian_value a b c d) ≡ a ∷ b ∷ c ∷ d ∷ []
network32_lem a b c d ha hb hc hd = ground arith

All-drop : (n : ℕ) (xs : List ℕ) → All IsByte xs → All IsByte (drop n xs)
All-drop zero xs h = h
All-drop (suc n) [] h = h
All-drop (suc n) (x ∷ xs) h = All-drop n xs h.1

rejoin : (n : ℕ) (xs : List ℕ) → take 4 (drop n xs) ++ drop (n + 4) xs ≡ drop n xs
rejoin n xs = rw (drop-add n 4 xs) (take-append-drop 4 (drop n xs))

module _ (host : Host) where
  pub to_network_order_byte_lem : (w : ℕ) → IsU32 w → to_network_order_byte host w ≡ network32 w
  unfolding to_network_order_byte
  to_network_order_byte_lem w h = host.store32-htonl w h

  to_digest_lem :
      (h : ExifHash)
      → IsHash h
      → to_digest host h
        ≡ network32 h.word0
          ++ (network32 h.word1 ++ (network32 h.word2 ++ (network32 h.word3 ++ network32 h.word4)))
  unfolding to_digest
  to_digest_lem h v = rw (
    to_network_order_byte_lem h.word0 v.fits0,
    to_network_order_byte_lem h.word1 v.fits1,
    to_network_order_byte_lem h.word2 v.fits2,
    to_network_order_byte_lem h.word3 v.fits3,
    to_network_order_byte_lem h.word4 v.fits4,
  )

  -- For words that fit 32 bits, the hash that is read from the bytes that `ToDigest` wrote is the
  -- hash that wrote them, also with more bytes behind them.
  pub exif_hash-to_digest :
      (h : ExifHash) (rest : List ℕ) → IsHash h → exif_hash (to_digest host h ++ rest) ≡ h
  unfolding exif_hash
  exif_hash-to_digest h rest v =
      let after3 = network32 h.word4 ++ rest in
      let after2 = network32 h.word3 ++ after3 in
      let after1 = network32 h.word2 ++ after2 in
      let after0 = network32 h.word1 ++ after1 in
      rw (to_digest_lem h v) λ i. record {
        word0 = word-to_network_order_byte h.word0 after0 v.fits0 i;
        word1 = word-to_network_order_byte h.word1 after1 v.fits1 i;
        word2 = word-to_network_order_byte h.word2 after2 v.fits2 i;
        word3 = word-to_network_order_byte h.word3 after3 v.fits3 i;
        word4 = word-to_network_order_byte h.word4 rest v.fits4 i;
      }

  -- A word that is read from four bytes at least is written as the first four.
  to_network_order_byte-word :
      (bs : List ℕ)
      → 4 ≤ length bs
      → All IsByte bs
      → to_network_order_byte host (bytes_to_word32 bs) ≡ take 4 bs
  to_network_order_byte-word [] h v = absurd (omega arith)
  to_network_order_byte-word (a ∷ []) h v = absurd (omega arith)
  to_network_order_byte-word (a ∷ b ∷ []) h v = absurd (omega arith)
  to_network_order_byte-word (a ∷ b ∷ c ∷ []) h v = absurd (omega arith)
  to_network_order_byte-word (a ∷ b ∷ c ∷ d ∷ rest) h (ha, (hb, (hc, (hd, _)))) =
      rw (bytes_to_word32_lem a b c d rest ha hb hc hd) (
        to_network_order_byte_lem (big_endian_value a b c d) (omega arith)
        ∙ network32_lem a b c d ha hb hc hd)

  -- The bytes that `ToDigest` writes for a hash that was made from twenty bytes are those bytes.
  pub to_digest-exif_hash :
      (digest : List ℕ)
      → length digest ≡ 20
      → All IsByte digest
      → to_digest host (exif_hash digest) ≡ digest
  unfolding to_digest exif_hash
  to_digest-exif_hash digest n v =
      rw
        (
          to_network_order_byte-word digest (omega arith) v,
          word 4 (omega arith),
          word 8 (omega arith),
          word 12 (omega arith),
          word 16 (omega arith),
          take_of_le 4 (drop 16 digest) (omega (arith, length-drop 16 digest)),
          rejoin 12 digest,
          rejoin 8 digest,
          rejoin 4 digest,
        )
        (rejoin 0 digest)
    where
      word :
          (i : ℕ)
          → i ≤ 16
          → to_network_order_byte host (bytes_to_word32 (drop i digest)) ≡ take 4 (drop i digest)
      word i h =
          to_network_order_byte-word (drop i digest) (omega (arith, length-drop i digest))
            (All-drop i digest v)

  pub length-to_digest : (h : ExifHash) → IsHash h → length (to_digest host h) ≡ 20
  length-to_digest h v = rw (to_digest_lem h v)
