-- ===== src/ExifHash/Runs.antt =====
-- Tests of src/exif_hash.cpp, the one of test/exif_hash_unittest.cpp among them, and its theorems at
-- concrete hashes.
use jpgsync.Common.{ℕ, ◌≡◌, refl, List, [], ◌∷◌, ◌++◌, arith, replicate}
use jpgsync.Host.{little_endian}
use jpgsync.ExifHash.{
  ExifHash, IsHash, bytes_to_word32, to_network_order_byte, exif_hash, to_digest, show_word, show,
}
use jpgsync.ExifHash.Codec.{exif_hash-to_digest}

abbrev sha1_digest : List ℕ
sha1_digest =
    0xca ∷ 0xfe ∷ 0xba ∷ 0xbe ∷ 0x42 ∷ 0x23 ∷ 0xf3 ∷ 0x00 ∷ 0xa5 ∷ 0x00 ∷ 0x00 ∷ 0xff ∷ 0x51 ∷ 0xd0
    ∷ 0xca ∷ 0x73 ∷ 0x02 ∷ 0xeb ∷ 0x84 ∷ 0x69 ∷ []

abbrev cafe : ExifHash
cafe = record {
  word0 = 0xcafebabe;
  word1 = 0x4223f300;
  word2 = 0xa50000ff;
  word3 = 0x51d0ca73;
  word4 = 0x02eb8469;
}

abbrev zeros : ExifHash
zeros = record { word0 = 0; word1 = 0; word2 = 0; word3 = 0; word4 = 0 }

exif_hash-cafe : exif_hash sha1_digest ≡ cafe
unfolding exif_hash bytes_to_word32
exif_hash-cafe = refl

to_digest-cafe : to_digest little_endian cafe ≡ sha1_digest
unfolding to_digest to_network_order_byte little_endian
to_digest-cafe = refl

show_word-cafe : show_word cafe.word0 ≡ b'c' ∷ b'a' ∷ b'f' ∷ b'e' ∷ b'b' ∷ b'a' ∷ b'b' ∷ b'e' ∷ []
unfolding show_word
show_word-cafe = refl

show-zeros : show zeros ≡ replicate 40 b'0'
unfolding show show_word
show-zeros = refl

cafe-IsHash : IsHash cafe
cafe-IsHash = omega arith

zeros-IsHash : IsHash zeros
zeros-IsHash = omega arith

exif_hash-to_digest_example : exif_hash (to_digest little_endian cafe ++ (7 ∷ [])) ≡ cafe
exif_hash-to_digest_example = exif_hash-to_digest little_endian cafe (7 ∷ []) cafe-IsHash
