-- ===== src/ExifHash.antt =====
-- src/exif_hash.hpp and src/exif_hash.cpp: the 160-bit digest of an image's EXIF data as five 32-bit
-- words. A digest is the list of its bytes; an integer of w bits is a number below 2 ^ w.
pub mod Codec
pub mod Text
pub mod Table
mod Runs
use jpgsync.Common.{
  ℕ, zero, suc, ◌+◌, ◌-◌, ◌*◌, ◌/◌, ◌%◌, ◌^◌, bit_or, Bool, not, ◌&&◌, List, [], ◌∷◌, ◌++◌, length,
  get_or, drop, replicate, ltb, ◌==◌, if◌then◌else◌,
}
use jpgsync.Host.{Host, IsU32}

pub record ExifHash : Type 0 where
  pub word0 : ℕ
  pub word1 : ℕ
  pub word2 : ℕ
  pub word3 : ℕ
  pub word4 : ℕ

-- What the type `uint32_t` of the fields says.
pub record IsHash (h : ExifHash) : Type 0 where
  pub fits0 : IsU32 h.word0
  pub fits1 : IsU32 h.word1
  pub fits2 : IsU32 h.word2
  pub fits3 : IsU32 h.word3
  pub fits4 : IsU32 h.word4

-- sizeof(ExifHash)
abbrev pub hash_size : ℕ
hash_size = 20

-- `bytes` is the list from the pointer on.
unfoldable pub bytes_to_word32 : List ℕ → ℕ
bytes_to_word32 bytes =
    bit_or
      (bit_or (bit_or (get_or bytes 0 0 * 2 ^ 24) (get_or bytes 1 0 * 2 ^ 16))
        (get_or bytes 2 0 * 2 ^ 8))
      (get_or bytes 3 0)
    % 2 ^ 32

-- The four bytes that are written.
unfoldable pub to_network_order_byte : Host → ℕ → List ℕ
to_network_order_byte host word = host.store32 (host.htonl word)

-- The constructor from a digest.
unfoldable pub exif_hash : List ℕ → ExifHash
exif_hash sha1_digest = record {
  word0 = bytes_to_word32 (drop 0 sha1_digest);
  word1 = bytes_to_word32 (drop 4 sha1_digest);
  word2 = bytes_to_word32 (drop 8 sha1_digest);
  word3 = bytes_to_word32 (drop 12 sha1_digest);
  word4 = bytes_to_word32 (drop 16 sha1_digest);
}

-- The twenty bytes that `ToDigest` writes.
unfoldable pub to_digest : Host → ExifHash → List ℕ
to_digest host h =
    to_network_order_byte host h.word0
    ++ (to_network_order_byte host h.word1
        ++ (to_network_order_byte host h.word2
            ++ (to_network_order_byte host h.word3 ++ to_network_order_byte host h.word4)))

-- operator== and operator!=
unfoldable pub eq : ExifHash → ExifHash → Bool
eq lhs rhs =
    lhs.word0 == rhs.word0
    && lhs.word1 == rhs.word1
    && lhs.word2 == rhs.word2
    && lhs.word3 == rhs.word3
    && lhs.word4 == rhs.word4

unfoldable pub ne : ExifHash → ExifHash → Bool
unfolding eq
ne lhs rhs = not (eq lhs rhs)

-- std::hash<ExifHash>; `size_t` has 64 bits.
unfoldable pub hash_code : ExifHash → ℕ
hash_code ef =
    let prime : ℕ = 31 in
    let mul_add = λ (acc w : ℕ). (acc * prime % 2 ^ 64 + w) % 2 ^ 64 in
    mul_add (mul_add (mul_add (mul_add ef.word0 ef.word1) ef.word2) ef.word3) ef.word4

-- `std::hex` for an unsigned number: its digits with no leading zero. `fuel` bounds their number.
unfoldable pub hex_digit : ℕ → ℕ
hex_digit d = if ltb d 10 then b'0' + d else b'a' + d - 10

unfoldable pub hex : ℕ → ℕ → List ℕ → List ℕ
unfolding hex_digit
hex zero n acc = acc
hex (suc fuel) n acc =
    let shown = hex_digit (n % 16) ∷ acc in
    let more = hex fuel (n / 16) shown in if n / 16 == 0 then shown else more

-- `std::setfill('0') << std::setw(8)`: padding on the left, nothing cut.
unfoldable pub set_width : List ℕ → List ℕ
set_width text = replicate (8 - length text) b'0' ++ text

unfoldable pub show_word : ℕ → List ℕ
unfolding set_width hex
show_word w = set_width (hex 8 w [])

-- operator<<, as the text that it writes
unfoldable pub show : ExifHash → List ℕ
show eh =
    show_word eh.word0
    ++ (show_word eh.word1 ++ (show_word eh.word2 ++ (show_word eh.word3 ++ show_word eh.word4)))
