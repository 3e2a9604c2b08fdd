-- ===== src/Host.antt =====
-- The machine that the program runs on, as far as the sources rely on it: the byte-order functions of
-- <arpa/inet.h> and how integers lie in memory (the `memcpy` of src/exif_hash.cpp, and the integers that
-- src/protocol.hpp and the port exchange of src/master.cpp and src/slave.cpp send as raw memory).
-- They are a parameter; the laws are what the documentation of htonl, ntohl, htons and ntohs says.
use jpgsync.Common.{ℕ, ◌+◌, ◌*◌, ◌/◌, ◌%◌, ◌^◌, ◌<◌, ◌≡◌, List, [], ◌∷◌, arith, get_or}

abbrev pub IsByte : ℕ → Type 0
IsByte b = b < 256

abbrev pub IsU16 : ℕ → Type 0
IsU16 w = w < 2 ^ 16

abbrev pub IsU32 : ℕ → Type 0
IsU32 w = w < 2 ^ 32

-- Network byte order: the most significant byte first.
abbrev pub network16 : ℕ → List ℕ
network16 w = (w / 256 % 256) ∷ (w % 256) ∷ []

abbrev pub network32 : ℕ → List ℕ
network32 w = (w / 2 ^ 24 % 256) ∷ (w / 2 ^ 16 % 256) ∷ (w / 2 ^ 8 % 256) ∷ (w % 256) ∷ []

pub record Host : Type 0 where
  pub htons : ℕ → ℕ
  pub ntohs : ℕ → ℕ
  pub htonl : ℕ → ℕ
  pub ntohl : ℕ → ℕ
  -- the bytes of a uint16_t and of a uint32_t in memory, and the integers that lie in such bytes
  pub store16 : ℕ → List ℕ
  pub load16 : List ℕ → ℕ
  pub store32 : ℕ → List ℕ
  pub load32 : List ℕ → ℕ
  pub store16-htons : (w : ℕ) → IsU16 w → store16 (htons w) ≡ network16 w
  pub ntohs-load16 : (w : ℕ) → IsU16 w → ntohs (load16 (network16 w)) ≡ w
  pub store32-htonl : (w : ℕ) → IsU32 w → store32 (htonl w) ≡ network32 w
  pub ntohl-load32 : (w : ℕ) → IsU32 w → ntohl (load32 (network32 w)) ≡ w

-- A little-endian machine, where they reverse the bytes.
unfoldable pub swap16 : ℕ → ℕ
swap16 w = w % 256 * 256 + w / 256 % 256

unfoldable pub swap32 : ℕ → ℕ
swap32 w = w % 256 * 2 ^ 24 + w / 2 ^ 8 % 256 * 2 ^ 16 + w / 2 ^ 16 % 256 * 2 ^ 8 + w / 2 ^ 24 % 256

unfoldable pub little16 : ℕ → List ℕ
little16 w = (w % 256) ∷ (w / 256 % 256) ∷ []

unfoldable pub little32 : ℕ → List ℕ
little32 w = (w % 256) ∷ (w / 2 ^ 8 % 256) ∷ (w / 2 ^ 16 % 256) ∷ (w / 2 ^ 24 % 256) ∷ []

unfoldable pub load_little16 : List ℕ → ℕ
load_little16 bs = get_or bs 0 0 + get_or bs 1 0 * 256

unfoldable pub load_little32 : List ℕ → ℕ
load_little32 bs =
    get_or bs 0 0 + get_or bs 1 0 * 2 ^ 8 + get_or bs 2 0 * 2 ^ 16 + get_or bs 3 0 * 2 ^ 24

pub little16-swap16 : (w : ℕ) → IsU16 w → little16 (swap16 w) ≡ network16 w
unfolding little16 swap16
little16-swap16 w h = ground arith

pub swap16-load_little16 : (w : ℕ) → IsU16 w → swap16 (load_little16 (network16 w)) ≡ w
unfolding swap16 load_little16
swap16-load_little16 w h = omega arith

pub little32-swap32 : (w : ℕ) → IsU32 w → little32 (swap32 w) ≡ network32 w
unfolding little32 swap32
little32-swap32 w h = ground arith

pub swap32-load_little32 : (w : ℕ) → IsU32 w → swap32 (load_little32 (network32 w)) ≡ w
unfolding swap32 load_little32
swap32-load_little32 w h = omega arith

unfoldable pub little_endian : Host
unfolding swap16 swap32 little16 little32 load_little16 load_little32
little_endian = record {
  htons = swap16;
  ntohs = swap16;
  htonl = swap32;
  ntohl = swap32;
  store16 = little16;
  load16 = load_little16;
  store32 = little32;
  load32 = load_little32;
  store16-htons = little16-swap16;
  ntohs-load16 = swap16-load_little16;
  store32-htonl = little32-swap32;
  ntohl-load32 = swap32-load_little32;
}
