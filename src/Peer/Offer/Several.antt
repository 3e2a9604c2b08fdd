-- ===== src/Peer/Offer/Several.antt =====
-- Offers of which the downloader has two hashes or more (src/peer.cpp). `found_bit` does not move on
-- past a hash that is found, so that the last one that is found is never marked, and its image is sent
-- though the downloader does not wait for it.
use jpgsync.Common.{
  ℕ, zero, suc, ◌+◌, ◌-◌, ◌*◌, ◌/◌, ◌%◌, ◌^◌, ◌≤◌, ◌<◌, bit_or, ◌≡◌, refl, ap, ap₂, All-append, ◌∙◌,
  Bool, true, false, List, [], ◌∷◌, ◌++◌, arith, length, length-append, get_or, set, take,
  replicate, All, Bool-cases, inl, inr, dec_lt, zero-add, if◌then◌else◌,
}
use native.Mathlib.Nat.{mod-le, pow-suc, suc-add, pow-le-pow_right, lt_of_lt_of_le}
use jpgsync.Common.Bits.Digits.{bit_or-nothing_left, bit_and-nothing_left}
use jpgsync.Common.Bits.Masks.{bit_and-pow_of_lt, bit_or-lt_pow, pow-lt_pow}
use jpgsync.ExifHash.{ExifHash}
use jpgsync.ExifHasher.{Entry}
use jpgsync.Host.{Host}
use jpgsync.Peer.Offer.{
  Answer, bitmask_size, no_answer, answer_hash, confirmation, is_missing, to_upload, uploads,
  awaited,
}
use jpgsync.Peer.Offer.Reading.{
  AllHashes, NoneFound, answer_all, answer_all_split, answer_all_none, to_upload-append,
  to_upload_send,
}
use jpgsync.Peer.Offer.Single.{first_byte, is_missing_lem, uploads_lem, awaited_lem}

-- How many hashes of a list the downloader has.
unfoldable pub found_count : (ExifHash → Bool) → List Entry → ℕ
found_count contains [] = 0
found_count contains (e ∷ es) = (if contains e.hash then 1 else 0) + found_count contains es

-- Every set bit of the mask lies at or below the place of the next bit, in the first byte.
record Low (a : Answer) : Type 0 where
  byte : ℕ
  mask : a.found_bitmask ≡ first_byte byte
  small : byte < 256
  low : byte < 2 ^ suc a.found_bit
  step : a.found ≡ a.found_bit / 8

set_zeros : (n j : ℕ) → set (replicate {A = ℕ} n 0) j 0 ≡ replicate n 0
set_zeros zero j = refl
set_zeros (suc n) zero = refl
set_zeros (suc n) (suc j) = ap (◌∷◌ 0) (set_zeros n j)

get_zeros : (n j : ℕ) → get_or (replicate {A = ℕ} n 0) j 0 ≡ 0
get_zeros zero j = refl
get_zeros (suc n) zero = refl
get_zeros (suc n) (suc j) = get_zeros n j

pow_multiple : (k : ℕ) → 2 ^ (k + 8) ≡ 2 ^ k * 256
pow_multiple zero = refl
pow_multiple (suc k) = rw suc-add (omega (arith, pow-suc 2 (k + 8), pow-suc 2 k, pow_multiple k))

-- The low eight bits of a bit from the ninth on.
pow-mod-256 : (b : ℕ) → 8 ≤ b → 2 ^ b % 256 ≡ 0
pow-mod-256 b h =
    let e : b - 8 + 8 ≡ b = omega arith in rw (← e) (omega (arith, pow_multiple (b - 8)))

-- What the downloader writes for a hash that it has.
mark : ℕ → ℕ → ℕ → List ℕ
mark byte found bit =
    set (first_byte byte) found (bit_or (get_or (first_byte byte) found 0) (2 ^ bit) % 256)

-- In the first byte the bit is set, and behind it nothing is.
mark_low : (byte bit : ℕ) → mark byte 0 bit ≡ first_byte (bit_or byte (2 ^ bit) % 256)
unfolding mark
mark_low byte bit = refl

mark_high : (byte j bit : ℕ) → 8 ≤ bit → mark byte (suc j) bit ≡ first_byte byte
unfolding mark
mark_high byte j bit h = rw (get_zeros 3 j, bit_or-nothing_left, pow-mod-256 bit h, set_zeros 3 j)

found-Low : (h : ExifHash) (a : Answer) → Low a → Low (answer_hash true h a)
unfolding answer_hash
found-Low h a l = elim (dec_lt a.found_bit 8) [
  | yes lt ↦
      let first : a.found ≡ 0 = omega arith in
      record {
        byte = bit_or l.byte (2 ^ a.found_bit) % 256;
        mask =
            ap₂ (λ m f. set m f (bit_or (get_or m f 0) (2 ^ a.found_bit) % 256)) l.mask first
            ∙ unfold mark in mark_low l.byte a.found_bit;
        small = omega arith;
        low = omega (
          arith,
          mod-le (bit_or l.byte (2 ^ a.found_bit)) 256,
          bit_or-lt_pow (suc a.found_bit) l.byte (2 ^ a.found_bit) l.low
              (pow-lt_pow (suc a.found_bit) a.found_bit (omega arith)),
        );
        step = l.step;
      }
  | no ge ↦
      let later : a.found ≡ suc (a.found - 1) = omega arith in
      record {
        byte = l.byte;
        mask =
            ap₂ (λ m f. set m f (bit_or (get_or m f 0) (2 ^ a.found_bit) % 256)) l.mask later
            ∙ unfold mark in mark_high l.byte (a.found - 1) a.found_bit (omega arith);
        small = l.small;
        low = l.low;
        step = l.step;
      }
]

missing-Low : (h : ExifHash) (a : Answer) → Low a → Low (answer_hash false h a)
unfolding answer_hash
missing-Low h a l = record {
  byte = l.byte;
  mask = l.mask;
  small = l.small;
  low = omega (arith, l.low, pow-suc 2 (suc a.found_bit));
  step = ground (arith, l.step);
}

module _ (contains : ExifHash → Bool) where
  answer_hash-Low : (c : Bool) (h : ExifHash) (a : Answer) → Low a → Low (answer_hash c h a)
  answer_hash-Low true h a l = found-Low h a l
  answer_hash-Low false h a l = missing-Low h a l

  answer_all-Low : (es : List Entry) (a : Answer) → Low a → Low (answer_all contains es a)
  unfolding answer_all
  answer_all-Low [] a l = l
  answer_all-Low (e ∷ es) a l = answer_all-Low es _ (answer_hash-Low (contains e.hash) e.hash a l)

  -- The place of the next bit lags behind by the number of found hashes.
  answer_all-found_bit :
      (es : List Entry) (a : Answer)
      → (answer_all contains es a).found_bit + found_count contains es ≡ a.found_bit + length es
  unfolding answer_all answer_hash found_count
  answer_all-found_bit [] a = refl
  answer_all-found_bit (e ∷ es) a =
      ground (arith, answer_all-found_bit es (answer_hash (contains e.hash) e.hash a))

  -- The downloader waits for no hash that it has.
  answer_all-awaited :
      (es : List Entry) (a : Answer)
      → All (λ h. contains h ≡ false) a.missing_hashes
      → All (λ h. contains h ≡ false) (answer_all contains es a).missing_hashes
  unfolding answer_all answer_hash
  answer_all-awaited [] a v = v
  answer_all-awaited (e ∷ es) a v = elim (Bool-cases (contains e.hash)) [
    | inl c ↦ answer_all-awaited es _ (rw c v)
    | inr c ↦
        answer_all-awaited es _
          (rw c (All-append a.missing_hashes (e.hash ∷ []) (λ h. contains h ≡ false) (v, (c, tt))))
  ]

  no_answer-Low : Low no_answer
  unfolding no_answer
  no_answer-Low = record {
    byte = 0;
    mask = refl;
    small = omega arith;
    low = omega arith;
    step = refl;
  }

  -- The last hash that is found, behind another: its bit is clear.
  last_clear :
      (n : ℕ) (pre post : List Entry) (e : Entry)
      → 0 < n
      → contains e.hash ≡ true
      → 0 < found_count contains pre
      → NoneFound contains post
      → is_missing
          (take (bitmask_size n) (answer_all contains (pre ++ e ∷ post) no_answer).found_bitmask)
          (length pre / 8)
          (length pre)
        ≡ true
  unfolding answer_hash no_answer
  last_clear n pre post e pos c h np =
      let before = answer_all contains pre no_answer in
      let l = found-Low e.hash before (answer_all-Low pre no_answer no_answer-Low) in
      let mask : (answer_all contains (pre ++ e ∷ post) no_answer).found_bitmask
          ≡ first_byte l.byte =
        ap (λ a. a.found_bitmask) (answer_all_split contains pre post e no_answer c)
        ∙ (answer_all_none contains post (answer_hash true e.hash before) np).1
        ∙ l.mask in
      let bound : l.byte < 2 ^ length pre = lt_of_lt_of_le l.low (
        pow-le-pow_right {n = 2} (omega arith)
          (omega (arith, answer_all-found_bit pre no_answer))) in
      rw mask (
        is_missing_lem n l.byte (length pre) pos
        ∙ ground (
          arith,
          bit_and-pow_of_lt (length pre) l.byte bound,
          bit_and-nothing_left (2 ^ length pre),
        ))

module _ (host : Host) (contains : ExifHash → Bool) where
  -- If the downloader has two or more of the offered hashes, the image of the last one that it has
  -- is sent, although every hash that it waits for is one that it has not.
  pub uploads_several :
      (pre post : List Entry) (e : Entry)
      → AllHashes (pre ++ e ∷ post)
      → 0 < found_count contains pre
      → contains e.hash ≡ true
      → NoneFound contains post
      → ((xs : List Entry) × (ys : List Entry) × (uploads host contains (pre ++ e ∷ post)
            ≡ xs ++ e ∷ ys))
        × All (λ h. contains h ≡ false) (awaited host contains (pre ++ e ∷ post))
  unfolding confirmation no_answer
  uploads_several pre post e v h c np =
      let n = length (pre ++ e ∷ post) in
      let offered : 0 < n = omega (arith, length-append pre (e ∷ post)) in
      let m =
        take (bitmask_size n) (answer_all contains (pre ++ e ∷ post) no_answer).found_bitmask in
      (
        (
          to_upload m 0 0 pre,
          to_upload m (suc (length pre) / 8) (suc (length pre)) post,
          uploads_lem host contains (pre ++ e ∷ post) v
              ∙ to_upload-append m 0 pre (e ∷ post)
              ∙ ap (◌++◌ (to_upload m 0 0 pre)) (
                  rw zero-add (
                    to_upload_send m (length pre) e post
                      (last_clear contains n pre post e offered c h np))),
        ),
        rw (awaited_lem host contains (pre ++ e ∷ post) v)
            (answer_all-awaited contains (pre ++ e ∷ post) no_answer tt),
      )
