-- ===== src/Peer/Offer/Single.antt =====
-- Offers of which the downloader has one hash at most, among the first eight (src/peer.cpp): the uploader
-- sends what the downloader waits for.
use jpgsync.Common.{
  ℕ, zero, suc, ◌-◌, ◌/◌, ◌^◌, ◌<◌, bit_and, ◌≡◌, ◌≢◌, refl, sym, ap, ap₂, ◌∙◌, Bool, true, false,
  List, ◌∷◌, ◌++◌, map, arith, length, length-append, get_or, take, replicate, ◌==◌, zero-add,
  if◌then◌else◌,
}
use mathlib.Core.List.{map-append}
use native.Mathlib.Nat.{mod-eq_of_lt}
use jpgsync.Common.Bits.Digits.{bit_or-nothing_left, bit_and-nothing_left}
use jpgsync.Common.Bits.Masks.{bit_and-pow_ne, bit_and-pow_self, pow_pos, pow-lt_pow}
use jpgsync.ExifHash.{ExifHash}
use jpgsync.ExifHasher.{Entry}
use jpgsync.Host.{Host}
use jpgsync.Peer.Offer.{
  Answer, bitmask_size, no_answer, answer_hash, confirmation, is_missing, to_upload, uploads,
  awaited,
}
use jpgsync.Peer.Offer.Reading.{
  AllHashes, NoneFound, answer_all, answer_all_split, answer_offer-offer_bytes, answer_all_none,
  answer_all-InStep, to_upload-append, to_upload_all, to_upload_skip,
}

-- A mask of which only the first byte can have set bits.
abbrev pub first_byte : ℕ → List ℕ
first_byte m = m ∷ replicate 3 0

zeros_get : (n k i : ℕ) → get_or (take n (replicate {A = ℕ} k 0)) i 0 ≡ 0
zeros_get zero k i = refl
zeros_get (suc n) zero i = refl
zeros_get (suc n) (suc k) zero = refl
zeros_get (suc n) (suc k) (suc i) = zeros_get n k i

first_byte_at : (n m j : ℕ) → get_or (take (suc n) (first_byte m)) j 0 ≡ (if j == 0 then m else 0)
first_byte_at n m zero = refl
first_byte_at n m (suc j) = zeros_get n 3 j ∙ ground arith

-- What the uploader tests at the place of a bit, of the bytes that are sent of such a mask.
pub is_missing_lem :
    (n m i : ℕ)
    → 0 < n
    → is_missing (take (bitmask_size n) (first_byte m)) (i / 8) i
      ≡ (bit_and (if i / 8 == 0 then m else 0) (2 ^ i) == 0)
unfolding is_missing
is_missing_lem n m i h =
    let size : bitmask_size n ≡ suc ((n - 1) / 8) = omega arith in
    rw (size, first_byte_at ((n - 1) / 8) m (i / 8))

-- A bit that is not the one that is set.
is_missing_other :
    (n k i : ℕ)
    → 0 < n
    → k ≢ i
    → is_missing (take (bitmask_size n) (first_byte (2 ^ k))) (i / 8) i ≡ true
is_missing_other n k i h ne =
    is_missing_lem n (2 ^ k) i h
    ∙ ground (arith, bit_and-pow_ne k i ne, bit_and-nothing_left (2 ^ i))

is_missing_self :
    (n k : ℕ)
    → 0 < n
    → k < 8
    → is_missing (take (bitmask_size n) (first_byte (2 ^ k))) (k / 8) k ≡ false
is_missing_self n k h lt =
    is_missing_lem n (2 ^ k) k h ∙ ground (arith, bit_and-pow_self k, pow_pos k)

is_missing_none :
    (n i : ℕ) → 0 < n → is_missing (take (bitmask_size n) (first_byte 0)) (i / 8) i ≡ true
is_missing_none n i h = is_missing_lem n 0 i h ∙ ground (arith, bit_and-nothing_left (2 ^ i))

module _ (host : Host) (contains : ExifHash → Bool) where
  -- The uploads and the awaited hashes, by the loop over entries.
  pub uploads_lem :
      (es : List Entry)
      → AllHashes es
      → uploads host contains es
        ≡ to_upload (confirmation (length es) (answer_all contains es no_answer)) 0 0 es
  unfolding uploads
  uploads_lem es h = rw (answer_offer-offer_bytes contains host es no_answer h)

  pub awaited_lem :
      (es : List Entry)
      → AllHashes es
      → awaited host contains es ≡ (answer_all contains es no_answer).missing_hashes
  unfolding awaited
  awaited_lem es h =
      ap (λ a. a.missing_hashes) (answer_offer-offer_bytes contains host es no_answer h)

  -- Of an offer of which the downloader has no hash every image is sent, and the downloader waits
  -- for all of them.
  pub uploads-NoneFound :
      (offer : List Entry)
      → AllHashes offer
      → NoneFound contains offer
      → (uploads host contains offer ≡ offer)
        × (awaited host contains offer ≡ map (λ e. e.hash) offer)
  unfolding no_answer confirmation
  uploads-NoneFound offer v nf =
      let (awaits, mask, _) = answer_all_none contains offer no_answer nf in
      (
        uploads_lem offer v
            ∙ ap (λ m. to_upload (take (bitmask_size (length offer)) m) 0 0 offer) mask
            ∙ to_upload_all _ 0 offer (λ i p q. is_missing_none (length offer) i (omega arith)),
        awaited_lem offer v ∙ awaits,
      )

  -- The mask that a found hash behind `k` hashes that are not found leaves.
  found_mask :
      (a : Answer) (hash : ExifHash) (k : ℕ)
      → a.found_bitmask ≡ first_byte 0
      → a.found ≡ 0
      → a.found_bit ≡ k
      → k < 8
      → (answer_hash true hash a).found_bitmask ≡ first_byte (2 ^ k)
  unfolding answer_hash
  found_mask a hash k m z b lt =
      let small : 2 ^ k < 256 = pow-lt_pow 8 k lt in
      simp (m, z, b, bit_or-nothing_left) (ap first_byte (mod-eq_of_lt small))

  module _ (pre post : List Entry) (e : Entry) (np : NoneFound contains pre)
      (nq : NoneFound contains post) (c : contains e.hash ≡ true) (lt : length pre < 8) where
    before : Answer
    before = answer_all contains pre no_answer

    split_answer :
        answer_all contains (pre ++ e ∷ post) no_answer
        ≡ answer_all contains post (answer_hash true e.hash before)
    unfolding before
    split_answer = answer_all_split contains pre post e no_answer c

    one_mask :
        (answer_all contains (pre ++ e ∷ post) no_answer).found_bitmask
        ≡ first_byte (2 ^ length pre)
    unfolding before no_answer
    one_mask =
        let (_, mask, bit) = answer_all_none contains pre no_answer np in
        let step : before.found ≡ before.found_bit / 8 =
          answer_all-InStep contains pre no_answer refl in
        ap (λ a. a.found_bitmask) split_answer
        ∙ (answer_all_none contains post (answer_hash true e.hash before) nq).1
        ∙ found_mask before e.hash (length pre) mask (omega arith) (omega arith) lt

    one_awaited :
        (answer_all contains (pre ++ e ∷ post) no_answer).missing_hashes
        ≡ map (λ x. x.hash) (pre ++ post)
    unfolding before no_answer answer_hash
    one_awaited =
        ap (λ a. a.missing_hashes) split_answer
        ∙ (answer_all_none contains post (answer_hash true e.hash before) nq).0
        ∙ ap (λ hs. hs ++ map (λ x. x.hash) post) (answer_all_none contains pre no_answer np).0
        ∙ sym (map-append (λ x. x.hash) pre post)

  -- An offer of which the downloader has one hash, among the first eight: all other images are sent,
  -- and the downloader waits for just those.
  pub uploads_one_found :
      (pre post : List Entry) (e : Entry)
      → AllHashes (pre ++ e ∷ post)
      → NoneFound contains pre
      → NoneFound contains post
      → contains e.hash ≡ true
      → length pre < 8
      → (uploads host contains (pre ++ e ∷ post) ≡ pre ++ post)
        × (awaited host contains (pre ++ e ∷ post) ≡ map (λ x. x.hash) (pre ++ post))
  unfolding confirmation
  uploads_one_found pre post e v np nq c lt =
      let n = length (pre ++ e ∷ post) in
      let some_offered : length pre < n = omega (arith, length-append pre (e ∷ post)) in
      let k = length pre in
      let m = take (bitmask_size n) (first_byte (2 ^ k)) in
      let other = λ (i : ℕ) (ne : k ≢ i). is_missing_other n k i (omega arith) ne in
      let after : to_upload m (k / 8) k (e ∷ post) ≡ post =
        to_upload_skip m k e post (is_missing_self n k (omega arith) lt)
        ∙ to_upload_all m (suc k) post (λ i p q. other i (omega arith)) in
      (
        uploads_lem (pre ++ e ∷ post) v
            ∙ ap (λ b. to_upload (take (bitmask_size n) b) 0 0 (pre ++ e ∷ post))
                (one_mask pre post e np nq c lt)
            ∙ to_upload-append m 0 pre (e ∷ post)
            ∙ ap₂ ◌++◌ (to_upload_all m 0 pre (λ i p q. other i (omega arith))) (rw zero-add after),
        awaited_lem (pre ++ e ∷ post) v ∙ one_awaited pre post e np nq c lt,
      )
