-- ===== src/Peer/Offer/Reading.antt =====
-- The downloader's loop over an offer, on the hashes that the offer was made of (src/peer.cpp).
use jpgsync.Common.{
  ℕ, suc, ◌+◌, ◌/◌, ◌≤◌, ◌<◌, ◌≡◌, refl, sym, ap, ap₂, map, add-zero, ◌∙◌, Bool, true, false, List,
  [], ◌∷◌, ◌++◌, append_assoc, append-nil, arith, length, drop-append_left, All, if◌then◌else◌,
}
use jpgsync.ExifHash.{ExifHash, IsHash, to_digest}
use jpgsync.ExifHash.Codec.{exif_hash-to_digest, length-to_digest}
use jpgsync.ExifHasher.{Entry}
use jpgsync.Host.{Host}
use jpgsync.Peer.Offer.{
  Answer, next_found, answer_hash, answer_offer, to_upload, is_missing, offer_bytes,
}

abbrev pub AllHashes : List Entry → Type 0
AllHashes es = All (λ e. IsHash e.hash) es

module _ (contains : ExifHash → Bool) where
  -- No hash of the list is one that the downloader has.
  abbrev pub NoneFound : List Entry → Type 0
  NoneFound es = All (λ e. contains e.hash ≡ false) es

  -- The loop over the entries in place of the bytes.
  unfoldable pub answer_all : List Entry → Answer → Answer
  answer_all [] a = a
  answer_all (e ∷ es) a = answer_all es (answer_hash (contains e.hash) e.hash a)

  pub answer_all-append :
      (xs ys : List Entry) (a : Answer) → answer_all (xs ++ ys) a ≡ answer_all ys (answer_all xs a)
  unfolding answer_all
  answer_all-append [] ys a = refl
  answer_all-append (x ∷ xs) ys a = answer_all-append xs ys (answer_hash (contains x.hash) x.hash a)

  -- Where the downloader has a hash in the middle.
  pub answer_all_split :
      (pre post : List Entry) (e : Entry) (a : Answer)
      → contains e.hash ≡ true
      → answer_all (pre ++ e ∷ post) a
        ≡ answer_all post (answer_hash true e.hash (answer_all pre a))
  unfolding answer_all
  answer_all_split pre post e a c =
      answer_all-append pre (e ∷ post) a
      ∙ ap (λ b. answer_all post (answer_hash b e.hash (answer_all pre a))) c

  pub answer_offer-offer_bytes :
      (host : Host) (es : List Entry) (a : Answer)
      → AllHashes es
      → answer_offer contains (length es) (offer_bytes host es) a ≡ answer_all es a
  unfolding answer_offer offer_bytes answer_all
  answer_offer-offer_bytes host [] a h = refl
  answer_offer-offer_bytes host (e ∷ es) a h =
      let step = λ (bytes : List ℕ) (hash : ExifHash).
        answer_offer contains (length es) bytes (answer_hash (contains hash) hash a) in
      ap₂ step
        (drop-append_left 20 (to_digest host e.hash) (offer_bytes host es)
          (sym (length-to_digest host e.hash h.0)))
        (exif_hash-to_digest host e.hash (offer_bytes host es) h.0)
      ∙ answer_offer-offer_bytes host es (answer_hash (contains e.hash) e.hash a) h.1

  -- Hashes that are not found are all awaited, and leave the mask alone.
  pub answer_all_none :
      (es : List Entry) (a : Answer)
      → NoneFound es
      → ((answer_all es a).missing_hashes ≡ a.missing_hashes ++ map (λ e. e.hash) es)
        × ((answer_all es a).found_bitmask ≡ a.found_bitmask)
        × ((answer_all es a).found_bit ≡ a.found_bit + length es)
  unfolding answer_all answer_hash
  answer_all_none [] a h = (sym (append-nil a.missing_hashes), refl, omega arith)
  answer_all_none (e ∷ es) a h =
      let (awaits, mask, bit) = answer_all_none es (answer_hash false e.hash a) h.1 in
      rw (h.0, answer_all)
        (
          awaits ∙ append_assoc a.missing_hashes (e.hash ∷ []) (map (λ x. x.hash) es),
          mask,
          bit ∙ omega arith,
        )

  -- `found` points at the byte of the mask in which the next bit would lie.
  abbrev pub InStep : Answer → Type 0
  InStep a = a.found ≡ a.found_bit / 8

  pub answer_all-InStep : (es : List Entry) (a : Answer) → InStep a → InStep (answer_all es a)
  unfolding answer_all answer_hash
  answer_all-InStep [] a h = h
  answer_all-InStep (e ∷ es) a h = answer_all-InStep es _ (ground arith)

-- The uploader's loop over two parts of an offer.
pub next_found_lem : (j : ℕ) → next_found (j / 8) j ≡ suc j / 8
next_found_lem j = ground arith

if-append :
    (b : Bool) (x : Entry) (xs ys : List Entry)
    → (if b then x ∷ (xs ++ ys) else xs ++ ys) ≡ (if b then x ∷ xs else xs) ++ ys
if-append true x xs ys = refl
if-append false x xs ys = refl

pub to_upload-append :
    (mask : List ℕ) (j : ℕ) (xs ys : List Entry)
    → to_upload mask (j / 8) j (xs ++ ys)
      ≡ to_upload mask (j / 8) j xs ++ to_upload mask ((j + length xs) / 8) (j + length xs) ys
unfolding to_upload
to_upload-append mask j [] ys = rw add-zero
to_upload-append mask j (x ∷ xs) ys =
    let shift : j + suc (length xs) ≡ suc j + length xs = omega arith in
    rw (next_found_lem j, shift, to_upload-append mask (suc j) xs ys)
      (if-append (is_missing mask (j / 8) j) x (to_upload mask (suc j / 8) (suc j) xs)
        (to_upload mask ((suc j + length xs) / 8) (suc j + length xs) ys))

-- Where every bit is clear the whole part is sent.
pub to_upload_all :
    (mask : List ℕ) (j : ℕ) (es : List Entry)
    → ((i : ℕ) → j ≤ i → i < j + length es → is_missing mask (i / 8) i ≡ true)
    → to_upload mask (j / 8) j es ≡ es
unfolding to_upload
to_upload_all mask j [] h = refl
to_upload_all mask j (e ∷ es) h =
    rw (h j (omega arith) (omega arith), next_found_lem j)
      (ap (◌∷◌ e) (to_upload_all mask (suc j) es (λ i p q. h i (omega arith) (omega arith))))

pub to_upload_skip :
    (mask : List ℕ) (j : ℕ) (e : Entry) (es : List Entry)
    → is_missing mask (j / 8) j ≡ false
    → to_upload mask (j / 8) j (e ∷ es) ≡ to_upload mask (suc j / 8) (suc j) es
unfolding to_upload
to_upload_skip mask j e es h = rw (h, next_found_lem j)

pub to_upload_send :
    (mask : List ℕ) (j : ℕ) (e : Entry) (es : List Entry)
    → is_missing mask (j / 8) j ≡ true
    → to_upload mask (j / 8) j (e ∷ es) ≡ e ∷ to_upload mask (suc j / 8) (suc j) es
unfolding to_upload
to_upload_send mask j e es h = rw (h, next_found_lem j)
