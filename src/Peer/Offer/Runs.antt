-- ===== src/Peer/Offer/Runs.antt =====
-- Tests of the offer exchange of src/peer.cpp, and its theorems at concrete offers.
use jpgsync.Common.{ℕ, ◌≡◌, refl, Bool, false, List, [], ◌∷◌, ◌++◌, arith, All, ltb}
use jpgsync.ExifHash.{ExifHash, exif_hash, to_digest, to_network_order_byte, bytes_to_word32}
use jpgsync.ExifHasher.{Entry}
use jpgsync.Host.{little_endian}
use jpgsync.Peer.Offer.{
  answer_offer, answer_hash, no_answer, confirmation, offer_bytes, uploads, awaited, to_upload,
  is_missing,
}
use jpgsync.Peer.Offer.Several.{uploads_several, found_count}

-- An image whose hash is a small number.
abbrev image : ℕ → Entry
image n = record {
  hash = record { word0 = 0; word1 = 0; word2 = 0; word3 = 0; word4 = n };
  path = n ∷ [];
}

-- The downloader has the images below 5.
abbrev has : ExifHash → Bool
has h = ltb h.word4 5

-- The second and the third image are found: one bit is set for both, the third image is sent, and the
-- downloader does not wait for it.
two_found :
    uploads little_endian has (image 7 ∷ image 1 ∷ image 2 ∷ image 8 ∷ [])
    ≡ image 7 ∷ image 2 ∷ image 8 ∷ []
unfolding uploads answer_offer answer_hash no_answer confirmation offer_bytes to_upload is_missing
    exif_hash to_digest to_network_order_byte bytes_to_word32 little_endian
two_found = refl

two_awaited :
    awaited little_endian has (image 7 ∷ image 1 ∷ image 2 ∷ image 8 ∷ [])
    ≡ (image 7).hash ∷ (image 8).hash ∷ []
unfolding awaited answer_offer answer_hash no_answer offer_bytes exif_hash to_digest
    to_network_order_byte bytes_to_word32 little_endian
two_awaited = refl

uploads_several_example :
    ((xs : List Entry) × (ys : List Entry) × (uploads little_endian has
          (image 1 ∷ image 7 ∷ image 2 ∷ [])
        ≡ xs ++ image 2 ∷ ys))
    × All (λ h. has h ≡ false) (awaited little_endian has (image 1 ∷ image 7 ∷ image 2 ∷ []))
unfolding found_count
uploads_several_example =
    uploads_several little_endian has (image 1 ∷ image 7 ∷ []) [] (image 2) (omega arith)
      (omega arith) refl tt
