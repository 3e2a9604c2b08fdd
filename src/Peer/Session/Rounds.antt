-- ===== src/Peer/Session/Rounds.antt =====
-- One offer on a sync connection, and a list of offers up to the end of the connection, seen from both
-- ends.
use jpgsync.Common.{
  ℕ, zero, suc, ◌*◌, ◌%◌, ◌≤◌, ◌≡◌, refl, ap, ◌∙◌, Bool, true, false, List, [], ◌∷◌, ◌++◌,
  append_assoc, arith, length, length-append, length-take, length-set, All, map, ltb,
}
use jpgsync.ExifHash.{ExifHash, exif_hash, to_digest}
use jpgsync.ExifHash.Codec.{length-to_digest}
use jpgsync.ExifHasher.{Entry}
use jpgsync.Host.{Host}
use jpgsync.Protocol.{Socket}
use jpgsync.Protocol.Stream.{Stream}
use jpgsync.Protocol.Messages.{Gives, read_exactly_lem, write_byte_lem, write_exactly_lem}
use jpgsync.Peer.Offer.{
  Answer, answer_hash, answer_offer, no_answer, confirmation, bitmask_size, uploads, awaited,
  offer_bytes,
}
use jpgsync.Peer.Offer.Reading.{AllHashes}
use jpgsync.Peer.Transfer.{Files}
use jpgsync.Peer.Session.{make_offer, serve_offer, download_images}
use jpgsync.Peer.Session.Exchange.{
  IsUploadable, images_bytes, arrive, upload_images_lem, download_images_lem,
}

length-answer_hash :
    (b : Bool) (h : ExifHash) (a : Answer)
    → length (answer_hash b h a).found_bitmask ≡ length a.found_bitmask
unfolding answer_hash
length-answer_hash true h a = length-set a.found_bitmask a.found _
length-answer_hash false h a = refl

module _ (host : Host) (contains : ExifHash → Bool) where
  length-answer_offer :
      (n : ℕ) (bytes : List ℕ) (a : Answer)
      → length (answer_offer contains n bytes a).found_bitmask ≡ length a.found_bitmask
  unfolding answer_offer
  length-answer_offer zero bytes a = refl
  length-answer_offer (suc n) bytes a =
      length-answer_offer n _ _
      ∙ length-answer_hash (contains (exif_hash bytes)) (exif_hash bytes) a

  pub length-offer_bytes :
      (es : List Entry) → AllHashes es → length (offer_bytes host es) ≡ length es * 20
  unfolding offer_bytes
  length-offer_bytes [] v = omega arith
  length-offer_bytes (e ∷ es) v = omega (
    arith,
    length-append (to_digest host e.hash) (offer_bytes host es),
    length-to_digest host e.hash v.0,
    length-offer_bytes es v.1,
  )

  -- What the downloader makes of an offer.
  abbrev pub answer : List Entry → Answer
  answer offer = answer_offer contains (length offer) (offer_bytes host offer) no_answer

  -- What it sends back.
  abbrev pub mask : List Entry → List ℕ
  mask offer = confirmation (length offer) (answer offer)

  length-mask :
      (offer : List Entry) → length offer ≤ 26 → length (mask offer) ≡ bitmask_size (length offer)
  unfolding confirmation no_answer
  length-mask offer le = omega (
    arith,
    length-take (bitmask_size (length offer)) (answer offer).found_bitmask,
    length-answer_offer (length offer) (offer_bytes host offer) no_answer,
  )

  -- An offer that one packet holds, whose hashes fit their words, and of which the downloader waits for
  -- just the images that the uploader sends, which can be sent.
  pub record IsSettled (sources : Files) (offer : List Entry) : Type 0 where
    pub size : length offer ≤ 26
    pub hashes : AllHashes offer
    pub agreed : awaited host contains offer ≡ map (λ e. e.hash) (uploads host contains offer)
    pub uploadable : All (IsUploadable sources) (uploads host contains offer)

  -- What the uploader sends for an offer.
  abbrev pub offer_stream : Files → List Entry → List ℕ
  offer_stream sources offer =
      length offer ∷ (offer_bytes host offer ++ images_bytes sources (uploads host contains offer))

  module _ {S : Type 0} {sock : Socket S} (stream : Stream sock) (sources : Files) where
    open stream use {pending, sent}

    pub make_offer_lem :
        (offer : List Entry) (fd : S) (rest : List ℕ)
        → IsSettled sources offer
        → pending fd ≡ mask offer ++ rest
        → Gives stream
            (make_offer sock host sources offer fd)
            (λ fd'. fd')
            rest
            (sent fd ++ offer_stream sources offer)
    unfolding make_offer uploads
    make_offer_lem offer fd rest s p =
        let w1 = write_byte_lem stream fd (length offer) in
        let w2 = write_exactly_lem stream w1.fd' (offer_bytes host offer) in
        let r = read_exactly_lem stream w2.fd' (mask offer) rest (w2.left ∙ w1.left ∙ p) in
        let u =
          upload_images_lem stream host sources (uploads host contains offer) r.fd' s.uploadable in
        let small : length offer % 256 ≡ length offer = omega (arith, s.size) in
        record {
          fd' = u.fd';
          result = rw (w1.result, w2.result, ← length-mask offer s.size, r.result) u.result;
          left = u.left ∙ r.left;
          wrote =
              u.wrote
              ∙ rw (r.wrote, w2.wrote, w1.wrote, small)
                  (append_assoc (sent fd ++ length offer ∷ []) (offer_bytes host offer)
                      (images_bytes sources (uploads host contains offer))
                    ∙ append_assoc (sent fd) (length offer ∷ []) (
                        offer_bytes host offer
                        ++ images_bytes sources (uploads host contains offer)));
        }

    module _ (writable : List ℕ → Bool) (dir : List ℕ) where
      pub serve_offer_lem :
          (offer : List Entry) (files : Files) (fd : S) (rest : List ℕ)
          → IsSettled sources offer
          → pending fd
            ≡ offer_bytes host offer ++ (images_bytes sources (uploads host contains offer) ++ rest)
          → Gives stream
              (serve_offer sock host writable dir contains (length offer) files fd)
              (λ fd'. (arrive writable dir sources (uploads host contains offer) files, fd'))
              rest
              (sent fd ++ mask offer)
      unfolding serve_offer awaited
      serve_offer_lem offer files fd rest s p =
          let images = images_bytes sources (uploads host contains offer) in
          let r = read_exactly_lem stream fd (offer_bytes host offer) (images ++ rest) p in
          let w = write_exactly_lem stream r.fd' (mask offer) in
          let d =
            download_images_lem stream host sources writable dir (uploads host contains offer) files
              w.fd' rest s.uploadable (w.left ∙ r.left) in
          let fits : ltb 26 (length offer) ≡ false = ground (arith, s.size) in
          record {
            fd' = d.fd';
            result =
                rw (fits, ← length-offer_bytes offer s.hashes, r.result, w.result)
                  (ap (λ hashes. download_images sock host writable dir hashes files w.fd') s.agreed
                    ∙ d.result);
            left = d.left;
            wrote = d.wrote ∙ w.wrote ∙ rw r.wrote;
          }
