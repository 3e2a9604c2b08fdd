-- ===== src/Peer/Session/Loops.antt =====
-- A sync connection from its first offer to its end, seen from both ends.
use jpgsync.Common.{
  ℕ, suc, ◌≡◌, refl, sym, ◌∙◌, Bool, List, [], ◌∷◌, ◌++◌, append_assoc, append-nil, length, All,
}
use jpgsync.ExifHash.{ExifHash}
use jpgsync.ExifHasher.{Entry}
use jpgsync.Host.{Host}
use jpgsync.Protocol.{Socket}
use jpgsync.Protocol.Stream.{Stream}
use jpgsync.Protocol.Messages.{Gives, read_byte_lem, read_byte_end}
use jpgsync.Peer.Offer.{uploads, offer_bytes}
use jpgsync.Peer.Transfer.{Files}
use jpgsync.Peer.Session.{make_offers, serve_offers}
use jpgsync.Peer.Session.Exchange.{images_bytes, arrive}
use jpgsync.Peer.Session.Rounds.{IsSettled, mask, offer_stream, make_offer_lem, serve_offer_lem}

module _ (host : Host) (contains : ExifHash → Bool) (sources : Files) where
  -- What the uploader sends on a whole connection, and what it is answered.
  unfoldable pub offers_stream : List (List Entry) → List ℕ
  offers_stream [] = []
  offers_stream (offer ∷ offers) = offer_stream host contains sources offer ++ offers_stream offers

  unfoldable pub masks : List (List Entry) → List ℕ
  masks [] = []
  masks (offer ∷ offers) = mask host contains offer ++ masks offers

  -- The files of the downloader at the end.
  unfoldable pub arrive_offers : (List ℕ → Bool) → List ℕ → List (List Entry) → Files → Files
  arrive_offers writable dir [] files = files
  arrive_offers writable dir (offer ∷ offers) files =
      arrive_offers writable dir offers
        (arrive writable dir sources (uploads host contains offer) files)

  module _ {S : Type 0} {sock : Socket S} (stream : Stream sock) where
    open stream use {pending, sent}

    -- The uploader makes all its offers, if each is settled and their masks come back.
    pub make_offers_lem :
        (offers : List (List Entry)) (fd : S) (rest : List ℕ)
        → All (IsSettled host contains sources) offers
        → pending fd ≡ masks offers ++ rest
        → Gives stream
            (make_offers sock host sources offers fd)
            (λ fd'. fd')
            rest
            (sent fd ++ offers_stream offers)
    unfolding make_offers masks offers_stream
    make_offers_lem [] fd rest ss p = record {
      fd' = fd;
      result = refl;
      left = p;
      wrote = sym (append-nil (sent fd));
    }
    make_offers_lem (offer ∷ offers) fd rest (s, ss) p =
        let one =
          make_offer_lem host contains stream sources offer fd (masks offers ++ rest) s
            (p ∙ append_assoc (mask host contains offer) (masks offers) rest) in
        let more = make_offers_lem offers one.fd' rest ss one.left in
        record {
          fd' = more.fd';
          result = rw one.result more.result;
          left = more.left;
          wrote =
              more.wrote
              ∙ rw one.wrote (
                  append_assoc (sent fd) (offer_stream host contains sources offer)
                    (offers_stream offers));
        }

    -- The downloader serves them up to the end of the connection, if the offers come and then the end:
    -- one round for each offer and one for the end are enough.
    pub serve_offers_lem :
        (writable : List ℕ → Bool) (dir : List ℕ) (offers : List (List Entry)) (files : Files)
        (fd : S)
        → All (IsSettled host contains sources) offers
        → pending fd ≡ offers_stream offers
        → Gives stream
            (serve_offers sock host writable dir contains (suc (length offers)) files fd)
            (λ fd'. (arrive_offers writable dir offers files, fd'))
            []
            (sent fd ++ masks offers)
    unfolding serve_offers masks offers_stream arrive_offers
    serve_offers_lem writable dir [] files fd ss p =
        let r = read_byte_end stream fd p in
        record {
          fd' = r.fd';
          result = rw (r.result);
          left = r.left;
          wrote = r.wrote ∙ sym (append-nil (sent fd));
        }
    serve_offers_lem writable dir (offer ∷ offers) files fd (s, ss) p =
        let images = images_bytes sources (uploads host contains offer) in
        let r = read_byte_lem stream fd (length offer) _ p in
        let one =
          serve_offer_lem host contains stream sources writable dir offer files r.fd'
            (offers_stream offers) s
            (r.left ∙ append_assoc (offer_bytes host offer) images (offers_stream offers)) in
        let more =
          serve_offers_lem writable dir offers
            (arrive writable dir sources (uploads host contains offer) files) one.fd' ss one.left in
        record {
          fd' = more.fd';
          result = rw (r.result, one.result) more.result;
          left = more.left;
          wrote =
              more.wrote
              ∙ rw (one.wrote, r.wrote)
                  (append_assoc (sent fd) (mask host contains offer) (masks offers));
        }
