-- ===== src/Peer/Session/Complete.antt =====
-- If the updates have brought all hashes of the downloader, a connection sends just the images that it
-- has not: the offers of Peer.Choice, made over the connection of Peer.Session, implement that.
use mathlib.Core.List.{flatten}
use mathlib.Core.Option.{some-injective}
use mathlib.Core.Path.{subst}
use jpgsync.Common.{
  ℕ, suc, ◌-◌, ◌<◌, ◌≤◌, ◌≡◌, refl, ap, sym, ◌∙◌, Bool, false, List, [], ◌∷◌, ◌++◌, append-nil,
  some, arith, length, take_of_le, All, map, Bool-cases, inl, inr, if◌then◌else◌,
}
use jpgsync.ExifHash.{ExifHash}
use jpgsync.ExifHasher.{Entry, count}
use jpgsync.Host.{Host}
use jpgsync.Protocol.{Socket, returned, sync_hashes_per_packet}
use jpgsync.Protocol.Stream.{Stream}
use jpgsync.Protocol.Messages.{Gives}
use jpgsync.Peer.Choice.{offers_in_rounds}
use jpgsync.Peer.Choice.Rounds.{Growing, offers_in_rounds_lem}
use jpgsync.Peer.Choice.Offers.{not_received}
use jpgsync.Peer.Offer.Reading.{AllHashes, NoneFound}
use jpgsync.Peer.Offer.Single.{uploads-NoneFound}
use jpgsync.Peer.Transfer.{Files}
use jpgsync.Peer.Session.{make_offers, serve_offers}
use jpgsync.Peer.Session.Exchange.{IsUploadable, arrive, arrive-append}
use jpgsync.Peer.Session.Rounds.{IsSettled}
use jpgsync.Peer.Session.Loops.{
  offers_stream, masks, arrive_offers, make_offers_lem, serve_offers_lem,
}

-- The specification: the entries whose hashes the downloader has not.
unfoldable pub lacking : (ExifHash → Bool) → List Entry → List Entry
lacking contains [] = []
lacking contains (e ∷ es) = if contains e.hash then lacking contains es else e ∷ lacking contains es

pub All-flatten {κ} :
    (P : Entry → Type κ) (xs : List Entry) (xss : List (List Entry))
    → All P (xs ++ flatten xss)
    → All P xs × All P (flatten xss)
All-flatten P [] xss h = (tt, h)
All-flatten P (x ∷ xs) xss (hx, h) =
    let (left, right) = All-flatten P xs xss h in ((hx, left), right)

module _ (contains : ExifHash → Bool) where
  lacking-All {κ} : (P : Entry → Type κ) (es : List Entry) → All P es → All P (lacking contains es)
  unfolding lacking
  lacking-All P [] h = tt
  lacking-All P (e ∷ es) (h, hs) = elim (Bool-cases (contains e.hash)) [
    | inl found ↦ rw found (lacking-All P es hs)
    | inr missing ↦ rw missing (h, lacking-All P es hs)
  ]

  lacking_keeps :
      (e : Entry) (es : List Entry)
      → contains e.hash ≡ false
      → lacking contains (e ∷ es) ≡ e ∷ lacking contains es
  unfolding lacking
  lacking_keeps e es missing = rw missing

  lacking-NoneFound : (es : List Entry) → NoneFound contains (lacking contains es)
  unfolding lacking
  lacking-NoneFound [] = tt
  lacking-NoneFound (e ∷ es) = elim (Bool-cases (contains e.hash)) [
    | inl found ↦ rw found (lacking-NoneFound es)
    | inr missing ↦
        subst (NoneFound contains) (sym (lacking_keeps e es missing))
          (missing, lacking-NoneFound es)
  ]

  pub not_received-eq-lacking :
      (received : List ExifHash) (es : List Entry)
      → ((h : ExifHash) → count received h ≡ contains h)
      → not_received received es ≡ lacking contains es
  unfolding not_received lacking
  not_received-eq-lacking received [] known = refl
  not_received-eq-lacking received (e ∷ es) known =
      rw (known e.hash, not_received-eq-lacking received es known)

-- Rounds that process all entries offer those that were not received.
pub rounds_end :
    (received : List ExifHash) (entries : List Entry) (totals : List ℕ) (os : List (List Entry))
    → Growing 0 totals (length entries)
    → offers_in_rounds received totals entries 0 ≡ some (os, length entries)
    → (flatten os ≡ not_received received entries)
      × All (λ o. (0 < length o) × (length o ≤ sync_hashes_per_packet)) os
rounds_end received entries totals os grows made =
    let offered = offers_in_rounds_lem received totals entries grows in
    let both : (offered.os, offered.end) ≡ (os, length entries) =
      some-injective (offered.os, offered.end) (os, length entries) (sym offered.result ∙ made) in
    let same : offered.os ≡ os = ap (λ r. r.0) both in
    let all : offered.end ≡ length entries = ap (λ r. r.1) both in
    (
      ap flatten (sym same)
          ∙ offered.all
          ∙ ap (not_received received) (take_of_le (offered.end - 0) entries (omega (arith, all))),
      subst (All (λ o. (0 < length o) × (length o ≤ sync_hashes_per_packet))) same offered.sizes,
    )

module _ (host : Host) (contains : ExifHash → Bool) (sources : Files) where
  -- Offers of which the downloader has nothing are settled.
  All-IsSettled :
      (os : List (List Entry))
      → All (λ o. (0 < length o) × (length o ≤ sync_hashes_per_packet)) os
      → AllHashes (flatten os)
      → NoneFound contains (flatten os)
      → All (IsUploadable sources) (flatten os)
      → All (IsSettled host contains sources) os
  unfolding flatten
  All-IsSettled [] sizes hs nf up = tt
  All-IsSettled (o ∷ os) ((pos, small), sizes) hs nf up =
      let (h, hs') = All-flatten _ o os hs in
      let (n, nf') = All-flatten _ o os nf in
      let (u, up') = All-flatten _ o os up in
      let (sends, waits) = uploads-NoneFound host contains o h n in
      (
        record {
          size = small;
          hashes = h;
          agreed = waits ∙ ap (map (λ e. e.hash)) (sym sends);
          uploadable = subst (All (IsUploadable sources)) (sym sends) u;
        },
        All-IsSettled os sizes hs' nf' up',
      )

  arrive_offers-flatten :
      (writable : List ℕ → Bool) (dir : List ℕ) (os : List (List Entry)) (files : Files)
      → AllHashes (flatten os)
      → NoneFound contains (flatten os)
      → arrive_offers host contains sources writable dir os files
        ≡ arrive writable dir sources (flatten os) files
  unfolding arrive_offers arrive flatten
  arrive_offers-flatten writable dir [] files hs nf = refl
  arrive_offers-flatten writable dir (o ∷ os) files hs nf =
      let (h, hs') = All-flatten _ o os hs in
      let (n, nf') = All-flatten _ o os nf in
      rw (uploads-NoneFound host contains o h n).0 (
        arrive_offers-flatten writable dir os (arrive writable dir sources o files) hs' nf'
        ∙ sym (arrive-append writable dir sources o (flatten os) files))

  module _ {S : Type 0} {sock : Socket S} (stream : Stream sock) where
    open stream use {pending, sent}

    -- Let the updates have brought just the hashes that the downloader has, and let the offers `os` be,
    -- one after the other, the `entries` whose hashes the updates have not brought. The hashes fit their
    -- words, and the images that the downloader has not can be sent. If each side reads what the other
    -- writes, both ends come to their end, and just these images arrive.
    pub serve_offers-of_parts :
        (received : List ExifHash) (entries : List Entry) (os : List (List Entry)) (a c : S)
        (writable : List ℕ → Bool) (dir : List ℕ) (files : Files)
        → ((h : ExifHash) → count received h ≡ contains h)
        → AllHashes entries
        → All (IsUploadable sources) (lacking contains entries)
        → flatten os ≡ not_received received entries
        → All (λ o. (0 < length o) × (length o ≤ sync_hashes_per_packet)) os
        → pending a ≡ masks host contains sources os
        → pending c ≡ offers_stream host contains sources os
        → Gives stream
            (make_offers sock host sources os a)
            (λ a'. a')
            []
            (sent a ++ offers_stream host contains sources os)
          × Gives stream
              (serve_offers sock host writable dir contains (suc (length os)) files c)
              (λ c'. (arrive writable dir sources (lacking contains entries) files, c'))
              []
              (sent c ++ masks host contains sources os)
    serve_offers-of_parts received entries os a c writable dir files known hs up made sizes pa pc =
        let parts : flatten os ≡ lacking contains entries =
          made ∙ not_received-eq-lacking contains received entries known in
        let hashes = subst AllHashes (sym parts) (lacking-All contains _ entries hs) in
        let fresh = subst (NoneFound contains) (sym parts) (lacking-NoneFound contains entries) in
        let sendable = subst (All (IsUploadable sources)) (sym parts) up in
        let settled = All-IsSettled os sizes hashes fresh sendable in
        let served =
          serve_offers_lem host contains sources stream writable dir os files c settled pc in
        let arrived =
          arrive_offers-flatten writable dir os files hashes fresh
          ∙ ap (λ es. arrive writable dir sources es files) parts in
        (
          make_offers_lem host contains sources stream os a [] settled (pa ∙ sym (append-nil _)),
          record {
            fd' = served.fd';
            result = served.result ∙ ap (λ fs. returned (fs, served.fd')) arrived;
            left = served.left;
            wrote = served.wrote;
          },
        )

    -- Let the updates have brought just the hashes that the downloader has, and let the rounds of the
    -- uploader, for the counts that they load, process all of its `entries` and make the offers `os`.
    -- The hashes fit their words, and the images that the downloader has not can be sent. If each
    -- side reads what the other writes, up to the end of the connection, both ends come to their end,
    -- and the files of the downloader are those where the images that it has not have arrived, each
    -- once and in order, and no others.
    pub serve_offers-make_offers :
        (received : List ExifHash) (entries : List Entry) (totals : List ℕ) (os : List (List Entry))
        (a c : S) (writable : List ℕ → Bool) (dir : List ℕ) (files : Files)
        → ((h : ExifHash) → count received h ≡ contains h)
        → AllHashes entries
        → All (IsUploadable sources) (lacking contains entries)
        → Growing 0 totals (length entries)
        → offers_in_rounds received totals entries 0 ≡ some (os, length entries)
        → pending a ≡ masks host contains sources os
        → pending c ≡ offers_stream host contains sources os
        → Gives stream
            (make_offers sock host sources os a)
            (λ a'. a')
            []
            (sent a ++ offers_stream host contains sources os)
          × Gives stream
              (serve_offers sock host writable dir contains (suc (length os)) files c)
              (λ c'. (arrive writable dir sources (lacking contains entries) files, c'))
              []
              (sent c ++ masks host contains sources os)
    serve_offers-make_offers received entries totals os a c writable dir files known hs up grows
          made pa pc =
        let (parts, sizes) = rounds_end received entries totals os grows made in
        serve_offers-of_parts received entries os a c writable dir files known hs up parts sizes pa
          pc
