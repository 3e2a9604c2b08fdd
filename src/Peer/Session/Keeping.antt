-- ===== src/Peer/Session/Keeping.antt =====
-- The files of a downloader behind a sync connection with any peer (src/peer.cpp).
use jpgsync.Common.{
  ℕ, zero, suc, ◌≤◌, ◌<◌, ◌≡◌, inl, inr, Bool, true, false, List, [], ◌∷◌, Option, none, some,
  arith, ◌*◌, ltb, Bool-cases, if◌then◌else◌,
}
use jpgsync.ExifHash.{ExifHash, hash_size}
use jpgsync.Host.{Host}
use jpgsync.Protocol.{
  Socket, Outcome, returned, threw, fatal, stuck, ◌>>=◌, sync_hashes_per_packet, read_exactly,
}
use jpgsync.Protocol.Ending.{
  Ends, Finite, Spent, bind_Ends, read_byte-Ends, read_exactly-Ends, read_file_size-Ends,
  write_byte-Ends, write_exactly-Ends,
}
use jpgsync.Peer.Transfer.{
  Files, ensure, or_fatal, download, download_image, destination, stored, c_string,
}
use jpgsync.Peer.Transfer.Storing.{stored-destination}
use jpgsync.Peer.Session.{download_images, serve_offer, serve_offers, download_all}

ensure-Ends :
    {S A : Type 0} (sock : Socket S) (P : A → Type 0) (ok : Bool) (next : Outcome A)
    → Ends P next
    → Ends P (ensure sock ok next)
ensure-Ends sock P true next h = h
ensure-Ends sock P false next h = tt

or_fatal-Ends : {A : Type 0} (P : A → Type 0) (o : Outcome A) → Ends P o → Ends P (or_fatal o)
or_fatal-Ends P (returned a) h = h
or_fatal-Ends P threw h = tt
or_fatal-Ends P fatal h = tt
or_fatal-Ends P stuck h = absurd h

module _ {S : Type 0} {sock : Socket S} (finite : Finite sock) (host : Host)
    (writable : List ℕ → Bool) (dir : List ℕ) (q : List ℕ) (b : ℕ) (bs : List ℕ) where
  open finite use {left}

  -- The file `q` has its contents, and no more than `bound` bytes are to come.
  abbrev Kept : ℕ → Files × S → Type 0
  Kept bound (files, fd) = (files q ≡ some (b ∷ bs)) × (left fd ≤ bound)

  download-Ends :
      (bound : ℕ) (fd : S) (file_size : ℕ)
      → left fd ≤ bound
      → Ends {A = List ℕ × S} (λ r. left r.1 ≤ bound) (download sock fd file_size)
  unfolding download
  download-Ends bound fd file_size le =
      bind_Ends (λ r. left r.2 ≤ bound) (λ r. left r.1 ≤ bound) (read_exactly sock fd file_size) _
        (read_exactly-Ends finite bound fd file_size le)
        (λ (ok, bytes, fd') le'. go ok bytes fd' le')
    where
      go :
          (ok : Bool) (bytes : List ℕ) (fd' : S)
          → left fd' ≤ bound
          → Ends {A = List ℕ × S}
              (λ r. left r.1 ≤ bound)
              (if ok then returned (bytes, fd') else threw)
      go true bytes fd' le' = le'
      go false bytes fd' le' = tt

  byte_Ends :
      (bound rest : ℕ) (byte : Option ℕ)
      → Spent bound byte rest
      → Ends
          (λ n. rest ≤ bound)
          (elim byte as (λ _. Outcome ℕ) [ none ↦ fatal | some n ↦ returned n ])
  byte_Ends bound rest none spent = tt
  byte_Ends bound rest (some n) spent = omega arith

  stored_keeps :
      (bound : ℕ) (hash : ExifHash) (files : Files) (filename : List ℕ) (o : Outcome (List ℕ × S))
      → files q ≡ some (b ∷ bs)
      → Ends {A = List ℕ × S} (λ r. left r.1 ≤ bound) o
      → Ends
          (Kept bound)
          (o >>= (λ r. returned (stored (destination writable dir filename hash files) r.0, r.1)))
  stored_keeps bound hash files filename o f h =
      bind_Ends (λ r. left r.1 ≤ bound) (Kept bound) o _ h
        (λ r le. (stored-destination writable dir filename hash files r.0 q b bs f, le))

  download_image_keeps :
      (bound : ℕ) (hash : ExifHash) (files : Files) (fd : S)
      → Kept bound (files, fd)
      → Ends (Kept bound) (download_image sock host writable dir hash files fd)
  unfolding download_image
  download_image_keeps bound hash files fd (f, le) =
      bind_Ends (λ r. Spent bound r.0 (left r.1)) (Kept bound) _ _
        (read_byte-Ends finite bound fd le)
        (λ (len, fd1) spent.
          bind_Ends (λ n. left fd1 ≤ bound) (Kept bound) _ _ (byte_Ends bound (left fd1) len spent)
            (λ filename_len le1.
              bind_Ends (λ r. left r.2 ≤ bound) (Kept bound) _ _
                (read_exactly-Ends finite bound fd1 filename_len le1)
                (λ (ok, filename, fd2) le2.
                  bind_Ends (λ r. left r.2 ≤ bound) (Kept bound) _ _
                    (ensure-Ends sock (λ r. left r.2 ≤ bound) ok _
                      (read_file_size-Ends finite host bound fd2 le2))
                    (λ (ok', file_size, fd3) le3.
                      stored_keeps bound hash files (c_string filename) _ f (
                        ensure-Ends sock (λ r. left r.1 ≤ bound) ok' _
                          (or_fatal-Ends (λ r. left r.1 ≤ bound) _
                            (download-Ends bound fd3 file_size le3)))))))

  download_images_keeps :
      (bound : ℕ) (hashes : List ExifHash) (files : Files) (fd : S)
      → Kept bound (files, fd)
      → Ends (Kept bound) (download_images sock host writable dir hashes files fd)
  unfolding download_images
  download_images_keeps bound [] files fd k = k
  download_images_keeps bound (hash ∷ hashes) files fd k =
      bind_Ends (Kept bound) (Kept bound) _ _ (download_image_keeps bound hash files fd k)
        (λ (files', fd') k'. download_images_keeps bound hashes files' fd' k')

  serve_offer_keeps :
      (contains : ExifHash → Bool) (bound hash_count : ℕ) (files : Files) (fd : S)
      → Kept bound (files, fd)
      → Ends (Kept bound) (serve_offer sock host writable dir contains hash_count files fd)
  unfolding serve_offer
  serve_offer_keeps contains bound hash_count files fd (f, le) =
      elim (Bool-cases (ltb sync_hashes_per_packet hash_count)) [
        | inl much ↦ rw (serve_offer, much) tt
        | inr few ↦
            rw (serve_offer, few)
              (bind_Ends (λ r. left r.2 ≤ bound) (Kept bound) _ _
                (read_exactly-Ends finite bound fd (hash_count * hash_size) le)
                (λ (ok, buf, fd1) le1.
                  bind_Ends (λ r. left r.1 ≤ bound) (Kept bound) _ _
                    (ensure-Ends sock (λ r. left r.1 ≤ bound) ok _
                      (write_exactly-Ends finite bound fd1 _ le1))
                    (λ (ok', fd2) le2.
                      ensure-Ends sock (Kept bound) ok' _
                        (download_images_keeps bound _ files fd2 (f, le2)))))
      ]

  abbrev Whole : Files × S → Type 0
  Whole (files, fd) = files q ≡ some (b ∷ bs)

  -- One round of the loop behind its `ReadByte`.
  round_keeps :
      (contains : ExifHash → Bool) (fuel bound : ℕ) (files : Files) (fd : S) (len : Option ℕ)
      → ((files' : Files) (fd' : S)
          → left fd < fuel
          → Kept (left fd) (files', fd')
          → Ends Whole (serve_offers sock host writable dir contains fuel files' fd'))
      → files q ≡ some (b ∷ bs)
      → bound < suc fuel
      → Spent bound len (left fd)
      → Ends Whole (elim len as (λ _. Outcome (Files × S)) [
        | none ↦ returned (files, fd)
        | some hash_count ↦
            serve_offer sock host writable dir contains hash_count files fd
            >>= (λ r. serve_offers sock host writable dir contains fuel r.0 r.1)
      ])
  round_keeps contains fuel bound files fd none later f lt spent = f
  round_keeps contains fuel bound files fd (some hash_count) later f lt spent =
      bind_Ends (Kept (left fd)) Whole _ _
        (serve_offer_keeps contains (left fd) hash_count files fd (f, omega arith))
        (λ (files', fd') k. later files' fd' (omega arith) k)

  -- Each round reads a byte at least.
  serve_offers_keeps :
      (contains : ExifHash → Bool) (fuel bound : ℕ) (files : Files) (fd : S)
      → bound < fuel
      → Kept bound (files, fd)
      → Ends Whole (serve_offers sock host writable dir contains fuel files fd)
  unfolding serve_offers
  serve_offers_keeps contains zero bound files fd lt k = absurd (omega arith)
  serve_offers_keeps contains (suc fuel) bound files fd lt (f, le) =
      bind_Ends (λ r. Spent bound r.0 (left r.1)) Whole _ _ (read_byte-Ends finite bound fd le)
        (λ (len, fd1) spent.
          round_keeps contains fuel bound files fd1 len
            (λ files' fd' less k. serve_offers_keeps contains fuel (left fd1) files' fd' less k) f
            lt spent)

  -- The file `q` of the downloader is not empty. Whatever bytes a peer sends on the sync connection, if
  -- they are finitely many, and whatever the hasher has: however the calls of read and write split the
  -- bytes, none of them moving more than it is asked to, and whichever calls fail, the downloader's code
  -- comes to an end with a number of rounds above the number of those bytes, and if it returns, the
  -- file has the contents that it had.
  pub download_all_keeps :
      (contains : ExifHash → Bool) (byte fuel : ℕ) (files : Files) (fd : S)
      → left fd < fuel
      → files q ≡ some (b ∷ bs)
      → Ends
          (λ r. r.0 q ≡ some (b ∷ bs))
          (download_all sock host writable dir contains byte fuel files fd)
  unfolding download_all
  download_all_keeps contains byte fuel files fd lt f =
      bind_Ends (λ r. left r.1 ≤ left fd) Whole _ _
        (write_byte-Ends finite (left fd) fd byte (omega arith))
        (λ (ok, fd') le. serve_offers_keeps contains fuel (left fd) files fd' lt (f, le))
