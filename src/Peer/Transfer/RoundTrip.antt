-- ===== src/Peer/Transfer/RoundTrip.antt =====
-- An image that is uploaded arrives: what one side writes the other reads and stores.
use jpgsync.Common.{
  ℕ, ◌%◌, ◌^◌, ◌<◌, ◌≡◌, refl, ap, ◌∙◌, Bool, false, List, [], ◌∷◌, ◌++◌, append_assoc, some, arith,
  length, take_of_le, ◌==◌, All,
}
use jpgsync.ExifHash.{ExifHash}
use jpgsync.Host.{Host, network32, IsU32}
use jpgsync.Protocol.{Socket}
use jpgsync.Protocol.Stream.{Stream}
use jpgsync.Protocol.Messages.{
  Gives, read_byte_lem, read_exactly_lem, read_file_size_lem, write_byte_lem, write_exactly_lem,
  write_file_size_lem,
}
use jpgsync.Peer.Transfer.{
  Files, to_filename, c_string, reopen_end_in, destination, upload, download, upload_image,
  download_image, stored,
}

-- The bytes of an image on a sync connection.
abbrev pub message : List ℕ → List ℕ → List ℕ
message name content = length name ∷ (name ++ (network32 (length content) ++ content))

c_string_lem : (cs : List ℕ) → All (λ c. (c == 0) ≡ false) cs → c_string cs ≡ cs
unfolding c_string
c_string_lem [] h = refl
c_string_lem (c ∷ cs) (hc, hs) = rw (hc, c_string_lem cs hs)

in_pieces :
    (xs : List ℕ) (n : ℕ) (ys zs ws : List ℕ)
    → (((xs ++ n ∷ []) ++ ys) ++ zs) ++ ws ≡ xs ++ n ∷ (ys ++ (zs ++ ws))
in_pieces xs n ys zs ws =
    append_assoc ((xs ++ n ∷ []) ++ ys) zs ws
    ∙ append_assoc (xs ++ n ∷ []) ys (zs ++ ws)
    ∙ append_assoc xs (n ∷ []) (ys ++ (zs ++ ws))

in_front : (xs ys zs ws : List ℕ) → (xs ++ (ys ++ zs)) ++ ws ≡ xs ++ (ys ++ (zs ++ ws))
in_front xs ys zs ws = append_assoc xs (ys ++ zs) ws ∙ ap (◌++◌ xs) (append_assoc ys zs ws)

module _ {S : Type 0} {sock : Socket S} (stream : Stream sock) (host : Host) where
  open stream use {pending, sent}

  upload_lem :
      (fd : S) (content : List ℕ)
      → Gives stream (upload sock fd content) (λ fd'. fd') (pending fd) (sent fd ++ content)
  unfolding upload
  upload_lem fd content =
      let w = write_exactly_lem stream fd content in
      record { fd' = w.fd'; result = rw (w.result); left = w.left; wrote = w.wrote }

  download_lem :
      (fd : S) (content rest : List ℕ)
      → pending fd ≡ content ++ rest
      → Gives stream (download sock fd (length content)) (λ fd'. (content, fd')) rest (sent fd)
  unfolding download
  download_lem fd content rest e =
      let r = read_exactly_lem stream fd content rest e in
      record { fd' = r.fd'; result = rw (r.result); left = r.left; wrote = r.wrote }

  -- The uploader sends the name, the size and the contents of an image that is not empty and smaller
  -- than 2 ^ 32 bytes, under a name of 255 bytes at most.
  pub upload_image_lem :
      (files : Files) (path : List ℕ) (fd : S) (b : ℕ) (bs : List ℕ)
      → length (to_filename path) < 256
      → files path ≡ some (b ∷ bs)
      → IsU32 (length (b ∷ bs))
      → Gives stream
          (upload_image sock host files path fd)
          (λ fd'. fd')
          (pending fd)
          (sent fd ++ message (to_filename path) (b ∷ bs))
  unfolding upload_image reopen_end_in
  upload_image_lem files path fd b bs short f u =
      let name = to_filename path in
      let len : length name % 256 ≡ length name = omega arith in
      let size : length (b ∷ bs) % 2 ^ 32 ≡ length (b ∷ bs) = omega arith in
      let w1 = write_byte_lem stream fd (length name) in
      let w2 = write_exactly_lem stream w1.fd' name in
      let w3 = write_file_size_lem stream host w2.fd' (length (b ∷ bs)) in
      let w4 = upload_lem w3.fd' (b ∷ bs) in
      record {
        fd' = w4.fd';
        result = rw (
          len,
          w1.result,
          take_of_le (length name) name (omega arith),
          w2.result,
          f,
          w3.result,
          w4.result,
        );
        left = w4.left ∙ w3.left ∙ w2.left ∙ w1.left;
        wrote =
            w4.wrote
            ∙ rw (w3.wrote, w2.wrote, w1.wrote, len, size)
                (in_pieces (sent fd) (length name) name (network32 (length (b ∷ bs))) (b ∷ bs));
      }

  -- The downloader reads such an image, and stores it.
  pub download_image_lem :
      (writable : List ℕ → Bool) (dir : List ℕ) (hash : ExifHash) (files : Files) (fd : S)
      (name content rest : List ℕ)
      → All (λ c. (c == 0) ≡ false) name
      → IsU32 (length content)
      → pending fd ≡ message name content ++ rest
      → Gives stream
          (download_image sock host writable dir hash files fd)
          (λ fd'. (stored (destination writable dir name hash files) content, fd'))
          rest
          (sent fd)
  unfolding download_image
  download_image_lem writable dir hash files fd name content rest nz u e =
      let r1 = read_byte_lem stream fd (length name) _ e in
      let r2 =
        read_exactly_lem stream r1.fd' name (network32 (length content) ++ (content ++ rest))
          (r1.left ∙ in_front name (network32 (length content)) content rest) in
      let r3 = read_file_size_lem stream host r2.fd' (length content) (content ++ rest) u r2.left in
      let r4 = download_lem r3.fd' content rest r3.left in
      record {
        fd' = r4.fd';
        result = rw (r1.result, r2.result, r3.result, r4.result, c_string_lem name nz);
        left = r4.left;
        wrote = r4.wrote ∙ r3.wrote ∙ r2.wrote ∙ r1.wrote;
      }

  -- An image that is not empty and smaller than 2 ^ 32 bytes, under a name of 255 bytes at most with no
  -- byte 0, is sent by the uploader; and a downloader that reads what was sent stores its contents where
  -- `destination` says, and leaves what comes behind it.
  pub download_image-upload_image :
      (files : Files) (path : List ℕ) (a c : S) (b : ℕ) (bs : List ℕ) (writable : List ℕ → Bool)
      (dir : List ℕ) (hash : ExifHash) (files' : Files) (rest : List ℕ)
      → length (to_filename path) < 256
      → All (λ x. (x == 0) ≡ false) (to_filename path)
      → files path ≡ some (b ∷ bs)
      → IsU32 (length (b ∷ bs))
      → pending c ≡ message (to_filename path) (b ∷ bs) ++ rest
      → Gives stream
          (upload_image sock host files path a)
          (λ a'. a')
          (pending a)
          (sent a ++ message (to_filename path) (b ∷ bs))
        × Gives stream
            (download_image sock host writable dir hash files' c)
            (λ c'. (stored (destination writable dir (to_filename path) hash files') (b ∷ bs), c'))
            rest
            (sent c)
  download_image-upload_image files path a c b bs writable dir hash files' rest short nz f u e = (
    upload_image_lem files path a b bs short f u,
    download_image_lem writable dir hash files' c (to_filename path) (b ∷ bs) rest nz u e,
  )
