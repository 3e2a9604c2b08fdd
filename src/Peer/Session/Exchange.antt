-- ===== src/Peer/Session/Exchange.antt =====
-- What the two ends of a sync connection write, and that each reads what the other wrote.
use jpgsync.Common.{
  ℕ, ◌<◌, ◌≡◌, refl, sym, ◌∙◌, Bool, false, List, [], ◌∷◌, ◌++◌, append_assoc, append-nil, Option,
  none, some, length, All, ◌==◌, map,
}
use jpgsync.ExifHasher.{Entry}
use jpgsync.Host.{Host, IsU32}
use jpgsync.Protocol.{Socket}
use jpgsync.Protocol.Stream.{Stream}
use jpgsync.Protocol.Messages.{Gives}
use jpgsync.Peer.Transfer.{Files, to_filename, destination, stored}
use jpgsync.Peer.Transfer.RoundTrip.{message, upload_image_lem, download_image_lem}
use jpgsync.Peer.Session.{upload_images, download_images}

-- An image that a message can carry: its file is there, not empty and smaller than 2 ^ 32 bytes, and
-- its name has 255 bytes at most and no byte 0.
pub record IsUploadable (sources : Files) (e : Entry) : Type 0 where
  pub first : ℕ
  pub others : List ℕ
  pub holds : sources e.path ≡ some (first ∷ others)
  pub fits : IsU32 (length (first ∷ others))
  pub short : length (to_filename e.path) < 256
  pub no_nul : All (λ c. (c == 0) ≡ false) (to_filename e.path)

abbrev pub contents : Option (List ℕ) → List ℕ
contents none = []
contents (some bytes) = bytes

-- The messages of some images.
unfoldable pub images_bytes : Files → List Entry → List ℕ
images_bytes sources [] = []
images_bytes sources (e ∷ es) =
    message (to_filename e.path) (contents (sources e.path)) ++ images_bytes sources es

-- The files of the downloader when they have arrived.
unfoldable pub arrive : (List ℕ → Bool) → List ℕ → Files → List Entry → Files → Files
arrive writable dir sources [] files = files
arrive writable dir sources (e ∷ es) files = arrive writable dir sources es (
    stored (destination writable dir (to_filename e.path) e.hash files) (contents (sources e.path)))

pub arrive-append :
    (writable : List ℕ → Bool) (dir : List ℕ) (sources : Files) (xs ys : List Entry) (files : Files)
    → arrive writable dir sources (xs ++ ys) files
      ≡ arrive writable dir sources ys (arrive writable dir sources xs files)
unfolding arrive
arrive-append writable dir sources [] ys files = refl
arrive-append writable dir sources (x ∷ xs) ys files = arrive-append writable dir sources xs ys _

module _ {S : Type 0} {sock : Socket S} (stream : Stream sock) (host : Host) (sources : Files) where
  open stream use {pending, sent}

  pub upload_images_lem :
      (es : List Entry) (fd : S)
      → All (IsUploadable sources) es
      → Gives stream
          (upload_images sock host sources es fd)
          (λ fd'. fd')
          (pending fd)
          (sent fd ++ images_bytes sources es)
  unfolding upload_images images_bytes
  upload_images_lem [] fd ok = record {
    fd' = fd;
    result = refl;
    left = refl;
    wrote = sym (append-nil (sent fd));
  }
  upload_images_lem (e ∷ es) fd (ok, oks) =
      let one =
        upload_image_lem stream host sources e.path fd ok.first ok.others ok.short ok.holds
          ok.fits in
      let more = upload_images_lem es one.fd' oks in
      record {
        fd' = more.fd';
        result = rw one.result more.result;
        left = more.left ∙ one.left;
        wrote =
            more.wrote
            ∙ rw (one.wrote, ok.holds)
                (append_assoc (sent fd) (message (to_filename e.path) (ok.first ∷ ok.others))
                  (images_bytes sources es));
      }

  module _ (writable : List ℕ → Bool) (dir : List ℕ) where
    pub download_images_lem :
        (es : List Entry) (files : Files) (fd : S) (rest : List ℕ)
        → All (IsUploadable sources) es
        → pending fd ≡ images_bytes sources es ++ rest
        → Gives stream
            (download_images sock host writable dir (map (λ e. e.hash) es) files fd)
            (λ fd'. (arrive writable dir sources es files, fd'))
            rest
            (sent fd)
    unfolding download_images images_bytes arrive
    download_images_lem [] files fd rest ok p = record {
      fd' = fd;
      result = refl;
      left = p;
      wrote = refl;
    }
    download_images_lem (e ∷ es) files fd rest (ok, oks) p =
        let content = ok.first ∷ ok.others in
        let name = to_filename e.path in
        let after = images_bytes sources es ++ rest in
        let coming : pending fd ≡ message name content ++ after =
          p ∙ rw ok.holds (append_assoc (message name content) (images_bytes sources es) rest) in
        let one =
          download_image_lem stream host writable dir e.hash files fd name content after ok.no_nul
            ok.fits coming in
        let more =
          download_images_lem es (stored (destination writable dir name e.hash files) content)
            one.fd' rest oks one.left in
        record {
          fd' = more.fd';
          result = rw (one.result, ok.holds) more.result;
          left = more.left;
          wrote = more.wrote ∙ one.wrote;
        }
