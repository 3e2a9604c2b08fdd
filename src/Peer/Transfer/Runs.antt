-- ===== src/Peer/Transfer/Runs.antt =====
-- Tests of the transfer of an image, and its theorems at concrete files.
use jpgsync.Common.{ℕ, ◌≡◌, refl, true, List, [], ◌∷◌, none, some, arith}
use jpgsync.Cli.{rfind}
use jpgsync.ExifHash.{ExifHash}
use jpgsync.Host.{little_endian}
use jpgsync.Protocol.Messages.{Gives}
use jpgsync.Protocol.Choppy.{choppy, choppy_stream}
use jpgsync.Peer.Transfer.{
  Files, to_filename, upload_image, download_image, destination, stored, to_path,
}
use jpgsync.Peer.Transfer.Storing.{stored-destination}
use jpgsync.Peer.Transfer.RoundTrip.{download_image-upload_image}

abbrev a_hash : ExifHash
a_hash = record { word0 = 1; word1 = 2; word2 = 3; word3 = 4; word4 = 5 }

abbrev path : List ℕ
path = b'u' ∷ b'/' ∷ b'a' ∷ []

abbrev uploaded : Files
uploaded q = some (7 ∷ 8 ∷ 9 ∷ [])

abbrev nothing : Files
nothing q = none

abbrev downloads : List ℕ
downloads = b'd' ∷ []

stored-destination_example :
    stored
      (destination (λ q. true) downloads (b'a' ∷ []) a_hash uploaded)
      (1 ∷ [])
      (to_path downloads (b'a' ∷ []))
    ≡ some (7 ∷ 8 ∷ 9 ∷ [])
stored-destination_example =
    stored-destination (λ q. true) downloads (b'a' ∷ []) a_hash uploaded (1 ∷ [])
      (to_path downloads (b'a' ∷ [])) 7 (8 ∷ 9 ∷ []) refl

download_image-upload_image_example :
    Gives choppy_stream
      (upload_image choppy little_endian uploaded path (record { input = []; output = [] }))
      (λ a'. a')
      []
      (1 ∷ b'a' ∷ 0 ∷ 0 ∷ 0 ∷ 3 ∷ 7 ∷ 8 ∷ 9 ∷ [])
    × Gives choppy_stream
        (download_image choppy little_endian
          (λ q. true)
          downloads
          a_hash
          nothing
          (record { input = 1 ∷ b'a' ∷ 0 ∷ 0 ∷ 0 ∷ 3 ∷ 7 ∷ 8 ∷ 9 ∷ 5 ∷ []; output = [] }))
        (λ c'. (
          stored (destination (λ q. true) downloads (b'a' ∷ []) a_hash nothing) (7 ∷ 8 ∷ 9 ∷ []),
          c',
        ))
        (5 ∷ [])
        []
unfolding choppy_stream to_filename rfind
download_image-upload_image_example =
    download_image-upload_image choppy_stream little_endian uploaded path
      (record { input = []; output = [] })
      (record { input = 1 ∷ b'a' ∷ 0 ∷ 0 ∷ 0 ∷ 3 ∷ 7 ∷ 8 ∷ 9 ∷ 5 ∷ []; output = [] }) 7 (8 ∷ 9 ∷ [])
      (λ q. true) downloads a_hash nothing (5 ∷ []) (omega arith) (refl, tt) refl (omega arith) refl
