-- ===== src/Peer/Session/Runs.antt =====
-- The downloader of a sync connection with a peer that sends an image under the name of a file that is there.
use jpgsync.Common.{
  ℕ, ◌+◌, ◌≤◌, min, ◌≡◌, refl, Bool, true, false, List, [], ◌∷◌, ◌++◌, Option, none, some, arith,
  length, length-take, length-drop, same, if◌then◌else◌,
}
use mathlib.Core.Path.{subst}
use jpgsync.ExifHash.{ExifHash, show}
use jpgsync.Host.{little_endian}
use jpgsync.Protocol.{Outcome, returned, threw, fatal, stuck}
use jpgsync.Protocol.Choppy.{Wire, choppy, some_of}
use jpgsync.Protocol.Ending.{Ends, Finite}
use jpgsync.Peer.Transfer.{Files}
use jpgsync.Peer.Session.{download_all}
use jpgsync.Peer.Session.Keeping.{download_all_keeps}

abbrev ReadLeft : Wire → ℕ → Option (List ℕ × Wire) → Type 0
ReadLeft fd count none = Unit
ReadLeft fd count (some (bytes, fd')) =
    (length bytes ≤ count) × (length bytes + length fd'.input ≤ length fd.input)

abbrev WriteLeft : Wire → List ℕ → Option (ℕ × Wire) → Type 0
WriteLeft fd bytes none = Unit
WriteLeft fd bytes (some (n, fd')) = (n ≤ length bytes) × (length fd'.input ≤ length fd.input)

choppy_finite : Finite choppy
choppy_finite = record {
  left = λ fd. length fd.input;
  read_left = λ fd fd' count bytes e.
      let n = some_of (min count 2) fd.input in
      subst (ReadLeft fd count) e (
        omega (arith, length-take n fd.input),
        omega (arith, length-take n fd.input, length-drop n fd.input),
      );
  write_left = λ fd fd' n bytes e. subst (WriteLeft fd bytes) e (omega arith, omega arith);
}

abbrev everywhere : List ℕ → Bool
everywhere path = true

-- An offer of one hash, an image of the name "a" with the contents 7, and the end of the stream.
abbrev wire : Wire
wire = record {
  input =
      1 ∷ 0 ∷ 0 ∷ 0 ∷ 0 ∷ 0 ∷ 0 ∷ 0 ∷ 0 ∷ 0 ∷ 0 ∷ 0 ∷ 0 ∷ 0 ∷ 0 ∷ 0 ∷ 0 ∷ 0 ∷ 0 ∷ 0 ∷ 9 ∷ 1 ∷ b'a'
      ∷ 0 ∷ 0 ∷ 0 ∷ 1 ∷ 7 ∷ [];
  output = [];
}

-- The file "a" of the directory "d".
abbrev a_file : List ℕ
a_file = b'd' ∷ b'/' ∷ b'a' ∷ []

abbrev nothing_yet : ExifHash → Bool
nothing_yet hash = false

abbrev contents_at : List ℕ → Outcome (Files × Wire) → Option (List ℕ)
contents_at path (returned (files, fd)) = files path
contents_at path o = none

abbrev nothing_but : List ℕ → Files
nothing_but path q = if same path q then some (3 ∷ []) else none

-- The image is stored under its hash.
stored_by_hash :
    contents_at
      (a_file ++ b'-' ∷ show (record { word0 = 0; word1 = 0; word2 = 0; word3 = 0; word4 = 9 }))
      (download_all choppy little_endian everywhere
        (b'd' ∷ [])
        nothing_yet
        0
        29
        (nothing_but a_file)
        wire)
    ≡ some (7 ∷ [])
unfolding jpgsync.Peer.Session.download_all jpgsync.Peer.Session.serve_offers
    jpgsync.Peer.Session.serve_offer jpgsync.Peer.Session.download_images
    jpgsync.Peer.Transfer.download_image jpgsync.Peer.Transfer.download jpgsync.Peer.Transfer.stored
    jpgsync.Peer.Transfer.destination jpgsync.Peer.Transfer.reopen_end_out jpgsync.Peer.Transfer.put
    jpgsync.Peer.Transfer.c_string jpgsync.Protocol.write_byte jpgsync.Protocol.read_byte
    jpgsync.Protocol.read_exactly jpgsync.Protocol.read_fully jpgsync.Protocol.read_loop
    jpgsync.Protocol.write_exactly jpgsync.Protocol.write_fully jpgsync.Protocol.write_loop
    jpgsync.Protocol.read_file_size jpgsync.Peer.Offer.answer_offer jpgsync.Peer.Offer.answer_hash
    jpgsync.Peer.Offer.no_answer jpgsync.Peer.Offer.confirmation jpgsync.ExifHash.exif_hash
    jpgsync.ExifHash.bytes_to_word32 jpgsync.ExifHash.show_word little_endian show
stored_by_hash = refl

download_all_keeps_example :
    Ends
      (λ r. r.0 a_file ≡ some (3 ∷ []))
      (download_all choppy little_endian everywhere
        (b'd' ∷ [])
        nothing_yet
        0
        29
        (nothing_but a_file)
        wire)
unfolding choppy_finite
download_all_keeps_example =
    download_all_keeps choppy_finite little_endian everywhere (b'd' ∷ []) a_file 3 [] nothing_yet 0
      29 (nothing_but a_file) wire (omega arith) refl
