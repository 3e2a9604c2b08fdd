-- ===== src/Peer/Transfer.antt =====
-- How one image is sent (src/peer.cpp, the loops of the uploader and of the downloader over the missing
-- hashes, Peer::Upload, Peer::Download, ToFilename and ToPath, with src/util/fstream_utils.hpp).
--
-- The files are a function from paths to contents. A file that cannot be opened for writing is one that
-- `writable` does not accept. What goes to /dev/null is lost.
pub mod RoundTrip
pub mod Storing
mod Runs
use jpgsync.Common.{
  same, ℕ, zero, suc, ◌+◌, ◌%◌, Bool, true, false, ◌&&◌, List, [], ◌∷◌, ◌++◌, Option, none, some,
  length, take, drop, ◌==◌, if◌then◌else◌,
}
use jpgsync.Cli.{rfind}
use jpgsync.ExifHash.{ExifHash, show}
use jpgsync.Host.{Host}
use jpgsync.Protocol.{
  Socket, Outcome, returned, threw, fatal, stuck, ◌>>=◌, read_byte, read_exactly, read_file_size,
  write_byte, write_exactly, write_file_size,
}

-- `ToFilename`
unfoldable pub to_filename : List ℕ → List ℕ
to_filename path = elim (rfind b'/' path) [ none ↦ path | some pos ↦ drop (pos + 1) path ]

-- `ToPath`
abbrev pub to_path : List ℕ → List ℕ → List ℕ
to_path dir filename = dir ++ b'/' ∷ filename

-- The C string that begins a buffer.
unfoldable pub c_string : List ℕ → List ℕ
c_string [] = []
c_string (c ∷ cs) = let rest = c_string cs in if c == 0 then [] else c ∷ rest

abbrev pub Files : Type 0
Files = List ℕ → Option (List ℕ)

unfoldable pub put : List ℕ → List ℕ → Files → Files
put path content files q = if same path q then some content else files q

-- `ReopenEnd` of an ofstream: the file is created where it is missing, and has to be empty.
unfoldable pub reopen_end_out : (List ℕ → Bool) → List ℕ → Files → Bool × Files
unfolding put
reopen_end_out writable path files =
    let opened : Bool × Files = elim (files path) [
      | none ↦ (true, put path [] files)
      | some [] ↦ (true, files)
      | some (b ∷ bs) ↦ (false, files)
    ] in
    if writable path then opened else (false, files)

-- `ReopenEnd` of an ifstream: the file has to be there, and not empty.
unfoldable pub reopen_end_in : List ℕ → Files → Option (List ℕ)
reopen_end_in path files = elim (files path) [
  | none ↦ none
  | some [] ↦ none
  | some (b ∷ bs) ↦ some (b ∷ bs)
]

-- The file that the downloader writes to; `none` is /dev/null.
unfoldable pub destination :
    (List ℕ → Bool) → List ℕ → List ℕ → ExifHash → Files → Option (List ℕ) × Files
unfolding reopen_end_out
destination writable dir filename hash files =
    let path = to_path dir filename in
    let by_hash = path ++ b'-' ∷ show hash in
    let (ok, files1) = reopen_end_out writable path files in
    let (ok', files2) = reopen_end_out writable by_hash files1 in
    if ok then (some path, files1) else if ok' then (some by_hash, files2) else (none, files2)

-- The files when `ofs` has written the contents there.
unfoldable pub stored : Option (List ℕ) × Files → List ℕ → Files
unfolding put
stored (none, files) content = files
stored (some path, files) content = put path content files

-- `catch (const std::exception& e)` around a transfer.
abbrev pub or_fatal {ℓ} : {A : Type ℓ} → Outcome A → Outcome A
or_fatal (returned a) = returned a
or_fatal threw = fatal
or_fatal fatal = fatal
or_fatal stuck = stuck

module _ {S : Type 0} (sock : Socket S) where
  -- A call that has to answer true.
  abbrev pub ensure : {A : Type 0} → Bool → Outcome A → Outcome A
  ensure ok next = if ok then next else fatal

  -- `Peer::Upload`
  unfoldable pub upload : S → List ℕ → Outcome S
  upload fd content = do
    (ok, fd') ← write_exactly sock fd content
    if ok then returned fd' else threw

  -- `Peer::Download`, with the bytes that it writes to the file.
  unfoldable pub download : S → ℕ → Outcome (List ℕ × S)
  download fd file_size = do
    (ok, bytes, fd') ← read_exactly sock fd file_size
    if ok then returned (bytes, fd') else threw

  -- One image in the loop of the uploader.
  unfoldable pub upload_image : Host → Files → List ℕ → S → Outcome S
  upload_image host files path fd = do
    let filename_len = length (to_filename path) % 256
    (ok, fd1) ← write_byte sock fd filename_len
    (ok', fd2) ← ensure ok (write_exactly sock fd1 (take filename_len (to_filename path)))
    content ← ensure ok' (elim (reopen_end_in path files) as (λ _. Outcome (List ℕ)) [
      | none ↦ fatal
      | some content ↦ returned content
    ])
    (ok'', fd3) ← write_file_size sock host fd2 (length content)
    ensure ok'' (or_fatal (upload fd3 content))

  -- One image in the loop of the downloader.
  unfoldable pub download_image :
      Host → (List ℕ → Bool) → List ℕ → ExifHash → Files → S → Outcome (Files × S)
  download_image host writable dir hash files fd = do
    (len, fd1) ← read_byte sock fd
    filename_len ← elim len as (λ _. Outcome ℕ) [ none ↦ fatal | some n ↦ returned n ]
    (ok, filename, fd2) ← read_exactly sock fd1 filename_len
    (ok', file_size, fd3) ← ensure ok (read_file_size sock host fd2)
    (content, fd4) ← ensure ok' (or_fatal (download fd3 file_size))
    returned (stored (destination writable dir (c_string filename) hash files) content, fd4)
