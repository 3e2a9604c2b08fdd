-- ===== src/Lib.antt =====
-- jpgsync synchronizes the images of two directories: two processes, a master and a slave, hash the EXIF
-- data of their images, tell each other the hashes, and send the images that the other side has not.
--
-- The program's parts, and the files that model them (with their children, which hold the proofs):
--   Common        lists, Boolean tests and bits, shared by all
--   Host          the byte order of the machine, a parameter (htonl and the others)
--   ExifHash      src/exif_hash.hpp, src/exif_hash.cpp: the five words of a hash
--   ExifHasher    src/exif_hasher.hpp, src/exif_hasher.cpp: the thread of `Run` and the calls of `Get`
--   HashExif      ExifHasher::HashExif of src/exif_hasher.cpp: a file's EXIF data and its digest
--   Protocol      src/protocol.hpp, src/protocol.cpp, src/util/syscall.hpp: messages over sockets
--   Closeable     src/util/closeable.hpp, src/util/fd.cpp: descriptors that are closed by their owner
--   Logger        src/util/logger.cpp
--   Dir           src/util/dir.cpp: the generator of the paths of a directory
--   Cli           src/jpgsync.cpp: `ExtractPort`, `JpgsyncOptions::Root::Init` and `InitDefaults`
--   Launcher      src/jpgsync.cpp: `Executor` and `main`, which start the two processes; Program is
--                 `main` as a whole, with what the option parser finds as a parameter
--   Tools         src/jpghash.cpp and src/jpgln.cpp
--   Peer          src/peer.cpp: Connect (the sync connections), Update (the hashes that are sent ahead),
--                 Progress (what the uploader knows of its hasher), Choice (which hashes it offers),
--                 Offer (the answers to an offer), Transfer (one image, with src/util/fstream_utils.hpp),
--                 Session (the connection of an uploader and a downloader, made of the latter three),
--                 Process (the hashing thread, the downloader and the uploader of a process, in any
--                 order of their steps), Sync (one direction of a sync, from the two directories to
--                 the files, for any such order in its child Threads, and
--                 both directions in its child Agreement)
--   Master        src/master.cpp: the side that listens
--   Slave         src/slave.cpp: the side that connects
-- The launcher runs a master and a slave in a shell each, with the option --local, and tells the slave
-- the port that the master prints. In such a process the hasher of `Peer::Sync` runs beside a downloader
-- and an uploader. The downloader takes the batches of the hasher, sends them as updates, and then
-- answers the offers of the other side's uploader; the uploader offers what the updates from the other
-- side have not brought.
--
-- State is passed on explicitly. Threads are step relations (ExifHasher.Steps, Peer.Progress,
-- Peer.Process, Peer.Update.Collecting, Tools) in which a step is the code between two points at which another thread
-- can see a change. How a call ends is a value of `Protocol.Outcome`: it returns, throws, or calls
-- Logger::Fatal; `stuck` is the end of a loop's fuel. The loop of ReadFully and WriteFully over n bytes
-- has fuel n + 1, since every round but the last moves a byte; the loop of the uploader over n entries
-- has n + 1 rounds, since each processes an entry, and those of `offers_in_rounds` are as many as counts
-- are loaded; the generator of n directory entries is called n + 1 times at most; a downloader that is
-- made n offers has n + 1 rounds, since each but the last reads one, and for a peer that sends n bytes of
-- whatever kind n + 1 rounds are enough; a number below 2 ^ 16 has five
-- digits. That these are enough is part of the theorems. Strings and buffers are lists of numbers, and
-- pointers into them are indices. Integers are natural numbers, with `% 2 ^ w` where the source's width
-- matters.
--
-- Parameters: the kernel's calls on sockets (`Protocol.Socket`, `Master.Kernel`, `Slave.Kernel`), the
-- byte order, readdir, Exiv2 and SHA1 (`HashExif.Tools`), the shell (`Launcher.Main.Shell`), link(2); in
-- ExifHasher the result of HashExif is one. Assumptions on them are records of laws
-- (`Protocol.Stream.Stream`, `Protocol.Ending.Finite`, `Host.Host`, `Master.Listening.Binds`, `Master.Accepting.Accepts`), each
-- with an instance that meets it.
--
-- Not modelled: the option parser and the string utilities (src/util/program_options.hpp,
-- src/util/string_utils.hpp), which are another project's; debug output (src/debug.hpp); the text of
-- most messages for the user; what becomes of a failing popen or dup; tests, scripts and results.
pub mod Common
pub mod Host
pub mod ExifHash
pub mod ExifHasher
pub mod HashExif
pub mod Protocol
pub mod Closeable
pub mod Logger
pub mod Dir
pub mod Cli
pub mod Launcher
pub mod Tools
pub mod Peer
pub mod Master
pub mod Slave
