-- ===== src/Protocol/Messages.antt =====
-- The messages of src/protocol.hpp over stream sockets: what one end writes the other end reads.
use jpgsync.Common.{
  ℕ, ◌%◌, ◌^◌, ◌≡◌, refl, ap, ◌∙◌, true, List, [], ◌∷◌, ◌++◌, none, some, arith, length, take, drop,
  take-append_left, drop-append_left, ==_iff, ◌==◌, leb, length-take,
}
use jpgsync.Host.{Host, network32, IsU32}
use jpgsync.Protocol.{
  Socket, Outcome, returned, read_exactly, write_exactly, read_byte, write_byte, read_file_size,
  write_file_size,
}
use jpgsync.Protocol.Stream.{Stream, read_fully_lem}
use jpgsync.Protocol.Writing.{write_fully_lem}

eq_self : (n : ℕ) → (n == n) ≡ true
eq_self n = (==_iff n n).1 refl

all_taken : (n : ℕ) (xs : List ℕ) → (length (take n xs) == n) ≡ leb n (length xs)
all_taken n xs = ground (arith, length-take n xs)

module _ {S : Type 0} {sock : Socket S} (stream : Stream sock) where
  open stream use {pending, sent, reads, writes, reads_sent, writes_pending}

  -- A call returns a value, and leaves this to be read and that as written.
  pub record Gives {R : Type 0} (r : Outcome R) (value : S → R) (rest out : List ℕ) : Type 0 where
    pub fd' : S
    pub result : r ≡ returned (value fd')
    pub left : pending fd' ≡ rest
    pub wrote : sent fd' ≡ out

  -- Of a message that is to be read `ReadExactly` reads exactly that.
  pub read_exactly_lem :
      (fd : S) (bytes rest : List ℕ)
      → pending fd ≡ bytes ++ rest
      → Gives (read_exactly sock fd (length bytes)) (λ fd'. (true, bytes, fd')) rest (sent fd)
  unfolding read_exactly
  read_exactly_lem fd bytes rest e =
      let r = read_fully_lem stream fd (length bytes) in
      let all : take (length bytes) (pending fd) ≡ bytes =
        rw e (take-append_left (length bytes) bytes rest refl) in
      record {
        fd' = r.fd';
        result = rw (r.result, all, eq_self (length bytes));
        left = r.rest ∙ rw e (drop-append_left (length bytes) bytes rest refl);
        wrote = r.same;
      }

  -- `ReadExactly` ends on every stream; it answers true exactly if so many bytes come before the end
  -- of the stream, and has read what comes.
  pub read_exactly_ends :
      (fd : S) (count : ℕ)
      → Gives
          (read_exactly sock fd count)
          (λ fd'. (leb count (length (pending fd)), take count (pending fd), fd'))
          (drop count (pending fd))
          (sent fd)
  unfolding read_exactly
  read_exactly_ends fd count =
      let r = read_fully_lem stream fd count in
      record {
        fd' = r.fd';
        result = rw (r.result, all_taken count (pending fd));
        left = r.rest;
        wrote = r.same;
      }

  pub write_exactly_lem :
      (fd : S) (bytes : List ℕ)
      → Gives (write_exactly sock fd bytes) (λ fd'. (true, fd')) (pending fd) (sent fd ++ bytes)
  unfolding write_exactly
  write_exactly_lem fd bytes =
      let w = write_fully_lem stream fd bytes in
      record {
        fd' = w.fd';
        result = rw (w.result, eq_self (length bytes));
        left = w.same;
        wrote = w.sent_all;
      }

  pub read_byte_lem :
      (fd : S) (b : ℕ) (rest : List ℕ)
      → pending fd ≡ b ∷ rest
      → Gives (read_byte sock fd) (λ fd'. (some b, fd')) rest (sent fd)
  unfolding read_byte
  read_byte_lem fd b rest e =
      let r = reads fd 1 in
      let one : r.got ≡ 1 = omega (arith, r.got_some, r.got-le, ap length e) in
      record {
        fd' = r.next;
        result = rw (r.result, e, one);
        left = r.rest ∙ rw (e, one);
        wrote = reads_sent fd 1;
      }

  -- At the end of the stream `ReadByte` answers false.
  pub read_byte_end :
      (fd : S) → pending fd ≡ [] → Gives (read_byte sock fd) (λ fd'. (none, fd')) [] (sent fd)
  unfolding read_byte
  read_byte_end fd e =
      let r = reads fd 1 in
      let none_got : r.got ≡ 0 = omega (arith, r.got-le, ap length e) in
      record {
        fd' = r.next;
        result = rw (r.result, e, none_got);
        left = r.rest ∙ rw (e, none_got);
        wrote = reads_sent fd 1;
      }

  pub write_byte_lem :
      (fd : S) (n : ℕ)
      → Gives (write_byte sock fd n) (λ fd'. (true, fd')) (pending fd) (sent fd ++ n % 256 ∷ [])
  unfolding write_byte
  write_byte_lem fd n =
      let w = writes fd (n % 256 ∷ []) in
      let one : w.put ≡ 1 = omega (arith, w.put_some, w.put-le) in
      record {
        fd' = w.next;
        result = rw (w.result, one);
        left = writes_pending fd (n % 256 ∷ []);
        wrote = w.sent_more ∙ rw one;
      }

  module _ (host : Host) where
    pub write_file_size_lem :
        (fd : S) (n : ℕ)
        → Gives
            (write_file_size sock host fd n)
            (λ fd'. (true, fd'))
            (pending fd)
            (sent fd ++ network32 (n % 2 ^ 32))
    unfolding write_file_size
    write_file_size_lem fd n =
        let w = write_exactly_lem fd (host.store32 (host.htonl (n % 2 ^ 32))) in
        record {
          fd' = w.fd';
          result = w.result;
          left = w.left;
          wrote = w.wrote ∙ rw (host.store32-htonl (n % 2 ^ 32) (omega arith));
        }

    pub read_file_size_lem :
        (fd : S) (n : ℕ) (rest : List ℕ)
        → IsU32 n
        → pending fd ≡ network32 n ++ rest
        → Gives (read_file_size sock host fd) (λ fd'. (true, n, fd')) rest (sent fd)
    unfolding read_file_size
    read_file_size_lem fd n rest h e =
        let r = read_exactly_lem fd (network32 n) rest e in
        record {
          fd' = r.fd';
          result = rw (r.result, host.ntohl-load32 n h);
          left = r.left;
          wrote = r.wrote;
        }

    -- Writing a file size sends the four bytes of its value modulo 2 ^ 32, and reading from a stream
    -- on which these bytes come gives that value.
    pub file_size_arrives :
        (a b : S) (n : ℕ) (rest : List ℕ)
        → pending b ≡ network32 (n % 2 ^ 32) ++ rest
        → Gives
            (write_file_size sock host a n)
            (λ a'. (true, a'))
            (pending a)
            (sent a ++ network32 (n % 2 ^ 32))
          × Gives (read_file_size sock host b) (λ b'. (true, n % 2 ^ 32, b')) rest (sent b)
    file_size_arrives a b n rest e =
        (write_file_size_lem a n, read_file_size_lem b (n % 2 ^ 32) rest (omega arith) e)
