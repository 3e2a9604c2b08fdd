-- ===== src/Protocol/Choppy.antt =====
-- A stream socket that moves two bytes a read and three a write at most: the assumptions on sockets can
-- be met, and tests run on it.
use jpgsync.Common.{ℕ, min, refl, List, ◌++◌, some, arith, length, take, drop}
use jpgsync.Protocol.{Socket}
use jpgsync.Protocol.Stream.{Stream, Reads, Writes}

pub record Wire : Type 0 where
  pub input : List ℕ
  pub output : List ℕ

-- `min count 2`, and not more than there is
abbrev pub some_of : ℕ → List ℕ → ℕ
some_of limit bytes = min limit (length bytes)

abbrev pub choppy : Socket Wire
choppy = record {
  read = λ fd count.
      let n = some_of (min count 2) fd.input in
      some (take n fd.input, record fd { input = drop n fd.input });
  write = λ fd bytes.
      let n = some_of 3 bytes in some (n, record fd { output = fd.output ++ take n bytes });
}

pub choppy_reads : (fd : Wire) (count : ℕ) → Reads choppy (λ w. w.input) fd count
choppy_reads fd count = record {
  got = some_of (min count 2) fd.input;
  next = record fd { input = drop (some_of (min count 2) fd.input) fd.input };
  result = refl;
  got-le = omega arith;
  got_some = omega arith;
  rest = refl;
}

pub choppy_writes : (fd : Wire) (bytes : List ℕ) → Writes choppy (λ w. w.output) fd bytes
choppy_writes fd bytes = record {
  put = some_of 3 bytes;
  next = record fd { output = fd.output ++ take (some_of 3 bytes) bytes };
  result = refl;
  put-le = omega arith;
  put_some = omega arith;
  sent_more = refl;
}

unfoldable pub choppy_stream : Stream choppy
unfolding choppy_reads choppy_writes
choppy_stream = record {
  pending = λ w. w.input;
  sent = λ w. w.output;
  reads = choppy_reads;
  writes = choppy_writes;
  reads_sent = λ fd count. refl;
  writes_pending = λ fd bytes. refl;
}
