-- ===== src/Protocol/Stream.antt =====
-- Over a stream socket that does not fail, a read gives the next bytes and a write sends all bytes, in
-- whatever pieces the kernel moves them.
use jpgsync.Common.{
  ℕ, zero, suc, ◌+◌, ◌-◌, ◌≤◌, ◌<◌, min, ◌≡◌, refl, sym, ap, ◌∙◌, inl, inr, true, false, List, [],
  ◌∷◌, ◌++◌, append_assoc, append-nil, some, arith, length, length-append, length-take, take, drop,
  take-add, drop-add, ==_iff, ◌==◌, Bool-cases, if◌then◌else◌, dec_lt, zero-add,
}
use jpgsync.Protocol.{Socket, returned, read_loop, read_fully}

-- What one call of read(2) did: it took `n` of the bytes that the other end has sent or will send, and
-- none only if none were wanted or the stream has ended.
pub record Reads {S : Type 0} (sock : Socket S) (pending : S → List ℕ) (fd : S) (count : ℕ)
    : Type 0 where
  pub got : ℕ
  pub next : S
  pub result : sock.read fd count ≡ some (take got (pending fd), next)
  pub got-le : got ≤ min count (length (pending fd))
  pub got_some : 0 < count → 0 < length (pending fd) → 0 < got
  pub rest : pending next ≡ drop got (pending fd)

pub record Writes {S : Type 0} (sock : Socket S) (sent : S → List ℕ) (fd : S) (bytes : List ℕ)
    : Type 0 where
  pub put : ℕ
  pub next : S
  pub result : sock.write fd bytes ≡ some (put, next)
  pub put-le : put ≤ length bytes
  pub put_some : 0 < length bytes → 0 < put
  pub sent_more : sent next ≡ sent fd ++ take put bytes

-- A blocking stream socket on which no call fails. `pending` is what is still to be read up to the end
-- of the stream, and `sent` what was written.
pub record Stream {S : Type 0} (sock : Socket S) : Type 0 where
  pub pending : S → List ℕ
  pub sent : S → List ℕ
  pub reads : (fd : S) (count : ℕ) → Reads sock pending fd count
  pub writes : (fd : S) (bytes : List ℕ) → Writes sock sent fd bytes
  -- the two directions do not touch one another
  pub reads_sent : (fd : S) (count : ℕ) → sent (reads fd count).next ≡ sent fd
  pub writes_pending : (fd : S) (bytes : List ℕ) → pending (writes fd bytes).next ≡ pending fd

take_none :
    (n : ℕ) (xs : List ℕ) → (0 < n → 0 < length xs → ⊥) → (take n xs ≡ []) × (drop n xs ≡ xs)
take_none zero xs h = (refl, refl)
take_none (suc n) [] h = (refl, refl)
take_none (suc n) (x ∷ xs) h = absurd (h (omega arith) (omega arith))

module _ {S : Type 0} {sock : Socket S} (stream : Stream sock) where
  open stream use {pending, sent, reads, writes, reads_sent, writes_pending}

  read_loop_end :
      (fuel : ℕ) (fd fd' : S) (bytes : List ℕ) (count : ℕ)
      → sock.read fd (count - length bytes) ≡ some ([], fd')
      → read_loop sock (suc fuel) fd bytes count ≡ returned (bytes, fd')
  unfolding read_loop
  read_loop_end fuel fd fd' bytes count e = rw (e, read_loop)

  read_loop_more :
      (fuel : ℕ) (fd fd' : S) (bytes bs : List ℕ) (count : ℕ)
      → sock.read fd (count - length bytes) ≡ some (bs, fd')
      → 0 < length bs
      → read_loop sock (suc fuel) fd bytes count ≡ (
          if length (bytes ++ bs) == count
          then returned (bytes ++ bs, fd')
          else read_loop sock fuel fd' (bytes ++ bs) count)
  unfolding read_loop
  read_loop_more fuel fd fd' bytes [] count e h = absurd (omega arith)
  read_loop_more fuel fd fd' bytes (b ∷ bs) count e h = rw (e, read_loop)

  -- The result of a loop that wants `more` bytes behind those that it has read.
  record Loop (fuel : ℕ) (fd : S) (bytes : List ℕ) (more : ℕ) : Type 0 where
    fd' : S
    result :
        read_loop sock fuel fd bytes (length bytes + more)
        ≡ returned (bytes ++ take more (pending fd), fd')
    rest : pending fd' ≡ drop more (pending fd)
    same : sent fd' ≡ sent fd

  module _ (fuel : ℕ) (fd : S) (bytes : List ℕ) (more : ℕ) (r : Reads sock pending fd more)
      (same : sent r.next ≡ sent fd) where
    wanted : length bytes + more - length bytes ≡ more
    wanted = omega arith

    got_length : length (take r.got (pending fd)) ≡ r.got
    got_length = omega (arith, length-take r.got (pending fd), r.got-le)

    round_end : r.got ≡ 0 → Loop (suc fuel) fd bytes more
    round_end z =
        let (none_left, all_left) =
          take_none more (pending fd) (λ a b. omega (arith, r.got_some a b)) in
        record {
          fd' = r.next;
          result =
              rw (none_left, append-nil bytes)
                (read_loop_end fuel fd r.next bytes (length bytes + more)
                  (rw wanted (r.result ∙ rw z)));
          rest = rw all_left (r.rest ∙ rw z);
          same = same;
        }

    round_step :
        0 < r.got
        → read_loop sock (suc fuel) fd bytes (length bytes + more) ≡ (
            if length (bytes ++ take r.got (pending fd)) == length bytes + more
            then returned (bytes ++ take r.got (pending fd), r.next)
            else read_loop sock fuel r.next
                (bytes ++ take r.got (pending fd))
                (length bytes + more))
    round_step h =
        read_loop_more fuel fd r.next bytes (take r.got (pending fd)) (length bytes + more)
          (rw wanted r.result) (omega (arith, got_length))

    round_last :
        0 < r.got
        → (length (bytes ++ take r.got (pending fd)) == length bytes + more) ≡ true
        → Loop (suc fuel) fd bytes more
    round_last h e =
        let full : r.got ≡ more =
          omega
            (arith, (==_iff _ _).0 e, length-append bytes (take r.got (pending fd)), got_length) in
        record {
          fd' = r.next;
          result = round_step h ∙ rw e (rw full);
          rest = r.rest ∙ rw full;
          same = same;
        }

    left : length (bytes ++ take r.got (pending fd)) + (more - r.got) ≡ length bytes + more
    left = omega (arith, length-append bytes (take r.got (pending fd)), got_length, r.got-le)

    round_more :
        0 < r.got
        → (length (bytes ++ take r.got (pending fd)) == length bytes + more) ≡ false
        → Loop fuel r.next (bytes ++ take r.got (pending fd)) (more - r.got)
        → Loop (suc fuel) fd bytes more
    round_more h e l =
        let sum : r.got + (more - r.got) ≡ more = omega (arith, r.got-le) in
        record {
          fd' = l.fd';
          result =
              round_step h
              ∙ rw e (
                  rw left at l.result
                  ∙ ap (λ bs. returned (bs, l.fd'))
                      (append_assoc bytes (take r.got (pending fd))
                          (take (more - r.got) (pending r.next))
                        ∙ rw r.rest (
                            ap (◌++◌ bytes)
                              (sym (take-add r.got (more - r.got) (pending fd)) ∙ rw sum))));
          rest = l.rest ∙ rw r.rest (sym (drop-add r.got (more - r.got) (pending fd)) ∙ rw sum);
          same = l.same ∙ same;
        }

  read_loop_lem :
      (fuel : ℕ) (fd : S) (bytes : List ℕ) (more : ℕ) → more < fuel → Loop fuel fd bytes more
  read_loop_lem zero fd bytes more h = absurd (omega arith)
  read_loop_lem (suc fuel) fd bytes more h =
      let r = reads fd more in
      let same = reads_sent fd more in
      elim (dec_lt 0 r.got) [
        | no z ↦ round_end fuel fd bytes more r same (omega arith)
        | yes some_got ↦
            elim (Bool-cases (length (bytes ++ take r.got (pending fd)) == length bytes + more)) [
              | inl e ↦ round_last fuel fd bytes more r same some_got e
              | inr e ↦ round_more fuel fd bytes more r same some_got e (
                  read_loop_lem fuel r.next (bytes ++ take r.got (pending fd)) (more - r.got)
                    (omega arith))
            ]
      ]

  -- What a call of `ReadFully` does.
  pub record ReadFully (fd : S) (count : ℕ) : Type 0 where
    pub fd' : S
    pub result : read_fully sock fd count ≡ returned (take count (pending fd), fd')
    pub rest : pending fd' ≡ drop count (pending fd)
    pub same : sent fd' ≡ sent fd

  -- On every stream `ReadFully` ends, and gives the next `count` bytes, or all that come before the end
  -- of the stream; behind them nothing is read, and nothing is written.
  pub read_fully_lem : (fd : S) (count : ℕ) → ReadFully fd count
  unfolding read_fully
  read_fully_lem fd count =
      let l = read_loop_lem (suc count) fd [] count (omega arith) in
      record { fd' = l.fd'; result = rw zero-add at l.result; rest = l.rest; same = l.same }
