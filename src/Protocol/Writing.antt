-- ===== src/Protocol/Writing.antt =====
-- Over a stream socket that does not fail, `WriteFully` (src/protocol.hpp) sends all bytes, in whatever
-- pieces the kernel takes them.
use jpgsync.Common.{
  ℕ, zero, suc, ◌+◌, ◌≤◌, ◌<◌, ◌≡◌, refl, sym, ap, ◌∙◌, inl, inr, true, false, List, [], ◌∷◌, ◌++◌,
  append_assoc, append-nil, some, arith, length, length-drop, take, drop, take-append-drop,
  drop-add, ==_iff, ◌==◌, Bool-cases, if◌then◌else◌, dec_lt,
}
use jpgsync.Protocol.{Socket, returned, write_loop, write_fully}
use jpgsync.Protocol.Stream.{Stream, Writes}

drop_all : (n : ℕ) (xs : List ℕ) → length xs ≤ n → drop n xs ≡ []
drop_all zero [] h = refl
drop_all zero (x ∷ xs) h = absurd (omega arith)
drop_all (suc n) [] h = refl
drop_all (suc n) (x ∷ xs) h = drop_all n xs (omega arith)

module _ {S : Type 0} {sock : Socket S} (stream : Stream sock) where
  open stream use {pending, sent, writes, writes_pending}

  write_loop_end :
      (fuel : ℕ) (fd fd' : S) (bytes : List ℕ) (done : ℕ)
      → sock.write fd (drop done bytes) ≡ some (0, fd')
      → write_loop sock (suc fuel) fd bytes done ≡ returned (done, fd')
  unfolding write_loop
  write_loop_end fuel fd fd' bytes done e = rw (e, write_loop)

  write_loop_more :
      (fuel : ℕ) (fd fd' : S) (bytes : List ℕ) (done n : ℕ)
      → sock.write fd (drop done bytes) ≡ some (n, fd')
      → 0 < n
      → write_loop sock (suc fuel) fd bytes done ≡ (
          if done + n == length bytes
          then returned (done + n, fd')
          else write_loop sock fuel fd' bytes (done + n))
  unfolding write_loop
  write_loop_more fuel fd fd' bytes done zero e h = absurd (omega arith)
  write_loop_more fuel fd fd' bytes done (suc n) e h = rw (e, write_loop)

  -- The result of a loop that has written `done` bytes.
  record Loop (fuel : ℕ) (fd : S) (bytes : List ℕ) (done : ℕ) : Type 0 where
    fd' : S
    result : write_loop sock fuel fd bytes done ≡ returned (length bytes, fd')
    sent_all : sent fd' ≡ sent fd ++ drop done bytes
    same : pending fd' ≡ pending fd

  module _ (fuel : ℕ) (fd : S) (bytes : List ℕ) (done : ℕ) (le : done ≤ length bytes)
      (w : Writes sock sent fd (drop done bytes)) (same : pending w.next ≡ pending fd) where
    round_end : w.put ≡ 0 → Loop (suc fuel) fd bytes done
    round_end z =
        let finished : done ≡ length bytes = grind (arith, w.put_some, length-drop done bytes) in
        record {
          fd' = w.next;
          result =
              write_loop_end fuel fd w.next bytes done (w.result ∙ rw z)
              ∙ ap (λ n. returned (n, w.next)) finished;
          sent_all = w.sent_more ∙ rw (z, drop_all done bytes (omega arith));
          same = same;
        }

    sent_so_far : sent w.next ++ drop (done + w.put) bytes ≡ sent fd ++ drop done bytes
    sent_so_far =
        rw (w.sent_more, drop-add done w.put bytes)
          (append_assoc (sent fd) (take w.put (drop done bytes)) (drop w.put (drop done bytes))
            ∙ ap (◌++◌ (sent fd)) (take-append-drop w.put (drop done bytes)))

    round_last : 0 < w.put → (done + w.put == length bytes) ≡ true → Loop (suc fuel) fd bytes done
    round_last h e =
        let full : done + w.put ≡ length bytes = (==_iff _ _).0 e in
        record {
          fd' = w.next;
          result = write_loop_more fuel fd w.next bytes done w.put w.result h ∙ rw e (rw full);
          sent_all =
              sym (append-nil (sent w.next))
              ∙ ap (◌++◌ (sent w.next)) (sym (drop_all (done + w.put) bytes (omega arith)))
              ∙ sent_so_far;
          same = same;
        }

    round_more :
        0 < w.put
        → (done + w.put == length bytes) ≡ false
        → Loop fuel w.next bytes (done + w.put)
        → Loop (suc fuel) fd bytes done
    round_more h e l = record {
      fd' = l.fd';
      result = write_loop_more fuel fd w.next bytes done w.put w.result h ∙ rw e l.result;
      sent_all = l.sent_all ∙ sent_so_far;
      same = l.same ∙ same;
    }

  write_loop_lem :
      (fuel : ℕ) (fd : S) (bytes : List ℕ) (done : ℕ)
      → done ≤ length bytes
      → length bytes < fuel + done
      → Loop fuel fd bytes done
  write_loop_lem zero fd bytes done le h = absurd (omega arith)
  write_loop_lem (suc fuel) fd bytes done le h =
      let w = writes fd (drop done bytes) in
      let same = writes_pending fd (drop done bytes) in
      elim (dec_lt 0 w.put) [
        | no z ↦ round_end fuel fd bytes done le w same (omega arith)
        | yes put_some ↦ elim (Bool-cases (done + w.put == length bytes)) [
          | inl e ↦ round_last fuel fd bytes done le w same put_some e
          | inr e ↦ round_more fuel fd bytes done le w same put_some e (
              write_loop_lem fuel w.next bytes (done + w.put)
                (omega (arith, w.put-le, length-drop done bytes)) (omega arith))
        ]
      ]

  -- What a call of `WriteFully` does.
  pub record WriteFully (fd : S) (bytes : List ℕ) : Type 0 where
    pub fd' : S
    pub result : write_fully sock fd bytes ≡ returned (length bytes, fd')
    pub sent_all : sent fd' ≡ sent fd ++ bytes
    pub same : pending fd' ≡ pending fd

  -- On every stream `WriteFully` ends, and has written all bytes and read none.
  pub write_fully_lem : (fd : S) (bytes : List ℕ) → WriteFully fd bytes
  unfolding write_fully
  write_fully_lem fd bytes =
      let l = write_loop_lem (suc (length bytes)) fd bytes 0 (omega arith) (omega arith) in
      record { fd' = l.fd'; result = l.result; sent_all = l.sent_all; same = l.same }
