-- ===== src/Protocol/Ending.antt =====
-- The functions of src/protocol.hpp on any socket from which finitely many bytes come.
use jpgsync.Common.{
  ℕ, zero, suc, ◌+◌, ◌-◌, ◌%◌, ◌≤◌, ◌<◌, ◌≡◌, refl, inl, inr, List, [], ◌∷◌, ◌++◌, Option, none,
  some, arith, length, length-append, length-drop, drop, ◌==◌, Bool-cases,
}
use jpgsync.Host.{Host}
use jpgsync.Protocol.{
  Socket, Outcome, returned, threw, fatal, stuck, ◌>>=◌, read_loop, read_fully, read_exactly,
  read_byte, read_file_size, write_loop, write_fully, write_exactly, write_byte,
}

-- The function ends, and what it returns, if it does, is so.
abbrev pub Ends {ℓ} : {A : Type ℓ} → (A → Type 0) → Outcome A → Type 0
Ends P (returned a) = P a
Ends P threw = Unit
Ends P fatal = Unit
Ends P stuck = ⊥

pub bind_Ends {ℓ κ} :
    {A : Type ℓ} {B : Type κ} (P : A → Type 0) (Q : B → Type 0) (m : Outcome A) (f : A → Outcome B)
    → Ends P m
    → ((a : A) → P a → Ends Q (f a))
    → Ends Q (m >>= f)
bind_Ends P Q (returned a) f p h = h a p
bind_Ends P Q threw f p h = tt
bind_Ends P Q fatal f p h = tt
bind_Ends P Q stuck f p h = absurd p

-- read(2) gives no more than was asked for, and no more than `left` says is to come; write(2) writes no
-- more than it is given.
pub record Finite {S : Type 0} (sock : Socket S) : Type 0 where
  pub left : S → ℕ
  pub read_left :
      (fd fd' : S) (count : ℕ) (bytes : List ℕ)
      → sock.read fd count ≡ some (bytes, fd')
      → (length bytes ≤ count) × (length bytes + left fd' ≤ left fd)
  pub write_left :
      (fd fd' : S) (n : ℕ) (bytes : List ℕ)
      → sock.write fd bytes ≡ some (n, fd')
      → (n ≤ length bytes) × (left fd' ≤ left fd)

-- What is left behind a byte, or the end of the stream.
abbrev pub Spent : ℕ → Option ℕ → ℕ → Type 0
Spent bound none rest = rest ≤ bound
Spent bound (some byte) rest = rest < bound

module _ {S : Type 0} {sock : Socket S} (finite : Finite sock) where
  open finite use {left, read_left, write_left}

  read_loop-Ends :
      (fuel bound count : ℕ) (fd : S) (bytes : List ℕ)
      → length bytes ≤ count
      → count < length bytes + fuel
      → left fd ≤ bound
      → Ends (λ r. left r.1 ≤ bound) (read_loop sock fuel fd bytes count)
  unfolding read_loop
  read_loop-Ends zero bound count fd bytes le lt b = absurd (omega arith)
  read_loop-Ends (suc fuel) bound count fd bytes le lt b =
      go (sock.read fd (count - length bytes)) (read_loop-Ends fuel bound count) refl
    where
      go :
          (o : Option (List ℕ × S))
          → ((fd' : S) (bytes' : List ℕ)
              → length bytes' ≤ count
              → count < length bytes' + fuel
              → left fd' ≤ bound
              → Ends (λ r. left r.1 ≤ bound) (read_loop sock fuel fd' bytes' count))
          → sock.read fd (count - length bytes) ≡ o
          → Ends (λ r. left r.1 ≤ bound) (read_loop sock (suc fuel) fd bytes count)
      go none later e = rw (read_loop, e) tt
      go (some ([], fd')) later e =
          let (short, less) = read_left fd fd' (count - length bytes) [] e in
          rw (read_loop, e) (omega arith)
      go (some (x ∷ xs, fd')) later e =
          let (short, less) = read_left fd fd' (count - length bytes) (x ∷ xs) e in
          let size = length-append bytes (x ∷ xs) in
          elim (Bool-cases (length (bytes ++ x ∷ xs) == count)) [
            | inl full ↦ rw (read_loop, e, full) (omega arith)
            | inr more ↦
                rw (read_loop, e, more)
                  (later fd' (bytes ++ x ∷ xs) (omega (arith, size)) (omega (arith, size))
                    (omega arith))
          ]

  pub read_exactly-Ends :
      (bound : ℕ) (fd : S) (count : ℕ)
      → left fd ≤ bound
      → Ends (λ r. left r.2 ≤ bound) (read_exactly sock fd count)
  unfolding read_exactly read_fully
  read_exactly-Ends bound fd count b =
      bind_Ends (λ r. left r.1 ≤ bound) (λ r. left r.2 ≤ bound) (read_fully sock fd count) _
        (read_loop-Ends (suc count) bound count fd [] (omega arith) (omega arith) b) (λ r le. le)

  write_loop-Ends :
      (fuel bound written : ℕ) (fd : S) (bytes : List ℕ)
      → written ≤ length bytes
      → length bytes < written + fuel
      → left fd ≤ bound
      → Ends (λ r. left r.1 ≤ bound) (write_loop sock fuel fd bytes written)
  unfolding write_loop
  write_loop-Ends zero bound written fd bytes le lt b = absurd (omega arith)
  write_loop-Ends (suc fuel) bound written fd bytes le lt b =
      go (sock.write fd (drop written bytes))
        (λ written' fd'. write_loop-Ends fuel bound written' fd' bytes) refl
    where
      go :
          (o : Option (ℕ × S))
          → ((written' : ℕ) (fd' : S)
              → written' ≤ length bytes
              → length bytes < written' + fuel
              → left fd' ≤ bound
              → Ends (λ r. left r.1 ≤ bound) (write_loop sock fuel fd' bytes written'))
          → sock.write fd (drop written bytes) ≡ o
          → Ends (λ r. left r.1 ≤ bound) (write_loop sock (suc fuel) fd bytes written)
      go none later e = rw (write_loop, e) tt
      go (some (zero, fd')) later e =
          let (short, less) = write_left fd fd' zero (drop written bytes) e in
          rw (write_loop, e) (omega arith)
      go (some (suc n, fd')) later e =
          let (short, less) = write_left fd fd' (suc n) (drop written bytes) e in
          let size = length-drop written bytes in
          elim (Bool-cases (written + suc n == length bytes)) [
            | inl full ↦ rw (write_loop, e, full) (omega arith)
            | inr more ↦
                rw (write_loop, e, more)
                  (later (written + suc n) fd' (omega (arith, size)) (omega arith) (omega arith))
          ]

  pub write_exactly-Ends :
      (bound : ℕ) (fd : S) (bytes : List ℕ)
      → left fd ≤ bound
      → Ends (λ r. left r.1 ≤ bound) (write_exactly sock fd bytes)
  unfolding write_exactly write_fully
  write_exactly-Ends bound fd bytes b =
      bind_Ends (λ r. left r.1 ≤ bound) (λ r. left r.1 ≤ bound) (write_fully sock fd bytes) _
        (write_loop-Ends (suc (length bytes)) bound 0 fd bytes (omega arith) (omega arith) b)
        (λ r le. le)

  pub read_byte-Ends :
      (bound : ℕ) (fd : S)
      → left fd ≤ bound
      → Ends (λ r. Spent bound r.0 (left r.1)) (read_byte sock fd)
  unfolding read_byte
  read_byte-Ends bound fd b = go (sock.read fd 1) refl
    where
      go :
          (o : Option (List ℕ × S))
          → sock.read fd 1 ≡ o
          → Ends (λ r. Spent bound r.0 (left r.1)) (read_byte sock fd)
      go none e = rw (read_byte, e) tt
      go (some ([], fd')) e =
          let (short, less) = read_left fd fd' 1 [] e in rw (read_byte, e) (omega arith)
      go (some (x ∷ xs, fd')) e =
          let (short, less) = read_left fd fd' 1 (x ∷ xs) e in rw (read_byte, e) (omega arith)

  pub write_byte-Ends :
      (bound : ℕ) (fd : S) (byte : ℕ)
      → left fd ≤ bound
      → Ends (λ r. left r.1 ≤ bound) (write_byte sock fd byte)
  unfolding write_byte
  write_byte-Ends bound fd byte b = go (sock.write fd (byte % 256 ∷ [])) refl
    where
      go :
          (o : Option (ℕ × S))
          → sock.write fd (byte % 256 ∷ []) ≡ o
          → Ends (λ r. left r.1 ≤ bound) (write_byte sock fd byte)
      go none e = rw (write_byte, e) tt
      go (some (n, fd')) e =
          let (short, less) = write_left fd fd' n (byte % 256 ∷ []) e in
          rw (write_byte, e) (omega arith)

  pub read_file_size-Ends :
      (host : Host) (bound : ℕ) (fd : S)
      → left fd ≤ bound
      → Ends (λ r. left r.2 ≤ bound) (read_file_size sock host fd)
  unfolding read_file_size
  read_file_size-Ends host bound fd b =
      bind_Ends (λ r. left r.2 ≤ bound) (λ r. left r.2 ≤ bound) (read_exactly sock fd 4) _
        (read_exactly-Ends bound fd 4 b) (λ r le. le)
