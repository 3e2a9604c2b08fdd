-- ===== src/Closeable/Ownership.antt =====
-- A `Closeable` owns what it holds: it gives back each descriptor once, and keeps no other.
use jpgsync.Common.{ℕ, ◌≡◌, refl, true, false, List, [], ◌∷◌, ◌==◌, Bool-cases, inl, inr, arith}
use jpgsync.Protocol.{returned}
use jpgsync.Closeable.{Fd, is_open, forget, close, close_unless_closed, assign, destroy}

pub is_open-forget : (xs : List ℕ) (n : ℕ) → is_open (forget xs n) n ≡ false
unfolding is_open forget
is_open-forget [] n = refl
is_open-forget (x ∷ xs) n = ground (arith, is_open-forget xs n)

pub is_open-forget_other :
    (xs : List ℕ) (n m : ℕ) → (n == m) ≡ false → is_open (forget xs n) m ≡ is_open xs m
unfolding is_open forget
is_open-forget_other [] n m ne = refl
is_open-forget_other (x ∷ xs) n m ne = ground (arith, is_open-forget_other xs n m ne)

-- An object that holds nothing open, or an open descriptor.
abbrev pub Owns : Fd → List ℕ → Type 0
Owns fd open_fds = fd.closed ≡ false → is_open open_fds fd.res ≡ true

-- An object that owns its descriptor is destroyed without an exception. Then its descriptor is not open,
-- unless it was closed before, when nothing changes, and every other descriptor is as it was.
pub destroy_lem :
    (fd : Fd) (open_fds : List ℕ)
    → Owns fd open_fds
    → (rest : List ℕ) × (destroy fd open_fds ≡ returned rest)
      × (fd.closed ≡ false → is_open rest fd.res ≡ false)
      × (fd.closed ≡ true → rest ≡ open_fds)
      × ((m : ℕ) → (fd.res == m) ≡ false → is_open rest m ≡ is_open open_fds m)
unfolding destroy close_unless_closed close
destroy_lem fd open_fds owns = elim (Bool-cases fd.closed) [
  | inl e ↦ (open_fds, rw e, λ c. absurd (ground arith), λ c. refl, λ m ne. refl)
  | inr e ↦ (
    forget open_fds fd.res,
    rw (e, owns e),
    λ c. is_open-forget open_fds fd.res,
    λ c. absurd (ground arith),
    is_open-forget_other open_fds fd.res,
  )
]

-- When an object that owns its descriptor takes another open one, it owns that, and the one it had,
-- if it was not closed before, is closed.
pub assign_lem :
    (n : ℕ) (fd : Fd) (open_fds : List ℕ)
    → Owns fd open_fds
    → is_open open_fds n ≡ true
    → (fd.res == n) ≡ false
    → (r : Fd × List ℕ) × (assign n fd open_fds ≡ returned r)
      × (r.0.res ≡ n)
      × (r.0.closed ≡ false)
      × Owns r.0 r.1
      × (fd.closed ≡ false → is_open r.1 fd.res ≡ false)
unfolding assign close_unless_closed close
assign_lem n fd open_fds owns is_n ne = elim (Bool-cases fd.closed) [
  | inl e ↦ (
    (record fd { res = n; closed = false }, open_fds),
    rw e,
    refl,
    refl,
    λ c. is_n,
    λ c. absurd (ground arith),
  )
  | inr e ↦ (
    (record fd { res = n; closed = false }, forget open_fds fd.res),
    rw (e, owns e),
    refl,
    refl,
    λ c. ground (arith, is_open-forget_other open_fds fd.res n ne),
    λ c. is_open-forget open_fds fd.res,
  )
]
