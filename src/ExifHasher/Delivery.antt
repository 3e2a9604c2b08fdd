-- ===== src/ExifHasher/Delivery.antt =====
-- What the callers of `Get` rely on (src/exif_hasher.cpp, used in src/peer.cpp and src/jpghash.cpp).
use jpgsync.Common.{
  ℕ, zero, suc, ◌+◌, ◌*◌, ◌≤◌, ◌<◌, ◌≡◌, refl, ap, ◌∙◌, sym, Bool, true, ◌⊎◌, inl, inr, List, [],
  ◌∷◌, none, some, arith, length, take, take_of_le, length-take,
}
use jpgsync.ExifHasher.{
  Entry, Hashed, thrown, unhashed, digest, Hasher, Producer, hashing, linked, finishing, finished,
  terminated, add_hashed, run_step, get_ready, get_take, get_walk,
}
use jpgsync.ExifHasher.Steps.{System, Reach}
use jpgsync.ExifHasher.Tells.{is_finished, taken_of}
use jpgsync.ExifHasher.Invariant.{Inv, Inv-linked, get_walk_lem, Reach-Inv}

is_finished-eq : (p : Producer) → is_finished p ≡ true → p ≡ finished
is_finished-eq finished e = refl
is_finished-eq (hashing _) e = cc
is_finished-eq (linked _) e = cc
is_finished-eq finishing e = cc
is_finished-eq terminated e = cc

module _ (t : ℕ) (unique : Bool) (hash_exif : List ℕ → Hashed) (pos : 0 < t)
    (mode : (unique ≡ true) ⊎ (t ≡ 1)) where
  module _ {paths : List (List ℕ)} {s : System} (r : Reach t unique hash_exif paths s) where
    v : Inv t s
    v = Reach-Inv t unique hash_exif pos mode r

    -- For a threshold above 0 and `unique`, or the threshold 1, in no execution does `Get` follow a
    -- null pointer: the entries that it has taken are linked.
    pub get_walk_safe :
        (taken : ℕ)
        → s.taking ≡ some taken
        → (p : List Entry × Hasher) × (get_walk taken s.hasher ≡ some p)
    get_walk_safe taken e =
        (_, get_walk_lem taken s.hasher (omega (arith, Inv-linked t s v, ap taken_of e)))

    -- For a threshold above 0 and `unique`, or the threshold 1: in every reachable state the calls
    -- of `Get` together have returned the first `new_entry` of the linked entries, each once and in
    -- their order.
    pub delivered_in_order :
        (s.delivered ≡ take s.hasher.new_entry s.hasher.entries)
        × (length s.delivered ≡ s.hasher.new_entry)
    delivered_in_order = (
      v.returned,
      omega (
        arith,
        Inv-linked t s v,
        ap length v.returned,
        length-take s.hasher.new_entry s.hasher.entries,
      ),
    )

    finished_of_done : s.hasher.done ≡ true → s.producer ≡ finished
    finished_of_done e = is_finished-eq s.producer (sym v.tells.closing ∙ e)

    -- Under the same conditions on the threshold, a call of `Get` that need not wait takes as many
    -- entries as it wants, unless hashing is finished and it takes all that are left.
    pub get_take_all :
        (wanted : ℕ)
        → s.taking ≡ none
        → get_ready wanted s.hasher ≡ true
        → ((get_take wanted s.hasher).0 ≡ wanted)
          ⊎ ((s.producer ≡ finished)
              × (s.hasher.new_entry + (get_take wanted s.hasher).0 ≡ length s.hasher.entries))
    unfolding get_ready get_take
    get_take_all wanted e ready = ground (arith, v.tells.accounted, finished_of_done)

    -- Under the same conditions on the threshold, `Get` answers 0 to a caller that wants entries,
    -- and need not wait, only when hashing is finished and every entry has been returned.
    pub get_take_end :
        (wanted : ℕ)
        → s.taking ≡ none
        → 0 < wanted
        → get_ready wanted s.hasher ≡ true
        → (get_take wanted s.hasher).0 ≡ 0
        → (s.producer ≡ finished) × (s.delivered ≡ s.hasher.entries)
    get_take_end wanted e w ready z = elim (get_take_all wanted e ready) [
      | inl all ↦ absurd (omega arith)
      | inr (fin, rest) ↦
          (fin, v.returned ∙ take_of_le s.hasher.new_entry s.hasher.entries (omega arith))
    ]

    -- Once the hashing thread has finished no call of `Get` waits.
    pub get_ready_finished : (wanted : ℕ) → s.producer ≡ finished → get_ready wanted s.hasher ≡ true
    unfolding get_ready
    get_ready_finished wanted e = ground (arith, v.tells.closing)

-- `k` steps of the hashing thread, while the other thread does nothing to the list.
unfoldable pub run_steps : ℕ → Bool → (List ℕ → Hashed) → ℕ → Producer → Hasher → Producer × Hasher
run_steps t unique hash_exif zero p s = (p, s)
run_steps t unique hash_exif (suc k) p s =
    run_steps t unique hash_exif k (run_step t unique hash_exif p s).0
      (run_step t unique hash_exif p s).1

-- An upper bound on the steps that are left.
unfoldable pub steps_left : Producer → ℕ
steps_left (hashing ps) = 2 * length ps + 2
steps_left (linked ps) = 2 * length ps + 3
steps_left finishing = 1
steps_left finished = 0
steps_left terminated = 0

abbrev pub HasEnded : Producer → Type 0
HasEnded p = (p ≡ finished) ⊎ (p ≡ terminated)

module _ (t : ℕ) (unique : Bool) (hash_exif : List ℕ → Hashed) where
  add_hashed-steps_left :
      (r : Hashed) (s : Hasher) (path : List ℕ) (rest : List (List ℕ))
      → steps_left (add_hashed unique r path rest s).0 ≤ 2 * length rest + 3
  unfolding add_hashed steps_left
  add_hashed-steps_left thrown s path rest = omega arith
  add_hashed-steps_left unhashed s path rest = omega arith
  add_hashed-steps_left (digest d) s path rest = ground arith

  run_step-steps_left :
      (p : Producer) (s : Hasher)
      → HasEnded p ⊎ (steps_left (run_step t unique hash_exif p s).0 < steps_left p)
  unfolding run_step steps_left
  run_step-steps_left (hashing []) s = inr (omega arith)
  run_step-steps_left (hashing ([] ∷ rest)) s = inr (omega arith)
  run_step-steps_left (hashing ((c ∷ cs) ∷ rest)) s =
      inr (omega (arith, add_hashed-steps_left (hash_exif (c ∷ cs)) s (c ∷ cs) rest))
  run_step-steps_left (linked rest) s = inr (ground arith)
  run_step-steps_left finishing s = inr (omega arith)
  run_step-steps_left finished s = inl (inl refl)
  run_step-steps_left terminated s = inl (inr refl)

  run_steps-finished :
      (k : ℕ) (s : Hasher) → run_steps t unique hash_exif k finished s ≡ (finished, s)
  unfolding run_steps run_step
  run_steps-finished zero s = refl
  run_steps-finished (suc k) s = run_steps-finished k s

  run_steps-terminated :
      (k : ℕ) (s : Hasher) → run_steps t unique hash_exif k terminated s ≡ (terminated, s)
  unfolding run_steps run_step
  run_steps-terminated zero s = refl
  run_steps-terminated (suc k) s = run_steps-terminated k s

  run_steps-HasEnded :
      (k : ℕ) (p : Producer) (s : Hasher)
      → HasEnded p
      → HasEnded (run_steps t unique hash_exif k p s).0
  run_steps-HasEnded k p s (inl e) = rw e (inl (ap (λ q. q.0) (run_steps-finished k s)))
  run_steps-HasEnded k p s (inr e) = rw e (inr (ap (λ q. q.0) (run_steps-terminated k s)))

  pub steps_left_end :
      (k : ℕ) (p : Producer) (s : Hasher)
      → steps_left p ≤ k
      → HasEnded (run_steps t unique hash_exif k p s).0
  unfolding run_steps
  steps_left_end zero p s h = elim (run_step-steps_left p s) [
    | inl e ↦ e
    | inr lt ↦ absurd (omega arith)
  ]
  steps_left_end (suc k) p s h = elim (run_step-steps_left p s) [
    | inl e ↦ run_steps-HasEnded (suc k) p s e
    | inr lt ↦
        steps_left_end k (run_step t unique hash_exif p s).0 (run_step t unique hash_exif p s).1
          (omega arith)
  ]

  -- The thread that `Run` starts has ended after 2 n + 2 steps for `n` paths, whatever they hash to.
  pub run_ends :
      (paths : List (List ℕ)) (s : Hasher)
      → HasEnded (run_steps t unique hash_exif (2 * length paths + 2) (hashing paths) s).0
  unfolding steps_left
  run_ends paths s = steps_left_end (2 * length paths + 2) (hashing paths) s (omega arith)
