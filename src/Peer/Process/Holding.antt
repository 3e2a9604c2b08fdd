-- ===== src/Peer/Process/Holding.antt =====
-- What the downloader of a process holds at each point of the loop that sends the update (src/peer.cpp).
use mathlib.Core.List.{flatten}
use jpgsync.Common.{
  ℕ, ◌≤◌, ◌<◌, ◌≡◌, sym, Bool, true, false, List, [], ◌∷◌, ◌++◌, Option, none, some, append_assoc,
  append-nil, length, ◌==◌,
}
use jpgsync.ExifHasher.{Entry}
use jpgsync.Protocol.{update_hashes_per_packet}
use jpgsync.Peer.Process.{Sending, getting, counting, notifying, packing, closing, closed}

-- What `Get` has given and `hasher_entry_count` does not have, and what no packet has.
unfoldable pub uncounted : Sending → ℕ
uncounted getting = 0
uncounted (counting es) = length es
uncounted (notifying es) = 0
uncounted (packing es) = 0
uncounted closing = 0
uncounted closed = 0

unfoldable pub unsent : Sending → List Entry
unsent getting = []
unsent (counting es) = es
unsent (notifying es) = es
unsent (packing es) = es
unsent closing = []
unsent closed = []

-- `hashing` while the downloader stands there.
abbrev pub is_open : Sending → Bool
is_open closed = false
is_open _ = true

pub flatten-append :
    (xss : List (List Entry)) (xs : List Entry) → flatten (xss ++ xs ∷ []) ≡ flatten xss ++ xs
unfolding flatten
flatten-append [] xs = append-nil xs
flatten-append (x ∷ xss) xs = rw (flatten-append xss xs) (sym (append_assoc x (flatten xss) xs))

-- The size of a packet of the update, in hashes.
abbrev pub FitsUpdate : List Entry → Type 0
FitsUpdate es = (0 < length es) × (length es ≤ update_hashes_per_packet)

abbrev pub Held : Sending → Type 0
Held getting = Unit {0}
Held (counting es) = FitsUpdate es
Held (notifying es) = FitsUpdate es
Held (packing es) = FitsUpdate es
Held closing = Unit {0}
Held closed = Unit {0}

-- A call of `Get` is made only where `Get` stands.
abbrev pub Idle : Sending → Option ℕ → Type 0
Idle getting t = Unit {0}
Idle (counting es) t = t ≡ none
Idle (notifying es) t = t ≡ none
Idle (packing es) t = t ≡ none
Idle closing t = t ≡ none
Idle closed t = t ≡ none

-- The loop is over, or `Get` will answer 0.
abbrev pub is_over : Sending → Option ℕ → Bool
is_over getting none = false
is_over getting (some n) = n == 0
is_over (counting es) t = false
is_over (notifying es) t = false
is_over (packing es) t = false
is_over closing t = true
is_over closed t = true

pub no_end : (t : Option ℕ) → t ≡ none → is_over getting t ≡ true → ⊥
no_end none e over = cc
no_end (some n) e over = cc
