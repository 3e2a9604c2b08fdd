-- ===== src/Peer/Process/Uploading.antt =====
-- How the uploader of a process stands to the counters and to `hashing`.
use jpgsync.Common.{ℕ, ◌+◌, ◌≤◌, ◌≡◌, refl, Bool, true, false, arith}
use jpgsync.Peer.Progress.{Uploader, loading, loaded, waiting, left, notify}

-- What the uploader knows: it processes no more than it has loaded, and that is no more than was counted.
abbrev pub Knows : Uploader → ℕ → ℕ → Type 0
Knows loading processed count = processed ≤ count
Knows (loaded n) processed count = (processed ≤ n) × (n ≤ count)
Knows waiting processed count = processed ≤ count
Knows left processed count = processed ≤ count

pub Knows-le : (u : Uploader) (p n : ℕ) → Knows u p n → p ≤ n
Knows-le loading p n k = k
Knows-le (loaded m) p n (le, le') = omega arith
Knows-le waiting p n k = k
Knows-le left p n k = k

pub Knows-more : (u : Uploader) (p n k : ℕ) → Knows u p n → Knows u p (n + k)
Knows-more loading p n k h = omega arith
Knows-more (loaded m) p n k (le, le') = (le, omega arith)
Knows-more waiting p n k h = omega arith
Knows-more left p n k h = omega arith

pub Knows-notify : (u : Uploader) (p n : ℕ) → Knows u p n → Knows (notify u) p n
Knows-notify loading p n h = h
Knows-notify (loaded m) p n h = h
Knows-notify waiting p n h = h
Knows-notify left p n h = h

-- The uploader waits only as long as hashing is not over, and leaves only when it is.
abbrev pub Obeys : Uploader → Bool → Type 0
Obeys loading hashing = Unit {0}
Obeys (loaded n) hashing = Unit {0}
Obeys waiting hashing = hashing ≡ true
Obeys left hashing = hashing ≡ false

pub Obeys-notify : (u : Uploader) (hashing : Bool) → Obeys u hashing → Obeys (notify u) hashing
Obeys-notify loading hashing o = tt
Obeys-notify (loaded n) hashing o = tt
Obeys-notify waiting hashing o = tt
Obeys-notify left hashing o = o

pub Obeys-close : (u : Uploader) → Obeys (notify u) false
Obeys-close loading = tt
Obeys-close (loaded n) = tt
Obeys-close waiting = tt
Obeys-close left = refl
