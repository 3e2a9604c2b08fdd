-- ===== src/Peer/Process/Runs.antt =====
-- Runs of a process, and its theorems there: a directory of two images, of which the other side has one.
use mathlib.Core.List.{flatten}
use jpgsync.ExifHasher.Images.{images, distinct}
use jpgsync.Peer.Choice.Offers.{not_received}
use jpgsync.Peer.Process.Holding.{FitsUpdate}
use jpgsync.Peer.Process.Ends.{update_complete}
use jpgsync.Peer.Process.Offered.{FitsOffer, offers_made, choose_safe}
use jpgsync.Peer.Process.Leaving.{Leaves, Completes, can_end, can_complete}
use jpgsync.Host.{little_endian}
use jpgsync.Peer.Process.Sizes.{FitsDatagram, FitsMessage, sizes_fit}
use jpgsync.Peer.Process.Skipping.{leaves_unseen}
use jpgsync.Common.{
  ◌≤◌, ◌<◌, ◌≢◌, take, All, ℕ, zero, suc, ◌≡◌, refl, false, List, [], ◌∷◌, some, replicate, ◌==◌,
  drop, length,
}
use jpgsync.ExifHash.{ExifHash, exif_hash, eq, bytes_to_word32}
use jpgsync.ExifHasher.{
  Entry, Hashed, thrown, unhashed, digest, exif_hasher, run_step, add_hashed, link, insert, count,
  get_ready, get_take, get_walk, follow, finished,
}
use jpgsync.Peer.Progress.{loaded, left}
use jpgsync.Peer.Choice.{Choice, choose}
use jpgsync.Peer.Process.{
  closed, Process, Reach, hash, ask, batch, finish, add_count, notify_progress, send, close, load,
  await, leave, offer, start, later,
}

abbrev pub by_name : List ℕ → Hashed
by_name [] = unhashed
by_name (c ∷ cs) = digest (replicate 20 c)

abbrev pub image : ℕ → List ℕ → Entry
image n path = record { hash = exif_hash (replicate 20 n); path = path }

abbrev pub State : List ExifHash → List (List ℕ) → Type 0
State received paths = (s : Process) × Reach by_name received paths s

abbrev pub hashes :
    {received : List ExifHash} {paths : List (List ℕ)}
    → ℕ
    → State received paths
    → State received paths
hashes zero r = r
hashes (suc k) (s, r) = hashes k (_, later r hash)

abbrev pub two : List (List ℕ)
two = (7 ∷ []) ∷ (1 ∷ []) ∷ []

abbrev pub known : List ExifHash
known = (image 1 []).hash ∷ []

-- The uploader loads 0 and waits before anything is hashed.
waits : State known two
waits = (_, later (later (later start (load refl)) (await refl refl refl)) hash)

hashed : State known two
hashed = hashes 5 waits

asks : State known two
unfolding waits hashed run_step add_hashed link insert count eq exif_hash bytes_to_word32
    exif_hasher get_ready
asks = (_, later hashed.1 (ask refl refl refl))

sends : State known two
unfolding asks waits hashed run_step add_hashed link insert count eq exif_hash bytes_to_word32
    exif_hasher get_ready get_take get_walk follow
sends = (
  _,
  later
      (later (later (later asks.1 (batch {taken = 1} refl refl refl)) (add_count refl))
        (notify_progress refl))
      (send refl),
)

closes : State known two
unfolding sends asks waits hashed run_step add_hashed link insert count eq exif_hash bytes_to_word32
    exif_hasher get_ready get_take get_walk follow
closes =
    (_, later (later (later sends.1 (ask refl refl refl)) (finish refl refl refl)) (close refl))

loads : State known two
unfolding closes sends asks waits hashed run_step add_hashed link insert count eq exif_hash
    bytes_to_word32 exif_hasher get_ready get_take get_walk follow
loads = (_, later closes.1 (load refl))

-- Both entries are loaded, and the one is offered that was not received.
unfoldable pub leaves : State known two
unfolding loads closes sends asks choose waits hashed run_step add_hashed link insert count eq
    exif_hash bytes_to_word32 exif_hasher get_ready get_take get_walk follow
leaves =
    (_, later (later (later loads.1 (offer refl refl refl)) (load refl)) (leave refl refl refl))

leaves_offers : leaves.0.offers ≡ (image 7 (7 ∷ []) ∷ []) ∷ []
unfolding leaves loads closes sends asks choose waits hashed run_step add_hashed link insert count
    eq exif_hash bytes_to_word32 exif_hasher get_ready get_take get_walk follow
leaves_offers = refl

pub leaves_all : leaves.0.processed_entry_count ≡ leaves.0.hasher_entry_count
unfolding leaves loads closes sends asks choose waits hashed run_step add_hashed link insert count
    eq exif_hash bytes_to_word32 exif_hasher get_ready get_take get_walk follow
leaves_all = refl

closes_closed : closes.0.sending ≡ closed
unfolding closes
closes_closed = refl

pub leaves_closed : leaves.0.sending ≡ closed
unfolding leaves loads closes
leaves_closed = refl

pub leaves_left : leaves.0.uploader ≡ left
unfolding leaves
leaves_left = refl

loads_two : loads.0.uploader ≡ loaded 2
unfolding loads closes sends asks waits hashed run_step add_hashed link insert count eq exif_hash
    bytes_to_word32 exif_hasher get_ready get_take get_walk follow
loads_two = refl

loads_some_more : (loads.0.processed_entry_count == 2) ≡ false
unfolding loads closes sends asks waits hashed
loads_some_more = refl

-- The process of the other side, which has one image.
abbrev pub both : List ExifHash
both = (image 7 []).hash ∷ (image 1 []).hash ∷ []

abbrev pub one : List (List ℕ)
one = (1 ∷ 1 ∷ []) ∷ []

other_hashed : State both one
other_hashed = hashes 4 (_, start)

other_asks : State both one
unfolding other_hashed run_step add_hashed link insert count eq exif_hash bytes_to_word32
    exif_hasher get_ready get_take get_walk follow
other_asks = (_, later other_hashed.1 (ask refl refl refl))

other_sends : State both one
unfolding other_asks other_hashed run_step add_hashed link insert count eq exif_hash bytes_to_word32
    exif_hasher get_ready get_take get_walk follow
other_sends = (
  _,
  later
      (later (later (later other_asks.1 (batch {taken = 0} refl refl refl)) (add_count refl))
        (notify_progress refl))
      (send refl),
)

unfoldable pub other_closes : State both one
unfolding other_sends other_asks other_hashed run_step add_hashed link insert count eq exif_hash
    bytes_to_word32 exif_hasher get_ready get_take get_walk follow
other_closes = (
  _,
  later (later (later other_sends.1 (ask refl refl refl)) (finish refl refl refl)) (close refl),
)

pub other_closed : other_closes.0.sending ≡ closed
unfolding other_closes
other_closed = refl

pub other_batches : other_closes.0.batches ≡ (image 1 (1 ∷ 1 ∷ []) ∷ []) ∷ []
unfolding other_closes other_sends other_asks other_hashed run_step add_hashed link insert count eq
    exif_hash bytes_to_word32 exif_hasher get_ready get_take get_walk follow
other_batches = refl

-- It has nothing to offer.
unfoldable pub other_leaves : State both one
unfolding choose other_closes other_sends other_asks other_hashed run_step add_hashed link insert
    count eq exif_hash bytes_to_word32 exif_hasher get_ready get_take get_walk follow
other_leaves = (
  _,
  later (later (later (later other_closes.1 (load refl)) (offer refl refl refl)) (load refl))
      (leave refl refl refl),
)

pub other_left : other_leaves.0.uploader ≡ left
unfolding other_leaves
other_left = refl

pub other_all : other_leaves.0.processed_entry_count ≡ other_leaves.0.hasher_entry_count
unfolding other_leaves choose other_closes other_sends other_asks other_hashed run_step add_hashed
    link insert count eq exif_hash bytes_to_word32 exif_hasher get_ready get_take get_walk follow
other_all = refl

pub other_leaves_batches : other_leaves.0.batches ≡ (image 1 (1 ∷ 1 ∷ []) ∷ []) ∷ []
unfolding other_leaves other_closes other_sends other_asks other_hashed run_step add_hashed link
    insert count eq exif_hash bytes_to_word32 exif_hasher get_ready get_take get_walk follow
other_leaves_batches = refl

pub leaves_batches : leaves.0.batches ≡ (image 7 (7 ∷ []) ∷ image 1 (1 ∷ []) ∷ []) ∷ []
unfolding leaves loads closes sends asks waits hashed run_step add_hashed link insert count eq
    exif_hash bytes_to_word32 exif_hasher get_ready get_take get_walk follow
leaves_batches = refl

by_name_safe : (path : List ℕ) → by_name path ≢ thrown
by_name_safe [] e = cc
by_name_safe (c ∷ cs) e = cc

update_complete_example :
    (closes.0.system.producer ≡ finished)
    × (flatten closes.0.batches ≡ distinct (images by_name two))
    × All FitsUpdate closes.0.batches
    × (closes.0.hasher_entry_count ≡ length (distinct (images by_name two)))
update_complete_example = update_complete closes.1 closes_closed

offers_made_example :
    (flatten leaves.0.offers
      ≡ not_received known (take leaves.0.processed_entry_count leaves.0.system.hasher.entries))
    × All FitsOffer leaves.0.offers
    × (leaves.0.processed_entry_count ≤ leaves.0.hasher_entry_count)
    × (leaves.0.hasher_entry_count ≤ length leaves.0.system.hasher.entries)
offers_made_example = offers_made leaves.1

choose_safe_example :
    (c : Choice) × (choose known 2
        (drop loads.0.processed_entry_count loads.0.system.hasher.entries)
        loads.0.processed_entry_count
        []
      ≡ some c)
    × (loads.0.processed_entry_count < c.processed_entry_count)
    × (c.processed_entry_count ≤ loads.0.hasher_entry_count)
choose_safe_example = choose_safe loads.1 loads_two loads_some_more

-- From the state in which the uploader waits and one step of the hashing was done.
can_end_example : Leaves by_name known waits.0
can_end_example = can_end waits.1 by_name_safe

-- The uploader waits there.
can_complete_example : Completes by_name known waits.0
unfolding waits
can_complete_example = can_complete waits.1 tt by_name_safe

leaves_unseen_example :
    (s : Process) × Reach by_name known two s
    × (s.sending ≡ closed)
    × (s.uploader ≡ left)
    × (s.offers ≡ [])
    × (s.processed_entry_count ≡ 0)
    × (s.hasher_entry_count ≡ length (distinct (images by_name two)))
leaves_unseen_example = leaves_unseen by_name known two by_name_safe

sizes_fit_example :
    All (FitsDatagram little_endian) leaves.0.batches
    × All (FitsMessage little_endian) leaves.0.offers
sizes_fit_example = sizes_fit little_endian leaves.1
