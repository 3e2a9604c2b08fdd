-- ===== src/Peer/Choice.antt =====
-- Which hashes the uploader offers (src/peer.cpp, the loop of the uploader thread up to the offer). It
-- walks along the entries of its own hasher, and leaves out the hashes that the update has brought.
pub mod Offers
pub mod Rounds
mod Runs
use jpgsync.Common.{
  ℕ, zero, suc, Bool, true, false, not, ◌&&◌, List, [], ◌∷◌, ◌++◌, Option, none, some, length, ltb,
  ◌==◌, if◌then◌else◌,
}
use jpgsync.ExifHash.{ExifHash}
use jpgsync.ExifHasher.{Entry, count}
use jpgsync.Protocol.{sync_hashes_per_packet}

-- The variables of the loop; `ahead` is the list from `latest_entry->next` on.
pub record Choice : Type 0 where
  pub ahead : List Entry
  pub processed_entry_count : ℕ
  pub missing_entries : List Entry

-- The condition of the do-while loop.
abbrev pub goes_on : ℕ → ℕ → List Entry → Bool
goes_on total processed missing =
    not (processed == total) && ltb (length missing) sync_hashes_per_packet

-- The do-while loop on `ahead`; `none` is the `next` of the last entry, a null pointer.
unfoldable pub choose : List ExifHash → ℕ → List Entry → ℕ → List Entry → Option Choice
choose received total [] processed missing = none
choose received total (e ∷ es) processed missing =
    let missing' = if count received e.hash then missing else missing ++ e ∷ [] in
    let rest = choose received total es (suc processed) missing' in
    if goes_on total (suc processed) missing'
    then rest
    else some
        (record { ahead = es; processed_entry_count = suc processed; missing_entries = missing' })

-- The offers that the uploader makes until it has processed `total` entries, while the count that it
-- loads in each round is `total` and no more hashes are received; an empty offer is not sent. `none`
-- is a null pointer, or the end of the fuel.
unfoldable pub offers : ℕ → List ExifHash → ℕ → List Entry → ℕ → Option (List (List Entry))
offers zero received total ahead processed = none
offers (suc fuel) received total ahead processed =
    let next : Option (List (List Entry)) = elim (choose received total ahead processed []) [
      | none ↦ none
      | some c ↦ elim (offers fuel received total c.ahead c.processed_entry_count) [
        | none ↦ none
        | some later ↦ elim c.missing_entries [ [] ↦ some later | e ∷ es ↦ some ((e ∷ es) ∷ later) ]
      ]
    ] in
    if processed == total then some [] else next

-- The same where `hasher_entry_count` may have grown each time that it is loaded; `totals` are the
-- values. A round with nothing to process waits. The result has the offers, and how many entries were
-- processed.
unfoldable pub offers_in_rounds :
    List ExifHash → List ℕ → List Entry → ℕ → Option (List (List Entry) × ℕ)
offers_in_rounds received [] ahead processed = some ([], processed)
offers_in_rounds received (total ∷ totals) ahead processed =
    let waited = offers_in_rounds received totals ahead processed in
    let next : Option (List (List Entry) × ℕ) = elim (choose received total ahead processed []) [
      | none ↦ none
      | some c ↦ elim (offers_in_rounds received totals c.ahead c.processed_entry_count) [
        | none ↦ none
        | some (later, end) ↦ elim c.missing_entries [
          | [] ↦ some (later, end)
          | e ∷ es ↦ some ((e ∷ es) ∷ later, end)
        ]
      ]
    ] in
    if processed == total then waited else next
