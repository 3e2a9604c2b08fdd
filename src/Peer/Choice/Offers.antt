-- ===== src/Peer/Choice/Offers.antt =====
-- The offers together are the entries that the update has not brought, each once and in order.
use jpgsync.Common.{
  ℕ, zero, suc, ◌+◌, ◌-◌, ◌≤◌, ◌<◌, ◌≡◌, refl, sym, ap, ◌∙◌, false, List, [], ◌∷◌, ◌++◌, some,
  take-append_left, drop-append_left, take-add, List-cases, append_assoc, append-nil, arith, length,
  length-append, take, All, ◌==◌, ==_iff, Bool-cases, inl, inr, if◌then◌else◌,
}
use mathlib.Core.List.{flatten}
use jpgsync.ExifHash.{ExifHash}
use jpgsync.ExifHasher.{Entry, count}
use jpgsync.Protocol.{sync_hashes_per_packet}
use jpgsync.Peer.Choice.{Choice, goes_on, choose, offers}

-- The entries whose hashes are not among the received ones.
unfoldable pub not_received : List ExifHash → List Entry → List Entry
not_received received [] = []
not_received received (e ∷ es) =
    if count received e.hash then not_received received es else e ∷ not_received received es

-- What one round of the uploader has done: it has gone through `passed`, and `missing` holds those of
-- them that it will offer.
pub record Chosen (received : List ExifHash) (total processed : ℕ) (ahead missing : List Entry)
    (c : Choice) : Type 0 where
  pub passed : List Entry
  pub left : ahead ≡ passed ++ c.ahead
  pub chosen : c.missing_entries ≡ missing ++ not_received received passed
  pub counted : c.processed_entry_count ≡ processed + length passed
  pub some_passed : 0 < length passed
  pub not_past : c.processed_entry_count ≤ total
  pub fits : length c.missing_entries ≤ sync_hashes_per_packet

module _ (received : List ExifHash) (total : ℕ) where
  add : Entry → List Entry → List Entry
  add e missing = if count received e.hash then missing else missing ++ e ∷ []

  add-not_received :
      (e : Entry) (missing passed : List Entry)
      → add e missing ++ not_received received passed
        ≡ missing ++ not_received received (e ∷ passed)
  unfolding add not_received
  add-not_received e missing passed =
      ground (arith, append_assoc missing (e ∷ []) (not_received received passed))

  length-add : (e : Entry) (missing : List Entry) → length (add e missing) ≤ suc (length missing)
  unfolding add
  length-add e missing = ground (arith, length-append missing (e ∷ []))

  pub choose_lem :
      (ahead : List Entry) (processed : ℕ) (missing : List Entry)
      → processed < total
      → total ≤ processed + length ahead
      → length missing < sync_hashes_per_packet
      → (c : Choice) × (choose received total ahead processed missing ≡ some c)
        × Chosen received total processed ahead missing c
  unfolding choose add not_received
  choose_lem [] processed missing lt le fits = absurd (omega arith)
  choose_lem (e ∷ es) processed missing lt le fits =
      elim (Bool-cases (goes_on total (suc processed) (add e missing))) [
        | inl on ↦
            let (c, eq, r) =
              choose_lem es (suc processed) (add e missing) (ground arith) (omega arith)
                (ground arith) in
            (
              c,
              rw on eq,
              record {
                passed = e ∷ r.passed;
                left = ap (◌∷◌ e) r.left;
                chosen = r.chosen ∙ add-not_received e missing r.passed;
                counted = omega (arith, r.counted);
                some_passed = omega arith;
                not_past = r.not_past;
                fits = r.fits;
              },
            )
        | inr off ↦ (
          record {
            ahead = es;
            processed_entry_count = suc processed;
            missing_entries = add e missing;
          },
          rw off,
          record {
            passed = e ∷ [];
            left = refl;
            chosen = sym (append-nil (add e missing)) ∙ add-not_received e missing [];
            counted = omega arith;
            some_passed = omega arith;
            not_past = omega arith;
            fits = omega (arith, length-add e missing);
          },
        )
      ]

pub not_received-append :
    (received : List ExifHash) (xs ys : List Entry)
    → not_received received (xs ++ ys) ≡ not_received received xs ++ not_received received ys
unfolding not_received
not_received-append received [] ys = refl
not_received-append received (e ∷ xs) ys = ground (arith, not_received-append received xs ys)

pub take_past :
    (total processed p' : ℕ) (ahead passed after : List Entry)
    → ahead ≡ passed ++ after
    → p' ≡ processed + length passed
    → p' ≤ total
    → take (total - processed) ahead ≡ passed ++ take (total - p') after
take_past total processed p' ahead passed after e counted le =
    let sum : total - processed ≡ length passed + (total - p') = omega arith in
    rw (sum, e)
      (take-add (length passed) (total - p') (passed ++ after)
        ∙ rw (
          take-append_left (length passed) passed after refl,
          drop-append_left (length passed) passed after refl,
        ))

-- What the offers of a run are.
pub record Offered (fuel : ℕ) (received : List ExifHash) (total : ℕ) (ahead : List Entry)
    (processed : ℕ) : Type 0 where
  pub os : List (List Entry)
  pub result : offers fuel received total ahead processed ≡ some os
  pub all : flatten os ≡ not_received received (take (total - processed) ahead)
  pub sizes : All (λ o. (0 < length o) × (length o ≤ sync_hashes_per_packet)) os

module _ (received : List ExifHash) (total : ℕ) where
  round_lem :
      (fuel : ℕ) (ahead : List Entry) (processed : ℕ) (c : Choice)
      → (processed == total) ≡ false
      → choose received total ahead processed [] ≡ some c
      → Chosen received total processed ahead [] c
      → Offered fuel received total c.ahead c.processed_entry_count
      → Offered (suc fuel) received total ahead processed
  unfolding offers flatten
  round_lem fuel ahead processed c ne eq r later =
      let split =
        take_past total processed c.processed_entry_count ahead r.passed c.ahead r.left r.counted
          r.not_past in
      let chosen : c.missing_entries ++ flatten later.os
          ≡ not_received received (take (total - processed) ahead) =
        rw (split, r.chosen, later.all) (sym (not_received-append received r.passed _)) in
      elim (List-cases c.missing_entries) [
        | inl e ↦ record {
          os = later.os;
          result = rw (ne, eq, later.result, e);
          all = rw e at chosen;
          sizes = later.sizes;
        }
        | inr (m, ms, e) ↦ record {
          os = (m ∷ ms) ∷ later.os;
          result = rw (ne, eq, later.result, e);
          all = rw e at chosen;
          sizes = ((omega arith, omega (arith, r.fits, ap length e)), later.sizes);
        }
      ]

  offers_loop :
      (fuel : ℕ) (ahead : List Entry) (processed : ℕ)
      → processed ≤ total
      → total ≤ processed + length ahead
      → total < fuel + processed
      → Offered fuel received total ahead processed
  unfolding offers not_received flatten
  offers_loop zero ahead processed le enough fuel_lt = absurd (omega arith)
  offers_loop (suc fuel) ahead processed le enough fuel_lt =
      elim (Bool-cases (processed == total)) [
        | inl e ↦
            let z : total - processed ≡ 0 = omega (arith, (==_iff processed total).0 e) in
            record { os = []; result = rw e; all = rw z; sizes = tt }
        | inr ne ↦
            let (c, eq, r) =
              choose_lem received total ahead processed [] (ground arith) enough (omega arith) in
            round_lem fuel ahead processed c ne eq r (
              offers_loop fuel c.ahead c.processed_entry_count r.not_past
                (omega (arith, ap length r.left, length-append r.passed c.ahead, r.counted))
                (omega (arith, r.counted, r.some_passed)))
      ]

  -- For a hasher that has found `total` entries at least, the loop ends without going past the last
  -- entry: its offers, one after the other, are the first `total` entries without those whose hashes
  -- were received, and each offer has one hash at least and no more than a packet holds.
  pub offers_lem :
      (ahead : List Entry) → total ≤ length ahead → Offered (suc total) received total ahead 0
  offers_lem ahead h = offers_loop (suc total) ahead 0 (omega arith) (omega arith) (omega arith)
