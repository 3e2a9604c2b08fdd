-- ===== src/Peer/Choice/Rounds.antt =====
-- However the count of entries grows between the rounds of the uploader, its offers are the same entries.
use mathlib.Core.Path.{subst}
use jpgsync.Common.{
  zero-add, ℕ, ◌+◌, ◌-◌, ◌≤◌, ◌<◌, ◌≡◌, refl, sym, ap, false, List, [], ◌∷◌, ◌++◌, some, List-cases,
  arith, length, length-append, take, All, ◌==◌, Bool-cases, inl, inr,
}
use mathlib.Core.List.{flatten}
use jpgsync.ExifHash.{ExifHash}
use jpgsync.ExifHasher.{Entry}
use jpgsync.Protocol.{sync_hashes_per_packet}
use jpgsync.Peer.Choice.{Choice, choose, offers_in_rounds}
use jpgsync.Peer.Choice.Offers.{Chosen, choose_lem, not_received, not_received-append, take_past}

-- The values of a counter that only grows, from a number on and up to another.
abbrev pub Growing : ℕ → List ℕ → ℕ → Type 0
Growing low [] high = low ≤ high
Growing low (n ∷ ns) high = (low ≤ n) × Growing n ns high

Growing-weaken :
    (low low' high : ℕ) (ns : List ℕ) → low' ≤ low → Growing low ns high → Growing low' ns high
Growing-weaken low low' high [] le g = omega arith
Growing-weaken low low' high (n ∷ ns) le (g, gs) = (omega arith, gs)

Growing-low : (low high : ℕ) (ns : List ℕ) → Growing low ns high → low ≤ high
Growing-low low high [] g = g
Growing-low low high (n ∷ ns) (g, gs) = omega (arith, Growing-low n high ns gs)

-- What the offers are, of which `end` entries were processed.
pub record InRounds (received : List ExifHash) (totals : List ℕ) (ahead : List Entry)
    (processed : ℕ) : Type 0 where
  pub os : List (List Entry)
  pub end : ℕ
  pub result : offers_in_rounds received totals ahead processed ≡ some (os, end)
  pub reached : processed ≤ end
  pub all : flatten os ≡ not_received received (take (end - processed) ahead)
  pub sizes : All (λ o. (0 < length o) × (length o ≤ sync_hashes_per_packet)) os

module _ (received : List ExifHash) where
  round_more :
      (total : ℕ) (totals : List ℕ) (ahead : List Entry) (processed : ℕ) (c : Choice)
      → (processed == total) ≡ false
      → choose received total ahead processed [] ≡ some c
      → Chosen received total processed ahead [] c
      → InRounds received totals c.ahead c.processed_entry_count
      → InRounds received (total ∷ totals) ahead processed
  unfolding offers_in_rounds flatten
  round_more total totals ahead processed c ne eq r later =
      let split =
        take_past later.end processed c.processed_entry_count ahead r.passed c.ahead r.left
          r.counted later.reached in
      let chosen : c.missing_entries ++ flatten later.os
          ≡ not_received received (take (later.end - processed) ahead) =
        rw (split, r.chosen, later.all) (sym (not_received-append received r.passed _)) in
      let further : processed ≤ later.end = omega (arith, later.reached, r.counted) in
      elim (List-cases c.missing_entries) [
        | inl e ↦ record {
          os = later.os;
          end = later.end;
          result = rw (ne, eq, later.result, e);
          reached = further;
          all = rw e at chosen;
          sizes = later.sizes;
        }
        | inr (m, ms, e) ↦ record {
          os = (m ∷ ms) ∷ later.os;
          end = later.end;
          result = rw (ne, eq, later.result, e);
          reached = further;
          all = rw e at chosen;
          sizes = ((omega arith, omega (arith, r.fits, ap length e)), later.sizes);
        }
      ]

  rounds_lem :
      (totals : List ℕ) (ahead : List Entry) (processed : ℕ)
      → Growing processed totals (processed + length ahead)
      → InRounds received totals ahead processed
  unfolding offers_in_rounds not_received flatten
  rounds_lem [] ahead processed g =
      let z : processed - processed ≡ 0 = omega arith in
      record {
        os = [];
        end = processed;
        result = refl;
        reached = omega arith;
        all = rw z;
        sizes = tt;
      }
  rounds_lem (total ∷ totals) ahead processed (le, g) = elim (Bool-cases (processed == total)) [
    | inl e ↦
        let later =
          rounds_lem totals ahead processed (Growing-weaken total processed _ totals le g) in
        record {
          os = later.os;
          end = later.end;
          result = rw (e, later.result);
          reached = later.reached;
          all = later.all;
          sizes = later.sizes;
        }
    | inr ne ↦
        let (c, eq, r) =
          choose_lem received total ahead processed [] (ground arith) (Growing-low total _ totals g)
            (omega arith) in
        let bound : processed + length ahead ≡ c.processed_entry_count + length c.ahead =
          omega (arith, ap length r.left, length-append r.passed c.ahead, r.counted) in
        round_more total totals ahead processed c ne eq r (
          rounds_lem totals c.ahead c.processed_entry_count
            (Growing-weaken total c.processed_entry_count _ totals r.not_past (rw bound at (g))))
  ]

  -- Whatever values of the growing count the rounds of the uploader load, up to the number of entries: no
  -- round goes past the last entry, and the offers, one after the other, are the entries that were
  -- processed without those whose hashes were received. Each has one hash at least and no more than a
  -- packet holds.
  pub offers_in_rounds_lem :
      (totals : List ℕ) (entries : List Entry)
      → Growing 0 totals (length entries)
      → InRounds received totals entries 0
  offers_in_rounds_lem totals entries g =
      rounds_lem totals entries 0 (subst (Growing 0 totals) (sym (zero-add (length entries))) g)
