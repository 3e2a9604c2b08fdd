-- ===== src/ExifHasher/Steps.antt =====
-- The two threads of a hasher, interleaved in any order.
use jpgsync.Common.{ℕ, ◌≡◌, Bool, true, List, [], ◌++◌, Option, none, some}
use jpgsync.ExifHasher.{
  Entry, Hashed, Hasher, exif_hasher, Producer, hashing, run_step, get_ready, get_take, get_walk,
}

pub record System : Type 0 where
  pub hasher : Hasher
  pub producer : Producer
  -- what a call of `Get` took under the lock, until it has walked that far
  pub taking : Option ℕ
  -- the entries that calls of `Get` have returned
  pub delivered : List Entry

abbrev pub init : List (List ℕ) → System
init paths = record {
  hasher = exif_hasher;
  producer = hashing paths;
  taking = none;
  delivered = [];
}

module _ (threshold : ℕ) (unique : Bool) (hash_exif : List ℕ → Hashed) where
  pub data Step (s : System) : System → Type 0 where
    produce : Step s (record s {
      producer = (run_step threshold unique hash_exif s.producer s.hasher).0;
      hasher = (run_step threshold unique hash_exif s.producer s.hasher).1;
    })
    take :
        (wanted : ℕ)
        → s.taking ≡ none
        → get_ready wanted s.hasher ≡ true
        → Step s (record s {
          taking = some (get_take wanted s.hasher).0;
          hasher = (get_take wanted s.hasher).1;
        })
    walk :
        {taken : ℕ} {reached : List Entry} {after : Hasher}
        → s.taking ≡ some taken
        → get_walk taken s.hasher ≡ some (reached, after)
        → Step s (record s { taking = none; hasher = after; delivered = s.delivered ++ reached })

  pub data Reach (paths : List (List ℕ)) : System → Type 0 where
    start : Reach paths (init paths)
    later : {s t : System} → Reach paths s → Step s t → Reach paths t
