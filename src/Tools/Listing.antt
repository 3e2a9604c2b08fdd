-- ===== src/Tools/Listing.antt =====
-- What a tool has done when its loop ends.
use mathlib.Core.Option.{some-injective}
use jpgsync.Common.{
  ℕ, ◌≡◌, refl, ap, sym, ◌∙◌, Bool, false, List, [], ◌∷◌, ◌++◌, some, arith, inl, inr,
  if◌then◌else◌,
}
use jpgsync.ExifHasher.{Entry, Hashed, Hasher, Producer, finished, run_step, get_take}
use jpgsync.ExifHasher.Steps.{System}
use jpgsync.ExifHasher.Images.{images, distinct}
use jpgsync.ExifHasher.Delivery.{get_take_end}
use jpgsync.ExifHasher.Listing.{listed_once}
use jpgsync.Protocol.{Outcome, returned, threw, fatal, stuck, ◌>>=◌}
use jpgsync.Tools.{on_all, Reach, start, produce, take, body, break}

bind_returned {ℓ} : {A : Type ℓ} (o : Outcome A) → (o >>= λ a. returned a) ≡ o
bind_returned (returned a) = refl
bind_returned threw = refl
bind_returned fatal = refl
bind_returned stuck = refl

-- A step behind all results of a call.
bind_behind {ℓ} :
    {A : Type ℓ} (f g h : A → Outcome A) (o : Outcome A)
    → ((a : A) → f a ≡ (g a >>= h))
    → (o >>= f) ≡ ((o >>= g) >>= h)
bind_behind f g h (returned a) eq = eq a
bind_behind f g h threw eq = refl
bind_behind f g h fatal eq = refl
bind_behind f g h stuck eq = refl

on_all-append :
    {O : Type 0} (emit : O → Entry → Outcome O) (out : O) (es : List Entry) (e : Entry)
    → on_all emit out (es ++ e ∷ []) ≡ (on_all emit out es >>= λ out'. emit out' e)
unfolding on_all
on_all-append emit out [] e = bind_returned (emit out e)
on_all-append emit out (x ∷ es) e =
    bind_behind (λ out'. on_all emit out' (es ++ e ∷ [])) (λ out'. on_all emit out' es)
      (λ out'. emit out' e) (emit out x) (λ out'. on_all-append emit out' es e)

module _ {O : Type 0} (unique : Bool) (hash_exif : List ℕ → Hashed)
    (emit : O → Entry → Outcome O) where
  -- The hasher of a tool is one with the threshold 1.
  hasher_reach :
      {paths : List (List ℕ)} {out0 out : O} {s : System} {going : Bool}
      → Reach unique hash_exif emit paths out0 s out going
      → jpgsync.ExifHasher.Steps.Reach 1 unique hash_exif paths s
  hasher_reach start = jpgsync.ExifHasher.Steps.start
  hasher_reach (produce r) =
      jpgsync.ExifHasher.Steps.later (hasher_reach r) jpgsync.ExifHasher.Steps.produce
  hasher_reach (take r idle ready) =
      jpgsync.ExifHasher.Steps.later (hasher_reach r) (jpgsync.ExifHasher.Steps.take 1 idle ready)
  hasher_reach (body r taken walk done) =
      jpgsync.ExifHasher.Steps.later (hasher_reach r) (jpgsync.ExifHasher.Steps.walk taken walk)
  hasher_reach (break r taken) = hasher_reach r

  on_all-delivered :
      {paths : List (List ℕ)} {out0 out : O} {s : System} {going : Bool}
      → Reach unique hash_exif emit paths out0 s out going
      → on_all emit out0 s.delivered ≡ returned out
  unfolding on_all
  on_all-delivered start = refl
  on_all-delivered (produce r) = on_all-delivered r
  on_all-delivered (take r idle ready) = on_all-delivered r
  on_all-delivered {out0 = out0} (body {s = s} {out = out} {e = e} r taken walk done) =
      on_all-append emit out0 s.delivered e
      ∙ ap (λ o. o >>= λ out'. emit out' e) (on_all-delivered r)
      ∙ done
  on_all-delivered (break r taken) = on_all-delivered r

  -- Where `Get` has taken nothing, hashing is finished, and every entry was returned.
  all_delivered :
      {paths : List (List ℕ)} {out0 out : O} {s : System} {going : Bool}
      → Reach unique hash_exif emit paths out0 s out going
      → s.taking ≡ some 0
      → (s.producer ≡ finished) × (s.delivered ≡ s.hasher.entries)
  unfolding run_step get_take
  all_delivered start e = absurd (ground arith)
  all_delivered (produce r) e = let (fin, all) = all_delivered r e in rw fin (refl, all)
  all_delivered (take {s = s} r idle ready) e =
      get_take_end 1 unique hash_exif (omega arith) (inr refl) (hasher_reach r) 1 idle (omega arith)
        ready (some-injective _ _ e)
  all_delivered (body r taken walk done) e = absurd (ground arith)
  all_delivered (break r taken) e = all_delivered r e

  none_taken :
      {paths : List (List ℕ)} {out0 out : O} {s : System} {going : Bool}
      → Reach unique hash_exif emit paths out0 s out going
      → going ≡ false
      → s.taking ≡ some 0
  none_taken start e = absurd (ground arith)
  none_taken (produce r) e = none_taken r e
  none_taken (take r idle ready) e = absurd (ground arith)
  none_taken (body r taken walk done) e = absurd (ground arith)
  none_taken (break r taken) e = taken

  -- When the loop of a tool has ended, it has dealt with the images of its command line up to the first
  -- empty argument, all of them or with `unique` the first of each hash, in their order and with each
  -- once.
  pub on_all-images :
      {paths : List (List ℕ)} {out0 out : O} {s : System}
      → Reach unique hash_exif emit paths out0 s out false
      → on_all emit out0
          (if unique then distinct (images hash_exif paths) else images hash_exif paths)
        ≡ returned out
  on_all-images {out0 = out0} {s = s} r =
      let (fin, all) = all_delivered r (none_taken r refl) in
      ap (on_all emit out0)
        (sym (listed_once 1 unique hash_exif (hasher_reach r) (inl fin)) ∙ sym all)
      ∙ on_all-delivered r
