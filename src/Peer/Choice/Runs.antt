-- ===== src/Peer/Choice/Runs.antt =====
-- Tests of the choice of the hashes to offer, and its theorem at a concrete hasher.
use jpgsync.Common.{ℕ, ◌≡◌, refl, List, [], ◌∷◌, some}
use jpgsync.ExifHash.{eq}
use jpgsync.ExifHasher.{Entry, count}
use jpgsync.Peer.Choice.{offers, choose}

abbrev image : ℕ → Entry
image n = record {
  hash = record { word0 = 0; word1 = 0; word2 = 0; word3 = 0; word4 = n };
  path = n ∷ [];
}

abbrev found : List Entry
found = image 1 ∷ image 2 ∷ image 3 ∷ image 4 ∷ []

-- Of three processed images the second was received, and a fourth image is left for later.
offers-three : offers 4 ((image 2).hash ∷ []) 3 found 0 ≡ some ((image 1 ∷ image 3 ∷ []) ∷ [])
unfolding offers choose count eq
offers-three = refl
