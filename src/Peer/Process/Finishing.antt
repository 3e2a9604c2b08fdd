-- ===== src/Peer/Process/Finishing.antt =====
-- Where `HashExif` throws for no image, hashing can finish and the update be closed.
use jpgsync.Common.{ℕ, zero, suc, ◌≡◌, ◌≢◌, refl, ◌∙◌, true, inl, inr, List, [], ◌∷◌, arith}
use jpgsync.ExifHash.{ExifHash}
use jpgsync.ExifHasher.{
  Hashed, thrown, unhashed, digest, Hasher, Producer, hashing, linked, finishing, finished,
  terminated, run_step, add_hashed,
}
use jpgsync.ExifHasher.Delivery.{run_steps, steps_left, steps_left_end}
use jpgsync.Protocol.{update_hashes_per_packet}
use jpgsync.Peer.Process.{
  Process, Reach, hash, ask, batch, finish, add_count, notify_progress, send, close, load, await,
  leave, wake, offer, start, later,
}
use jpgsync.Peer.Process.Closing.{Closes, closes}
use jpgsync.Peer.Process.Continuing.{stop, go, join, Run-Reach, Downloading}

add_hashed-alive :
    (r : Hashed) (path : List ℕ) (rest : List (List ℕ)) (h : Hasher)
    → r ≢ thrown
    → (add_hashed true r path rest h).0 ≢ terminated
unfolding add_hashed
add_hashed-alive thrown path rest h alive e = alive refl
add_hashed-alive unhashed path rest h alive e = cc
add_hashed-alive (digest d) path rest h alive e = ground (arith, e)

module _ {hash_exif : List ℕ → Hashed} where
  run_step-alive :
      (p : Producer) (h : Hasher)
      → ((path : List ℕ) → hash_exif path ≢ thrown)
      → p ≢ terminated
      → (run_step update_hashes_per_packet true hash_exif p h).0 ≢ terminated
  unfolding run_step
  run_step-alive (hashing []) h safe alive e = cc
  run_step-alive (hashing ([] ∷ rest)) h safe alive e = cc
  run_step-alive (hashing ((c ∷ cs) ∷ rest)) h safe alive e =
      add_hashed-alive (hash_exif (c ∷ cs)) (c ∷ cs) rest h (safe (c ∷ cs)) e
  run_step-alive (linked rest) h safe alive e = ground (arith, e)
  run_step-alive finishing h safe alive e = cc
  run_step-alive finished h safe alive e = cc
  run_step-alive terminated h safe alive e = alive refl

module _ {hash_exif : List ℕ → Hashed} {received : List ExifHash} where
  -- `k` steps of the hashing thread.
  hash_on :
      (k : ℕ) (s : Process)
      → (t : Process) × Downloading hash_exif received s t
        × (t.system.producer
            ≡ (run_steps update_hashes_per_packet true hash_exif k s.system.producer
                s.system.hasher).0)
  unfolding run_steps
  hash_on zero s = (s, stop, refl)
  hash_on (suc k) s = let (t, r, e) = hash_on k _ in (t, go hash refl r, e)

module _ {hash_exif : List ℕ → Hashed} {received : List ExifHash} {paths : List (List ℕ)} where
  alive :
      {s : Process}
      → Reach hash_exif received paths s
      → ((path : List ℕ) → hash_exif path ≢ thrown)
      → s.system.producer ≢ terminated
  alive start safe e = cc
  alive (later {s} r hash) safe e =
      run_step-alive s.system.producer s.system.hasher safe (alive r safe) e
  alive (later r (ask here free ready)) safe e = alive r safe e
  alive (later r (batch here taking walk)) safe e = alive r safe e
  alive (later r (finish here taking walk)) safe e = alive r safe e
  alive (later r (add_count here)) safe e = alive r safe e
  alive (later r (notify_progress here)) safe e = alive r safe e
  alive (later r (send here)) safe e = alive r safe e
  alive (later r (close here)) safe e = alive r safe e
  alive (later r (load here)) safe e = alive r safe e
  alive (later r (await here all on)) safe e = alive r safe e
  alive (later r (leave here all over)) safe e = alive r safe e
  alive (later r (wake here)) safe e = alive r safe e
  alive (later r (offer here some_more chosen)) safe e = alive r safe e

  -- Let `HashExif` throw for no image. Then from every reachable state the hashing thread and the
  -- downloader can go on until the update is closed, without a step of the uploader.
  pub closes_alone :
      {s : Process}
      → Reach hash_exif received paths s
      → ((path : List ℕ) → hash_exif path ≢ thrown)
      → Closes hash_exif received s
  closes_alone {s} r safe =
      let k = steps_left s.system.producer in
      let (s1, r1, e1) = hash_on {received = received} k s in
      let a1 = Run-Reach r r1 in
      let fin : s1.system.producer ≡ finished =
        elim (steps_left_end update_hashes_per_packet true hash_exif k s.system.producer
          s.system.hasher (omega arith)) [
            | inl fin ↦ e1 ∙ fin
            | inr dead ↦ absurd (alive a1 safe (e1 ∙ dead))
          ] in
      let (s2, r2, over) = closes a1 fin in (s2, join r1 r2, over)
