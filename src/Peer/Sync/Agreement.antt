-- ===== src/Peer/Sync/Agreement.antt =====
-- What a sync in both directions comes to: the two sides then have images of the same hashes.
use mathlib.Core.List.{flatten}
use jpgsync.Common.{
  ◌≡◌, refl, ap, sym, ◌∙◌, Bool, true, ◌&&◌, not, inl, inr, List, [], ◌∷◌, ◌++◌, arith, Bool-cases,
}
use jpgsync.ExifHash.{ExifHash, eq}
use jpgsync.ExifHash.Table.{eq_iff}
use jpgsync.ExifHasher.{Entry, count}
use jpgsync.ExifHasher.Images.{distinct}
use jpgsync.ExifHasher.Contents.{hashes_of, count-distinct}
use jpgsync.ExifHasher.Sets.{set_of, set_of_same, set_of_swapped, count-++}
use jpgsync.Host.{Host}
use jpgsync.Peer.Progress.{left}
use jpgsync.Peer.Update.Collecting
use jpgsync.Peer.Update.Collecting.{Collector, collector, Arrival}
use jpgsync.Peer.Session.Complete.{lacking}
use jpgsync.Peer.Process.{Process, closed}
use jpgsync.Peer.Process.Alone.{system-Reach}
use jpgsync.Peer.Process.Ends.{update_complete}
use jpgsync.Peer.Process.Leaving.{left_closed}
use jpgsync.Peer.Sync.{Directory, images_of, missing_images, AllArrived, contains_images}
use jpgsync.Peer.Sync.Threads.{Running, received_sent, offers_missing}

hashes_of-++ : (xs ys : List Entry) → hashes_of (xs ++ ys) ≡ hashes_of xs ++ hashes_of ys
hashes_of-++ [] ys = refl
hashes_of-++ (x ∷ xs) ys = ap (◌∷◌ x.hash) (hashes_of-++ xs ys)

count-lacking :
    (c : ExifHash → Bool) (es : List Entry) (h : ExifHash)
    → count (hashes_of (lacking c es)) h ≡ (count (hashes_of es) h && not (c h))
unfolding lacking count
count-lacking c [] h = refl
count-lacking c (e ∷ es) h = elim (Bool-cases (eq e.hash h)) [
  | inl same ↦
      let hit : c e.hash ≡ c h = ap c ((eq_iff e.hash h).0 same) in
      ground (arith, hit, count-lacking c es h)
  | inr other ↦ ground (arith, count-lacking c es h)
]

count-missing :
    (ours theirs : Directory) (h : ExifHash)
    → count (hashes_of (missing_images ours theirs)) h
      ≡ (count (hashes_of (images_of ours)) h && not (count (hashes_of (images_of theirs)) h))
count-missing ours theirs h =
    count-lacking (count (hashes_of (images_of theirs))) (distinct (images_of ours)) h
    ∙ ap (λ b. b && not (count (hashes_of (images_of theirs)) h))
        (count-distinct h (images_of ours))

-- What one side has when the images that it lacked have arrived.
set_of_arrived :
    (ours theirs : Directory)
    → set_of (hashes_of (images_of theirs ++ missing_images ours theirs))
      ≡ set_of (hashes_of (images_of theirs) ++ hashes_of (images_of ours))
set_of_arrived ours theirs =
    ap set_of (hashes_of-++ (images_of theirs) (missing_images ours theirs))
    ∙ set_of_same _ _ (λ h. ground (
      arith,
      count-++ (hashes_of (images_of theirs)) (hashes_of (missing_images ours theirs)) h,
      count-++ (hashes_of (images_of theirs)) (hashes_of (images_of ours)) h,
      count-missing ours theirs h,
    ))

module _ (host : Host) where
  received_images :
      (d : Directory) {other : List ExifHash} {q : Process} {taken later : List Arrival}
      {before after : Collector} (h : ExifHash)
      → Running d other q
      → q.sending ≡ closed
      → AllArrived taken (flatten q.batches)
      → Collecting.Reach host collector taken before
      → before.updated ≡ true
      → Collecting.Reach host before later after
      → count after.received h ≡ count (hashes_of (images_of d)) h
  received_images d {q = q} h r over all b marked a =
      received_sent host d h r over all b marked a
      ∙ contains_images d q.system h (system-Reach r) (inl (update_complete r over).0)

  -- Let a process have closed its update, and let its packets have arrived, in any order, before the
  -- end of the update is marked. Whatever arrives behind that, what the other side has received is, as
  -- a set, the hashes of the images in the directory of the process.
  pub received_set :
      (d : Directory) {other : List ExifHash} {q : Process} {taken later : List Arrival}
      {before after : Collector}
      → Running d other q
      → q.sending ≡ closed
      → AllArrived taken (flatten q.batches)
      → Collecting.Reach host collector taken before
      → before.updated ≡ true
      → Collecting.Reach host before later after
      → set_of after.received ≡ set_of (hashes_of (images_of d))
  received_set d r over all b marked a =
      set_of_same _ _ (λ h. received_images d h r over all b marked a)

  -- Let two processes sync, with their threads interleaved in any order, and let both uploaders have
  -- left their loops, with all entries processed that their own downloaders counted. Let the packets of
  -- each update have arrived, in any order, before its end is marked. Then the offers of each side are
  -- the images that the other has not, and the two sides agree when these have arrived: as sets, the
  -- hashes of the images on one side and of those offered to it are the same as on the other side.
  pub peers_agree :
      (ours theirs : Directory) (p q : Process) {taken_p later_p taken_q later_q : List Arrival}
      {before_p after_p before_q after_q : Collector}
      → Running ours after_p.received p
      → Running theirs after_q.received q
      → p.uploader ≡ left
      → q.uploader ≡ left
      → p.processed_entry_count ≡ p.hasher_entry_count
      → q.processed_entry_count ≡ q.hasher_entry_count
      → AllArrived taken_p (flatten q.batches)
      → Collecting.Reach host collector taken_p before_p
      → before_p.updated ≡ true
      → Collecting.Reach host before_p later_p after_p
      → AllArrived taken_q (flatten p.batches)
      → Collecting.Reach host collector taken_q before_q
      → before_q.updated ≡ true
      → Collecting.Reach host before_q later_q after_q
      → (flatten p.offers ≡ missing_images ours theirs)
        × (flatten q.offers ≡ missing_images theirs ours)
        × (set_of (hashes_of (images_of theirs ++ flatten p.offers))
            ≡ set_of (hashes_of (images_of ours ++ flatten q.offers)))
  peers_agree ours theirs p q {after_p = after_p} {after_q = after_q} rp rq gone_p gone_q all_p
        all_q arrived_p b_p marked_p a_p arrived_q b_q marked_q a_q =
      let over_p = left_closed rp gone_p in
      let over_q = left_closed rq gone_q in
      let to_theirs =
        offers_missing ours theirs after_p.received p rp over_p all_p
          (λ h. received_images theirs h rq over_q arrived_p b_p marked_p a_p) in
      let to_ours =
        offers_missing theirs ours after_q.received q rq over_q all_q
          (λ h. received_images ours h rp over_p arrived_q b_q marked_q a_q) in
      (
        to_theirs,
        to_ours,
        rw (to_theirs, to_ours)
            (set_of_arrived ours theirs
              ∙ set_of_swapped (hashes_of (images_of theirs)) (hashes_of (images_of ours))
              ∙ sym (set_of_arrived theirs ours)),
      )
