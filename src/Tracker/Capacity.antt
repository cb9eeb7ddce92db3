-- ===== src/Tracker/Capacity.antt =====
-- The well-formedness of the tracker of main/p2p/Tracker.cpp: its queue is a queue, and it holds no
-- more servers than its capacity.
use bicast.Base.{
  ◌+◌, ◌≤◌, ◌<◌, true, false, ◌≡◌, refl, arith, inl, inr, List, [], ◌∷◌, length, Bool-cases,
}
use bicast.Base.Assoc
use bicast.Base.Assoc.{lookup}
use bicast.Base.Result.{ok}
use bicast.Inet.{SockAddr}
use bicast.Inet.SockOrder.{IsSock}
use bicast.SrvrInfo.{SrvrInfo, SockAddr-discrete}
use bicast.Tracker.{Infos, Tracker, remove, dequeued, update}
use bicast.Tracker.Queue.{
  IsKnown, IsQueue, Lacks, Inserted, Erased, insert_queue-Inserted, erase_queue-Erased,
}
use bicast.Tracker.Stable.{IsQueue-put, IsQueue-erase, unknown-Lacks}

pub record IsTracker (t : Tracker) : Type 0 where
  pub queue : IsQueue t.srvr_infos t.srvr_queue
  pub bound : length t.srvr_infos ≤ t.capacity
  pub room : 0 < t.capacity

pub length-put_new :
    (k : SockAddr) (i : SrvrInfo) (m : Infos)
    → Assoc.has SockAddr-discrete k m ≡ false
    → length (Assoc.put SockAddr-discrete k i m) ≡ length m + 1
unfolding Assoc.put Assoc.has
length-put_new k i [] h = refl
length-put_new k i (e ∷ m) h = ground (arith, length-put_new k i m)

pub length-put_old :
    (k : SockAddr) (i : SrvrInfo) (m : Infos)
    → Assoc.has SockAddr-discrete k m ≡ true
    → length (Assoc.put SockAddr-discrete k i m) ≡ length m
unfolding Assoc.put Assoc.has
length-put_old k i [] h = cc
length-put_old k i (e ∷ m) h = ground (arith, length-put_old k i m)

length-erase-le : (k : SockAddr) (m : Infos) → length (Assoc.erase SockAddr-discrete k m) ≤ length m
unfolding Assoc.erase
length-erase-le k [] = ground arith
length-erase-le k (e ∷ m) = ground (arith, length-erase-le k m)

length-erase-lt :
    (k : SockAddr) (m : Infos)
    → Assoc.has SockAddr-discrete k m ≡ true
    → length (Assoc.erase SockAddr-discrete k m) < length m
unfolding Assoc.erase Assoc.has
length-erase-lt k [] h = cc
length-erase-lt k (e ∷ m) h = ground (arith, length-erase-lt k m, length-erase-le k m)

pub has-erase-false :
    (j k : SockAddr) (m : Infos)
    → Assoc.has SockAddr-discrete j m ≡ false
    → Assoc.has SockAddr-discrete j (Assoc.erase SockAddr-discrete k m) ≡ false
unfolding Assoc.erase Assoc.has
has-erase-false j k [] h = refl
has-erase-false j k (e ∷ m) h = ground (arith, has-erase-false j k m)

-- The erasure of a server that is known succeeds, keeps the tracker well formed and makes room.
pub remove-IsTracker :
    (a : SockAddr) (t : Tracker)
    → IsTracker t
    → IsKnown t.srvr_infos a
    → (r : Tracker) × ((remove a t ≡ ok r)
        × (IsTracker r
            × (length r.srvr_infos < t.capacity)
            × (r.capacity ≡ t.capacity)
            × (r.srvr_infos ≡ Assoc.erase SockAddr-discrete a t.srvr_infos)))
unfolding remove
remove-IsTracker a t w h =
    let e : Erased t.srvr_infos a t.srvr_queue =
      erase_queue-Erased t.srvr_infos a t.srvr_queue h w.queue in
    let less = length-erase-lt a t.srvr_infos h.1 in
    (
      record t { srvr_infos = Assoc.erase SockAddr-discrete a t.srvr_infos; srvr_queue = e.queue },
      (
        rw e.outcome,
        (
          record {
            queue = IsQueue-erase t.srvr_infos a e.queue e.lacks (e.known, e.sorted);
            bound = ground (arith, w.bound, less);
            room = w.room;
          },
          ground (arith, w.bound, less),
          refl,
          refl,
        ),
      ),
    )

-- The first step of `update`: a queue without the server.
pub dequeued-Lacks :
    (a : SockAddr) (t : Tracker)
    → IsSock a
    → IsQueue t.srvr_infos t.srvr_queue
    → (q : List SockAddr) × ((dequeued a t ≡ ok q) × (Lacks a q × IsQueue t.srvr_infos q))
unfolding dequeued
dequeued-Lacks a t h w = elim (Bool-cases (Assoc.has SockAddr-discrete a t.srvr_infos)) [
  | inl k ↦
      let e : Erased t.srvr_infos a t.srvr_queue =
        erase_queue-Erased t.srvr_infos a t.srvr_queue (h, k) w in
      (e.queue, (rw (k, e.outcome), (e.lacks, (e.known, e.sorted))))
  | inr k ↦ (t.srvr_queue, (rw k, (unknown-Lacks t.srvr_infos a t.srvr_queue k w.0, w)))
]

-- `update` succeeds where there is room for the server or it is known.
pub update-IsTracker :
    (i : SrvrInfo) (t : Tracker)
    → IsSock i.srvr_addr
    → IsTracker t
    → length (Assoc.put SockAddr-discrete i.srvr_addr i t.srvr_infos) ≤ t.capacity
    → (r : Tracker) × ((update i t ≡ ok r) × (IsTracker r × (r.capacity ≡ t.capacity)))
unfolding update
update-IsTracker i t h w fits =
    let infos = Assoc.put SockAddr-discrete i.srvr_addr i t.srvr_infos in
    let (q, (outcome, (lacks, qq))) = dequeued-Lacks i.srvr_addr t h w.queue in
    let e : Inserted infos i.srvr_addr q =
      insert_queue-Inserted infos i.srvr_addr q
        (h, Assoc.has-put_self SockAddr-discrete i.srvr_addr i t.srvr_infos)
        (IsQueue-put t.srvr_infos i.srvr_addr i q lacks qq) in
    (
      record t { srvr_infos = infos; srvr_queue = e.queue },
      (
        rw (outcome, e.outcome),
        (record { queue = (e.known, e.sorted); bound = fits; room = w.room }, refl),
      ),
    )
