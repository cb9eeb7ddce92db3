-- ===== src/Tracker/Calls.antt =====
-- `getNextAddr`, `disconnected` and `runDelayQueue` of main/p2p/Tracker.cpp.
use bicast.Base.{
  Bool, false, ◌≡◌, refl, arith, not, ◌&&◌, inl, inr, List, [], ◌∷◌, All, none, Option-cases,
  Bool-cases,
}
use bicast.Base.Assoc
use bicast.Base.Assoc.{lookup}
use bicast.Base.Int.{ltb_ℤ, ℤ, ◌+ℤ◌}
use bicast.Base.Result.{ok, raise, assertion_failed}
use bicast.Inet.{SockAddr}
use bicast.Inet.SockOrder.{IsSock}
use bicast.SrvrInfo.{SockAddr-discrete}
use bicast.Tracker.{DelayElt, compare, Tracker, erase_queue, remove}
use bicast.Tracker.Service.{
  erase, get_next_addr, waits, returns, disconnected, vacated, push_delay, requeue, move_back,
  run_delay_queue,
}
use bicast.Tracker.Queue.{
  Precedes, IsQueue, Lacks, Inserted, Erased, insert_queue-Inserted, erase_queue-Erased,
}
use bicast.Tracker.Stable.{IsQueue-put, IsQueue-all_known, unknown-Lacks}
use bicast.Tracker.Capacity.{IsTracker, length-put_old}

-- What `getNextAddr` does with the queue of a tracker that is not done.
abbrev pub Chosen : Tracker → List SockAddr → Type 0
Chosen t [] = get_next_addr t ≡ ok waits
Chosen t (a ∷ q) =
    (get_next_addr t ≡ ok (returns a (record t { srvr_queue = q })))
    × (All (Precedes t.srvr_infos a) q × IsTracker (record t { srvr_queue = q }))

get_next_addr_queue :
    (t : Tracker) (q : List SockAddr)
    → t.done ≡ false
    → t.srvr_queue ≡ q
    → IsQueue t.srvr_infos q
    → IsTracker t
    → Chosen t q
unfolding get_next_addr
get_next_addr_queue t [] d e w wt = rw (d, e)
get_next_addr_queue t (a ∷ q) d e ((h, hq), (all, s)) wt =
    let known = IsQueue-all_known t.srvr_infos q (hq, s) in
    (
      ground (arith, d, e, known),
      (all, record { queue = (hq, s); bound = wt.bound; room = wt.room }),
    )

-- In a well-formed tracker that is not halted, `getNextAddr` meets no failing assertion: it waits
-- if the queue is empty, and else takes out a server that goes before every other one that is
-- queued, and leaves a well-formed tracker.
pub get_next_addr_lem : (t : Tracker) → t.done ≡ false → IsTracker t → Chosen t t.srvr_queue
get_next_addr_lem t d w = get_next_addr_queue t t.srvr_queue d refl w.queue w

-- In a well-formed tracker, the end of the peer of a well-formed address, at any time, meets no
-- failing assertion: it is answered whether the server is known, and afterwards the server is not
-- queued and the tracker is well formed.
pub disconnected-IsTracker :
    (a : SockAddr) (was_client : Bool) (now : ℤ) (t : Tracker)
    → IsSock a
    → IsTracker t
    → (r : Tracker) × ((disconnected a was_client now t
          ≡ ok (Assoc.has SockAddr-discrete a t.srvr_infos, r))
        × (IsTracker r × Lacks a r.srvr_queue))
unfolding disconnected
disconnected-IsTracker a was_client now t h w =
    elim (Option-cases (lookup SockAddr-discrete a t.srvr_infos)) [
      | inl e ↦
          let k = Assoc.lookup-none-has SockAddr-discrete a t.srvr_infos e in
          (t, (ground (arith, e, k), (w, unknown-Lacks t.srvr_infos a t.srvr_queue k w.queue.0)))
      | inr (i, e) ↦
          let k = Assoc.lookup-has SockAddr-discrete a t.srvr_infos i e in
          let gone : Erased t.srvr_infos a t.srvr_queue =
            erase_queue-Erased t.srvr_infos a t.srvr_queue (h, k) w.queue in
          let i2 = vacated was_client now i in
          (
            record t {
              srvr_infos = Assoc.put SockAddr-discrete a i2 t.srvr_infos;
              srvr_queue = gone.queue;
              delay_queue =
                  push_delay (record { srvr_addr = a; reveal_time = now +ℤ t.delay }) t.delay_queue;
            },
            (
              ground (arith, e, k, gone.outcome),
              (
                record {
                  queue =
                      IsQueue-put t.srvr_infos a i2 gone.queue gone.lacks (gone.known, gone.sorted);
                  bound = ground (arith, w.bound, length-put_old a i2 t.srvr_infos k);
                  room = w.room;
                },
                gone.lacks,
              ),
            ),
          )
    ]

-- A server that is known is put back, and the tracker stays well formed.
requeue-IsTracker :
    (a : SockAddr) (t : Tracker)
    → IsSock a
    → IsTracker t
    → (q : List SockAddr) × ((requeue a t ≡ ok (record t { srvr_queue = q }))
        × IsQueue t.srvr_infos q)
unfolding requeue move_back
requeue-IsTracker a t h w = elim (Bool-cases (Assoc.has SockAddr-discrete a t.srvr_infos)) [
  | inl k ↦
      let gone : Erased t.srvr_infos a t.srvr_queue =
        erase_queue-Erased t.srvr_infos a t.srvr_queue (h, k) w.queue in
      let back : Inserted t.srvr_infos a gone.queue =
        insert_queue-Inserted t.srvr_infos a gone.queue (h, k) (gone.known, gone.sorted) in
      (back.queue, (ground (arith, k, gone.outcome, back.outcome), (back.known, back.sorted)))
  | inr k ↦ (t.srvr_queue, (ground (arith, k), w.queue))
]

run_delay_queue_go :
    (now : ℤ) (t : Tracker) (ds : List DelayElt)
    → t.delay_queue ≡ ds
    → All (λ d. IsSock d.srvr_addr) ds
    → IsTracker t
    → (r : Tracker) × ((run_delay_queue now t ≡ ok r) × IsTracker r)
unfolding run_delay_queue
run_delay_queue_go now t [] e h w = (t, (ground (arith, e), w))
run_delay_queue_go now t (d ∷ ds) e h w =
    let (q, (outcome, queue)) = requeue-IsTracker d.srvr_addr t h.0 w in
    let moved : IsTracker (record t { srvr_queue = q; delay_queue = ds }) = record {
      queue = queue;
      bound = w.bound;
      room = w.room;
    } in
    elim (Bool-cases (not t.done && not (ltb_ℤ now d.reveal_time))) [
      | inl due ↦
          (record t { srvr_queue = q; delay_queue = ds }, (ground (arith, e, outcome, due), moved))
      | inr still ↦ (t, (ground (arith, e, outcome, still), w))
    ]

-- If the tracker is well formed and the delay queue has well-formed addresses, then the thread of
-- the delay queue, when it wakes at any time, meets no failing assertion, and the tracker stays
-- well formed.
pub run_delay_queue-IsTracker :
    (now : ℤ) (t : Tracker)
    → All (λ d. IsSock d.srvr_addr) t.delay_queue
    → IsTracker t
    → (r : Tracker) × ((run_delay_queue now t ≡ ok r) × IsTracker r)
run_delay_queue-IsTracker now t h w = run_delay_queue_go now t t.delay_queue refl h w

-- `erase` of a server that is not known, while any server is queued, fails the assertion of
-- `QueueComp`.
pub erase-abort :
    (a b : SockAddr) (q : List SockAddr) (t : Tracker)
    → t.srvr_queue ≡ b ∷ q
    → lookup SockAddr-discrete a t.srvr_infos ≡ none
    → erase a t ≡ raise assertion_failed
unfolding erase remove erase_queue compare
erase-abort a b q t queued unknown = ground (arith, queued, unknown)
