-- ===== src/Tracker/Service.antt =====
-- What main/p2p/Tracker.cpp does for its callers and for the thread of its delay queue.
use bicast.Base.{List, [], ◌∷◌, if◌then◌else◌, not, Bool, true, false, none, some}
use bicast.Base.Int.{ℤ, pos, negsuc, ◌+ℤ◌, ltb_ℤ}
use bicast.Base.Result.{Result, ok, ◌>>=◌, ◌>>◌}
use bicast.Base.Assoc
use bicast.Base.Assoc.{lookup}
use bicast.Inet.{SockAddr}
use bicast.SrvrInfo.{SrvrInfo, SockAddr-discrete, valid_metrics}
use bicast.Tracker.{
  DelayElt, Tracker, equal_ℤ, insert_queue, erase_queue, all_known, assert_that, remove,
}

-- `getNextAddr`: it waits, or it returns an address.
pub data Next : Type 0 where
  waits : Next
  returns : SockAddr → Tracker → Next

unfoldable pub get_next_addr : Tracker → Result Next
get_next_addr t = if t.done then ok (returns none t) else elim t.srvr_queue [
  | [] ↦ ok waits
  | a ∷ q ↦ do assert_that (all_known t.srvr_infos q); ok (returns a (record t { srvr_queue = q }))
]

unfoldable pub erase : SockAddr → Tracker → Result Tracker
erase = remove

-- `delayQueue.emplace`.
unfoldable pub push_delay : DelayElt → List DelayElt → List DelayElt
push_delay d [] = d ∷ []
push_delay d (e ∷ ds) =
    let rest = push_delay d ds in if ltb_ℤ d.reveal_time e.reveal_time then d ∷ e ∷ ds else e ∷ rest

-- The information on a server whose peer has disconnected, at the time `now`. The number is stored
-- in 16 bits.
unfoldable pub vacated : Bool → ℤ → SrvrInfo → SrvrInfo
vacated was_client now i = record i {
  valid = now;
  num_avail =
      if was_client
      then if valid_metrics i
        then if equal_ℤ i.num_avail (pos 32767) then negsuc 32767 else i.num_avail +ℤ pos 1
        else pos 1
      else i.num_avail;
}

unfoldable pub disconnected : SockAddr → Bool → ℤ → Tracker → Result (Bool × Tracker)
disconnected a was_client now t = elim (lookup SockAddr-discrete a t.srvr_infos) [
  | none ↦ ok (false, t)
  | some i ↦ do
    q ← erase_queue t.srvr_infos a t.srvr_queue
    ok (
      true,
      record t {
        srvr_infos = Assoc.put SockAddr-discrete a (vacated was_client now i) t.srvr_infos;
        srvr_queue = q;
        delay_queue =
            push_delay (record { srvr_addr = a; reveal_time = now +ℤ t.delay }) t.delay_queue;
      },
    )
]

-- Erasure and insertion of a server that is known.
unfoldable pub move_back : SockAddr → Tracker → Result Tracker
move_back a t = do
  q ← erase_queue t.srvr_infos a t.srvr_queue
  queue ← insert_queue t.srvr_infos a q
  ok (record t { srvr_queue = queue })

unfoldable pub requeue : SockAddr → Tracker → Result Tracker
requeue a t = if Assoc.has SockAddr-discrete a t.srvr_infos then move_back a t else ok t

-- What the thread of `runDelayQueue` does when it wakes at the time `now`; with an empty queue it is in its
-- first wait. A thread in its second wait whose queue is emptied by `read` looks at the top of an empty
-- queue, which has no meaning; this is not modelled.
unfoldable pub run_delay_queue : ℤ → Tracker → Result Tracker
run_delay_queue now t = if t.done then ok t else elim t.delay_queue [
  | [] ↦ ok t
  | d ∷ ds ↦
      let due = not (ltb_ℤ now d.reveal_time) in
      let moved = requeue d.srvr_addr t in
      if due then (moved >>= λ t2. ok (record t2 { delay_queue = ds })) else ok t
]

unfoldable pub halt : Tracker → Tracker
halt t = record t { done = true }
