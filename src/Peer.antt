-- ===== src/Peer.antt =====
-- main/p2p/Peer.cpp: a peer's notices, requests and data. A call is a function from state to state;
-- whether the connection takes what is sent is an argument, and so is the time. `PeerState::stop_sem` is
-- the value of the semaphore. Threads are the rounds of their loops; their exceptions, and the mutexes,
-- are not modelled.
pub mod Queue
pub mod Order
pub mod Requests
pub mod Backlog
use bicast.Base.{
  ℕ, zero, suc, ◌+◌, ◌%◌, ◌^◌, List, [], ◌∷◌, ◌++◌, map, ltb, if◌then◌else◌, not, ◌&&◌, ◌||◌, Bool,
  true, false, Option, none, some, ◌≡◌, ℕ_discrete, ap, ◌==◌,
}
use bicast.Base.Int.{ℤ, pos, negsuc, ◌+ℤ◌, ltb_ℤ}
use bicast.Base.Result.{Result, ok, raise, ◌>>=◌, invalid_argument, logic_error, assertion_failed}
use bicast.Proto.{ProdId, DataSegId, DataSegId-discrete, ProdInfo, is_set}
use bicast.SrvrInfo.{SrvrInfo, get_rmt_tier}
use bicast.Tracker
use bicast.Notice.{
  Notice, unset_notice, srvr_info_notice, tracker_notice, prod_id_notice, data_seg_id_notice,
  heartbeat,
}
use bicast.Peer.Queue
use bicast.Peer.Queue.{RequestQ, Outcome}

-- `BasePeerImpl::State`.
pub data State : Type 0 where
  init started stopped : State

-- `SubPeerImpl::Request`.
pub data Request : Type 0 where
  unset : Request
  prod_request : ProdId → Request
  seg_request : DataSegId → Request

unfoldable pub Request-discrete : Discrete Request
Request-discrete = hlevel (ℕ_discrete, DataSegId-discrete)

-- The members of `BasePeerImpl` and `SubPeerImpl` that change.
pub record PeerState : Type 0 where
  pub state : State
  pub stop_notices : Bool
  pub notice_q : List Notice
  pub connected : Bool
  pub logged : Bool
  pub stop_sem : ℕ
  pub last_send_time : ℤ
  pub rmt_srvr_info : SrvrInfo
  pub requested : RequestQ Request

-- `isRmtPub`.
unfoldable pub is_rmt_pub : PeerState → Bool
is_rmt_pub p = not (ltb_ℤ p.rmt_srvr_info.tier (pos 0) || ltb_ℤ (pos 0) p.rmt_srvr_info.tier)

-- `getTier` of a subscriber's peer.
unfoldable pub get_tier : PeerState → ℤ
get_tier p = get_rmt_tier p.rmt_srvr_info

unfoldable pub connection_lost : PeerState → PeerState
connection_lost p = record p {
  connected = if p.logged then p.connected else false;
  logged = true;
  stop_sem = p.stop_sem + 1;
}

-- `halt`.
unfoldable pub halt : PeerState → PeerState
halt p = record p { stop_sem = p.stop_sem + 1 }

unfoldable pub reset_heartbeat : ℤ → PeerState → PeerState
reset_heartbeat now p = record p { last_send_time = now }

-- `addNotice`.
unfoldable pub add_notice : Notice → PeerState → Bool × PeerState
add_notice n p = (
  p.connected,
  if p.connected && not (is_rmt_pub p) then record p { notice_q = p.notice_q ++ (n ∷ []) } else p,
)

-- `addHeartbeat`.
unfoldable pub add_heartbeat : PeerState → Bool × PeerState
add_heartbeat p =
    (p.connected, if p.connected then record p { notice_q = p.notice_q ++ (heartbeat ∷ []) } else p)

-- A round of `runHeartbeat` after its sleep, and whether the loop goes on.
unfoldable pub run_heartbeat : ℤ → ℤ → PeerState → Bool × PeerState
run_heartbeat interval now p =
    if ltb_ℤ now (p.last_send_time +ℤ interval) then (true, p) else elim p.notice_q [
      | [] ↦
          let added = add_heartbeat p in
          if added.0 then (true, reset_heartbeat now added.1) else (false, added.1)
      | n ∷ ns ↦ (true, reset_heartbeat now p)
    ]

-- The notices that `runNoticeWriter` knows how to send.
unfoldable pub is_sendable : Notice → Bool
is_sendable unset_notice = false
is_sendable (tracker_notice t) = false
is_sendable _ = true

-- A round of `runNoticeWriter`: it waits, ends, or hands a notice to the connection.
pub data Writing : Type 0 where
  waits : Writing
  ends : PeerState → Writing
  hands : Notice → PeerState → Writing

unfoldable pub run_notice_writer : Bool → PeerState → Result Writing
run_notice_writer sent p =
    if not p.connected || p.stop_notices then ok (ends (connection_lost p)) else elim p.notice_q [
      | [] ↦ ok waits
      | n ∷ ns ↦
          if is_sendable n
          then ok (hands n (record p { notice_q = ns; connected = sent }))
          else raise logic_error
    ]

-- What a send leaves behind: `request`, `requestBacklog` and `recvRequest` share it.
unfoldable pub after_send : Bool → ℤ → PeerState → PeerState
after_send sent now p =
    let q = record p { connected = sent } in
    if sent then reset_heartbeat now q else connection_lost q

-- `request` of a product's information or of a segment.
unfoldable pub request : Request → Bool → ℤ → PeerState → PeerState
request r sent now p =
    after_send sent now
      (record p { requested = (Queue.push Request-discrete unset r p.requested).1 })

-- `recvNotice` of a subscriber's peer; `wanted` is the manager's answer.
unfoldable pub recv_notice : Bool → Request → Bool → ℤ → PeerState → Bool × PeerState
recv_notice wanted r sent now p =
    let q = if wanted then request r sent now p else p in (q.connected, q)

-- `recvRequest`; `there` is whether the manager has the datum.
unfoldable pub recv_request : Bool → Bool → ℤ → PeerState → PeerState
recv_request there sent now p = if there then after_send sent now p else p

-- `recv` of the information on the remote peer's server.
unfoldable pub recv_srvr_info : SrvrInfo → PeerState → Result PeerState
recv_srvr_info i p =
    if Tracker.is_set i.srvr_addr
    then ok (record p { rmt_srvr_info = i })
    else raise invalid_argument

-- `processDatum`, with at most `fuel` rounds of its loop.
unfoldable pub process_datum :
    ℕ → Request → PeerState → Option (Result (Outcome Request × PeerState))
process_datum fuel r p =
    if not (Queue.count Request-discrete unset r p.requested)
    then some (raise logic_error)
    else elim (Queue.process_from Request-discrete unset fuel r p.requested) [
      | none ↦ none
      | some o ↦ some (ok (o, record p { requested = o.left }))
    ]

-- `drainPending`, with the requests that are missed.
unfoldable pub drain_pending : ℕ → PeerState → Option (List Request × PeerState)
drain_pending fuel p = elim (Queue.drain_to Request-discrete unset fuel p.requested) [
  | none ↦ none
  | some r ↦ some (r.0, record p { requested = r.1 })
]

-- `run` up to its wait, and `stopImpl`.
unfoldable pub start : PeerState → Result PeerState
start p = elim p.state [ init ↦ ok (record p { state = started }) | _ ↦ raise assertion_failed ]

unfoldable pub stop_impl : PeerState → PeerState
stop_impl p = record p { stop_notices = true; state = stopped }

-- The loop of `runBacklog` over a product of `prod_size` bytes, from an offset of 32 bits on, at most
-- `fuel` rounds of it.
unfoldable pub seg_notices : ℕ → ProdId → ℕ → ℕ → ℕ → Option (List DataSegId)
seg_notices m id prod_size zero offset = if ltb offset prod_size then none else some []
seg_notices m id prod_size (suc fuel) offset =
    let rest = seg_notices m id prod_size fuel ((offset + m) % 2 ^ 32) in
    if ltb offset prod_size
    then elim rest [
      | none ↦ none
      | some ids ↦ some (record { prod_id = id; offset = offset } ∷ ids)
    ]
    else some []

-- The notices of `runBacklog` about a product that the remote peer lacks; `info` is what the manager
-- answers.
unfoldable pub backlog_of : ℕ → ℕ → ProdId → ProdInfo → Option (List Notice)
backlog_of m fuel id info =
    if is_set info
    then elim (seg_notices m id info.size fuel 0) [
      | none ↦ none
      | some ids ↦ some (prod_id_notice id ∷ map data_seg_id_notice ids)
    ]
    else some (prod_id_notice id ∷ [])
