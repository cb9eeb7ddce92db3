-- ===== src/Peer/Order.antt =====
-- The notices of main/p2p/Peer.cpp: whatever a peer does, its notices go to the connection in the order
-- in which they were queued.
use bicast.Base.{
  ℕ, List, [], ◌∷◌, ◌++◌, append_assoc, append_nil, if◌then◌else◌, not, ◌&&◌, Bool, true, false,
  some, ◌≡◌, refl, sym, ap, ◌∙◌, subst, arith, Bool-cases, inl, inr, ◌⊎◌,
}
use bicast.Base.Int.{ℤ, ltb_ℤ, ◌+ℤ◌}
use bicast.Base.Result.{ok}
use bicast.SrvrInfo.{SrvrInfo}
use bicast.Notice.{Notice, heartbeat}
use bicast.Peer.Queue
use bicast.Peer.Queue.{Outcome}
use bicast.Peer.{
  PeerState, Request, unset, Request-discrete, hands, ends, is_rmt_pub, connection_lost, halt,
  add_notice, add_heartbeat, run_heartbeat, run_notice_writer, recv_notice, recv_request, request,
  after_send, reset_heartbeat, recv_srvr_info, process_datum, drain_pending, start, stop_impl,
}

-- A peer with the notices that it has queued and those that it has handed to the connection.
pub record Run : Type 0 where
  pub peer : PeerState
  pub queued : List Notice
  pub handed : List Notice

-- What a call of `addNotice` and a round of `runHeartbeat` queue.
abbrev pub notices_of : Notice → PeerState → List Notice
notices_of n p = if p.connected && not (is_rmt_pub p) then n ∷ [] else []

abbrev pub beats_of : ℤ → ℤ → PeerState → List Notice
beats_of interval now p =
    if ltb_ℤ now (p.last_send_time +ℤ interval)
    then []
    else elim p.notice_q [ [] ↦ (if p.connected then heartbeat ∷ [] else []) | n ∷ ns ↦ [] ]

-- A call that returns, or a round of a thread.
pub data Step (s t : Run) : Type 0 where
  noticed :
      (n : Notice)
      → t ≡ record s { peer = (add_notice n s.peer).1; queued = s.queued ++ notices_of n s.peer }
      → Step s t
  beaten :
      (interval now : ℤ)
      → t ≡ record s {
        peer = (run_heartbeat interval now s.peer).1;
        queued = s.queued ++ beats_of interval now s.peer;
      }
      → Step s t
  written :
      (sent : Bool) (n : Notice) (p : PeerState)
      → run_notice_writer sent s.peer ≡ ok (hands n p)
      → t ≡ record s { peer = p; handed = s.handed ++ (n ∷ []) }
      → Step s t
  ended :
      (sent : Bool) (p : PeerState)
      → run_notice_writer sent s.peer ≡ ok (ends p)
      → t ≡ record s { peer = p }
      → Step s t
  announced :
      (wanted : Bool) (r : Request) (sent : Bool) (now : ℤ)
      → t ≡ record s { peer = (recv_notice wanted r sent now s.peer).1 }
      → Step s t
  asked :
      (there sent : Bool) (now : ℤ)
      → t ≡ record s { peer = recv_request there sent now s.peer }
      → Step s t
  informed :
      (i : SrvrInfo) (p : PeerState)
      → recv_srvr_info i s.peer ≡ ok p
      → t ≡ record s { peer = p }
      → Step s t
  supplied :
      (fuel : ℕ) (r : Request) (o : Outcome Request) (p : PeerState)
      → process_datum fuel r s.peer ≡ some (ok (o, p))
      → t ≡ record s { peer = p }
      → Step s t
  drained :
      (fuel : ℕ) (rs : List Request) (p : PeerState)
      → drain_pending fuel s.peer ≡ some (rs, p)
      → t ≡ record s { peer = p }
      → Step s t
  begun : (p : PeerState) → start s.peer ≡ ok p → t ≡ record s { peer = p } → Step s t
  halted : t ≡ record s { peer = halt s.peer } → Step s t
  finished : t ≡ record s { peer = stop_impl s.peer } → Step s t

pub data Reach (s : Run) : Run → Type 0 where
  here : Reach s s
  next : {t u : Run} → Reach s t → Step t u → Reach s u

-- What has been queued has been handed over, or is in the queue.
abbrev pub InOrder : Run → Type 0
InOrder s = s.queued ≡ s.handed ++ s.peer.notice_q

-- A step that queues and hands over nothing.
kept :
    (s t : Run) (p : PeerState)
    → p.notice_q ≡ s.peer.notice_q
    → t ≡ record s { peer = p }
    → InOrder s
    → InOrder t
kept s t p same e o = subst InOrder (sym e) (o ∙ ap (λ q. s.handed ++ q) (sym same))

appended :
    (s : Run) (p : PeerState) (ns : List Notice)
    → p.notice_q ≡ s.peer.notice_q ++ ns
    → InOrder s
    → InOrder (record s { peer = p; queued = s.queued ++ ns })
appended s p ns e o =
    ap (λ q. q ++ ns) o ∙ append_assoc s.handed s.peer.notice_q ns ∙ ap (λ q. s.handed ++ q) (sym e)

List-cases :
    (ns : List Notice) → (ns ≡ []) ⊎ ((n : Notice) × ((rest : List Notice) × (ns ≡ n ∷ rest)))
List-cases [] = inl refl
List-cases (n ∷ ns) = inr (n, (ns, refl))

add_notice_q :
    (n : Notice) (p : PeerState) → (add_notice n p).1.notice_q ≡ p.notice_q ++ notices_of n p
unfolding add_notice
add_notice_q n p = elim (Bool-cases (p.connected && not (is_rmt_pub p))) [
  | inl queues ↦ rw queues refl
  | inr passes ↦ rw passes (sym (append_nil p.notice_q))
]

run_heartbeat_q :
    (interval now : ℤ) (p : PeerState)
    → (run_heartbeat interval now p).1.notice_q ≡ p.notice_q ++ beats_of interval now p
unfolding run_heartbeat add_heartbeat reset_heartbeat
run_heartbeat_q interval now p = elim (Bool-cases (ltb_ℤ now (p.last_send_time +ℤ interval))) [
  | inl early ↦ rw early (sym (append_nil p.notice_q))
  | inr late ↦ elim (List-cases p.notice_q) [
    | inr (n, (ns, e)) ↦ rw (late, e) (e ∙ sym (append_nil (n ∷ ns)))
    | inl e ↦ elim (Bool-cases p.connected) [
      | inl there ↦ rw (late, e, there) (ap (λ q. q ++ (heartbeat ∷ [])) e)
      | inr gone ↦ rw (late, e, gone) e
    ]
  ]
]

after_send_q :
    (sent : Bool) (now : ℤ) (p : PeerState) → (after_send sent now p).notice_q ≡ p.notice_q
unfolding after_send reset_heartbeat connection_lost
after_send_q sent now p = ground arith

recv_notice_q :
    (wanted : Bool) (r : Request) (sent : Bool) (now : ℤ) (p : PeerState)
    → (recv_notice wanted r sent now p).1.notice_q ≡ p.notice_q
unfolding recv_notice request
recv_notice_q true r sent now p =
    after_send_q sent now
      (record p { requested = (Queue.push Request-discrete unset r p.requested).1 })
recv_notice_q false r sent now p = refl

recv_request_q :
    (there sent : Bool) (now : ℤ) (p : PeerState)
    → (recv_request there sent now p).notice_q ≡ p.notice_q
unfolding recv_request
recv_request_q true sent now p = after_send_q sent now p
recv_request_q false sent now p = refl

recv_srvr_info_q :
    (i : SrvrInfo) (p q : PeerState) → recv_srvr_info i p ≡ ok q → q.notice_q ≡ p.notice_q
unfolding recv_srvr_info
recv_srvr_info_q i p q e = ground (arith, e)

process_datum_q :
    (fuel : ℕ) (r : Request) (o : Outcome Request) (p q : PeerState)
    → process_datum fuel r p ≡ some (ok (o, q))
    → q.notice_q ≡ p.notice_q
unfolding process_datum
process_datum_q fuel r o p q e = ground (arith, e)

drain_pending_q :
    (fuel : ℕ) (rs : List Request) (p q : PeerState)
    → drain_pending fuel p ≡ some (rs, q)
    → q.notice_q ≡ p.notice_q
unfolding drain_pending
drain_pending_q fuel rs p q e = ground (arith, e)

start_q : (p q : PeerState) → start p ≡ ok q → q.notice_q ≡ p.notice_q
unfolding start
start_q p q e = ground (arith, e)

ended_q :
    (sent : Bool) (p q : PeerState)
    → run_notice_writer sent p ≡ ok (ends q)
    → q.notice_q ≡ p.notice_q
unfolding run_notice_writer connection_lost
ended_q sent p q e = ground (arith, e)

handed_q :
    (sent : Bool) (n : Notice) (p q : PeerState)
    → run_notice_writer sent p ≡ ok (hands n q)
    → p.notice_q ≡ n ∷ q.notice_q
unfolding run_notice_writer
handed_q sent n p q e = ground (arith, e)

Step-InOrder : (s t : Run) → Step s t → InOrder s → InOrder t
Step-InOrder s t (noticed n e) o =
    subst InOrder (sym e)
      (appended s (add_notice n s.peer).1 (notices_of n s.peer) (add_notice_q n s.peer) o)
Step-InOrder s t (beaten interval now e) o = subst InOrder (sym e) (
    appended s (run_heartbeat interval now s.peer).1 (beats_of interval now s.peer)
      (run_heartbeat_q interval now s.peer) o)
Step-InOrder s t (written sent n p d e) o = subst InOrder (sym e) (
    o
    ∙ ap (λ q. s.handed ++ q) (handed_q sent n s.peer p d)
    ∙ sym (append_assoc s.handed (n ∷ []) p.notice_q))
Step-InOrder s t (ended sent p d e) o = kept s t p (ended_q sent s.peer p d) e o
Step-InOrder s t (announced wanted r sent now e) o =
    kept s t (recv_notice wanted r sent now s.peer).1 (recv_notice_q wanted r sent now s.peer) e o
Step-InOrder s t (asked there sent now e) o =
    kept s t (recv_request there sent now s.peer) (recv_request_q there sent now s.peer) e o
Step-InOrder s t (informed i p d e) o = kept s t p (recv_srvr_info_q i s.peer p d) e o
Step-InOrder s t (supplied fuel r x p d e) o = kept s t p (process_datum_q fuel r x s.peer p d) e o
Step-InOrder s t (drained fuel rs p d e) o = kept s t p (drain_pending_q fuel rs s.peer p d) e o
Step-InOrder s t (begun p d e) o = kept s t p (start_q s.peer p d) e o
Step-InOrder s t (halted e) o = kept s t (halt s.peer) (unfold halt in refl) e o
Step-InOrder s t (finished e) o = kept s t (stop_impl s.peer) (unfold stop_impl in refl) e o

-- In any run of a peer's calls and of the rounds of its threads, what the connection has been
-- handed, and behind it what is in the queue, are the notices and heartbeats that were queued, in
-- their order, if this was so at the start.
pub in_order : (s t : Run) → InOrder s → Reach s t → InOrder t
in_order s t o here = o
in_order s u o (next {t} reach step) = Step-InOrder t u step (in_order s t o reach)
