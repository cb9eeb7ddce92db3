-- ===== src/P2pMgr.antt =====
-- main/p2p/P2pMgr.cpp: the peers of a node. A call that holds `stateMutex` is a function from state to
-- state; what it asks of peers and of the node is the list of its messages, in their order. Threads
-- are the rounds of their loops. Connections, semaphores and exceptions of threads are not modelled.
pub mod Books
pub mod SubBooks
pub mod PubBooks
pub mod Sub
pub mod Peers
pub mod Valid
pub mod Removal
pub mod Worst
pub mod Stale
use bicast.Base.{
  ℕ, List, [], ◌∷◌, ◌++◌, map, ◌==◌, ltb, leb, if◌then◌else◌, not, ◌&&◌, ◌||◌, Bool, true, false,
  Option, none, some, ℕ_discrete,
}
use bicast.Base.Int.{ℤ, pos, negsuc, ◌+ℤ◌, ◌-ℤ◌, ltb_ℤ}
use bicast.Base.Result.{
  Result, ok, raise, ◌>>=◌, ◌>>◌, invalid_argument, logic_error, out_of_range, assertion_failed,
}
use bicast.Base.Assoc
use bicast.Base.Assoc.{lookup}
use bicast.Base.Sets
use bicast.Inet.{SockAddr}
use bicast.SrvrInfo.{SrvrInfo, SockAddr-discrete, to_int16, to_uint16}
use bicast.P2pMgr.Books.{Bookkeeping}

-- `BaseP2pMgrImpl::State`.
pub data State : Type 0 where
  init started stopping stopped : State

unfoldable pub is_stopping : State → Bool
is_stopping stopping = true
is_stopping _ = false

-- What the manager asks of a `PeerPtr`: `pointer` is the object's identity, by which `PeerSet` is
-- sorted.
pub record Peer : Type 0 where
  pub pointer : ℕ
  pub rmt_addr : SockAddr
  pub is_client : Bool
  pub is_rmt_pub : Bool
  pub tier : ℤ

-- `PubP2pMgrImpl` or `SubP2pMgrImpl`.
pub data Kind : Type 0 where
  publisher subscriber : Kind

-- The members of `BaseP2pMgrImpl`, with those of its subclasses and a bookkeeper of type `B`.
pub record Mgr (B : Type 0) : Type 0 where
  pub kind : Kind
  pub state : State
  pub peers_changed : Bool
  pub max_srvr_peers : ℤ
  pub num_srvr_peers : ℤ
  pub max_clnt_peers : ℤ
  pub num_clnt_peers : ℤ
  pub peer_set : List Peer
  pub peer_map : List (SockAddr × Peer)
  pub book : B
  pub srvr_info : SrvrInfo

-- What is asked of peers and of the node, about data with identifiers of type `N`.
pub data Message (N : Type 0) : Type 0 where
  notify_info : Peer → SrvrInfo → Message N
  notify_id : Peer → N → Message N
  request : Peer → N → Message N
  halt_peer : Peer → Message N
  recv_p2p_data : N → Message N

-- `peerSet.count(peer)`, `insert` and `erase`.
unfoldable pub in_set : Peer → List Peer → Bool
in_set p [] = false
in_set p (q ∷ ps) = p.pointer == q.pointer || in_set p ps

unfoldable pub erase_from : Peer → List Peer → List Peer
erase_from p [] = []
erase_from p (q ∷ ps) =
    let rest = erase_from p ps in if p.pointer == q.pointer then rest else q ∷ rest

-- `P2pSrvrInfo::validTier(tier)`.
abbrev pub valid_tier : ℤ → Bool
valid_tier t = not (ltb_ℤ t (pos 0))

-- `incPeerCount` and `decPeerCount`, by `by`.
unfoldable pub count_peer : {B : Type 0} → ℤ → Peer → Mgr B → Mgr B
count_peer by p m = elim m.kind [
  | publisher ↦ record m { num_srvr_peers = m.num_srvr_peers +ℤ by }
  | subscriber ↦
      if p.is_client
      then record m { num_clnt_peers = m.num_clnt_peers +ℤ by }
      else record m { num_srvr_peers = m.num_srvr_peers +ℤ by }
]

-- `updateTier`.
unfoldable pub update_tier : {B : Type 0} → ℤ → Mgr B → Bool × Mgr B
update_tier tier m = elim m.kind [
  | publisher ↦ (false, m)
  | subscriber ↦
      if not (valid_tier tier)
        || (not (ltb_ℤ tier (pos 0) || ltb_ℤ (pos 0) tier)
            || (valid_tier m.srvr_info.tier && not (ltb_ℤ tier m.srvr_info.tier)))
      then (false, m)
      else (true, record m { srvr_info = record m.srvr_info { tier = tier } })
]

-- The loop of `removePeer` over the peers that are left.
unfoldable pub update_tiers : {B : Type 0} → List Peer → Mgr B → Bool × Mgr B
update_tiers [] m = (false, m)
update_tiers (p ∷ ps) m =
    let one = update_tier p.tier m in let rest = update_tiers ps one.1 in (one.0 || rest.0, rest.1)

-- `isFull`.
unfoldable pub is_full : {B : Type 0} → Mgr B → Bool
is_full m = elim m.kind [
  | publisher ↦ not (ltb_ℤ m.num_srvr_peers m.max_srvr_peers)
  | subscriber ↦
      not (ltb_ℤ (m.num_srvr_peers +ℤ m.num_clnt_peers) (m.max_srvr_peers +ℤ m.max_clnt_peers))
]

-- `notifySrvrInfo` at the time `now`. The number is stored in an `int16_t`.
unfoldable pub notify_srvr_info : {B N : Type 0} → ℤ → Mgr B → Mgr B × List (Message N)
notify_srvr_info now m =
    let info = record m.srvr_info {
      num_avail = to_int16 (to_uint16 (m.max_srvr_peers -ℤ m.num_srvr_peers));
      valid = now;
    } in
    (record m { srvr_info = info }, map (λ p. notify_info p info) m.peer_set)

abbrev pub notify_if : {B N : Type 0} → Bool → ℤ → Mgr B → Mgr B × List (Message N)
notify_if true now m = notify_srvr_info now m
notify_if false now m = (m, [])

module _ {B N : Type 0} (books : Bookkeeping SockAddr SockAddr-discrete B) where
  -- `addPeer`, at the time `now`.
  unfoldable pub add_peer : ℤ → Peer → Mgr B → Result (Bool × Mgr B × List (Message N))
  add_peer now p m =
      if is_stopping m.state || in_set p m.peer_set
      then ok (false, m, [])
      else let counted = count_peer (pos 1) p (record m { peer_set = m.peer_set ++ (p ∷ []) }) in
        let tiered = update_tier p.tier counted in
        let told = notify_if {N = N} (tiered.0 || not p.is_client) now tiered.1 in
        let added = books.add p.rmt_addr p.is_client told.0.book in
        if added.0
        then ok (
          true,
          record told.0 {
            peer_map = Assoc.put SockAddr-discrete p.rmt_addr p told.0.peer_map;
            book = added.1;
            peers_changed = true;
          },
          told.1,
        )
        else raise assertion_failed

  -- What `removePeer` does behind its assertions, unless the manager is stopping.
  unfoldable pub discount : ℤ → Peer → Mgr B → Mgr B × List (Message N)
  discount now p m =
      let tiered = update_tiers m.peer_set (count_peer (negsuc 0) p m) in
      notify_if (tiered.0 || not p.is_client) now tiered.1

  unfoldable pub remove_peer : ℤ → Peer → Mgr B → Result (Mgr B × List (Message N))
  remove_peer now p m =
      if not (in_set p m.peer_set)
      then ok (m, [])
      else if not (Assoc.has SockAddr-discrete p.rmt_addr m.peer_map)
      then raise assertion_failed
      else (books.erase p.rmt_addr m.book >>= λ erased.
          let less = record m {
            peer_set = erase_from p m.peer_set;
            peer_map = Assoc.erase SockAddr-discrete p.rmt_addr m.peer_map;
            book = erased.1;
          } in
          let told = if is_stopping m.state then (less, []) else discount now p less in
          if erased.0
          then ok (record told.0 { peers_changed = true }, told.1)
          else raise assertion_failed)

  -- A round of `haltWorstPeer` in which the peers have not changed for the time of an evaluation.
  unfoldable pub halt_worst_peer : Mgr B → Result (List (Message N))
  halt_worst_peer m = if not (is_full m) then ok [] else elim (books.get_worst_peer m.book) [
    | none ↦ ok []
    | some none ↦ ok []
    | some addr ↦ elim (lookup SockAddr-discrete addr m.peer_map) [
      | none ↦ raise out_of_range
      | some p ↦ ok (halt_peer p ∷ [])
    ]
  ]

-- The start of a round of `haltWorstPeer`.
unfoldable pub start_evaluation :
    {B : Type 0} → Bookkeeping SockAddr SockAddr-discrete B → Mgr B → Mgr B
start_evaluation books m = record m { book = books.reset m.book; peers_changed = false }

-- `startImpl`, and `stopThreads` with `stopImpl`, which waits for the set of peers to be empty.
unfoldable pub start : {B : Type 0} → Mgr B → Result (Mgr B)
start m = elim m.state [ init ↦ ok (record m { state = started }) | _ ↦ raise logic_error ]

unfoldable pub stop_threads : {B N : Type 0} → Mgr B → Mgr B × List (Message N)
stop_threads m = (record m { state = stopping }, map halt_peer m.peer_set)

unfoldable pub stop_impl : {B : Type 0} → Mgr B → Option (Mgr B)
stop_impl m = elim m.peer_set [ [] ↦ some (record m { state = stopped }) | p ∷ ps ↦ none ]

-- The constructor of `BaseP2pMgrImpl`.
unfoldable pub vet_sizes : ℤ → ℤ → Result (Unit {0})
vet_sizes max_peers max_srvr_peers =
    if not (ltb_ℤ (pos 0) max_peers)
    then raise invalid_argument
    else if not (ltb_ℤ (pos 0) max_srvr_peers)
    then raise invalid_argument
    else if ltb_ℤ max_peers max_srvr_peers
    then raise invalid_argument
    else ok tt
