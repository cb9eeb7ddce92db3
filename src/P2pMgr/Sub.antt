-- ===== src/P2pMgr/Sub.antt =====
-- `SubP2pMgrImpl` of main/p2p/P2pMgr.cpp: notices, requests and data of a subscriber's peers. `N` is the
-- type of the identifiers of data, those of products and of segments.
use bicast.Base.{List, [], ◌∷◌, if◌then◌else◌, ◌&&◌, Bool, false, Option, none, some}
use bicast.Base.Int.{ℤ}
use bicast.Base.Result.{Result, ok, raise, ◌>>=◌, out_of_range}
use bicast.Base.Assoc
use bicast.Base.Assoc.{lookup}
use bicast.Inet.{SockAddr}
use bicast.SrvrInfo.{SrvrInfo, SockAddr-discrete, get_rmt_tier}
use bicast.Tracker.{Tracker, try_add}
use bicast.Bookkeeper.Sub
use bicast.Bookkeeper.Sub.{Book}
use bicast.P2pMgr.{
  Peer, Mgr, Message, notify_id, request, recv_p2p_data, is_stopping, update_tier, notify_if,
}

module _ {N : Type 0} (dec : Discrete N) where
  abbrev pub SubMgr : Type 0
  SubMgr = Mgr (Book SockAddr N)

  -- `shouldNotify`: the remote peer is a subscriber's, and is not known to have the datum.
  unfoldable pub should_notify : Peer → N → SubMgr → Result Bool
  should_notify p n m =
      if p.is_rmt_pub then ok false else Sub.should_notify SockAddr-discrete dec p.rmt_addr n m.book

  -- The loop of `notify`, which `recvData` repeats.
  unfoldable pub notify_peers : List Peer → N → SubMgr → Result (List (Message N))
  notify_peers [] n m = ok []
  notify_peers (p ∷ ps) n m = do
    wanted ← should_notify p n m
    rest ← notify_peers ps n m
    ok (if wanted then notify_id p n ∷ rest else rest)

  unfoldable pub notify : N → SubMgr → Result (List (Message N))
  notify n m = if is_stopping m.state then ok [] else notify_peers m.peer_set n m

  -- `recvNotice` of a datum; `wanted` is `subNode.shouldRequest`.
  unfoldable pub recv_notice : Bool → N → SockAddr → SubMgr → Result (Bool × SubMgr)
  recv_notice wanted n addr m =
      if wanted && Assoc.has SockAddr-discrete addr m.peer_map
      then (Sub.should_request SockAddr-discrete dec addr n m.book >>= λ r.
          ok (r.0, record m { book = r.1 }))
      else ok (false, m)

  -- `recvNotice` of the information on a server, at the time `now`.
  unfoldable pub recv_srvr_info :
      ℤ → SrvrInfo → Tracker → SubMgr → Result (Tracker × SubMgr × List (Message N))
  recv_srvr_info now info t m = try_add info t >>= λ r.
      let tiered = update_tier (get_rmt_tier info) m in
      let told = notify_if {N = N} tiered.0 now tiered.1 in ok (r.1, told.0, told.1)

  -- `recvData` of a datum that is expected from a peer.
  unfoldable pub accept_data : N → SubMgr → Result (SubMgr × List (Message N))
  accept_data n m = do
    notices ← notify_peers m.peer_set n m
    book ← Sub.erase_notice SockAddr-discrete dec n m.book
    ok (record m { book = book }, recv_p2p_data n ∷ notices)

  unfoldable pub recv_data : N → SockAddr → SubMgr → Result (SubMgr × List (Message N))
  recv_data n addr m =
      if is_stopping m.state then ok (m, []) else elim (lookup SockAddr-discrete addr m.peer_map) [
        | none ↦ ok (m, [])
        | some p ↦ Sub.received SockAddr-discrete dec p.rmt_addr n m.book >>= λ r.
            let next = record m { book = r.1 } in if r.0 then accept_data n next else ok (next, [])
      ]

  -- `reassign`, with the peer that is asked next. An address that is not set is no peer.
  unfoldable pub ask_next : N → Option SockAddr → SubMgr → Result (SubMgr × List (Message N))
  ask_next n none m = ok (m, [])
  ask_next n (some none) m = ok (m, [])
  ask_next n (some (some e)) m = elim (lookup SockAddr-discrete (some e) m.peer_map) [
    | none ↦ raise out_of_range
    | some p ↦ ok (m, request p n ∷ [])
  ]

  unfoldable pub reassign : Peer → N → SubMgr → Result (SubMgr × List (Message N))
  reassign p n m =
      let alt = Sub.get_alt_peer SockAddr-discrete dec p.rmt_addr n m.book in
      ask_next n alt.0 (record m { book = alt.1 })

  unfoldable pub missed : N → SockAddr → SubMgr → Result (SubMgr × List (Message N))
  missed n addr m =
      if is_stopping m.state then ok (m, []) else elim (lookup SockAddr-discrete addr m.peer_map) [
        | none ↦ ok (m, [])
        | some p ↦ reassign p n m
      ]
