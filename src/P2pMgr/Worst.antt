-- ===== src/P2pMgr/Worst.antt =====
-- `haltWorstPeer` of main/p2p/P2pMgr.cpp.
use bicast.Base.{
  [], ◌∷◌, true, some, ◌≡◌, ◌⊎◌, inl, inr, sym, ap, ◌∙◌, arith, Bool-cases, Option-cases,
}
use bicast.Base.Result.{ok}
use bicast.Base.Assoc
use bicast.Base.Assoc.{lookup}
use bicast.Inet.{SockAddr}
use bicast.SrvrInfo.{SockAddr-discrete}
use bicast.P2pMgr.Books.{Bookkeeping}
use bicast.P2pMgr.{Peer, Mgr, halt_peer, is_full, halt_worst_peer}
use bicast.P2pMgr.Peers.{HasPeer}
use bicast.P2pMgr.Valid.{IsMgr}

module _ {B : Type 0} (N : Type 0) (books : Bookkeeping SockAddr SockAddr-discrete B) where
  -- If a manager's set of peers, its map, its bookkeeper and its counts agree, then a round of
  -- `haltWorstPeer` does not throw: it halts no peer, or, if the manager is full, the one peer
  -- of the set that the bookkeeper calls the worst.
  pub halt_worst_peer_lem :
      (m : Mgr B)
      → IsMgr N books m
      → (halt_worst_peer {N = N} books m ≡ ok [])
        ⊎ ((p : Peer) × ((halt_worst_peer {N = N} books m ≡ ok (halt_peer p ∷ []))
              × (HasPeer p m.peer_set
                  × ((is_full m ≡ true) × (books.get_worst_peer m.book ≡ some p.rmt_addr)))))
  unfolding halt_worst_peer
  halt_worst_peer_lem m w = elim (Bool-cases (is_full m)) [
    | inr room ↦ inl (ground (arith, room))
    | inl full ↦ elim (Option-cases (books.get_worst_peer m.book)) [
      | inl nobody ↦ inl (ground (arith, full, nobody))
      | inr (addr, worst) ↦ elim (Option-cases addr) [
        | inl no_addr ↦ inl (ground (arith, full, worst, no_addr))
        | inr (e, set) ↦
            let known = sym (w.known addr) ∙ books.get_worst_peer-knows addr m.book worst in
            let (p, there) = Assoc.has-lookup-some SockAddr-discrete addr m.peer_map known in
            let (own, member) = w.held addr p there in
            let found = ap (λ a. lookup SockAddr-discrete a m.peer_map) (sym set) ∙ there in
            inr (
              p,
              (
                ground (arith, full, worst, set, found),
                (member, (full, worst ∙ ap some (sym own))),
              ),
            )
      ]
    ]
  ]
