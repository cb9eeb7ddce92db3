-- ===== src/P2pMgr/Removal.antt =====
-- `removePeer` of main/p2p/P2pMgr.cpp: none of its assertions fails.
use bicast.Base.{
  List, [], ◌==◌, if◌then◌else◌, not, ◌&&◌, ◌||◌, Bool, true, none, some, ◌≡◌, inl, inr, sym, ap,
  ◌∙◌, arith, Bool-cases, decide,
}
use mathlib.Core.Bool.{true≢false}
use bicast.Base.Int.{ℤ, negsuc, ◌+ℤ◌}
use bicast.Base.Result.{Result, ok}
use bicast.Base.Assoc
use bicast.Base.Assoc.{lookup}
use bicast.Inet.{SockAddr}
use bicast.SrvrInfo.{SrvrInfo, SockAddr-discrete}
use bicast.P2pMgr.Books.{Bookkeeping}
use bicast.P2pMgr.{
  Peer, Mgr, Message, erase_from, is_stopping, count_peer, update_tiers, notify_if, discount,
  remove_peer,
}
use bicast.P2pMgr.Peers.{
  HasPeer, is_srvr, is_clnt, number, HasPeer-in_set, erase_from-Distinct, number-erase_from,
  HasPeer-erase_from, erase_from-HasPeer, HasPeer-unique, update_tiers_info, notify_if_info,
}
use bicast.P2pMgr.Valid.{IsMgr, count_peer_lem, one_less}

module _ {B : Type 0} (N : Type 0) (books : Bookkeeping SockAddr SockAddr-discrete B) where
  -- A manager with a peer less, whose counts are kept if it is stopping.
  abbrev pub without_peer : Peer → SrvrInfo → B → Mgr B → Mgr B
  without_peer p i book m = record m {
    num_srvr_peers =
        if not (is_stopping m.state) && is_srvr m.kind p
        then m.num_srvr_peers +ℤ negsuc 0
        else m.num_srvr_peers;
    num_clnt_peers =
        if not (is_stopping m.state) && is_clnt m.kind p
        then m.num_clnt_peers +ℤ negsuc 0
        else m.num_clnt_peers;
    peer_set = erase_from p m.peer_set;
    peer_map = Assoc.erase SockAddr-discrete p.rmt_addr m.peer_map;
    book = book;
    srvr_info = i;
    peers_changed = true;
  }

  without_peer-IsMgr :
      (p : Peer) (i : SrvrInfo) (book : B) (m : Mgr B)
      → IsMgr N books m
      → HasPeer p m.peer_set
      → books.IsSound book
      → ((k : SockAddr)
          → books.knows k book
            ≡ (not (decide (SockAddr-discrete k p.rmt_addr)) && books.knows k m.book))
      → IsMgr N books (without_peer p i book m)
  without_peer-IsMgr p i book m w member sound knows = record {
    distinct = erase_from-Distinct p m.peer_set w.distinct;
    mapped = λ q h.
        let (old, apart) = erase_from-HasPeer p q m.peer_set h in
        Assoc.lookup-erase_ne SockAddr-discrete p.rmt_addr q.rmt_addr m.peer_map (λ same.
          let one : some q ≡ some p =
            sym (w.mapped q old)
            ∙ ap (λ a. lookup SockAddr-discrete a m.peer_map) same
            ∙ w.mapped p member in
          let equal : q ≡ p = cc in
          let alike : (p.pointer == q.pointer) ≡ true = rw equal (ground arith) in
          true≢false (sym alike ∙ apart))
        ∙ w.mapped q old;
    held = λ a q h. elim (SockAddr-discrete a p.rmt_addr) [
      | yes same ↦
          let nothing : lookup SockAddr-discrete a
                (Assoc.erase SockAddr-discrete p.rmt_addr m.peer_map)
              ≡ none =
            ap
              (λ b.
                lookup SockAddr-discrete b (Assoc.erase SockAddr-discrete p.rmt_addr m.peer_map))
              same
            ∙ Assoc.lookup-erase_self SockAddr-discrete p.rmt_addr m.peer_map in
          cc
      | no other ↦
          let (own, old) =
            w.held a q
              (sym (Assoc.lookup-erase_ne SockAddr-discrete p.rmt_addr a m.peer_map other) ∙ h) in
          elim (Bool-cases (p.pointer == q.pointer)) [
            | inl alike ↦
                let equal = HasPeer-unique p q m.peer_set w.distinct member old alike in
                absurd (other (sym own ∙ ap (λ r. r.rmt_addr) (sym equal)))
            | inr apart ↦ (own, HasPeer-erase_from p q m.peer_set apart old)
          ]
    ];
    known = λ a.
        knows a
        ∙ ap (λ b. not (decide (SockAddr-discrete a p.rmt_addr)) && b) (w.known a)
        ∙ sym (Assoc.has-erase_if SockAddr-discrete p.rmt_addr a m.peer_map);
    sound = sound;
    srvrs = λ l. rw l (
        one_less N books (is_srvr m.kind p) m.num_srvr_peers
          (number (is_srvr m.kind) (erase_from p m.peer_set)) (number (is_srvr m.kind) m.peer_set)
          (w.srvrs l) (number-erase_from (is_srvr m.kind) p m.peer_set w.distinct member));
    clnts = λ l. rw l (
        one_less N books (is_clnt m.kind p) m.num_clnt_peers
          (number (is_clnt m.kind) (erase_from p m.peer_set)) (number (is_clnt m.kind) m.peer_set)
          (w.clnts l) (number-erase_from (is_clnt m.kind) p m.peer_set w.distinct member));
  }

  -- If a manager's set of peers, its map, its bookkeeper and its counts agree, then
  -- `removePeer` of a peer of the set fails no assertion, takes the peer out of all of them,
  -- and leaves them in agreement, for any bookkeeper that keeps the interface's laws.
  pub remove_peer_lem :
      (now : ℤ) (p : Peer) (m : Mgr B)
      → IsMgr N books m
      → HasPeer p m.peer_set
      → (i : SrvrInfo) × ((book : B) × ((told : List (Message N)) × ((remove_peer {N = N} books now
                  p m
                ≡ ok (without_peer p i book m, told))
              × (IsMgr N books (without_peer p i book m)
                  × (books.erase p.rmt_addr m.book ≡ ok (true, book))))))
  unfolding remove_peer discount
  remove_peer_lem now p m w member =
      let (book, (erased, (sound, knows))) = books.erase_lem p.rmt_addr m.book w.sound in
      let inside = HasPeer-in_set p m.peer_set member in
      let there = Assoc.lookup-has SockAddr-discrete p.rmt_addr m.peer_map p (w.mapped p member) in
      let known : books.knows p.rmt_addr m.book ≡ true = w.known p.rmt_addr ∙ there in
      let less = record m {
        peer_set = erase_from p m.peer_set;
        peer_map = Assoc.erase SockAddr-discrete p.rmt_addr m.peer_map;
        book = book;
      } in
      let gone = erased ∙ ap {B = Result (Bool × B)} (λ b. ok (b, book)) known in
      let valid = λ (i : SrvrInfo). without_peer-IsMgr p i book m w member sound knows in
      elim (Bool-cases (is_stopping m.state)) [
        | inl stopping ↦ (
          m.srvr_info,
          (
            book,
            (
              [],
              (ground (arith, inside, there, erased, known, stopping), (valid m.srvr_info, gone)),
            ),
          ),
        )
        | inr going ↦
            let counted = count_peer (negsuc 0) p less in
            let tiered = update_tiers (erase_from p m.peer_set) counted in
            let tell = tiered.0 || not p.is_client in
            let told = notify_if {N = N} tell now tiered.1 in
            let i = told.0.srvr_info in
            let e : record told.0 { peers_changed = true } ≡ without_peer p i book m =
              ap {B = Mgr B} (λ n. record n { peers_changed = true })
                (notify_if_info N tell now tiered.1)
              ∙ ap {B = Mgr B} (λ n. record n { srvr_info = i; peers_changed = true })
                  (update_tiers_info (erase_from p m.peer_set) counted)
              ∙ ap {B = Mgr B} (λ n. record n { srvr_info = i; peers_changed = true })
                  (count_peer_lem N books (negsuc 0) p less)
              ∙ ground (arith, going) in
            (
              i,
              (
                book,
                (
                  told.1,
                  (
                    ground (arith, inside, there, erased, known, going)
                        ∙ ap {B = Result (Mgr B × List (Message N))} (λ n. ok (n, told.1)) e,
                    (valid i, gone),
                  ),
                ),
              ),
            )
      ]
