-- ===== src/P2pMgr/Stale.antt =====
-- What a peer that leaves does to a datum that another peer then sends (`removePeer` and `recvData` of
-- main/p2p/P2pMgr.cpp with `SubBookkeeper` of main/p2p/Bookkeeper.cpp).
use bicast.Base.{
  List, [], ◌∷◌, ◌+◌, ◌%◌, ◌^◌, if◌then◌else◌, not, Bool, true, false, none, some, ◌≡◌, ◌≢◌, inl,
  inr, refl, sym, ap, ◌∙◌, subst, arith, Bool-cases, Option-cases,
}
use bicast.Base.Int.{ℤ}
use bicast.Base.Result.{Result, ok, raise, out_of_range}
use bicast.Base.Assoc
use bicast.Base.Assoc.{lookup}
use bicast.Base.Sets
use bicast.Inet.{SockAddr}
use bicast.SrvrInfo.{SockAddr-discrete}
use bicast.Bookkeeper.Sub
use bicast.Bookkeeper.Sub.{Book, Peers, PeerInfo, vet_peer, received, increment, erase_notice}
use bicast.Bookkeeper.Sub.Stale.{forget_notice-raise}
use bicast.P2pMgr.SubBooks.{sub_books, erase_peer_silent}
use bicast.P2pMgr.{Peer, Message, notify_id, is_stopping, remove_peer}
use bicast.P2pMgr.Peers.{HasPeer}
use bicast.P2pMgr.Valid.{IsMgr}
use bicast.P2pMgr.Removal.{without_peer, remove_peer_lem}
use bicast.P2pMgr.Sub.{SubMgr, should_notify, notify_peers, accept_data, recv_data}

ok-inj : {B : Type 0} (x y : B) → ◌≡◌ {A = Result (Bool × B)} (ok (true, x)) (ok (true, y)) → x ≡ y
ok-inj x y e = ground arith

module _ {N : Type 0} (dec : Discrete N) where
  -- Peers that the bookkeeper knows can be told of a datum.
  should_notify_lem :
      (p : Peer) (n : N) (m : SubMgr dec)
      → Assoc.has SockAddr-discrete p.rmt_addr m.book.peer_to_info ≡ true
      → (b : Bool) × (should_notify dec p n m ≡ ok b)
  unfolding should_notify Sub.should_notify vet_peer
  should_notify_lem p n m known = elim (Bool-cases p.is_rmt_pub) [
    | inl publishes ↦ (false, ground (arith, publishes))
    | inr subscribes ↦ elim (Option-cases (lookup dec n m.book.notice_to_peers)) [
      | inl missing ↦ (true, ground (arith, subscribes, known, missing))
      | inr (peers, there) ↦ (
        not (Sets.contains SockAddr-discrete p.rmt_addr peers.set),
        ground (arith, subscribes, known, there),
      )
    ]
  ]

  pub notify_peers_lem :
      (ps : List Peer) (n : N) (m : SubMgr dec)
      → ((p : Peer)
          → HasPeer p ps
          → Assoc.has SockAddr-discrete p.rmt_addr m.book.peer_to_info ≡ true)
      → (told : List (Message N)) × (notify_peers dec ps n m ≡ ok told)
  unfolding notify_peers
  notify_peers_lem [] n m h = ([], refl)
  notify_peers_lem (p ∷ ps) n m h =
      let (b, one) = should_notify_lem p n m (h p (inl refl)) in
      let (told, rest) = notify_peers_lem ps n m (λ q k. h q (inr k)) in
      (if b then notify_id p n ∷ told else told, ground (arith, one, rest))

  has-increment :
      (a k : SockAddr) (m : List (SockAddr × PeerInfo N))
      → Assoc.has SockAddr-discrete k m ≡ true
      → Assoc.has SockAddr-discrete k (increment SockAddr-discrete dec a m) ≡ true
  unfolding increment
  has-increment a k m h = elim (Option-cases (lookup SockAddr-discrete a m)) [
    | inl missing ↦ ground (arith, missing, h)
    | inr (i, there) ↦
        let more : PeerInfo N = record i { rating = (i.rating + 1) % 2 ^ 64 } in
        ground (arith, there, Assoc.has-put SockAddr-discrete a k more m h)
  ]

  lookup-increment :
      (a k : SockAddr) (m : List (SockAddr × PeerInfo N))
      → lookup SockAddr-discrete k m ≡ none
      → lookup SockAddr-discrete k (increment SockAddr-discrete dec a m) ≡ none
  unfolding increment
  lookup-increment a k m h = elim (Option-cases (lookup SockAddr-discrete a m)) [
    | inl missing ↦ ground (arith, missing, h)
    | inr (i, there) ↦
        let more : PeerInfo N = record i { rating = (i.rating + 1) % 2 ^ 64 } in
        let apart : k ≢ a = λ e.
          (let f : lookup SockAddr-discrete a m ≡ none =
              subst (λ j. lookup SockAddr-discrete j m ≡ none) e h in
            cc) in
        ground (arith, there, h, Assoc.lookup-put_ne SockAddr-discrete a k more m apart)
  ]

  -- If a subscriber's manager is not stopping, its set of peers, map, bookkeeper and counts
  -- agree, and it waits for a datum from one of two peers with different addresses, while the
  -- other one's announcement is in the datum's list, then the other peer can be removed, and
  -- after that the arrival of the datum throws the exception of `std::unordered_map::at`.
  pub recv_data_stale :
      (now : ℤ) (n : N) (p q : Peer) (peers : Peers SockAddr) (m : SubMgr dec)
      → IsMgr N (sub_books SockAddr-discrete dec) m
      → is_stopping m.state ≡ false
      → HasPeer p m.peer_set
      → HasPeer q m.peer_set
      → p.rmt_addr ≢ q.rmt_addr
      → lookup dec n m.book.notice_to_peers ≡ some peers
      → Sets.contains SockAddr-discrete p.rmt_addr peers.set ≡ true
      → Sets.contains SockAddr-discrete q.rmt_addr peers.list ≡ true
      → (r : SubMgr dec) × ((told : List (Message N)) × ((remove_peer {N = N}
                (sub_books SockAddr-discrete dec)
                now
                q
                m
              ≡ ok (r, told))
            × (recv_data dec n p.rmt_addr r ≡ raise out_of_range)))
  unfolding recv_data accept_data received vet_peer erase_notice
  recv_data_stale now n p q peers m w going has_p has_q apart listed asked announced =
      let books = sub_books SockAddr-discrete dec in
      let a = p.rmt_addr in
      let b = q.rmt_addr in
      let (i, (book, (told, (removed, (valid, gone))))) = remove_peer_lem N books now q m w has_q in
      let r = without_peer N books q i book m in
      let known : Assoc.has SockAddr-discrete b m.book.peer_to_info ≡ true =
        w.known b ∙ Assoc.lookup-has SockAddr-discrete b m.peer_map q (w.mapped q has_q) in
      let infos = Assoc.erase SockAddr-discrete b m.book.peer_to_info in
      let less : Book SockAddr N = record m.book { peer_to_info = infos } in
      let same : less ≡ book =
        ok-inj less book
          (sym (erase_peer_silent SockAddr-discrete dec b m.book w.sound known) ∙ gone) in
      let infos2 = increment SockAddr-discrete dec a infos in
      let book2 : Book SockAddr N = record less { peer_to_info = infos2 } in
      let mapped : lookup SockAddr-discrete a r.peer_map ≡ some p =
        Assoc.lookup-erase_ne SockAddr-discrete b a m.peer_map apart ∙ w.mapped p has_p in
      let known2 : Assoc.has SockAddr-discrete a infos ≡ true =
        ap (λ y. Assoc.has SockAddr-discrete a y.peer_to_info) same
        ∙ valid.known a
        ∙ Assoc.lookup-has SockAddr-discrete a r.peer_map p mapped in
      let t : SubMgr dec = record r { book = book2 } in
      let (notices, notified) = notify_peers_lem r.peer_set n t (λ z k.
        has-increment a z.rmt_addr infos (
          ap (λ y. Assoc.has SockAddr-discrete z.rmt_addr y.peer_to_info) same
          ∙ valid.known z.rmt_addr
          ∙ Assoc.lookup-has SockAddr-discrete z.rmt_addr r.peer_map z (valid.mapped z k))) in
      let fails = forget_notice-raise SockAddr-discrete dec n b peers.list infos2 announced (
        lookup-increment a b infos
          (Assoc.lookup-erase_self SockAddr-discrete b m.book.peer_to_info)) in
      let fault : recv_data dec n a (record r { book = less }) ≡ raise out_of_range =
        ground (arith, going, mapped, known2, listed, asked, notified, fails) in
      (
        r,
        (
          told,
          (
            removed,
            subst (λ y. recv_data dec n a (record r { book = y }) ≡ raise out_of_range) same fault,
          ),
        ),
      )
