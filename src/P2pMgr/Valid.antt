-- ===== src/P2pMgr/Valid.antt =====
-- `addPeer` and `removePeer` of main/p2p/P2pMgr.cpp keep the set, the map, the bookkeeper and the counts
-- together, so that no assertion of `removePeer` fails.
use bicast.Base.{
  ℕ, ◌+◌, List, [], ◌∷◌, ◌++◌, if◌then◌else◌, not, ◌||◌, Bool, true, false, some, ◌≡◌, inl, inr,
  sym, ap, ◌∙◌, subst, arith, decide,
}
use mathlib.Core.Bool.{true≢false}
use bicast.Base.Int.{ℤ, pos, negsuc, ◌+ℤ◌}
use bicast.Base.Result.{Result, ok, raise, assertion_failed}
use bicast.Base.Assoc
use bicast.Base.Assoc.{lookup}
use bicast.Inet.{SockAddr}
use bicast.SrvrInfo.{SrvrInfo, SockAddr-discrete}
use bicast.P2pMgr.Books.{Bookkeeping}
use bicast.P2pMgr.{
  Peer, Mgr, Message, in_set, is_stopping, count_peer, update_tier, notify_if, add_peer,
}
use bicast.P2pMgr.Peers.{
  HasPeer, Distinct, is_srvr, is_clnt, number, append-Distinct, number-append, HasPeer-append,
  HasPeer-last, HasPeer-init, update_tier_info, notify_if_info,
}

module _ {B : Type 0} (N : Type 0) (books : Bookkeeping SockAddr SockAddr-discrete B) where
  pub record IsMgr (m : Mgr B) : Type 0 where
    pub distinct : Distinct m.peer_set
    pub mapped :
        (p : Peer) → HasPeer p m.peer_set → lookup SockAddr-discrete p.rmt_addr m.peer_map ≡ some p
    pub held :
        (a : SockAddr) (p : Peer)
        → lookup SockAddr-discrete a m.peer_map ≡ some p
        → (p.rmt_addr ≡ a) × HasPeer p m.peer_set
    pub known : (a : SockAddr) → books.knows a m.book ≡ Assoc.has SockAddr-discrete a m.peer_map
    pub sound : books.IsSound m.book
    pub srvrs :
        is_stopping m.state ≡ false → m.num_srvr_peers ≡ pos (number (is_srvr m.kind) m.peer_set)
    pub clnts :
        is_stopping m.state ≡ false → m.num_clnt_peers ≡ pos (number (is_clnt m.kind) m.peer_set)

  -- Neither the information on the server nor the flag of changes is a part of it.
  other_fields-IsMgr :
      (i : SrvrInfo) (c : Bool) (m : Mgr B)
      → IsMgr m
      → IsMgr (record m { srvr_info = i; peers_changed = c })
  other_fields-IsMgr i c m w = record {
    distinct = w.distinct;
    mapped = w.mapped;
    held = w.held;
    known = w.known;
    sound = w.sound;
    srvrs = w.srvrs;
    clnts = w.clnts;
  }

  -- The counts of a peer more or less.
  pub count_peer_lem :
      (by : ℤ) (p : Peer) (m : Mgr B)
      → count_peer by p m ≡ record m {
        num_srvr_peers = if is_srvr m.kind p then m.num_srvr_peers +ℤ by else m.num_srvr_peers;
        num_clnt_peers = if is_clnt m.kind p then m.num_clnt_peers +ℤ by else m.num_clnt_peers;
      }
  unfolding count_peer
  count_peer_lem by p m = ground arith

  -- A manager with a peer more.
  abbrev pub with_peer : Peer → SrvrInfo → Mgr B → Mgr B
  with_peer p i m = record m {
    num_srvr_peers = if is_srvr m.kind p then m.num_srvr_peers +ℤ pos 1 else m.num_srvr_peers;
    num_clnt_peers = if is_clnt m.kind p then m.num_clnt_peers +ℤ pos 1 else m.num_clnt_peers;
    peer_set = m.peer_set ++ (p ∷ []);
    peer_map = Assoc.put SockAddr-discrete p.rmt_addr p m.peer_map;
    book = (books.add p.rmt_addr p.is_client m.book).1;
    srvr_info = i;
    peers_changed = true;
  }

  one_more :
      (b : Bool) (n : ℤ) (k : ℕ)
      → n ≡ pos k
      → (if b then n +ℤ pos 1 else n) ≡ pos (k + (if b then 1 else 0))
  unfolding ◌+ℤ◌
  one_more true n k e = rw e (ground arith)
  one_more false n k e = e ∙ ap pos (omega arith)

  pub one_less :
      (b : Bool) (n : ℤ) (j k : ℕ)
      → n ≡ pos k
      → j + (if b then 1 else 0) ≡ k
      → (if b then n +ℤ negsuc 0 else n) ≡ pos j
  unfolding ◌+ℤ◌
  one_less true n j k e h = rw e (ground (arith, h))
  one_less false n j k e h = e ∙ ap pos (omega arith)

  pub with_peer-IsMgr :
      (p : Peer) (i : SrvrInfo) (m : Mgr B)
      → IsMgr m
      → in_set p m.peer_set ≡ false
      → Assoc.has SockAddr-discrete p.rmt_addr m.peer_map ≡ false
      → IsMgr (with_peer p i m)
  with_peer-IsMgr p i m w fresh free = record {
    distinct = append-Distinct p m.peer_set w.distinct fresh;
    mapped = λ q h. elim (HasPeer-init p q m.peer_set h) [
      | inl old ↦
          let there = w.mapped q old in
          Assoc.lookup-put_ne SockAddr-discrete p.rmt_addr q.rmt_addr p m.peer_map (λ same.
            true≢false (
              sym (Assoc.lookup-has SockAddr-discrete q.rmt_addr m.peer_map q there)
              ∙ ap (λ a. Assoc.has SockAddr-discrete a m.peer_map) same
              ∙ free))
          ∙ there
      | inr new ↦
          subst
            (λ r.
              lookup SockAddr-discrete r.rmt_addr
                (Assoc.put SockAddr-discrete p.rmt_addr p m.peer_map)
              ≡ some r)
            (sym new) (Assoc.lookup-put_self SockAddr-discrete p.rmt_addr p m.peer_map)
    ];
    held = λ a q h. elim (SockAddr-discrete a p.rmt_addr) [
      | yes same ↦
          let found : lookup SockAddr-discrete a
                (Assoc.put SockAddr-discrete p.rmt_addr p m.peer_map)
              ≡ some p =
            ap
              (λ b.
                lookup SockAddr-discrete b (Assoc.put SockAddr-discrete p.rmt_addr p m.peer_map))
              same
            ∙ Assoc.lookup-put_self SockAddr-discrete p.rmt_addr p m.peer_map in
          let is_p : p ≡ q = cc in
          subst (λ r. (r.rmt_addr ≡ a) × HasPeer r (m.peer_set ++ (p ∷ []))) is_p
            (sym same, HasPeer-last p m.peer_set)
      | no other ↦
          let (own, member) =
            w.held a q
              (sym (Assoc.lookup-put_ne SockAddr-discrete p.rmt_addr a p m.peer_map other) ∙ h) in
          (own, HasPeer-append p q m.peer_set member)
    ];
    known = λ a.
        books.add-knows p.rmt_addr a p.is_client m.book
        ∙ ap (λ b. decide (SockAddr-discrete a p.rmt_addr) || b) (w.known a)
        ∙ sym (Assoc.has-put_if SockAddr-discrete p.rmt_addr a p m.peer_map);
    sound = books.add-IsSound p.rmt_addr p.is_client m.book w.sound;
    srvrs = λ l.
        one_more (is_srvr m.kind p) m.num_srvr_peers (number (is_srvr m.kind) m.peer_set)
          (w.srvrs l)
        ∙ ap pos (sym (number-append (is_srvr m.kind) p m.peer_set));
    clnts = λ l.
        one_more (is_clnt m.kind p) m.num_clnt_peers (number (is_clnt m.kind) m.peer_set)
          (w.clnts l)
        ∙ ap pos (sym (number-append (is_clnt m.kind) p m.peer_set));
  }

  -- The manager that has told its peers of a new one, before it has the peer's address.
  abbrev pub greeted : ℤ → Peer → Mgr B → Mgr B × List (Message N)
  greeted now p m =
      let tiered =
        update_tier p.tier
          (count_peer (pos 1) p (record m { peer_set = m.peer_set ++ (p ∷ []) })) in
      notify_if {N = N} (tiered.0 || not p.is_client) now tiered.1

  pub greeted_lem :
      (now : ℤ) (p : Peer) (m : Mgr B)
      → (greeted now p m).0 ≡ record (with_peer p (greeted now p m).0.srvr_info m) {
        peer_map = m.peer_map;
        book = m.book;
        peers_changed = m.peers_changed;
      }
  greeted_lem now p m =
      let base = record m { peer_set = m.peer_set ++ (p ∷ []) } in
      let counted = count_peer (pos 1) p base in
      let tiered = update_tier p.tier counted in
      let i = (greeted now p m).0.srvr_info in
      notify_if_info N (tiered.0 || not p.is_client) now tiered.1
      ∙ ap {B = Mgr B} (λ n. record n { srvr_info = i }) (update_tier_info p.tier counted)
      ∙ ap {B = Mgr B} (λ n. record n { srvr_info = i }) (count_peer_lem (pos 1) p base)

  -- If a manager's set of peers, its map, its bookkeeper and its counts agree and it is not
  -- stopping, then `addPeer` of a peer that is not in the set, with an address that is not in
  -- the map, answers true, and the manager has the peer in all of them, in agreement.
  pub add_peer_lem :
      (now : ℤ) (p : Peer) (m : Mgr B)
      → IsMgr m
      → is_stopping m.state ≡ false
      → in_set p m.peer_set ≡ false
      → Assoc.has SockAddr-discrete p.rmt_addr m.peer_map ≡ false
      → (i : SrvrInfo) × ((told : List (Message N)) × ((add_peer {N = N} books now p m
              ≡ ok (true, with_peer p i m, told))
            × IsMgr (with_peer p i m)))
  unfolding add_peer
  add_peer_lem now p m w going fresh free =
      let told = greeted now p m in
      let i = told.0.srvr_info in
      let e = greeted_lem now p m in
      let new : (books.add p.rmt_addr p.is_client told.0.book).0 ≡ true =
        ap (λ n. (books.add p.rmt_addr p.is_client n.book).0) e
        ∙ books.add-new p.rmt_addr p.is_client m.book
        ∙ ap not (w.known p.rmt_addr ∙ free) in
      (
        i,
        (
          told.1,
          (
            ground (arith, going, fresh, new)
                ∙ ap {B = Result (Bool × Mgr B × List (Message N))}
                    (λ n. ok (
                      true,
                      record n {
                        peer_map = Assoc.put SockAddr-discrete p.rmt_addr p n.peer_map;
                        book = (books.add p.rmt_addr p.is_client n.book).1;
                        peers_changed = true;
                      },
                      told.1,
                    ))
                    e,
            with_peer-IsMgr p i m w fresh free,
          ),
        ),
      )

  -- If a manager's set of peers, its map, its bookkeeper and its counts agree and it is not
  -- stopping, then `addPeer` of a peer that is not in the set, with an address that is in the
  -- map, fails an assertion.
  pub add_peer_aborts :
      (now : ℤ) (p : Peer) (m : Mgr B)
      → IsMgr m
      → is_stopping m.state ≡ false
      → in_set p m.peer_set ≡ false
      → Assoc.has SockAddr-discrete p.rmt_addr m.peer_map ≡ true
      → add_peer {N = N} books now p m ≡ raise assertion_failed
  unfolding add_peer
  add_peer_aborts now p m w going fresh taken =
      let old : (books.add p.rmt_addr p.is_client (greeted now p m).0.book).0 ≡ false =
        ap (λ n. (books.add p.rmt_addr p.is_client n.book).0) (greeted_lem now p m)
        ∙ books.add-new p.rmt_addr p.is_client m.book
        ∙ ap not (w.known p.rmt_addr ∙ taken) in
      ground (arith, going, fresh, old)
