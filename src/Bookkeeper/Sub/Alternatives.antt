-- ===== src/Bookkeeper/Sub/Alternatives.antt =====
-- `SubBookkeeper::getAltPeer`: the next peer to ask for a datum.
use bicast.Base.{
  List, [], ◌∷◌, Bool, true, false, Option, some, ◌≡◌, ◌≢◌, ◌∙◌, arith, decide, Option-cases, inl,
  inr, not,
}
use bicast.Base.Result.{Result, ok, ◌>>=◌}
use bicast.Base.Assoc
use bicast.Base.Sets
use bicast.Base.Assoc.{lookup}
use bicast.Bookkeeper.Sub.{
  Book, PeerInfo, Peers, should_request, vet_peer, get_alt_peer, pop_front, drop_notice,
  erase_equivalent, front, add_peer,
}

module _ {A N : Type 0} (dec_a : Discrete A) (dec_n : Discrete N) where
  front-pop_front :
      (a : A) (rest : List A)
      → Sets.IsUnique dec_a rest
      → front dec_a dec_n (pop_front dec_a dec_n a rest) ≢ some a
  unfolding pop_front Sets.contains decide
  front-pop_front a [] u q = cc
  front-pop_front a (x ∷ []) u q = ground arith
  front-pop_front a (x ∷ (y ∷ rest)) u q = ground arith

  -- If a notice is known, and the list of its peers has no address twice, then `getAltPeer` for
  -- a peer answers another peer or none, and afterwards the peer is not in the set of the peers
  -- that have the datum.
  pub get_alt_peer_lem :
      (a : A) (n : N) (p : Peers A) (b : Book A N)
      → lookup dec_n n b.notice_to_peers ≡ some p
      → Sets.IsUnique dec_a p.list
      → ((get_alt_peer dec_a dec_n a n b).0 ≢ some a)
        × ((q : Peers A) × (lookup dec_n n (get_alt_peer dec_a dec_n a n b).1.notice_to_peers
              ≡ some q)
            × (Sets.contains dec_a a q.set ≡ false))
  unfolding get_alt_peer
  get_alt_peer_lem a n p b known u =
      let q : Peers A = record {
        set = Sets.erase dec_a a p.set;
        list = pop_front dec_a dec_n a p.list;
      } in
      (
        ground (arith, known, front-pop_front a p.list u),
        (
          q,
          ground (arith, known, Assoc.lookup-put_self dec_n n q b.notice_to_peers),
          Sets.contains-erase_self dec_a a p.set,
        ),
      )

  abbrev After : A → Peers A → Peers A
  After a p = record { set = Sets.erase dec_a a p.set; list = pop_front dec_a dec_n a p.list }

  -- The book after `getAltPeer` of a notice that is known, and after `shouldRequest`.
  get_alt_peer-lookup :
      (a : A) (n : N) (p : Peers A) (b : Book A N)
      → lookup dec_n n b.notice_to_peers ≡ some p
      → ((get_alt_peer dec_a dec_n a n b).0 ≡ front dec_a dec_n (pop_front dec_a dec_n a p.list))
        × (lookup dec_n n (get_alt_peer dec_a dec_n a n b).1.notice_to_peers ≡ some (After a p))
  unfolding get_alt_peer
  get_alt_peer-lookup a n p b known = (
    ground (arith, known),
    ground (arith, known, Assoc.lookup-put_self dec_n n (After a p) b.notice_to_peers),
  )

  get_alt_peer-has :
      (a x : A) (n : N) (b : Book A N)
      → Assoc.has dec_a x (get_alt_peer dec_a dec_n a n b).1.peer_to_info
        ≡ Assoc.has dec_a x (drop_notice dec_a dec_n a n b.peer_to_info)
  unfolding get_alt_peer
  get_alt_peer-has a x n b = elim (Option-cases (lookup dec_n n b.notice_to_peers)) [
    | inl e ↦ ground (arith, e)
    | inr (p, e) ↦ ground (arith, e)
  ]

  drop_notice-has :
      (a x : A) (n : N) (m : List (A × PeerInfo N))
      → Assoc.has dec_a x m ≡ true
      → Assoc.has dec_a x (drop_notice dec_a dec_n a n m) ≡ true
  unfolding drop_notice erase_equivalent
  drop_notice-has a x n m h = elim (Option-cases (lookup dec_a a m)) [
    | inl e ↦ ground (arith, e)
    | inr (i, e) ↦
        let i2 : PeerInfo N = record i { notices = [] } in
        ground (arith, e, Assoc.has-put dec_a a x i2 m h)
  ]

  should_request-lookup :
      (a : A) (n : N) (p : Peers A) (b : Book A N)
      → Assoc.has dec_a a b.peer_to_info ≡ true
      → lookup dec_n n b.notice_to_peers ≡ some p
      → (r : Bool × Book A N) × ((should_request dec_a dec_n a n b ≡ ok r)
          × (lookup dec_n n r.1.notice_to_peers ≡ some (add_peer dec_a dec_n a p)))
  unfolding should_request vet_peer
  should_request-lookup a n p b h known =
      let q = add_peer dec_a dec_n a p in
      (
        (
          not (Assoc.has dec_n n b.notice_to_peers),
          record b { notice_to_peers = Assoc.put dec_n n q b.notice_to_peers },
        ),
        (ground (arith, h, known), Assoc.lookup-put_self dec_n n q b.notice_to_peers),
      )

  -- A peer could not supply the datum, announces it again, and then both the other peer and it
  -- cannot supply it.
  abbrev pub fails_twice : A → A → N → Book A N → Result (Option A)
  fails_twice a x n b = do
    r ← should_request dec_a dec_n a n (get_alt_peer dec_a dec_n a n b).1
    ok (get_alt_peer dec_a dec_n a n (get_alt_peer dec_a dec_n x n r.1).1).0

  pop_front_self : (a : A) (rest : List A) → pop_front dec_a dec_n a (a ∷ rest) ≡ rest
  unfolding pop_front
  pop_front_self a rest = ground arith

  pop_front_ne : (a x : A) (rest : List A) → x ≢ a → pop_front dec_a dec_n a (x ∷ rest) ≡ x ∷ rest
  unfolding pop_front
  pop_front_ne a x rest ne = ground arith

  -- If a notice's list is another peer and then a known one, and the known one fails to supply
  -- the datum, announces it again, and first the other one and then it fails, then `getAltPeer`
  -- answers the peer that has just failed.
  pub fails_twice_lem :
      (a x : A) (n : N) (set : List A) (b : Book A N)
      → x ≢ a
      → Assoc.has dec_a a b.peer_to_info ≡ true
      → lookup dec_n n b.notice_to_peers ≡ some (record { set = set; list = x ∷ (a ∷ []) })
      → fails_twice a x n b ≡ ok (some a)
  unfolding add_peer
  fails_twice_lem a x n set b ne h known =
      let p1 : Peers A = record { set = Sets.erase dec_a a set; list = x ∷ (a ∷ []) } in
      let p2 : Peers A = record {
        set = Sets.insert dec_a a (Sets.erase dec_a a set);
        list = x ∷ (a ∷ (a ∷ []));
      } in
      let p3 : Peers A = record { set = Sets.erase dec_a x p2.set; list = a ∷ (a ∷ []) } in
      let b1 = (get_alt_peer dec_a dec_n a n b).1 in
      let k1 : lookup dec_n n b1.notice_to_peers ≡ some p1 =
        ground (arith, (get_alt_peer-lookup a n _ b known).1, pop_front_ne a x (a ∷ []) ne) in
      let h1 : Assoc.has dec_a a b1.peer_to_info ≡ true =
        get_alt_peer-has a a n b ∙ drop_notice-has a a n b.peer_to_info h in
      let s = should_request-lookup a n p1 b1 h1 k1 in
      let k2 : lookup dec_n n s.0.1.notice_to_peers ≡ some p2 =
        ground (arith, s.1.1, Sets.contains-erase_self dec_a a set) in
      let k3 : lookup dec_n n (get_alt_peer dec_a dec_n x n s.0.1).1.notice_to_peers ≡ some p3 =
        ground (arith, (get_alt_peer-lookup x n p2 s.0.1 k2).1, pop_front_self x (a ∷ (a ∷ []))) in
      ground (
        arith,
        s.1.0,
        (get_alt_peer-lookup a n p3 (get_alt_peer dec_a dec_n x n s.0.1).1 k3).0,
        pop_front_self a (a ∷ []),
      )
