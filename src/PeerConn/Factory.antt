-- ===== src/PeerConn/Factory.antt =====
-- `processSock` of main/p2p/PeerConn.cpp: what the server accepts are whole connections.
use bicast.Base.{
  ℕ, ◌+◌, ◌≤◌, ◌<◌, List, [], ◌∷◌, ◌++◌, length, length-append, map, All, ltb, ◌==◌, true, Option,
  none, some, ◌≡◌, inl, inr, refl, sym, ap, ◌∙◌, subst, arith, Bool-cases, Option-cases,
}
use bicast.Base.Result.{ok}
use bicast.Base.Assoc
use bicast.Base.Assoc.{lookup}
use bicast.Inet.{SockAddr}
use bicast.SrvrInfo.{SockAddr-discrete}
use bicast.PeerConn.{
  Srvr, clone, get_key, entry_of, add, get, process_sock, Xprts, set_xprts, read_ids, xprt_at,
}

clone-clone : (a : SockAddr) (i j : ℕ) → clone i (clone j a) ≡ clone i a
unfolding clone
clone-clone none i j = refl
clone-clone (some e) i j = refl

All-append :
    {X : Type 0} (P : X → Type 0) (xs : List X) (x : X) → All P xs → P x → All P (xs ++ (x ∷ []))
All-append P [] x a p = (p, tt)
All-append P (y ∷ ys) x (a, rest) p = (a, All-append P ys x rest p)

three :
    {X : Type 0} (xs : List X) → length xs ≡ 3 → (a : X) × (b : X) × (c : X) × (xs ≡ a ∷ b ∷ c ∷ [])
three [] e = absurd (omega (arith, e))
three (a ∷ []) e = absurd (omega (arith, e))
three (a ∷ b ∷ []) e = absurd (omega (arith, e))
three (a ∷ b ∷ c ∷ []) e = (a, b, c, refl)
three (a ∷ b ∷ c ∷ d ∷ xs) e = absurd (omega (arith, e))

-- The orders in which the sockets of a connection can arrive: n for notices, r for requests, and d for
-- data.
pub data Order : Type 0 where
  nrd ndr rnd rdn dnr drn : Order

abbrev pub ids_of : Order → List (Option ℕ)
ids_of nrd = some 0 ∷ some 1 ∷ some 2 ∷ []
ids_of ndr = some 0 ∷ some 2 ∷ some 1 ∷ []
ids_of rnd = some 1 ∷ some 0 ∷ some 2 ∷ []
ids_of rdn = some 1 ∷ some 2 ∷ some 0 ∷ []
ids_of dnr = some 2 ∷ some 0 ∷ some 1 ∷ []
ids_of drn = some 2 ∷ some 1 ∷ some 0 ∷ []

arrange : {X : Type 0} → Order → X → X → X → Xprts X
arrange nrd a b c = record { notice_xprt = a; request_xprt = b; data_xprt = c }
arrange ndr a b c = record { notice_xprt = a; request_xprt = c; data_xprt = b }
arrange rnd a b c = record { notice_xprt = b; request_xprt = a; data_xprt = c }
arrange rdn a b c = record { notice_xprt = c; request_xprt = a; data_xprt = b }
arrange dnr a b c = record { notice_xprt = b; request_xprt = c; data_xprt = a }
arrange drn a b c = record { notice_xprt = c; request_xprt = b; data_xprt = a }

set_xprts-ids_of :
    {X : Type 0} (o : Order) (a b c : X)
    → set_xprts (a ∷ b ∷ c ∷ []) (ids_of o) ≡ ok (arrange o a b c)
unfolding set_xprts read_ids xprt_at arrange
set_xprts-ids_of nrd a b c = refl
set_xprts-ids_of ndr a b c = refl
set_xprts-ids_of rnd a b c = refl
set_xprts-ids_of rdn a b c = refl
set_xprts-ids_of dnr a b c = refl
set_xprts-ids_of drn a b c = refl

module _ {X : Type 0} (addr_of : X → SockAddr) (sent_id : X → Option ℕ) where
  -- The transport is to the host of a key.
  abbrev pub IsFrom : SockAddr → X → Type 0
  IsFrom k x = clone 0 (addr_of x) ≡ clone 0 k

  -- The transport is to the host of a key, and carries what its identifier says.
  abbrev pub Serves : SockAddr → ℕ → X → Type 0
  Serves k id x = IsFrom k x × (sent_id x ≡ some id)

  -- The transports of the connection are those for notices, requests and data of one host.
  abbrev pub IsWhole : Option (Xprts X) → Type 0
  IsWhole none = Unit {0}
  IsWhole (some c) =
      (k : SockAddr) × (Serves k 0 c.notice_xprt
        × (Serves k 1 c.request_xprt × Serves k 2 c.data_xprt))

  arrange-IsWhole :
      (k : SockAddr) (o : Order) (a b c : X)
      → map sent_id (a ∷ b ∷ c ∷ []) ≡ ids_of o
      → All (IsFrom k) (a ∷ b ∷ c ∷ [])
      → IsWhole (some (arrange o a b c))
  unfolding arrange
  arrange-IsWhole k nrd a b c e (p, (q, (r, _))) = (k, ((p, cc), ((q, cc), (r, cc))))
  arrange-IsWhole k ndr a b c e (p, (q, (r, _))) = (k, ((p, cc), ((r, cc), (q, cc))))
  arrange-IsWhole k rnd a b c e (p, (q, (r, _))) = (k, ((q, cc), ((p, cc), (r, cc))))
  arrange-IsWhole k rdn a b c e (p, (q, (r, _))) = (k, ((r, cc), ((p, cc), (q, cc))))
  arrange-IsWhole k dnr a b c e (p, (q, (r, _))) = (k, ((q, cc), ((r, cc), (p, cc))))
  arrange-IsWhole k drn a b c e (p, (q, (r, _))) = (k, ((r, cc), ((q, cc), (p, cc))))

  -- The constructor makes a whole connection of three transports to one host, in whichever order they
  -- have arrived.
  pub set_xprts-IsWhole :
      (k : SockAddr) (o : Order) (xs : List X)
      → length xs ≡ 3
      → map sent_id xs ≡ ids_of o
      → All (IsFrom k) xs
      → (c : Xprts X) × ((set_xprts xs (map sent_id xs) ≡ ok c) × IsWhole (some c))
  set_xprts-IsWhole k o xs long ids hosts =
      let (a, b, c, e) = three xs long in
      (
        arrange o a b c,
        (
          ap (set_xprts xs) ids ∙ ap (λ ys. set_xprts ys (ids_of o)) e ∙ set_xprts-ids_of o a b c,
          arrange-IsWhole k o a b c (ap (map sent_id) (sym e) ∙ ids)
              (subst (All (IsFrom k)) e hosts),
        ),
      )

  -- An entry of a key is short of a connection.
  abbrev pub Fits : SockAddr → List X → Type 0
  Fits k xs = (length xs < 3) × All (IsFrom k) xs

  pub record IsSrvr (s : Srvr X) : Type 0 where
    pub entries :
        (k : SockAddr) (xs : List X) → lookup SockAddr-discrete k s.peer_conns ≡ some xs → Fits k xs
    pub whole : All IsWhole s.accept_q
    pub few : length s.accept_q ≤ s.max_pend_conn

  get_key-IsFrom : (x : X) (port : ℕ) → IsFrom (get_key addr_of x port) x
  get_key-IsFrom x port = sym (clone-clone (addr_of x) 0 port)

  entry_of_lem : (k : SockAddr) (s : Srvr X) → IsSrvr s → Fits k (entry_of addr_of k s.peer_conns)
  entry_of_lem k s w = elim (Option-cases (lookup SockAddr-discrete k s.peer_conns)) [
    | inl missing ↦ subst Entry (sym missing) (omega arith, tt)
    | inr (xs, there) ↦ subst Entry (sym there) (w.entries k xs there)
  ]
    where
      Entry : Option (List X) → Type 0
      Entry o = Fits k (elim o [ none ↦ [] | some xs ↦ xs ])

  pub put_entry :
      (j k : SockAddr) (xs ys : List X) (m : List (SockAddr × List X))
      → j ≡ k
      → Fits k xs
      → lookup SockAddr-discrete j (Assoc.put SockAddr-discrete k xs m) ≡ some ys
      → Fits j ys
  put_entry j k xs ys m same fits h =
      let found : some xs ≡ some ys =
        sym (Assoc.lookup-put_self SockAddr-discrete k xs m)
        ∙ ap (λ i. lookup SockAddr-discrete i (Assoc.put SockAddr-discrete k xs m)) (sym same)
        ∙ h in
      let equal : xs ≡ ys = cc in subst (λ i. Fits i ys) (sym same) (subst (Fits k) equal fits)

  -- The transports of a socket's connection that have arrived, with the socket.
  abbrev pub collected : X → ℕ → Srvr X → List X
  collected x port s = entry_of addr_of (get_key addr_of x port) s.peer_conns ++ (x ∷ [])

  -- If every entry of the factory has fewer than three transports, all to the host of its key,
  -- every accepted connection is of three transports to one host that carry the identifiers of
  -- notices, requests and data in this order, the accept-queue is within its limit, and the
  -- three transports of an entry that the socket completes carry these identifiers in any
  -- order, then `processSock` with the constructor of the connection returns, writes nothing
  -- behind the end of an array, and keeps all of this.
  pub process_sock-IsSrvr :
      (x : X) (port : ℕ) (o : Order) (s : Srvr X)
      → IsSrvr s
      → (length (collected x port s) ≡ 3 → map sent_id (collected x port s) ≡ ids_of o)
      → (t : Srvr X) × ((process_sock addr_of sent_id x port s ≡ ok t) × IsSrvr t)
  unfolding process_sock add get
  process_sock-IsSrvr x port o s w arrived =
      elim (Bool-cases (ltb (length s.accept_q) s.max_pend_conn)) [
        | inr full ↦ (s, (rw full refl, w))
        | inl room ↦
            let k = get_key addr_of x port in
            let old = entry_of addr_of k s.peer_conns in
            let (short, hosts) = entry_of_lem k s w in
            let xs = old ++ (x ∷ []) in
            let all = All-append (IsFrom k) old x hosts (get_key-IsFrom x port) in
            let long : length xs ≡ length old + 1 = length-append old (x ∷ []) in
            let m = Assoc.put SockAddr-discrete k xs s.peer_conns in
            let under : ltb (length old) 3 ≡ true = ground (arith, short) in
            elim (Bool-cases (length old + 1 == 3)) [
              | inr more ↦
                  let t : Srvr X = record s { peer_conns = m } in
                  (
                    t,
                    (
                      ground (arith, room, under, more),
                      record {
                        entries = λ j ys h. elim (SockAddr-discrete j k) [
                          | yes same ↦
                              put_entry j k xs ys s.peer_conns same
                                (ground (arith, short, long, more), all) h
                          | no other ↦ w.entries j ys (
                              sym (Assoc.lookup-put_ne SockAddr-discrete k j xs s.peer_conns other)
                              ∙ h)
                        ];
                        whole = w.whole;
                        few = w.few;
                      },
                    ),
                  )
              | inl third ↦
                  let there : lookup SockAddr-discrete k m ≡ some xs =
                    Assoc.lookup-put_self SockAddr-discrete k xs s.peer_conns in
                  let three_long : length xs ≡ 3 = ground (arith, long, third) in
                  let (conn, (built, whole)) =
                    set_xprts-IsWhole k o xs three_long (arrived three_long) all in
                  let t : Srvr X = record s {
                    peer_conns = Assoc.erase SockAddr-discrete k m;
                    accept_q = s.accept_q ++ (some conn ∷ []);
                  } in
                  (
                    t,
                    (
                      ground (arith, room, under, third, there, built),
                      record {
                        entries = λ j ys h. elim (SockAddr-discrete j k) [
                          | yes same ↦
                              let gone : none ≡ some ys =
                                sym (Assoc.lookup-erase_self SockAddr-discrete k m)
                                ∙ ap
                                    (λ i.
                                      lookup SockAddr-discrete i
                                        (Assoc.erase SockAddr-discrete k m))
                                    (sym same)
                                ∙ h in
                              cc
                          | no other ↦ w.entries j ys (
                              sym (Assoc.lookup-put_ne SockAddr-discrete k j xs s.peer_conns other)
                              ∙ sym (Assoc.lookup-erase_ne SockAddr-discrete k j m other)
                              ∙ h)
                        ];
                        whole = All-append IsWhole s.accept_q (some conn) w.whole whole;
                        few = ground (arith, room, length-append s.accept_q (some conn ∷ []));
                      },
                    ),
                  )
            ]
      ]
