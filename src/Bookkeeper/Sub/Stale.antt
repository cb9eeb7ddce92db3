-- ===== src/Bookkeeper/Sub/Stale.antt =====
-- A subscriber's peers that are erased while a notice still lists them: no operation of
-- `SubBookkeeper` puts a notice into `PeerInfo::notices`, which `erase(const SockAddr&)` goes by.
use bicast.Base.{
  map, sym, subst, ◌+◌, ◌%◌, ◌^◌, List, [], ◌∷◌, true, none, some, ◌≡◌, refl, arith, All, decide,
  Option-cases, inl, inr,
}
use bicast.Base.Result.{ok, raise, out_of_range, Result-cases, ◌>>=◌}
use bicast.Base.Assoc
use bicast.Base.Sets
use bicast.Base.Assoc.{lookup}
use bicast.Bookkeeper.Sub.Requests.{
  Call, add_call, erase_peer_call, should_request_call, received_call, erase_notice_call,
  get_alt_peer_call, reset_call, step,
}
use bicast.Bookkeeper.Sub.{
  Book, PeerInfo, Peers, vet_peer, should_request, received, forget_notice, erase_notice,
  get_alt_peer, add, forget_peer, erase_peer, reset, erase_equivalent, drop_notice, increment,
}

module _ {A N : Type 0} (dec_a : Discrete A) (dec_n : Discrete N) where
  abbrev pub Silent : List (A × PeerInfo N) → Type 0
  Silent = All (λ e. e.1.notices ≡ [])

  -- No peer has a notice.
  abbrev pub IsSilent : Book A N → Type 0
  IsSilent b = Silent b.peer_to_info

  put-Silent :
      (a : A) (i : PeerInfo N) (m : List (A × PeerInfo N))
      → i.notices ≡ []
      → Silent m
      → Silent (Assoc.put dec_a a i m)
  unfolding Assoc.put
  put-Silent a i [] h s = (h, tt)
  put-Silent a i (e ∷ m) h s = ground (arith, put-Silent a i m h s.1)

  pub add-Silent :
      (a : A) (i : PeerInfo N) (m : List (A × PeerInfo N))
      → i.notices ≡ []
      → Silent m
      → Silent (Assoc.add dec_a a i m)
  unfolding Assoc.add
  add-Silent a i [] h s = (h, tt)
  add-Silent a i (e ∷ m) h s = ground (arith, add-Silent a i m h s.1)

  pub erase-Silent : (a : A) (m : List (A × PeerInfo N)) → Silent m → Silent (Assoc.erase dec_a a m)
  unfolding Assoc.erase
  erase-Silent a [] s = tt
  erase-Silent a (e ∷ m) s = ground (arith, erase-Silent a m s.1)

  pub lookup-Silent :
      (a : A) (i : PeerInfo N) (m : List (A × PeerInfo N))
      → Silent m
      → lookup dec_a a m ≡ some i
      → i.notices ≡ []
  unfolding lookup
  lookup-Silent a i [] s h = cc
  lookup-Silent a i (e ∷ m) s h = ground (arith, lookup-Silent a i m s.1)

  forget_notice-Silent :
      (n : N) (rest : List A) (m m2 : List (A × PeerInfo N))
      → Silent m
      → forget_notice dec_a dec_n n rest m ≡ ok m2
      → Silent m2
  unfolding forget_notice erase_equivalent
  forget_notice-Silent n [] m m2 s q = ground arith
  forget_notice-Silent n (a ∷ rest) m m2 s q = elim (Option-cases (lookup dec_a a m)) [
    | inl e ↦ ground (arith, q, e)
    | inr (i, e) ↦
        let i2 : PeerInfo N = record i { notices = [] } in
        forget_notice-Silent n rest (Assoc.put dec_a a i2 m) m2 (put-Silent a i2 m refl s)
          (ground (arith, q, e))
  ]

  -- A list with an erased peer raises the exception of `at`.
  pub forget_notice-raise :
      (n : N) (a : A) (rest : List A) (m : List (A × PeerInfo N))
      → Sets.contains dec_a a rest ≡ true
      → lookup dec_a a m ≡ none
      → forget_notice dec_a dec_n n rest m ≡ raise out_of_range
  unfolding forget_notice Sets.contains decide erase_equivalent
  forget_notice-raise n a [] m h q = cc
  forget_notice-raise n a (x ∷ rest) m h q = elim (Option-cases (lookup dec_a x m)) [
    | inl e ↦ ground (arith, e)
    | inr (i, e) ↦
        let i2 : PeerInfo N = record i { notices = [] } in
        ground (
          arith,
          e,
          q,
          forget_notice-raise n a rest (Assoc.put dec_a x i2 m),
          Assoc.lookup-put_ne dec_a x a i2 m,
        )
  ]

  -- If no peer has a notice in its set of notices, and a notice lists a peer that is known,
  -- then the erasure of the peer and, after it, of the notice throws the exception of
  -- `std::unordered_map::at`.
  pub erase_notice-erase_peer :
      (a : A) (n : N) (i : PeerInfo N) (p : Peers A) (b : Book A N)
      → IsSilent b
      → lookup dec_a a b.peer_to_info ≡ some i
      → lookup dec_n n b.notice_to_peers ≡ some p
      → Sets.contains dec_a a p.list ≡ true
      → (erase_peer dec_a dec_n a b >>= λ r. erase_notice dec_a dec_n n r.1) ≡ raise out_of_range
  unfolding erase_peer erase_notice forget_peer
  erase_notice-erase_peer a n i p b s known listed has =
      let h : i.notices ≡ [] = lookup-Silent a i b.peer_to_info s known in
      ground (
        arith,
        h,
        known,
        listed,
        forget_notice-raise n a p.list (Assoc.erase dec_a a b.peer_to_info) has
            (Assoc.lookup-erase_self dec_a a b.peer_to_info),
      )

  pub reset-Silent :
      (m : List (A × PeerInfo N))
      → Silent m
      → Silent (map (λ e. (e.0, record e.1 { rating = 0 })) m)
  reset-Silent [] s = tt
  reset-Silent (e ∷ m) s = (s.0, reset-Silent m s.1)

  increment-Silent :
      (a : A) (m : List (A × PeerInfo N)) → Silent m → Silent (increment dec_a dec_n a m)
  unfolding increment
  increment-Silent a m s = elim (Option-cases (lookup dec_a a m)) [
    | inl e ↦ ground (arith, e, s)
    | inr (i, e) ↦
        let i2 : PeerInfo N = record i { rating = (i.rating + 1) % 2 ^ 64 } in
        let q : increment dec_a dec_n a m ≡ Assoc.put dec_a a i2 m = ground (arith, e) in
        subst Silent (sym q) (put-Silent a i2 m (lookup-Silent a i m s e) s)
  ]

  drop_notice-Silent :
      (a : A) (n : N) (m : List (A × PeerInfo N))
      → Silent m
      → Silent (drop_notice dec_a dec_n a n m)
  unfolding drop_notice erase_equivalent
  drop_notice-Silent a n m s = elim (Option-cases (lookup dec_a a m)) [
    | inl e ↦ ground (arith, e, s)
    | inr (i, e) ↦
        let i2 : PeerInfo N = record i { notices = [] } in
        let q : drop_notice dec_a dec_n a n m ≡ Assoc.put dec_a a i2 m = ground (arith, e) in
        subst Silent (sym q) (put-Silent a i2 m refl s)
  ]

  -- If no peer of a subscriber's bookkeeper has a notice in its set of notices, then after any
  -- call that returns none has: nothing fills these sets.
  pub step-IsSilent :
      (c : Call A N) (b b2 : Book A N) → IsSilent b → step dec_a dec_n c b ≡ ok b2 → IsSilent b2
  unfolding step add reset received vet_peer should_request get_alt_peer erase_peer erase_notice
  step-IsSilent (add_call a c) b b2 s q =
      let new : PeerInfo N = record { rating = 0; notices = []; is_client = c } in
      ground (arith, q, add-Silent a new b.peer_to_info refl s)
  step-IsSilent (erase_peer_call a) b b2 s q = elim (Option-cases (lookup dec_a a b.peer_to_info)) [
    | inl e ↦ ground (arith, e, s)
    | inr (i, e) ↦ elim (Result-cases (forget_peer dec_a dec_n a i.notices b.notice_to_peers)) [
      | inl (m, f) ↦ ground (arith, e, f, erase-Silent a b.peer_to_info s)
      | inr (x, f) ↦ ground (arith, e, f)
    ]
  ]
  step-IsSilent (should_request_call a n) b b2 s q = ground (arith, s)
  step-IsSilent (received_call a n) b b2 s q =
      ground (arith, s, increment-Silent a b.peer_to_info s)
  step-IsSilent (erase_notice_call n) b b2 s q =
      elim (Option-cases (lookup dec_n n b.notice_to_peers)) [
        | inl e ↦ ground (arith, e, s)
        | inr (p, e) ↦ elim (Result-cases (forget_notice dec_a dec_n n p.list b.peer_to_info)) [
          | inl (m, f) ↦ ground (arith, e, f, forget_notice-Silent n p.list b.peer_to_info m s f)
          | inr (x, f) ↦ ground (arith, e, f)
        ]
      ]
  step-IsSilent (get_alt_peer_call a n) b b2 s q =
      elim (Option-cases (lookup dec_n n b.notice_to_peers)) [
        | inl e ↦ ground (arith, e, drop_notice-Silent a n b.peer_to_info s)
        | inr (p, e) ↦ ground (arith, e, drop_notice-Silent a n b.peer_to_info s)
      ]
  step-IsSilent reset_call b b2 s q = ground (arith, reset-Silent b.peer_to_info s)
