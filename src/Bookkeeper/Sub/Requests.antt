-- ===== src/Bookkeeper/Sub/Requests.antt =====
-- What a subscriber asks for: the calls of `SubBookkeeper` as a sequence.
use bicast.Base.{
  ℕ, ◌+◌, ◌≤◌, List, [], ◌∷◌, Bool, true, false, ◌≡◌, ◌≢◌, refl, arith, All, ◌&&◌, decide,
  if◌then◌else◌, inl, inr, sym, ap, Bool-cases, Option-cases,
}
use bicast.Base.Result.{Result-cases, Result, ok, raise, ◌>>=◌}
use bicast.Base.Assoc
use bicast.Base.Sets
use bicast.Base.Assoc.{lookup}
use bicast.Bookkeeper.Sub.{
  Book, peers_or_new, erase_first, pop_front, add_peer, Peers, vet_peer, should_request, received,
  forget_notice, erase_notice, get_alt_peer, add, forget_peer, erase_peer, reset,
}

-- A call of the bookkeeper by the P2P manager.
pub data Call (A N : Type 0) : Type 0 where
  add_call : A → Bool → Call A N
  erase_peer_call : A → Call A N
  should_request_call : A → N → Call A N
  received_call : A → N → Call A N
  erase_notice_call : N → Call A N
  get_alt_peer_call : A → N → Call A N
  reset_call : Call A N

module _ {A N : Type 0} (dec_a : Discrete A) (dec_n : Discrete N) where
  -- The effect of a call.
  unfoldable pub step : Call A N → Book A N → Result (Book A N)
  step (add_call a c) b = ok (add dec_a dec_n a c b).1
  step (erase_peer_call a) b = do r ← erase_peer dec_a dec_n a b; ok r.1
  step (should_request_call a n) b = do r ← should_request dec_a dec_n a n b; ok r.1
  step (received_call a n) b = do r ← received dec_a dec_n a n b; ok r.1
  step (erase_notice_call n) b = erase_notice dec_a dec_n n b
  step (get_alt_peer_call a n) b = ok (get_alt_peer dec_a dec_n a n b).1
  step reset_call b = ok (reset b)

  -- Does the call answer that the datum is to be requested?
  unfoldable pub asks : N → Call A N → Book A N → Bool
  unfolding decide
  asks n (should_request_call a m) b = elim (should_request dec_a dec_n a m b) [
    | ok r ↦ decide (dec_n m n) && r.0
    | raise e ↦ false
  ]
  asks n _ b = false

  -- How many requests of the datum a sequence of calls makes; an exception ends it.
  unfoldable pub num_requests : N → List (Call A N) → Book A N → ℕ
  num_requests n [] b = 0
  num_requests n (c ∷ cs) b = elim (step c b) [
    | ok b2 ↦ (if asks n c b then 1 else 0) + num_requests n cs b2
    | raise e ↦ 0
  ]

  abbrev Known : N → Book A N → Type 0
  Known n b = Assoc.has dec_n n b.notice_to_peers ≡ true

  abbrev without : A → Peers A → Peers A
  without a p = record { set = Sets.erase dec_a a p.set; list = erase_first dec_a dec_n a p.list }

  abbrev popped : A → Peers A → Peers A
  popped a p = record { set = Sets.erase dec_a a p.set; list = pop_front dec_a dec_n a p.list }

  abbrev joined : A → N → Book A N → Peers A
  joined a k b = add_peer dec_a dec_n a (peers_or_new (lookup dec_n k b.notice_to_peers))

  forget_peer-has :
      (n : N) (a : A) (ns : List N) (m m2 : List (N × Peers A))
      → forget_peer dec_a dec_n a ns m ≡ ok m2
      → Assoc.has dec_n n m ≡ true
      → Assoc.has dec_n n m2 ≡ true
  unfolding forget_peer
  forget_peer-has n a [] m m2 q h = ground arith
  forget_peer-has n a (k ∷ ns) m m2 q h = elim (Option-cases (lookup dec_n k m)) [
    | inl e ↦ ground (arith, q, e)
    | inr (p, e) ↦
        let m1 : List (N × Peers A) = Assoc.put dec_n k (without a p) m in
        forget_peer-has n a ns m1 m2 (ground (arith, q, e))
          (Assoc.has-put dec_n k n (without a p) m h)
  ]

  should_request-has :
      (n k : N) (a : A) (b b2 : Book A N)
      → step (should_request_call a k) b ≡ ok b2
      → (Known n b → Known n b2) × Known k b2
  unfolding step should_request vet_peer
  should_request-has n k a b b2 q = (
    λ h. ground (arith, q, Assoc.has-put dec_n k n (joined a k b) b.notice_to_peers h),
    ground (arith, q, Assoc.has-put_self dec_n k (joined a k b) b.notice_to_peers),
  )

  -- Any call but the notice's erasure keeps the notice.
  step-Known :
      (n : N) (c : Call A N) (b b2 : Book A N)
      → c ≢ erase_notice_call n
      → step c b ≡ ok b2
      → Known n b
      → Known n b2
  unfolding step add reset received vet_peer get_alt_peer erase_peer erase_notice
  step-Known n (add_call a c) b b2 ne q h = ground arith
  step-Known n (erase_peer_call a) b b2 ne q h =
      elim (Option-cases (lookup dec_a a b.peer_to_info)) [
        | inl e ↦ ground (arith, e)
        | inr (info, e) ↦
            elim (Result-cases (forget_peer dec_a dec_n a info.notices b.notice_to_peers)) [
              | inl (m, f) ↦
                  let k = forget_peer-has n a info.notices b.notice_to_peers m f h in
                  ground (arith, e, f, k)
              | inr (x, f) ↦ ground (arith, e, f)
            ]
      ]
  step-Known n (should_request_call a k) b b2 ne q h = (should_request-has n k a b b2 q).0 h
  step-Known n (received_call a k) b b2 ne q h = ground arith
  step-Known n (erase_notice_call k) b b2 ne q h =
      elim (Option-cases (lookup dec_n k b.notice_to_peers)) [
        | inl e ↦ ground (arith, e)
        | inr (p, e) ↦ elim (Result-cases (forget_notice dec_a dec_n k p.list b.peer_to_info)) [
          | inl (m, f) ↦
              let g =
                Assoc.has-erase_ne dec_n k n b.notice_to_peers
                  (λ r. ne (ap erase_notice_call (sym r))) in
              ground (arith, e, f, g)
          | inr (x, f) ↦ ground (arith, e, f)
        ]
      ]
  step-Known n (get_alt_peer_call a k) b b2 ne q h =
      elim (Option-cases (lookup dec_n k b.notice_to_peers)) [
        | inl e ↦ ground (arith, e)
        | inr (p, e) ↦ ground (arith, e, Assoc.has-put dec_n k n (popped a p) b.notice_to_peers h)
      ]
  step-Known n reset_call b b2 ne q h = ground arith

  asks-Known : (n : N) (c : Call A N) (b : Book A N) → Known n b → asks n c b ≡ false
  unfolding asks should_request vet_peer
  asks-Known n (should_request_call a m) b h = ground arith
  asks-Known n (add_call _ _) b h = refl
  asks-Known n (erase_peer_call _) b h = refl
  asks-Known n (received_call _ _) b h = refl
  asks-Known n (erase_notice_call _) b h = refl
  asks-Known n (get_alt_peer_call _ _) b h = refl
  asks-Known n reset_call b h = refl

  -- No notice's erasure is in the sequence.
  abbrev pub Keeps : N → List (Call A N) → Type 0
  Keeps n = All (λ c. c ≢ erase_notice_call n)

  num_requests-Known :
      (n : N) (cs : List (Call A N)) (b : Book A N)
      → Keeps n cs
      → Known n b
      → num_requests n cs b ≡ 0
  unfolding num_requests
  num_requests-Known n [] b keeps h = refl
  num_requests-Known n (c ∷ cs) b keeps h = elim (Result-cases (step c b)) [
    | inl (b2, q) ↦
        let k = num_requests-Known n cs b2 keeps.1 (step-Known n c b b2 keeps.0 q h) in
        ground (arith, q, k, asks-Known n c b h)
    | inr (e, q) ↦ ground (arith, q)
  ]

  asks-step :
      (n : N) (c : Call A N) (b b2 : Book A N) → asks n c b ≡ true → step c b ≡ ok b2 → Known n b2
  unfolding asks
  asks-step n (should_request_call a m) b b2 h q =
      elim (Result-cases (should_request dec_a dec_n a m b)) [
        | inl (r, e) ↦ ground (arith, e, (should_request-has n m a b b2 q).1)
        | inr (x, e) ↦ ground (arith, e)
      ]
  asks-step n (add_call _ _) b b2 h q = cc
  asks-step n (erase_peer_call _) b b2 h q = cc
  asks-step n (received_call _ _) b b2 h q = cc
  asks-step n (erase_notice_call _) b b2 h q = cc
  asks-step n (get_alt_peer_call _ _) b b2 h q = cc
  asks-step n reset_call b b2 h q = cc

  -- In any sequence of a subscriber bookkeeper's calls, from any state, in which a notice is
  -- not erased, `shouldRequest` of that notice answers true at most once (an exception ends the
  -- sequence), also when `getAltPeer` has meanwhile taken away all of the datum's peers.
  pub num_requests-le :
      (n : N) (cs : List (Call A N)) (b : Book A N) → Keeps n cs → num_requests n cs b ≤ 1
  unfolding num_requests
  num_requests-le n [] b keeps = ground arith
  num_requests-le n (c ∷ cs) b keeps = elim (Result-cases (step c b)) [
    | inr (e, q) ↦ ground (arith, q)
    | inl (b2, q) ↦ elim (Bool-cases (asks n c b)) [
      | inl asked ↦
          let k = num_requests-Known n cs b2 keeps.1 (asks-step n c b b2 asked q) in
          ground (arith, q, k, asked)
      | inr silent ↦ ground (arith, q, silent, num_requests-le n cs b2 keeps.1)
    ]
  ]
