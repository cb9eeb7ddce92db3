-- ===== src/P2pMgr/SubBooks.antt =====
-- `SubBookkeeper` of main/p2p/Bookkeeper.cpp as the manager's bookkeeper.
use bicast.Base.{
  List, [], ◌∷◌, map, not, ◌&&◌, ◌||◌, Bool, true, false, none, some, decide, ◌≡◌, ◌⊎◌, refl, sym,
  ap, arith, inl, inr, Option-cases, Bool-cases, ltb, ◌==◌, if◌then◌else◌, ◌^◌, ◌-◌,
}
use bicast.Base.Result.{ok}
use bicast.Base.Assoc
use bicast.Base.Assoc.{lookup}
use bicast.Bookkeeper.Sub
use bicast.Bookkeeper.Sub.{Book, PeerInfo, Scan, scan, forget_peer}
use bicast.Bookkeeper.Sub.Stale.{IsSilent, add-Silent, erase-Silent, lookup-Silent, reset-Silent}
use bicast.P2pMgr.Books.{Bookkeeping}

module _ {A N : Type 0} (dec : Discrete A) (dec_n : Discrete N) where
  has_head :
      (a : A) (e : A × PeerInfo N) (m : List (A × PeerInfo N))
      → a ≡ e.0
      → Assoc.has dec a (e ∷ m) ≡ true
  unfolding Assoc.has decide
  has_head a e m h = ground arith

  has_tail :
      (a : A) (e : A × PeerInfo N) (m : List (A × PeerInfo N))
      → Assoc.has dec a m ≡ true
      → Assoc.has dec a (e ∷ m) ≡ true
  unfolding Assoc.has
  has_tail a e m h = ground (arith, h)

  -- A round of the scan.
  abbrev round : A × PeerInfo N → Scan A → Scan A
  round e s =
      if e.1.is_client
      then record {
        min_rating = if ltb e.1.rating s.min_rating then e.1.rating else s.min_rating;
        worst = if ltb e.1.rating s.min_rating then some e.0 else s.worst;
        valid = not (e.1.rating == 0) || s.valid;
      }
      else s

  chosen :
      (e : A × PeerInfo N) (s : Scan A) (a : A)
      → (round e s).worst ≡ some a
      → (s.worst ≡ some a) ⊎ (e.0 ≡ a)
  chosen e s a h = elim (Bool-cases e.1.is_client) [
    | inr server ↦ inl (ground (arith, server, h))
    | inl client ↦ elim (Bool-cases (ltb e.1.rating s.min_rating)) [
      | inl less ↦ inr (ground (arith, client, less, h))
      | inr not_less ↦ inl (ground (arith, client, not_less, h))
    ]
  ]

  -- The worst peer of a subscriber is one of the map, or the one found so far.
  scan-knows :
      (m rest : List (A × PeerInfo N)) (s : Scan A) (a : A)
      → ((b : A) → s.worst ≡ some b → Assoc.has dec b m ≡ true)
      → ((b : A) → Assoc.has dec b rest ≡ true → Assoc.has dec b m ≡ true)
      → (scan rest s).worst ≡ some a
      → Assoc.has dec a m ≡ true
  unfolding scan
  scan-knows m [] s a h k e = h a e
  scan-knows m (x ∷ rest) s a h k e =
      scan-knows m rest (round x s) a
        (λ b f. elim (chosen x s b f) [
          | inl before ↦ h b before
          | inr now ↦ k b (has_head b x rest (sym now))
        ])
        (λ b f. k b (has_tail b x rest f)) e

  has-reset :
      (k : A) (m : List (A × PeerInfo N))
      → Assoc.has dec k (map (λ e. (e.0, record e.1 { rating = 0 })) m) ≡ Assoc.has dec k m
  unfolding Assoc.has
  has-reset k [] = refl
  has-reset k (e ∷ m) = ap (λ b. decide (dec k e.0) || b) (has-reset k m)

  -- A peer without notices goes from the map of peers only.
  pub erase_peer_silent :
      (a : A) (b : Book A N)
      → IsSilent dec dec_n b
      → Assoc.has dec a b.peer_to_info ≡ true
      → Sub.erase_peer dec dec_n a b
        ≡ ok (true, record b { peer_to_info = Assoc.erase dec a b.peer_to_info })
  unfolding Sub.erase_peer forget_peer
  erase_peer_silent a b w known =
      let (i, there) = Assoc.has-lookup-some dec a b.peer_to_info known in
      let silent = lookup-Silent dec dec_n a i b.peer_to_info w there in
      ground (arith, there, silent)

  pub sub_erase_lem :
      (a : A) (b : Book A N)
      → IsSilent dec dec_n b
      → (d : Book A N) × ((Sub.erase_peer dec dec_n a b ≡ ok (Assoc.has dec a b.peer_to_info, d))
          × (IsSilent dec dec_n d
              × ((k : A)
                  → Assoc.has dec k d.peer_to_info
                    ≡ (not (decide (dec k a)) && Assoc.has dec k b.peer_to_info))))
  unfolding Sub.erase_peer forget_peer
  sub_erase_lem a b w = elim (Option-cases (lookup dec a b.peer_to_info)) [
    | inl missing ↦
        let absent = Assoc.lookup-none-has dec a b.peer_to_info missing in
        (b, (ground (arith, missing, absent), (w, λ k. still k absent)))
    | inr (i, there) ↦
        let silent = lookup-Silent dec dec_n a i b.peer_to_info w there in
        let known = Assoc.lookup-has dec a b.peer_to_info i there in
        (
          record b { peer_to_info = Assoc.erase dec a b.peer_to_info },
          (
            ground (arith, there, silent, known),
            (
              erase-Silent dec dec_n a b.peer_to_info w,
              λ k. Assoc.has-erase_if dec a k b.peer_to_info,
            ),
          ),
        )
  ]
    where
      still :
          (k : A)
          → Assoc.has dec a b.peer_to_info ≡ false
          → Assoc.has dec k b.peer_to_info
            ≡ (not (decide (dec k a)) && Assoc.has dec k b.peer_to_info)
      still k absent = elim (dec k a) [
        | yes same ↦ rw (same, absent) (unfold decide in ground arith)
        | no other ↦ unfold decide in ground (arith, other)
      ]

  pub add-knows :
      (a k : A) (c : Bool) (b : Book A N)
      → Assoc.has dec k (Sub.add dec dec_n a c b).1.peer_to_info
        ≡ (decide (dec k a) || Assoc.has dec k b.peer_to_info)
  unfolding Sub.add
  add-knows a k c b =
      Assoc.has-add_if dec a k (record { rating = 0; notices = []; is_client = c }) b.peer_to_info

  pub add-new :
      (a : A) (c : Bool) (b : Book A N)
      → (Sub.add dec dec_n a c b).0 ≡ not (Assoc.has dec a b.peer_to_info)
  unfolding Sub.add
  add-new a c b = refl

  pub add-IsSilent :
      (a : A) (c : Bool) (b : Book A N)
      → IsSilent dec dec_n b
      → IsSilent dec dec_n (Sub.add dec dec_n a c b).1
  unfolding Sub.add
  add-IsSilent a c b w =
      add-Silent dec dec_n a (record { rating = 0; notices = []; is_client = c }) b.peer_to_info
        refl w

  pub reset-knows :
      (k : A) (b : Book A N)
      → Assoc.has dec k (Sub.reset b).peer_to_info ≡ Assoc.has dec k b.peer_to_info
  unfolding Sub.reset
  reset-knows k b = has-reset k b.peer_to_info

  pub reset-IsSilent : (b : Book A N) → IsSilent dec dec_n b → IsSilent dec dec_n (Sub.reset b)
  unfolding Sub.reset
  reset-IsSilent b w = reset-Silent dec dec_n b.peer_to_info w

  pub get_worst_peer-knows :
      (a : A) (b : Book A N) → Sub.get_worst_peer b ≡ some a → Assoc.has dec a b.peer_to_info ≡ true
  unfolding Sub.get_worst_peer
  get_worst_peer-knows a b e =
      let start : Scan A = record { min_rating = 2 ^ 64 - 1; worst = none; valid = false } in
      elim (Bool-cases (scan b.peer_to_info start).valid) [
        | inl valid ↦
            scan-knows b.peer_to_info b.peer_to_info start a (λ c f. cc) (λ c f. f)
              (ground (arith, valid, e))
        | inr invalid ↦ absurd (ground (arith, invalid, e))
      ]

  abbrev pub sub_books : Bookkeeping A dec (Book A N)
  sub_books = record {
    add = Sub.add dec dec_n;
    erase = Sub.erase_peer dec dec_n;
    reset = Sub.reset;
    get_worst_peer = Sub.get_worst_peer;
    knows = λ a b. Assoc.has dec a b.peer_to_info;
    IsSound = IsSilent dec dec_n;
    add-new = add-new;
    add-knows = add-knows;
    add-IsSound = add-IsSilent;
    erase_lem = sub_erase_lem;
    reset-knows = reset-knows;
    reset-IsSound = reset-IsSilent;
    get_worst_peer-knows = get_worst_peer-knows;
  }
