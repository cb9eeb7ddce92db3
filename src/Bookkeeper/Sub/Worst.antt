-- ===== src/Bookkeeper/Sub/Worst.antt =====
-- The worst peer of a subscriber (`SubBookkeeper::getWorstPeer`): of the peers that it initiated
-- itself, the one that has supplied the least.
use bicast.Base.{
  ℕ, ◌<◌, ◌≤◌, ◌-◌, ◌^◌, List, [], ◌∷◌, ltb, ◌==◌, not, ◌&&◌, ◌||◌, Bool, true, false, none, some,
  ◌≡◌, refl, ◌⊎◌, inl, inr, arith, All, All-map, Bool-cases, if◌then◌else◌,
}
use bicast.Bookkeeper.Sub.{PeerInfo, Book, Scan, scan, get_worst_peer}

-- How the loop begins.
abbrev start : {A : Type 0} → Scan A
start = record { min_rating = 2 ^ 64 - 1; worst = none; valid = false }

module _ {A N : Type 0} where
  -- The map has the address as a client-side peer's, with the rating.
  abbrev pub HasClient : A → ℕ → List (A × PeerInfo N) → Type 0
  HasClient a r [] = ⊥
  HasClient a r (e ∷ m) = ((e.0 ≡ a) × (e.1.rating ≡ r) × (e.1.is_client ≡ true)) ⊎ HasClient a r m

  abbrev lower_than : ℕ → A × PeerInfo N → Bool
  lower_than min e = e.1.is_client && ltb e.1.rating min

  -- Every client-side peer's rating is at least the given one.
  abbrev pub AtLeast : ℕ → List (A × PeerInfo N) → Type 0
  AtLeast r = All (λ e. (e.1.is_client ≡ false) ⊎ (r ≤ e.1.rating))

  -- What the rest of the loop does.
  abbrev Scans : List (A × PeerInfo N) → Scan A → Scan A → Type 0
  Scans m s t =
      ((t.worst ≡ s.worst) × (t.min_rating ≡ s.min_rating) × AtLeast s.min_rating m)
      ⊎ ((a : A) × (r : ℕ) × (t.worst ≡ some a)
          × (r < s.min_rating)
          × HasClient a r m
          × AtLeast r m)

  abbrev Next : A × PeerInfo N → Scan A → Scan A
  Next e s =
      if e.1.is_client
      then record {
        min_rating = if ltb e.1.rating s.min_rating then e.1.rating else s.min_rating;
        worst = if ltb e.1.rating s.min_rating then some e.0 else s.worst;
        valid = not (e.1.rating == 0) || s.valid;
      }
      else s

  AtLeast-weaker : (r q : ℕ) (m : List (A × PeerInfo N)) → q ≤ r → AtLeast r m → AtLeast q m
  AtLeast-weaker r q m h = All-map _ _ m (λ e k. ground arith)

  Scans-step :
      (e : A × PeerInfo N) (m : List (A × PeerInfo N)) (s t : Scan A)
      → Scans m (Next e s) t
      → Scans (e ∷ m) s t
  Scans-step e m s t (inl (q, min, all)) = elim (Bool-cases (lower_than s.min_rating e)) [
    | inl hi ↦ inr (
      e.0,
      e.1.rating,
      ground arith,
      ground arith,
      ground arith,
      (ground arith, AtLeast-weaker _ _ m (ground arith) all),
    )
    | inr lo ↦
        inl (ground arith, ground arith, (ground arith, AtLeast-weaker _ _ m (ground arith) all))
  ]
  Scans-step e m s t (inr (a, r, q, lower, has, all)) =
      inr (a, r, q, ground arith, inr has, (ground arith, all))

  scan-Scans : (m : List (A × PeerInfo N)) (s : Scan A) → Scans m s (scan m s)
  unfolding scan
  scan-Scans [] s = inl (refl, refl, tt)
  scan-Scans (e ∷ m) s = Scans-step e m s (scan m (Next e s)) (scan-Scans m (Next e s))

  -- The flag is set exactly if it was or a client-side peer has a rating other than 0.
  abbrev rated : A × PeerInfo N → Bool
  rated e = e.1.is_client && not (e.1.rating == 0)

  abbrev Validates : List (A × PeerInfo N) → Scan A → Scan A → Type 0
  Validates m s t =
      ((t.valid ≡ s.valid) × All (λ e. rated e ≡ false) m)
      ⊎ ((t.valid ≡ true) × (a : A) × (r : ℕ) × (0 < r) × HasClient a r m)

  Validates-step :
      (e : A × PeerInfo N) (m : List (A × PeerInfo N)) (s t : Scan A)
      → Validates m (Next e s) t
      → Validates (e ∷ m) s t
  Validates-step e m s t (inl (q, all)) = elim (Bool-cases (rated e)) [
    | inl hi ↦ inr (ground arith, e.0, e.1.rating, ground arith, inl (refl, refl, ground arith))
    | inr lo ↦ inl (ground arith, (lo, all))
  ]
  Validates-step e m s t (inr (q, a, r, pos, has)) = inr (q, a, r, pos, inr has)

  scan-Validates : (m : List (A × PeerInfo N)) (s : Scan A) → Validates m s (scan m s)
  unfolding scan
  scan-Validates [] s = inl (refl, tt)
  scan-Validates (e ∷ m) s = Validates-step e m s (scan m (Next e s)) (scan-Validates m (Next e s))

  HasClient-AtLeast :
      (a : A) (r q : ℕ) (m : List (A × PeerInfo N)) → HasClient a r m → AtLeast q m → q ≤ r
  HasClient-AtLeast a r q [] h all = absurd h
  HasClient-AtLeast a r q (e ∷ m) (inl h) all = ground arith
  HasClient-AtLeast a r q (e ∷ m) (inr h) all = HasClient-AtLeast a r q m h all.1

  HasClient-All :
      (a : A) (r q : ℕ) (m : List (A × PeerInfo N))
      → HasClient a r m
      → All (λ e. e.1.rating < q) m
      → r < q
  HasClient-All a r q [] h all = absurd h
  HasClient-All a r q (e ∷ m) (inl h) all = ground arith
  HasClient-All a r q (e ∷ m) (inr h) all = HasClient-All a r q m h all.1

  -- If every rating is below the largest number of 64 bits, then either no peer that was
  -- initiated here has a rating other than 0, and there is no worst peer, or the worst peer is
  -- one that was initiated here, and no other one of these has a lower rating.
  pub get_worst_peer-HasClient :
      (b : Book A N)
      → All (λ e. e.1.rating < 2 ^ 64 - 1) b.peer_to_info
      → ((get_worst_peer b ≡ none)
          × All (λ e. e.1.is_client && not (e.1.rating == 0) ≡ false) b.peer_to_info)
        ⊎ ((a : A) × (r : ℕ) × (get_worst_peer b ≡ some a)
            × HasClient a r b.peer_to_info
            × AtLeast r b.peer_to_info)
  unfolding get_worst_peer
  get_worst_peer-HasClient b below = elim (scan-Validates b.peer_to_info start) [
    | inl (q, all) ↦ inl (rw q, all)
    | inr (q, a, r, pos, has) ↦ elim (scan-Scans b.peer_to_info start) [
      | inl (w, min, all) ↦
          let lo : 2 ^ 64 - 1 ≤ r = HasClient-AtLeast a r (2 ^ 64 - 1) b.peer_to_info has all in
          let hi : r < 2 ^ 64 - 1 = HasClient-All a r (2 ^ 64 - 1) b.peer_to_info has below in
          absurd (omega arith)
      | inr (c, d, w, lower, client, all) ↦ inr (c, d, ground (arith, q, w), client, all)
    ]
  ]
