-- ===== src/Bookkeeper/Pub/Worst.antt =====
-- The worst peer of a publisher (`PubBookkeeper::getWorstPeer`): the one that asks the most.
use bicast.Base.{
  ℕ, ◌<◌, ◌≤◌, [], ◌∷◌, ◌==◌, not, ◌&&◌, Bool, true, false, Option, none, some, ◌≡◌, refl, sym,
  subst, ◌⊎◌, inl, inr, arith, All, All-map, Bool-cases,
}
use bicast.Bookkeeper.Pub.{Requests, above, scan, get_worst_peer}

abbrev beats : ℕ → Option ℕ → Bool
beats count max = not (count == 0) && above count max

module _ {A : Type 0} where
  -- The map has the address with the count.
  abbrev pub Has : A → ℕ → Requests A → Type 0
  Has a c [] = ⊥
  Has a c (e ∷ m) = ((e.0 ≡ a) × (e.1 ≡ c)) ⊎ Has a c m

  -- What the rest of the loop does: it keeps what it has, or finds a higher count.
  abbrev Scans : Requests A → Option ℕ → Option A → Option A → Type 0
  Scans m max worst r =
      ((r ≡ worst) × All (λ e. beats e.1 max ≡ false) m)
      ⊎ ((a : A) × (c : ℕ) × (r ≡ some a) × (beats c max ≡ true) × Has a c m × All (λ e. e.1 ≤ c) m)

  Scans-higher :
      (a : A) (c : ℕ) (m : Requests A) (max : Option ℕ) (worst r : Option A)
      → beats c max ≡ true
      → Scans m (some c) (some a) r
      → Scans ((a, c) ∷ m) max worst r
  Scans-higher a c m max worst r hi (inl (q, all)) =
      inr (a, c, q, hi, inl (refl, refl), (omega arith, All-map _ _ m (λ e h. ground arith) all))
  Scans-higher a c m none worst r hi (inr (b, d, q, beats, has, all)) =
      inr (b, d, q, ground arith, inr has, (ground arith, all))
  Scans-higher a c m (some x) worst r hi (inr (b, d, q, beats, has, all)) =
      inr (b, d, q, ground arith, inr has, (ground arith, all))

  Scans-lower :
      (e : A × ℕ) (m : Requests A) (max : Option ℕ) (worst r : Option A)
      → beats e.1 max ≡ false
      → Scans m max worst r
      → Scans (e ∷ m) max worst r
  Scans-lower e m max worst r lo (inl (q, all)) = inl (q, (lo, all))
  Scans-lower e m none worst r lo (inr (b, d, q, beats, has, all)) =
      inr (b, d, q, beats, inr has, (ground arith, all))
  Scans-lower e m (some x) worst r lo (inr (b, d, q, beats, has, all)) =
      inr (b, d, q, beats, inr has, (ground arith, all))

  scan-Scans :
      (m : Requests A) (max : Option ℕ) (worst : Option A) → Scans m max worst (scan m max worst)
  unfolding scan
  scan-Scans [] max worst = inl (refl, tt)
  scan-Scans (e ∷ m) max worst = elim (Bool-cases (beats e.1 max)) [
    | inl hi ↦
        let q : scan (e ∷ m) max worst ≡ scan m (some e.1) (some e.0) = rw hi in
        subst (Scans (e ∷ m) max worst) (sym q)
          (Scans-higher e.0 e.1 m max worst _ hi (scan-Scans m (some e.1) (some e.0)))
    | inr lo ↦
        let q : scan (e ∷ m) max worst ≡ scan m max worst = rw lo in
        subst (Scans (e ∷ m) max worst) (sym q)
          (Scans-lower e m max worst _ lo (scan-Scans m max worst))
  ]

  -- Either every count of requests is 0, and there is no worst peer, or the worst peer is one
  -- of the map with a count above 0 that no count of the map exceeds.
  pub get_worst_peer-Has :
      (m : Requests A)
      → ((get_worst_peer m ≡ none) × All (λ e. e.1 ≡ 0) m)
        ⊎ ((a : A) × (c : ℕ) × (get_worst_peer m ≡ some a)
            × (0 < c)
            × Has a c m
            × All (λ e. e.1 ≤ c) m)
  unfolding get_worst_peer
  get_worst_peer-Has m = elim (scan-Scans m none none) [
    | inl (q, all) ↦ inl (q, All-map _ _ m (λ e h. ground arith) all)
    | inr (a, c, q, beats, has, all) ↦ inr (a, c, q, ground arith, has, all)
  ]
