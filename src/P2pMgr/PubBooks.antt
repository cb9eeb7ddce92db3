-- ===== src/P2pMgr/PubBooks.antt =====
-- `PubBookkeeper` of main/p2p/Bookkeeper.cpp as the manager's bookkeeper.
use bicast.Base.{
  ℕ, [], ◌∷◌, not, ◌&&◌, ◌||◌, ◌==◌, Bool, true, Option, none, some, decide, ◌≡◌, ◌⊎◌, refl, sym,
  ap, arith, inl, inr, Bool-cases,
}
use bicast.Base.Result.{ok}
use bicast.Base.Assoc
use bicast.Bookkeeper.Pub
use bicast.Bookkeeper.Pub.{Requests, above, scan}
use bicast.P2pMgr.Books.{Bookkeeping}

module _ {A : Type 0} (dec : Discrete A) where
  knows_head : (a : A) (e : A × ℕ) (m : Requests A) → a ≡ e.0 → Assoc.has dec a (e ∷ m) ≡ true
  unfolding Assoc.has decide
  knows_head a e m h = ground arith

  knows_tail :
      (a : A) (e : A × ℕ) (m : Requests A)
      → Assoc.has dec a m ≡ true
      → Assoc.has dec a (e ∷ m) ≡ true
  unfolding Assoc.has
  knows_tail a e m h = ground (arith, h)

  -- The worst peer of a publisher is one of the map, or the one found so far.
  scan_cases :
      (m : Requests A) (max : Option ℕ) (worst : Option A) (a : A)
      → scan m max worst ≡ some a
      → (worst ≡ some a) ⊎ (Assoc.has dec a m ≡ true)
  unfolding scan
  scan_cases [] max worst a e = inl e
  scan_cases (x ∷ m) max worst a e = elim (Bool-cases (not (x.1 == 0) && above x.1 max)) [
    | inl higher ↦ elim (scan_cases m (some x.1) (some x.0) a (ground (arith, higher, e))) [
      | inl here ↦ let same : x.0 ≡ a = cc in inr (knows_head a x m (sym same))
      | inr there ↦ inr (knows_tail a x m there)
    ]
    | inr lower ↦ elim (scan_cases m max worst a (ground (arith, lower, e))) [
      | inl before ↦ inl before
      | inr there ↦ inr (knows_tail a x m there)
    ]
  ]

  pub has-reset : (k : A) (m : Requests A) → Assoc.has dec k (Pub.reset m) ≡ Assoc.has dec k m
  unfolding Assoc.has Pub.reset
  has-reset k [] = refl
  has-reset k (e ∷ m) = ap (λ b. decide (dec k e.0) || b) (has-reset k m)

  pub get_worst_peer-knows :
      (a : A) (m : Requests A) → Pub.get_worst_peer m ≡ some a → Assoc.has dec a m ≡ true
  unfolding Pub.get_worst_peer
  get_worst_peer-knows a m e = elim (scan_cases m none none a e) [
    | inl before ↦ absurd cc
    | inr there ↦ there
  ]

  pub add-knows :
      (a k : A) (c : Bool) (m : Requests A)
      → Assoc.has dec k (Pub.add dec a m).1 ≡ (decide (dec k a) || Assoc.has dec k m)
  unfolding Pub.add
  add-knows a k c m = Assoc.has-add_if dec a k 0 m

  pub add-new : (a : A) (c : Bool) (m : Requests A) → (Pub.add dec a m).0 ≡ not (Assoc.has dec a m)
  unfolding Pub.add
  add-new a c m = refl

  pub erase_known :
      (a : A) (m : Requests A)
      → (d : Requests A) × ((ok (Pub.erase dec a m) ≡ ok (Assoc.has dec a m, d))
          × (Unit {0}
              × ((k : A) → Assoc.has dec k d ≡ (not (decide (dec k a)) && Assoc.has dec k m))))
  unfolding Pub.erase
  erase_known a m = (Assoc.erase dec a m, (refl, (tt, λ k. Assoc.has-erase_if dec a k m)))

  abbrev pub pub_books : Bookkeeping A dec (Requests A)
  pub_books = record {
    add = λ a c m. Pub.add dec a m;
    erase = λ a m. ok (Pub.erase dec a m);
    reset = Pub.reset;
    get_worst_peer = Pub.get_worst_peer;
    knows = Assoc.has dec;
    IsSound = λ m. Unit {0};
    add-new = add-new;
    add-knows = add-knows;
    add-IsSound = λ a c m h. tt;
    erase_lem = λ a m h. erase_known a m;
    reset-knows = has-reset;
    reset-IsSound = λ m h. tt;
    get_worst_peer-knows = get_worst_peer-knows;
  }
