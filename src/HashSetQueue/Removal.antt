-- ===== src/HashSetQueue/Removal.antt =====
-- The list of the links of main/misc/HashSetQueue.h without one of its values.
use bicast.Base.{
  List, [], ◌∷◌, true, false, some, decide, ◌≡◌, ◌≢◌, refl, sym, subst, ◌∙◌, ap, if◌then◌else◌,
}
use mathlib.Core.Bool.{true≢false}
use bicast.Base.Assoc.{lookup}
use bicast.Base.Sets
use bicast.HashSetQueue.{Links}
use bicast.HashSetQueue.Chain.{contains-last_or, Table, front_or, last_or, IsChain}
use bicast.HashSetQueue.Unlink.{
  relinked, decide_ne, beside, nothing, at_value, next_behind, prev_before, IsChain-behind,
  IsChain-removed,
}

module _ {V : Type 0} (dec : Discrete V) (unset : V) where
  pub decide_flip : (x y : V) → decide (dec x y) ≡ decide (dec y x)
  decide_flip x y = elim (dec x y) [
    | yes e ↦ rw (beside dec unset x y e, beside dec unset y x (sym e)) refl
    | no d ↦ rw (decide_ne dec unset x y d, decide_ne dec unset y x (λ e. d (sym e))) refl
  ]

  pub last_or_head :
      (m : Table dec unset) (v : V) (gone : Links V) (p x : V) (xs : List V)
      → lookup dec v m ≡ some gone
      → IsChain dec unset m p (x ∷ xs)
      → Sets.contains dec v xs ≡ false
      → v ≡ x
      → (if decide (dec (last_or dec unset x xs) v) then gone.prev else last_or dec unset x xs)
        ≡ last_or dec unset p xs
  last_or_head m v gone p x [] there (c, cs) absent same =
      rw (beside dec unset x v (sym same)) (at_value dec unset m v gone there x p unset c same).0
  last_or_head m v gone p x (z ∷ zs) there c absent same =
      rw
        (decide_ne dec unset (last_or dec unset z zs) v (
          Sets.ne-of-contains dec (last_or dec unset z zs) v (z ∷ zs)
            (contains-last_or dec unset z zs) absent))
        refl

  -- The last value of the list without one.
  pub last_or-erase :
      (m : Table dec unset) (v : V) (gone : Links V) (p : V) (xs : List V)
      → lookup dec v m ≡ some gone
      → IsChain dec unset m p xs
      → Sets.IsUnique dec xs
      → Sets.contains dec v xs ≡ true
      → (if decide (dec (last_or dec unset p xs) v) then gone.prev else last_or dec unset p xs)
        ≡ last_or dec unset p (Sets.erase dec v xs)
  last_or-erase m v gone p [] there c u h = absurd (true≢false (sym h ∙ nothing dec unset v))
  last_or-erase m v gone p (x ∷ xs) there (c, cs) (absent, u) h = elim (dec v x) [
    | yes same ↦
        let gone_from = subst (λ w. Sets.contains dec w xs ≡ false) (sym same) absent in
        rw (Sets.erase_head dec v x xs same gone_from)
          (last_or_head m v gone p x xs there (c, cs) gone_from same)
    | no apart ↦
        rw (Sets.erase_other dec v x xs apart)
          (last_or-erase m v gone x xs there cs u (Sets.contains_behind dec v x xs apart h))
  ]

  -- The first one.
  pub front_or-erase :
      (m : Table dec unset) (v : V) (gone : Links V) (p : V) (xs : List V)
      → lookup dec v m ≡ some gone
      → IsChain dec unset m p xs
      → Sets.IsUnique dec xs
      → Sets.contains dec v xs ≡ true
      → (if decide (dec (front_or dec unset xs) v) then gone.next else front_or dec unset xs)
        ≡ front_or dec unset (Sets.erase dec v xs)
  front_or-erase m v gone p [] there c u h = absurd (true≢false (sym h ∙ nothing dec unset v))
  front_or-erase m v gone p (x ∷ xs) there (c, cs) (absent, u) h = elim (dec v x) [
    | yes same ↦
        let gone_from = subst (λ w. Sets.contains dec w xs ≡ false) (sym same) absent in
        rw (Sets.erase_head dec v x xs same gone_from, beside dec unset x v (sym same))
          (at_value dec unset m v gone there x p (front_or dec unset xs) c same).1
    | no apart ↦
        rw (Sets.erase_other dec v x xs apart, decide_ne dec unset x v (λ e. apart (sym e))) refl
  ]

  -- The links without the value.
  pub IsChain-erase :
      (m n : Table dec unset) (v : V) (gone : Links V) (p : V) (xs : List V)
      → lookup dec v m ≡ some gone
      → IsChain dec unset m p xs
      → Sets.IsUnique dec xs
      → Sets.contains dec v xs ≡ true
      → ((k : V)
          → k ≢ v
          → lookup dec k n
            ≡ relinked dec unset
                (decide (dec (front_or dec unset xs) v))
                (decide (dec (last_or dec unset p xs) v))
                gone
                k
                (lookup dec k m))
      → IsChain dec unset n p (Sets.erase dec v xs)
  IsChain-erase m n v gone p [] there c u h others =
      absurd (true≢false (sym h ∙ nothing dec unset v))
  IsChain-erase m n v gone p (x ∷ xs) there (c, cs) (absent, u) h others =
      let last = last_or dec unset x xs in
      let first = decide (dec x v) in
      let flipped = decide_flip last v in
      elim (dec v x) [
        | yes same ↦
            let gone_from = subst (λ w. Sets.contains dec w xs ≡ false) (sym same) absent in
            rw (Sets.erase_head dec v x xs same gone_from) (
              IsChain-behind dec unset m v gone there n first (decide (dec last v)) others p xs
                (subst (λ w. IsChain dec unset m p (w ∷ xs)) (sym same) (c, cs)) (gone_from, u)
                (flipped ∙ ap (λ w. decide (dec v (last_or dec unset w xs))) (sym same))
                (λ f. absurd (true≢false (sym (beside dec unset x v (sym same)) ∙ f))))
        | no apart ↦ rw (Sets.erase_other dec v x xs apart) (
            IsChain-removed dec unset m v gone there n first (decide (dec last v)) others p x xs
              apart (c, cs) (absent, u) (Sets.contains_behind dec v x xs apart h)
              (decide_ne dec unset x v (λ e. apart (sym e))) flipped)
      ]

  -- The neighbours of the value are values, if there are any.
  pub prev_within :
      (m : Table dec unset) (v : V) (gone : Links V) (p : V) (xs : List V)
      → lookup dec v m ≡ some gone
      → IsChain dec unset m p xs
      → Sets.contains dec v xs ≡ true
      → decide (dec (front_or dec unset xs) v) ≡ false
      → Sets.contains dec gone.prev xs ≡ true
  prev_within m v gone p [] there c h f = absurd (true≢false (sym h ∙ nothing dec unset v))
  prev_within m v gone p (x ∷ xs) there c h f =
      prev_before dec unset m v gone there p x xs c (
        Sets.contains_behind dec v x xs (λ e. true≢false (sym (beside dec unset x v (sym e)) ∙ f))
          h)

  pub next_within :
      (m : Table dec unset) (v : V) (gone : Links V) (p : V) (xs : List V)
      → lookup dec v m ≡ some gone
      → IsChain dec unset m p xs
      → Sets.contains dec v xs ≡ true
      → decide (dec (last_or dec unset p xs) v) ≡ false
      → Sets.contains dec gone.next xs ≡ true
  next_within m v gone p [] there c h f = absurd (true≢false (sym h ∙ nothing dec unset v))
  next_within m v gone p (x ∷ xs) there c h f = Sets.contains_tail dec gone.next x xs (
      next_behind dec unset m v gone there p x xs c h
        (λ e. true≢false (sym (beside dec unset (last_or dec unset x xs) v (sym e)) ∙ f)))
