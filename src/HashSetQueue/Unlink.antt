-- ===== src/HashSetQueue/Unlink.antt =====
-- A value that `erase` of main/misc/HashSetQueue.h takes out of the links.
use bicast.Base.{
  List, [], ◌∷◌, Bool, true, false, not, ◌&&◌, Option, none, some, decide, ◌≡◌, ◌≢◌, refl, sym, ap,
  ◌∙◌, subst, arith, if◌then◌else◌,
}
use mathlib.Core.Bool.{true≢false}
use bicast.Base.Assoc.{lookup}
use bicast.Base.Sets
use bicast.HashSetQueue.{Links}
use bicast.HashSetQueue.Chain.{Table, front_or, last_or, IsChain, IsChain-agree, contains-last_or}

module _ {V : Type 0} (dec : Discrete V) (unset : V) where
  -- What becomes of the links of a value `k` that stays, if those of the value `v` go.
  abbrev pub relinked : Bool → Bool → Links V → V → Option (Links V) → Option (Links V)
  relinked first last gone k none = none
  relinked first last gone k (some l) = some (record {
    prev = if not last && decide (dec k gone.next) then gone.prev else l.prev;
    next = if not first && decide (dec k gone.prev) then gone.next else l.next;
  })

  guarded : (b : Bool) (x y : V) → (b ≡ false → x ≢ y) → (not b && decide (dec x y)) ≡ false
  guarded true x y h = refl
  guarded false x y h = let d = h refl in unfold decide in ground arith

  pub beside : (x y : V) → x ≡ y → decide (dec x y) ≡ true
  unfolding decide
  beside x y e = ground arith

  pub decide_ne : (x y : V) → x ≢ y → decide (dec x y) ≡ false
  unfolding decide
  decide_ne x y d = ground arith

  ne-of-contains' :
      (a x : V) (xs : List V)
      → Sets.contains dec x xs ≡ true
      → Sets.contains dec a xs ≡ false
      → x ≢ a
  ne-of-contains' a x xs h k e = cc

  pub relinked_same :
      (f t : Bool) (gone : Links V) (k : V) (o : Option (Links V))
      → (f ≡ false → k ≢ gone.prev)
      → (t ≡ false → k ≢ gone.next)
      → relinked f t gone k o ≡ o
  relinked_same f t gone k none a b = refl
  relinked_same f t gone k (some l) a b = rw (guarded f k gone.prev a, guarded t k gone.next b) refl

  pub nothing : (v : V) → Sets.contains dec v [] ≡ false
  unfolding Sets.contains
  nothing v = refl

  module _ (m : Table dec unset) (v : V) (gone : Links V) (there : lookup dec v m ≡ some gone) where
    -- The links of the value that goes are those of its place.
    pub at_value :
        (x p q : V)
        → lookup dec x m ≡ some (record { prev = p; next = q })
        → v ≡ x
        → (gone.prev ≡ p) × (gone.next ≡ q)
    at_value x p q c e = (cc, cc)

    -- The successor is behind the value.
    pub next_behind :
        (p x : V) (xs : List V)
        → IsChain dec unset m p (x ∷ xs)
        → Sets.contains dec v (x ∷ xs) ≡ true
        → v ≢ last_or dec unset x xs
        → Sets.contains dec gone.next xs ≡ true
    next_behind p x [] c h d = elim (dec v x) [
      | yes same ↦ absurd (d same)
      | no other ↦ absurd (true≢false (sym (Sets.contains_behind dec v x [] other h) ∙ nothing v))
    ]
    next_behind p x (y ∷ ys) (c, cs) h d = elim (dec v x) [
      | yes same ↦ rw (at_value x p y c same).1 (Sets.contains_head dec y ys)
      | no other ↦
          Sets.contains_tail dec _ y ys
            (next_behind x y ys cs (Sets.contains_behind dec v x (y ∷ ys) other h) d)
    ]

    -- The predecessor is before it.
    pub prev_before :
        (p x : V) (xs : List V)
        → IsChain dec unset m p (x ∷ xs)
        → Sets.contains dec v xs ≡ true
        → Sets.contains dec gone.prev (x ∷ xs) ≡ true
    prev_before p x [] c h = absurd (true≢false (sym h ∙ nothing v))
    prev_before p x (y ∷ ys) (c, (d, cs)) h = elim (dec v y) [
      | yes same ↦
          rw (at_value y x (front_or dec unset ys) d same).0 (Sets.contains_head dec x (y ∷ ys))
      | no other ↦
          Sets.contains_tail dec _ x (y ∷ ys)
            (prev_before x y ys (d, cs) (Sets.contains_behind dec v y ys other h))
    ]

    module _ (n : Table dec unset) (is_first is_last : Bool)
        (others : (k : V)
          → k ≢ v
          → lookup dec k n ≡ relinked is_first is_last gone k (lookup dec k m)) where
      -- The links of a value that is not beside the one that goes.
      unmoved :
          (k : V)
          → k ≢ v
          → (is_first ≡ false → k ≢ gone.prev)
          → (is_last ≡ false → k ≢ gone.next)
          → lookup dec k n ≡ lookup dec k m
      unmoved k d a b = others k d ∙ relinked_same is_first is_last gone k (lookup dec k m) a b

      -- The links of its successor, and of its predecessor.
      moved_next :
          (k p q : V)
          → k ≢ v
          → lookup dec k m ≡ some (record { prev = p; next = q })
          → (is_first ≡ false → k ≢ gone.prev)
          → is_last ≡ false
          → k ≡ gone.next
          → lookup dec k n ≡ some (record { prev = gone.prev; next = q })
      moved_next k p q d e a last same =
          others k d
          ∙ ap (relinked is_first is_last gone k) e
          ∙ rw (last, guarded is_first k gone.prev a, beside k gone.next same) refl

      moved_prev :
          (k p q : V)
          → k ≢ v
          → lookup dec k m ≡ some (record { prev = p; next = q })
          → (is_last ≡ false → k ≢ gone.next)
          → is_first ≡ false
          → k ≡ gone.prev
          → lookup dec k n ≡ some (record { prev = p; next = gone.next })
      moved_prev k p q d e a first same =
          others k d
          ∙ ap (relinked is_first is_last gone k) e
          ∙ rw (first, guarded is_last k gone.next a, beside k gone.prev same) refl

      last_ne : (l : V) → is_last ≡ decide (dec v l) → is_last ≡ false → v ≢ l
      last_ne l e f same = true≢false (sym (beside v l same) ∙ sym e ∙ f)

      -- The values behind the one that goes.
      pub IsChain-behind :
          (p : V) (zs : List V)
          → IsChain dec unset m p (v ∷ zs)
          → Sets.IsUnique dec (v ∷ zs)
          → is_last ≡ decide (dec v (last_or dec unset v zs))
          → (is_first ≡ false → (k : V) → Sets.contains dec k zs ≡ true → k ≢ gone.prev)
          → IsChain dec unset n p zs
      IsChain-behind p [] c u e h = tt
      IsChain-behind p (z ∷ zs) (c, (d, cs)) (absent, u) e h =
          let (prev, next) = at_value v p z c refl in
          let here = Sets.contains_head dec z zs in
          let apart = λ (k : V) (l : Sets.contains dec k (z ∷ zs) ≡ true).
            ne-of-contains' v k (z ∷ zs) l absent in
          let not_last : is_last ≡ false =
            e
            ∙ decide_ne v (last_or dec unset z zs) (λ same.
              apart (last_or dec unset z zs) (contains-last_or dec unset z zs) (sym same)) in
          (
            rw (← prev) (
                moved_next z v (front_or dec unset zs) (apart z here) d (λ f. h f z here) not_last
                  (sym next)),
            IsChain-agree dec unset m n z zs
                (λ k l.
                  let within = Sets.contains_tail dec k z zs l in
                  unmoved k (apart k within) (λ f. h f k within)
                    (λ _ same. Sets.ne-of-contains dec k z zs l u.0 (same ∙ next)))
                cs,
          )

      -- The value before it.
      IsChain-before :
          (p x y : V) (ys : List V)
          → v ≡ y
          → v ≢ x
          → IsChain dec unset m p (x ∷ y ∷ ys)
          → Sets.IsUnique dec (x ∷ y ∷ ys)
          → is_first ≡ false
          → is_last ≡ decide (dec v (last_or dec unset y ys))
          → (is_last ≡ false → x ≢ gone.next)
          → IsChain dec unset n p (x ∷ ys)
      IsChain-before p x y ys same d (c, cs) (absent, u) f e after =
          let (prev, next) = at_value y x (front_or dec unset ys) cs.0 same in
          (
            moved_prev x p y (λ q. d (sym q)) c after f (sym prev)
                ∙ ap (λ q. some (record { prev = p; next = q })) next,
            IsChain-behind x ys (subst (λ w. IsChain dec unset m x (w ∷ ys)) (sym same) cs)
                (subst (λ w. Sets.IsUnique dec (w ∷ ys)) (sym same) u)
                (e ∙ ap (λ w. decide (dec v (last_or dec unset w ys))) (sym same))
                (λ _ k l q.
                  Sets.ne-of-contains dec k x (y ∷ ys) (Sets.contains_tail dec k y ys l) absent
                    (q ∙ prev)),
          )

      -- The values before it.
      pub IsChain-removed :
          (p x : V) (xs : List V)
          → v ≢ x
          → IsChain dec unset m p (x ∷ xs)
          → Sets.IsUnique dec (x ∷ xs)
          → Sets.contains dec v xs ≡ true
          → is_first ≡ false
          → is_last ≡ decide (dec v (last_or dec unset x xs))
          → IsChain dec unset n p (x ∷ Sets.erase dec v xs)
      IsChain-removed p x [] d c u h f e = absurd (true≢false (sym h ∙ nothing v))
      IsChain-removed p x (y ∷ ys) d (c, cs) (absent, u) h f e =
          let after = λ (l : is_last ≡ false) (same : x ≡ gone.next).
            Sets.ne-of-contains dec gone.next x (y ∷ ys)
              (next_behind p x (y ∷ ys) (c, cs) (Sets.contains_tail dec v x (y ∷ ys) h)
                (last_ne (last_or dec unset y ys) e l))
              absent (sym same) in
          elim (dec v y) [
            | yes same ↦
                rw
                  (Sets.erase_head dec v y ys same
                    (subst (λ w. Sets.contains dec w ys ≡ false) (sym same) u.0))
                  (IsChain-before p x y ys same d (c, cs) (absent, u) f e after)
            | no other ↦
                let within = Sets.contains_behind dec v y ys other h in
                rw (Sets.erase_other dec v y ys other) (
                  unmoved x (λ q. d (sym q))
                        (λ _ q.
                          Sets.ne-of-contains dec gone.prev x (y ∷ ys)
                            (prev_before x y ys cs within) absent (sym q))
                        after
                      ∙ c,
                  IsChain-removed x y ys other cs u within f e,
                )
          ]
