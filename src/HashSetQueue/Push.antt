-- ===== src/HashSetQueue/Push.antt =====
-- `push` of main/misc/HashSetQueue.h is that of a list's end.
use bicast.Base.{
  List, [], ◌∷◌, ◌++◌, length, if◌then◌else◌, true, false, some, decide, ◌≡◌, ◌≢◌, refl, sym, ap,
  ◌∙◌, subst, arith, not, Bool-cases, length-append, inl, inr,
}
use bicast.Base.Result.{ok}
use bicast.Base.Assoc
use bicast.Base.Assoc.{lookup}
use bicast.Base.Sets
use bicast.HashSetQueue.{Links, HashSetQueue, set_next, append, push}
use bicast.HashSetQueue.Chain.{
  Table, last_or, Represents, has-put, put-keyed, length-put_new, length-put_old, contains-last_or,
  IsChain-append,
}

last_or-append :
    {V : Type 0} (dec : Discrete V) (unset p v : V) (xs : List V)
    → last_or dec unset p (xs ++ (v ∷ [])) ≡ v
last_or-append dec unset p v [] = refl
last_or-append dec unset p v (x ∷ xs) = last_or-append dec unset x v xs

module _ {V : Type 0} (dec : Discrete V) (unset : V) where
  -- What `append` comes to.
  abbrev Appends : V → HashSetQueue V → List V → Type 0
  Appends v q xs =
      (r : HashSetQueue V) × ((append dec unset v q ≡ ok r)
        × Represents dec unset r (xs ++ (v ∷ [])))

  append_first : (v : V) (q : HashSetQueue V) → Represents dec unset q [] → Appends v q []
  unfolding append Sets.contains decide
  append_first v q w =
      let l : Links V = record { prev = q.tail; next = unset } in
      let absent : Assoc.has dec v q.links_map ≡ false = w.keys v in
      let one : length (Assoc.put dec v l q.links_map) ≡ 1 =
        length-put_new dec unset v l q.links_map absent ∙ ground (arith, w.count) in
      (
        record { links_map = Assoc.put dec v l q.links_map; head = v; tail = v },
        (
          ground (arith, one),
          record {
            unique = (refl, tt);
            keys = λ k. has-put dec unset k v l q.links_map ∙ ground (arith, w.keys k);
            keyed = put-keyed dec unset v l q.links_map w.keyed;
            count = one;
            chain = (
              Assoc.lookup-put_self dec v l q.links_map
                  ∙ ap (λ t. some (record { prev = t; next = unset })) w.last,
              tt,
            );
            first = refl;
            last = refl;
          },
        ),
      )

  append-keys :
      (k t v : V) (lt l : Links V) (m : Table dec unset) (xs : List V)
      → Assoc.has dec k m ≡ Sets.contains dec k xs
      → Sets.contains dec t xs ≡ true
      → Assoc.has dec k (Assoc.put dec t lt (Assoc.put dec v l m))
        ≡ Sets.contains dec k (xs ++ (v ∷ []))
  unfolding Sets.contains decide
  append-keys k t v lt l m xs h there = ground (
    arith,
    has-put dec unset k t lt (Assoc.put dec v l m),
    has-put dec unset k v l m,
    h,
    Sets.contains-append dec k xs (v ∷ []),
    there,
  )

  append_next :
      (v x : V) (xs : List V) (q : HashSetQueue V)
      → Represents dec unset q (x ∷ xs)
      → Sets.contains dec v (x ∷ xs) ≡ false
      → Appends v q (x ∷ xs)
  unfolding append set_next
  append_next v x xs q w absent =
      let m = q.links_map in
      let t = last_or dec unset x xs in
      let l : Links V = record { prev = q.tail; next = unset } in
      let m1 = Assoc.put dec v l m in
      let new : Assoc.has dec v m ≡ false = w.keys v ∙ absent in
      let longer = length-put_new dec unset v l m new in
      let there : Sets.contains dec t (x ∷ xs) ≡ true = contains-last_or dec unset x xs in
      let (lt, old) = Assoc.has-lookup-some dec t m (w.keys t ∙ there) in
      let t_ne : t ≢ v = λ e.
        let c : Sets.contains dec v (x ∷ xs) ≡ true =
          subst (λ y. Sets.contains dec y (x ∷ xs) ≡ true) e there in
        cc in
      let old1 : lookup dec t m1 ≡ some lt = Assoc.lookup-put_ne dec v t l m t_ne ∙ old in
      let lt2 : Links V = record lt { next = v } in
      let m2 = Assoc.put dec t lt2 m1 in
      let fresh : lookup dec v m2 ≡ some l =
        Assoc.lookup-put_ne dec t v lt2 m1 (λ e. t_ne (sym e)) ∙ Assoc.lookup-put_self dec v l m in
      let tail_old : lookup dec q.tail m1 ≡ some lt = ap (λ y. lookup dec y m1) w.last ∙ old1 in
      (
        record { links_map = m2; head = q.head; tail = v },
        (
          ground (arith, longer, w.count, tail_old, w.last),
          record {
            unique =
                subst (Sets.IsUnique dec) (Sets.insert_new dec v (x ∷ xs) absent)
                  (Sets.insert-IsUnique dec v (x ∷ xs) w.unique);
            keys = λ k. append-keys k t v lt2 l m (x ∷ xs) (w.keys k) there;
            keyed = put-keyed dec unset t lt2 m1 (put-keyed dec unset v l m w.keyed);
            count =
                length-put_old dec unset t lt2 m1 (Assoc.lookup-has dec t m1 lt old1)
                ∙ ground (arith, longer, w.count, length-append xs (v ∷ []));
            chain =
                IsChain-append dec unset m m2 unset x v xs w.unique absent w.chain
                  (fresh ∙ ap (λ y. some (record { prev = y; next = unset })) w.last)
                  (λ l2 e. Assoc.lookup-put_self dec t lt2 m1 ∙ ground (arith, old, e))
                  (λ k a b.
                    Assoc.lookup-put_ne dec t k lt2 m1 b ∙ Assoc.lookup-put_ne dec v k l m a);
            first = w.first;
            last = sym (last_or-append dec unset unset v (x ∷ xs));
          },
        ),
      )

  append-Represents :
      (v : V) (q : HashSetQueue V) (xs : List V)
      → Represents dec unset q xs
      → Sets.contains dec v xs ≡ false
      → Appends v q xs
  append-Represents v q [] w absent = append_first v q w
  append-Represents v q (x ∷ xs) w absent = append_next v x xs q w absent

  -- If a queue stands for a list of values without duplicates (its links are those of the list
  -- in order, and it knows no other value), then `push` of a value returns, answers true
  -- exactly if the list does not have the value, and leaves a queue that stands for the list
  -- with the value at its end, or for the same list if it had the value.
  pub push-Represents :
      (v : V) (q : HashSetQueue V) (xs : List V)
      → Represents dec unset q xs
      → (r : HashSetQueue V) × ((push dec unset v q ≡ ok (not (Sets.contains dec v xs), r))
          × Represents dec unset r (if Sets.contains dec v xs then xs else xs ++ (v ∷ [])))
  unfolding push
  push-Represents v q xs w = elim (Bool-cases (Sets.contains dec v xs)) [
    | inl there ↦ (
      q,
      (
        ground (arith, there, w.keys v),
        subst (λ b. Represents dec unset q (if b then xs else xs ++ (v ∷ []))) (sym there) w,
      ),
    )
    | inr absent ↦
        let (r, (e, wr)) = append-Represents v q xs w absent in
        (
          r,
          (
            ground (arith, e, absent, w.keys v),
            subst (λ b. Represents dec unset r (if b then xs else xs ++ (v ∷ []))) (sym absent) wr,
          ),
        )
  ]
