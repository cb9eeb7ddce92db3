-- ===== src/HashSetQueue/Pop.antt =====
-- `front` and `pop` of main/misc/HashSetQueue.h are those of a list's front.
use bicast.Base.{
  ◌+◌, List, [], ◌∷◌, length, ◌==◌, true, false, some, decide, ◌≡◌, ◌≢◌, refl, sym, ap, ◌∙◌, subst,
  arith,
}
use bicast.Base.Result.{ok}
use bicast.Base.Assoc
use bicast.Base.Assoc.{lookup}
use bicast.Base.Sets
use bicast.HashSetQueue.{Links, HashSetQueue, set_prev, front, advance, pop}
use bicast.HashSetQueue.Chain.{
  Table, has-keys_of, keys_of, front_or, Represents, keys_of-erase, length-keys_of, has-put,
  put-keyed, length-put_old, IsChain-agree,
}

module _ {V : Type 0} (dec : Discrete V) (unset : V) where
  -- What `pop` comes to.
  abbrev pub Pops : HashSetQueue V → List V → Type 0
  Pops q xs = (r : HashSetQueue V) × ((pop dec unset q ≡ ok r) × Represents dec unset r xs)

  length-erase :
      (x : V) (xs : List V) (q : HashSetQueue V)
      → Represents dec unset q (x ∷ xs)
      → length (Assoc.erase dec x q.links_map) ≡ length xs
  unfolding Sets.contains decide
  length-erase x xs q w =
      let m = q.links_map in
      let there : Sets.contains dec x (keys_of dec unset m) ≡ true =
        has-keys_of dec unset x m ∙ w.keys x ∙ ground arith in
      let e : length (Sets.erase dec x (keys_of dec unset m)) + 1 ≡ length (keys_of dec unset m) =
        Sets.length-erase dec x (keys_of dec unset m) w.keyed there in
      let k = ap length (keys_of-erase dec unset x m) in
      ground (
        arith,
        e,
        k,
        length-keys_of dec unset m,
        length-keys_of dec unset (Assoc.erase dec x m),
        w.count,
      )

  erased-keys :
      (x : V) (xs : List V) (q : HashSetQueue V) (k : V)
      → Represents dec unset q (x ∷ xs)
      → Assoc.has dec k (Assoc.erase dec x q.links_map) ≡ Sets.contains dec k xs
  unfolding Sets.contains decide
  erased-keys x xs q k w =
      let m = q.links_map in
      let gone : Assoc.has dec x (Assoc.erase dec x m) ≡ false =
        Assoc.lookup-none-has dec x (Assoc.erase dec x m) (Assoc.lookup-erase_self dec x m) in
      ground (arith, gone, w.keys k, w.unique.0, Assoc.has-erase_ne dec x k m)

  erased-keyed :
      (x : V) (m : Table dec unset)
      → Sets.IsUnique dec (keys_of dec unset m)
      → Sets.IsUnique dec (keys_of dec unset (Assoc.erase dec x m))
  erased-keyed x m u =
      subst (Sets.IsUnique dec) (sym (keys_of-erase dec unset x m)) (Sets.erase-IsUnique dec x _ u)

  pop_last : (x : V) (q : HashSetQueue V) → Represents dec unset q (x ∷ []) → Pops q []
  unfolding pop advance
  pop_last x q w =
      let m1 = Assoc.erase dec x q.links_map in
      let none_left = length-erase x [] q w in
      let there : lookup dec q.head q.links_map ≡ some (record { prev = unset; next = unset }) =
        ap (λ y. lookup dec y q.links_map) w.first ∙ w.chain.0 in
      (
        record { links_map = m1; head = unset; tail = unset },
        (
          ground (arith, w.count, there, none_left, w.first),
          record {
            unique = tt;
            keys = λ k. erased-keys x [] q k w;
            keyed = erased-keyed x q.links_map w.keyed;
            count = none_left;
            chain = tt;
            first = refl;
            last = refl;
          },
        ),
      )

  put-keys :
      (k y : V) (l : Links V) (m : Table dec unset) (ys : List V)
      → Assoc.has dec k m ≡ Sets.contains dec k (y ∷ ys)
      → Assoc.has dec k (Assoc.put dec y l m) ≡ Sets.contains dec k (y ∷ ys)
  unfolding Sets.contains decide
  put-keys k y l m ys h = ground (arith, has-put dec unset k y l m, h)

  differs :
      (x k : V) (xs : List V)
      → Sets.contains dec x xs ≡ false
      → Sets.contains dec k xs ≡ true
      → k ≢ x
  differs x k xs h c e =
      let p : Sets.contains dec x xs ≡ true = subst (λ z. Sets.contains dec z xs ≡ true) e c in cc

  pop_outcome :
      (q : HashSetQueue V) (x y z : V)
      → (length q.links_map == 0) ≡ false
      → lookup dec q.head q.links_map ≡ some (record { prev = unset; next = y })
      → (length (Assoc.erase dec q.head q.links_map) == 0) ≡ false
      → lookup dec y (Assoc.erase dec q.head q.links_map) ≡ some (record { prev = x; next = z })
      → pop dec unset q
        ≡ ok (record {
          links_map =
              Assoc.put dec y
                (record { prev = unset; next = z })
                (Assoc.erase dec q.head q.links_map);
          head = y;
          tail = q.tail;
        })
  unfolding pop advance set_prev
  pop_outcome q x y z some_left there left next = rw (some_left, there, left, set_prev, next) refl

  pop_more :
      (x y : V) (ys : List V) (q : HashSetQueue V)
      → Represents dec unset q (x ∷ y ∷ ys)
      → Pops q (y ∷ ys)
  unfolding Sets.contains decide
  pop_more x y ys q w =
      let m = q.links_map in
      let m1 = Assoc.erase dec x m in
      let left = length-erase x (y ∷ ys) q w in
      let there : lookup dec q.head m ≡ some (record { prev = unset; next = y }) =
        ap (λ z. lookup dec z m) w.first ∙ w.chain.0 in
      let y_ne : y ≢ x = differs x y (y ∷ ys) w.unique.0 (ground arith) in
      let next : lookup dec y m1 ≡ some (record { prev = x; next = front_or dec unset ys }) =
        Assoc.lookup-erase_ne dec x y m y_ne ∙ w.chain.1.0 in
      let l : Links V = record { prev = unset; next = front_or dec unset ys } in
      let m2 = Assoc.put dec y l m1 in
      (
        record { links_map = m2; head = y; tail = q.tail },
        (
          outcome q x y (front_or dec unset ys) w.first (ground (arith, w.count)) there
              (ground (arith, left)) next,
          record {
            unique = w.unique.1;
            keys = λ k. put-keys k y l m1 ys (erased-keys x (y ∷ ys) q k w);
            keyed = put-keyed dec unset y l m1 (erased-keyed x m w.keyed);
            count = length-put_old dec unset y l m1 (Assoc.lookup-has dec y m1 _ next) ∙ left;
            chain = (
              Assoc.lookup-put_self dec y l m1,
              IsChain-agree dec unset m m2 y ys
                  (λ k c.
                    Assoc.lookup-put_ne dec y k l m1 (differs y k ys w.unique.1.0 c)
                    ∙ Assoc.lookup-erase_ne dec x k m
                        (differs x k (y ∷ ys) w.unique.0 (ground (arith, c))))
                  w.chain.1.1,
            );
            first = refl;
            last = w.last;
          },
        ),
      )
    where
      outcome :
          (q : HashSetQueue V) (x y z : V)
          → q.head ≡ x
          → (length q.links_map == 0) ≡ false
          → lookup dec q.head q.links_map ≡ some (record { prev = unset; next = y })
          → (length (Assoc.erase dec x q.links_map) == 0) ≡ false
          → lookup dec y (Assoc.erase dec x q.links_map) ≡ some (record { prev = x; next = z })
          → pop dec unset q
            ≡ ok (record {
              links_map =
                  Assoc.put dec y
                    (record { prev = unset; next = z })
                    (Assoc.erase dec x q.links_map);
              head = y;
              tail = q.tail;
            })
      outcome q x y z first some_left there left next =
          let m = q.links_map in
          let left2 : (length (Assoc.erase dec q.head m) == 0) ≡ false =
            subst (λ h. (length (Assoc.erase dec h m) == 0) ≡ false) (sym first) left in
          let next2 =
            subst (λ h. lookup dec y (Assoc.erase dec h m) ≡ some (record { prev = x; next = z }))
              (sym first) next in
          pop_outcome q x y z some_left there left2 next2
          ∙ ap
              (λ h. ok (record {
                links_map =
                    Assoc.put dec y (record { prev = unset; next = z }) (Assoc.erase dec h m);
                head = y;
                tail = q.tail;
              }))
              first

  -- If a queue stands for a list that is not empty, then `front` returns the list's first
  -- value, and `pop` returns and leaves a queue that stands for the rest of the list.
  pub pop-Represents :
      (x : V) (xs : List V) (q : HashSetQueue V)
      → Represents dec unset q (x ∷ xs)
      → (front dec unset q ≡ ok x) × Pops q xs
  unfolding front
  pop-Represents x [] q w = (ground (arith, w.count, w.first), pop_last x q w)
  pop-Represents x (y ∷ ys) q w = (ground (arith, w.count, w.first), pop_more x y ys q w)
