-- ===== src/Peer/Queue/Represents.antt =====
-- The table of successors of main/p2p/Peer.cpp as a list: `push` is at the end, `removeHead` at the
-- front.
use bicast.Base.{
  List, [], ◌∷◌, ◌++◌, if◌then◌else◌, ◌||◌, true, false, none, some, decide, ◌≡◌, ◌≢◌, refl, sym,
  ap, subst, ◌∙◌, arith,
}
use mathlib.Core.Bool.{true≢false}
use bicast.Base.Assoc
use bicast.Base.Assoc.{lookup}
use bicast.Base.Sets
use bicast.Peer.Queue.{RequestQ, is_set, new, push, remove_head, successor}

module _ {R : Type 0} (dec : Discrete R) (unset : R) where
  abbrev pub front_or : List R → R
  front_or [] = unset
  front_or (x ∷ xs) = x

  abbrev pub last_or : R → List R → R
  last_or p [] = p
  last_or p (x ∷ xs) = last_or x xs

  abbrev pub IsChain : List (R × R) → List R → Type 0
  IsChain m [] = Unit {0}
  IsChain m (x ∷ xs) = (lookup dec x m ≡ some (front_or xs)) × IsChain m xs

  -- The queue stands for the list of set requests, none of them twice.
  pub record Represents (q : RequestQ R) (xs : List R) : Type 0 where
    pub unique : Sets.IsUnique dec xs
    pub set : Sets.contains dec unset xs ≡ false
    pub keys : (k : R) → Assoc.has dec k q.requests ≡ Sets.contains dec k xs
    pub chain : IsChain q.requests xs
    pub first : q.head ≡ front_or xs
    pub last : q.tail ≡ last_or unset xs

  pub new-Represents : Represents (new dec unset) []
  unfolding new Assoc.has Sets.contains
  new-Represents = record {
    unique = tt;
    set = refl;
    keys = λ k. refl;
    chain = tt;
    first = refl;
    last = refl;
  }

  contains-last_or : (x : R) (xs : List R) → Sets.contains dec (last_or x xs) (x ∷ xs) ≡ true
  contains-last_or x [] = Sets.contains_head dec x []
  contains-last_or x (y ∷ ys) =
      Sets.contains_tail dec (last_or y ys) x (y ∷ ys) (contains-last_or y ys)

  -- A chain depends on the successors of its requests only.
  IsChain-agree :
      (m n : List (R × R)) (xs : List R)
      → ((j : R) → Sets.contains dec j xs ≡ true → lookup dec j n ≡ lookup dec j m)
      → IsChain m xs
      → IsChain n xs
  IsChain-agree m n [] h c = tt
  IsChain-agree m n (x ∷ xs) h (c, cs) = (
    h x (Sets.contains_head dec x xs) ∙ c,
    IsChain-agree m n xs (λ j l. h j (Sets.contains_tail dec j x xs l)) cs,
  )

  IsChain-add :
      (k v : R) (m : List (R × R)) (xs : List R)
      → Sets.contains dec k xs ≡ false
      → IsChain m xs
      → IsChain (Assoc.add dec k v m) xs
  IsChain-add k v m xs h c =
      IsChain-agree m (Assoc.add dec k v m) xs
        (λ j l. Assoc.lookup-add_ne dec k j v m (Sets.ne-of-contains dec j k xs l h)) c

  IsChain-erase :
      (k : R) (m : List (R × R)) (xs : List R)
      → Sets.contains dec k xs ≡ false
      → IsChain m xs
      → IsChain (Assoc.erase dec k m) xs
  IsChain-erase k m xs h c =
      IsChain-agree m (Assoc.erase dec k m) xs
        (λ j l. Assoc.lookup-erase_ne dec k j m (Sets.ne-of-contains dec j k xs l h)) c

  other : (x r : R) (xs : List R) → Sets.contains dec r (x ∷ xs) ≡ false → r ≢ x
  other x r xs h e =
      true≢false
        (sym (Sets.contains_head dec x xs) ∙ ap (λ j. Sets.contains dec j (x ∷ xs)) (sym e) ∙ h)

  pub behind :
      (x r : R) (xs : List R)
      → Sets.contains dec r (x ∷ xs) ≡ false
      → Sets.contains dec r xs ≡ false
  unfolding Sets.contains
  behind x r xs h = ground (arith, h)

  -- A new request is linked behind the last one.
  IsChain-linked :
      (x r : R) (xs : List R) (m : List (R × R))
      → Sets.IsUnique dec (x ∷ xs)
      → Sets.contains dec r (x ∷ xs) ≡ false
      → lookup dec r m ≡ some unset
      → IsChain m (x ∷ xs)
      → IsChain (Assoc.put dec (last_or x xs) r m) ((x ∷ xs) ++ (r ∷ []))
  IsChain-linked x r [] m u fresh new c = (
    Assoc.lookup-put_self dec x r m,
    (Assoc.lookup-put_ne dec x r r m (other x r [] fresh) ∙ new, tt),
  )
  IsChain-linked x r (y ∷ ys) m (u, us) fresh new (c, cs) = (
    Assoc.lookup-put_ne dec (last_or y ys) x r m (λ e.
          true≢false
            (sym (contains-last_or y ys) ∙ ap (λ j. Sets.contains dec j (y ∷ ys)) (sym e) ∙ u))
        ∙ c,
    IsChain-linked y r ys m us (behind x r (y ∷ ys) fresh) new cs,
  )

  last_or-append : (p r : R) (xs : List R) → last_or p (xs ++ (r ∷ [])) ≡ r
  last_or-append p r [] = refl
  last_or-append p r (x ∷ xs) = last_or-append x r xs

  append-IsUnique :
      (r : R) (xs : List R)
      → Sets.contains dec r xs ≡ false
      → Sets.IsUnique dec xs
      → Sets.IsUnique dec (xs ++ (r ∷ []))
  append-IsUnique r xs fresh u =
      subst (Sets.IsUnique dec) (Sets.insert_new dec r xs fresh) (Sets.insert-IsUnique dec r xs u)

  contains-append_new :
      (k r : R) (xs : List R)
      → Sets.contains dec k (xs ++ (r ∷ [])) ≡ (decide (dec k r) || Sets.contains dec k xs)
  unfolding Sets.contains
  contains-append_new k r xs = rw (Sets.contains-append dec k xs (r ∷ [])) (ground arith)

  pub is_set-ne : (r : R) → r ≢ unset → is_set dec unset r ≡ true
  unfolding is_set decide
  is_set-ne r h = ground (arith, h)

  pub is_set-unset : is_set dec unset unset ≡ false
  unfolding is_set decide
  is_set-unset = ground arith

  pub is_set-member :
      (r : R) (xs : List R)
      → Sets.contains dec unset xs ≡ false
      → Sets.contains dec r xs ≡ true
      → is_set dec unset r ≡ true
  is_set-member r xs h k = is_set-ne r (Sets.ne-of-contains dec r unset xs k h)

  other_unset :
      (r : R) (xs : List R)
      → r ≢ unset
      → Sets.contains dec unset xs ≡ false
      → Sets.contains dec unset (xs ++ (r ∷ [])) ≡ false
  unfolding decide
  other_unset r xs set h =
      rw (contains-append_new unset r xs, h)
        (elim (dec unset r) [
          | yes same ↦ absurd (set (sym same))
          | no apart ↦ ground (arith, apart)
        ])

  keys_linked :
      (k t r : R) (q : RequestQ R) (xs : List R)
      → ((j : R) → Assoc.has dec j q.requests ≡ Sets.contains dec j xs)
      → Sets.contains dec t xs ≡ true
      → Assoc.has dec k (Assoc.put dec t r (Assoc.add dec r unset q.requests))
        ≡ Sets.contains dec k (xs ++ (r ∷ []))
  unfolding decide
  keys_linked k t r q xs keys member =
      let emplaced = Assoc.add dec r unset q.requests in
      Assoc.has-put_if dec t k r emplaced
      ∙ ap (λ b. decide (dec k t) || b)
          (Assoc.has-add_if dec r k unset q.requests ∙ ap (λ b. decide (dec k r) || b) (keys k))
      ∙ (elim (dec k t) [
        | yes same ↦
            let there : Sets.contains dec k xs ≡ true =
              ap (λ j. Sets.contains dec j xs) same ∙ member in
            rw (contains-append_new k r xs, there) (ground arith)
        | no apart ↦ ground (arith, apart, contains-append_new k r xs)
      ])

  -- If a table of requests stands for a list of requests, then after a `push` of a request that
  -- is set and not in the list it stands for the list with the request at its end.
  pub push_new-Represents :
      (r : R) (q : RequestQ R) (xs : List R)
      → Represents q xs
      → r ≢ unset
      → Sets.contains dec r xs ≡ false
      → Represents (push dec unset r q).1 (xs ++ (r ∷ []))
  unfolding push
  push_new-Represents r q [] w set fresh =
      let head_unset : is_set dec unset q.head ≡ false = rw w.first is_set-unset in
      let tail_unset : is_set dec unset q.tail ≡ false = rw w.last is_set-unset in
      let absent : Assoc.has dec r q.requests ≡ false = w.keys r ∙ fresh in
      rw (head_unset, tail_unset)
        (record {
          unique = append-IsUnique r [] fresh w.unique;
          set = other_unset r [] set w.set;
          keys = λ k.
              Assoc.has-add_if dec r k unset q.requests
              ∙ ap (λ b. decide (dec k r) || b) (w.keys k)
              ∙ sym (contains-append_new k r []);
          chain = (Assoc.lookup-add_new dec r unset q.requests absent, tt);
          first = refl;
          last = refl;
        })
  push_new-Represents r q (x ∷ xs) w set fresh =
      let member : Sets.contains dec q.tail (x ∷ xs) ≡ true = rw w.last (contains-last_or x xs) in
      let tail_set = is_set-member q.tail (x ∷ xs) w.set member in
      let head_set : is_set dec unset q.head ≡ true =
        rw w.first (is_set-member x (x ∷ xs) w.set (Sets.contains_head dec x xs)) in
      let absent : Assoc.has dec r q.requests ≡ false = w.keys r ∙ fresh in
      rw (head_set, tail_set)
        (record {
          unique = append-IsUnique r (x ∷ xs) fresh w.unique;
          set = other_unset r (x ∷ xs) set w.set;
          keys = λ k. keys_linked k q.tail r q (x ∷ xs) w.keys member;
          chain =
              subst
                (λ t.
                  IsChain (Assoc.put dec t r (Assoc.add dec r unset q.requests))
                    ((x ∷ xs) ++ (r ∷ [])))
                (sym w.last)
                (IsChain-linked x r xs (Assoc.add dec r unset q.requests) w.unique fresh
                  (Assoc.lookup-add_new dec r unset q.requests absent)
                  (IsChain-add r unset q.requests (x ∷ xs) fresh w.chain));
          first = w.first;
          last = sym (last_or-append x r xs);
        })

  keys_removed :
      (k x : R) (q : RequestQ R) (xs : List R)
      → ((j : R) → Assoc.has dec j q.requests ≡ Sets.contains dec j (x ∷ xs))
      → Sets.contains dec x xs ≡ false
      → Assoc.has dec k (Assoc.erase dec x q.requests) ≡ Sets.contains dec k xs
  unfolding decide Sets.contains
  keys_removed k x q xs keys gone =
      rw (Assoc.has-erase_if dec x k q.requests, keys k)
        (elim (dec k x) [
          | yes same ↦
              let absent : Sets.contains dec k xs ≡ false =
                ap (λ j. Sets.contains dec j xs) same ∙ gone in
              ground (arith, same, absent)
          | no apart ↦ ground (arith, apart)
        ])

  removed_tail :
      (next x t : R) (xs : List R)
      → Sets.contains dec unset xs ≡ false
      → next ≡ front_or xs
      → t ≡ last_or x xs
      → (if is_set dec unset next then t else next) ≡ last_or unset xs
  removed_tail next x t [] set e f = rw (e, is_set-unset) refl
  removed_tail next x t (y ∷ ys) set e f =
      rw (e, is_set-member y (y ∷ ys) set (Sets.contains_head dec y ys)) f

  pub remove_head-Represents :
      (q : RequestQ R) (x : R) (xs : List R)
      → Represents q (x ∷ xs)
      → ((remove_head dec unset q).0 ≡ x) × Represents (remove_head dec unset q).1 xs
  unfolding remove_head
  remove_head-Represents q x xs w =
      let next : successor dec unset q.head q.requests ≡ front_or xs =
        ap (λ o. elim o [ none ↦ unset | some n ↦ n ])
          (ap (λ h. lookup dec h q.requests) w.first ∙ w.chain.0) in
      let set = behind x unset xs w.set in
      (
        w.first,
        record {
          unique = w.unique.1;
          set = set;
          keys = λ k. rw w.first (keys_removed k x q xs w.keys w.unique.0);
          chain = rw w.first (IsChain-erase x q.requests xs w.unique.0 w.chain.1);
          first = next;
          last = removed_tail (successor dec unset q.head q.requests) x q.tail xs set next w.last;
        },
      )
