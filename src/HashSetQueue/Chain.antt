-- ===== src/HashSetQueue/Chain.antt =====
-- The links of the queue of main/misc/HashSetQueue.h as a list: `push` and `pop` are those of a
-- list's end and front.
use bicast.Base.{
  suc, ◌+◌, List, [], ◌∷◌, ◌++◌, map, length, true, false, some, decide, ◌≡◌, ◌≢◌, refl, ap, ◌∙◌,
  arith, ◌||◌, sym, subst,
}
use bicast.Base.Assoc
use bicast.Base.Assoc.{lookup}
use bicast.Base.Sets
use bicast.HashSetQueue.{Links, HashSetQueue, new}

module _ {V : Type 0} (dec : Discrete V) (unset : V) where
  abbrev pub Table : Type 0
  Table = List (V × Links V)

  abbrev pub front_or : List V → V
  front_or [] = unset
  front_or (x ∷ xs) = x

  abbrev pub last_or : V → List V → V
  last_or p [] = p
  last_or p (x ∷ xs) = last_or x xs

  -- The values are linked in the list's order, the first one to `p`.
  abbrev pub IsChain : Table → V → List V → Type 0
  IsChain m p [] = Unit {0}
  IsChain m p (x ∷ xs) =
      (lookup dec x m ≡ some (record { prev = p; next = front_or xs })) × IsChain m x xs

  abbrev pub keys_of : Table → List V
  keys_of m = map (λ e. e.0) m

  -- The queue stands for the list.
  pub record Represents (q : HashSetQueue V) (xs : List V) : Type 0 where
    pub unique : Sets.IsUnique dec xs
    pub keys : (k : V) → Assoc.has dec k q.links_map ≡ Sets.contains dec k xs
    pub keyed : Sets.IsUnique dec (keys_of q.links_map)
    pub count : length q.links_map ≡ length xs
    pub chain : IsChain q.links_map unset xs
    pub first : q.head ≡ front_or xs
    pub last : q.tail ≡ last_or unset xs

  pub has-keys_of : (k : V) (m : Table) → Sets.contains dec k (keys_of m) ≡ Assoc.has dec k m
  unfolding Sets.contains Assoc.has
  has-keys_of k [] = refl
  has-keys_of k (e ∷ m) = ground (arith, has-keys_of k m)

  pub has-put :
      (k v : V) (l : Links V) (m : Table)
      → Assoc.has dec k (Assoc.put dec v l m) ≡ (decide (dec k v) || Assoc.has dec k m)
  has-put k v l m = Assoc.has-put_if dec v k l m

  pub put-keyed :
      (v : V) (l : Links V) (m : Table)
      → Sets.IsUnique dec (keys_of m)
      → Sets.IsUnique dec (keys_of (Assoc.put dec v l m))
  unfolding Assoc.put Sets.contains
  put-keyed v l [] u = (refl, tt)
  put-keyed v l (e ∷ m) u = ground (
    arith,
    put-keyed v l m u.1,
    has-keys_of e.0 m,
    has-keys_of e.0 (Assoc.put dec v l m),
    has-put e.0 v l m,
  )

  pub length-put_new :
      (v : V) (l : Links V) (m : Table)
      → Assoc.has dec v m ≡ false
      → length (Assoc.put dec v l m) ≡ length m + 1
  unfolding Assoc.put Assoc.has
  length-put_new v l [] h = refl
  length-put_new v l (e ∷ m) h = ground (arith, length-put_new v l m)

  pub length-put_old :
      (v : V) (l : Links V) (m : Table)
      → Assoc.has dec v m ≡ true
      → length (Assoc.put dec v l m) ≡ length m
  unfolding Assoc.put Assoc.has
  length-put_old v l [] h = cc
  length-put_old v l (e ∷ m) h = ground (arith, length-put_old v l m)

  pub keys_of-erase :
      (v : V) (m : Table) → keys_of (Assoc.erase dec v m) ≡ Sets.erase dec v (keys_of m)
  unfolding Assoc.erase Sets.erase
  keys_of-erase v [] = refl
  keys_of-erase v (e ∷ m) = ground (arith, keys_of-erase v m)

  pub length-keys_of : (m : Table) → length (keys_of m) ≡ length m
  length-keys_of [] = refl
  length-keys_of (e ∷ m) = ap suc (length-keys_of m)

  -- A chain rests on the links of its values only.
  pub IsChain-agree :
      (m n : Table) (p : V) (xs : List V)
      → ((k : V) → Sets.contains dec k xs ≡ true → lookup dec k n ≡ lookup dec k m)
      → IsChain m p xs
      → IsChain n p xs
  unfolding Sets.contains decide
  IsChain-agree m n p [] h c = tt
  IsChain-agree m n p (x ∷ xs) h (e, c) =
      (h x (ground arith) ∙ e, IsChain-agree m n x xs (λ k l. h k (ground (arith, l))) c)

  pub contains-last_or : (x : V) (xs : List V) → Sets.contains dec (last_or x xs) (x ∷ xs) ≡ true
  unfolding Sets.contains decide
  contains-last_or x [] = ground arith
  contains-last_or x (y ∷ ys) = ground (arith, contains-last_or y ys)

  -- A value that is linked behind the last one.
  pub IsChain-append :
      (m n : Table) (p x v : V) (xs : List V)
      → Sets.IsUnique dec (x ∷ xs)
      → Sets.contains dec v (x ∷ xs) ≡ false
      → IsChain m p (x ∷ xs)
      → lookup dec v n ≡ some (record { prev = last_or x xs; next = unset })
      → ((l : Links V)
          → lookup dec (last_or x xs) m ≡ some l
          → lookup dec (last_or x xs) n ≡ some (record l { next = v }))
      → ((k : V) → k ≢ v → k ≢ last_or x xs → lookup dec k n ≡ lookup dec k m)
      → IsChain n p ((x ∷ xs) ++ (v ∷ []))
  unfolding Sets.contains decide
  IsChain-append m n p x v [] u absent (e, c) new old other = (old _ e, (new, tt))
  IsChain-append m n p x v (y ∷ ys) u absent (e, c) new old other = (
    other x (ground arith) (ground (arith, contains-last_or y ys, u.0)) ∙ e,
    IsChain-append m n x y v ys u.1 (ground arith) c new old other,
  )

  -- A key that goes.
  pub length-erase_key :
      (v : V) (m : Table)
      → Sets.IsUnique dec (keys_of m)
      → Assoc.has dec v m ≡ true
      → length (Assoc.erase dec v m) + 1 ≡ length m
  length-erase_key v m u h =
      let e = Sets.length-erase dec v (keys_of m) u (has-keys_of v m ∙ h) in
      omega (
        arith,
        e,
        ap length (keys_of-erase v m),
        length-keys_of m,
        length-keys_of (Assoc.erase dec v m),
      )

  pub erase-keyed :
      (v : V) (m : Table)
      → Sets.IsUnique dec (keys_of m)
      → Sets.IsUnique dec (keys_of (Assoc.erase dec v m))
  erase-keyed v m u =
      subst (Sets.IsUnique dec) (sym (keys_of-erase v m)) (Sets.erase-IsUnique dec v _ u)

  -- The keys without one are the values without it.
  pub has-erase_contains :
      (v k : V) (m : Table) (xs : List V)
      → ((j : V) → Assoc.has dec j m ≡ Sets.contains dec j xs)
      → Assoc.has dec k (Assoc.erase dec v m) ≡ Sets.contains dec k (Sets.erase dec v xs)
  has-erase_contains v k m xs h = elim (dec k v) [
    | yes same ↦ rw same (
        Assoc.lookup-none-has dec v (Assoc.erase dec v m) (Assoc.lookup-erase_self dec v m)
        ∙ sym (Sets.contains-erase_self dec v xs))
    | no apart ↦
        Assoc.has-erase_ne dec v k m apart ∙ h k ∙ sym (Sets.contains-erase_ne dec v k xs apart)
  ]
