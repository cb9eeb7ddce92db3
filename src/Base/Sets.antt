-- ===== src/Base/Sets.antt =====
-- `std::unordered_set` as a list, in the order of iteration, which the standard leaves open.
use mathlib.Core.Path.{◌≡◌, refl}
use mathlib.Core.Logic.{◌≢◌, ite}
use mathlib.Core.Bool.{Bool, true, false, ◌||◌, decide}
use mathlib.Core.List.{List, [], ◌∷◌, ◌++◌}
use Prim.Native.Nat.{◌+◌, ◌≤◌}
use native.Mathlib.Omega.{arith}
use bicast.Base.Lists.{length}

module _ {ℓ} {A : Type ℓ} (dec : Discrete A) where
  -- `count(a)` as a Boolean.
  unfoldable pub contains : A → List A → Bool
  unfolding decide
  contains a [] = false
  contains a (x ∷ xs) = decide (dec a x) || contains a xs

  -- `insert(a)`, which does nothing if `a` is there.
  unfoldable pub insert : A → List A → List A
  insert a [] = a ∷ []
  insert a (x ∷ xs) = ite (dec a x) (x ∷ xs) (x ∷ insert a xs)

  -- `erase(a)`.
  unfoldable pub erase : A → List A → List A
  erase a [] = []
  erase a (x ∷ xs) = ite (dec a x) (erase a xs) (x ∷ erase a xs)

  -- No element twice.
  abbrev pub IsUnique : List A → Type 0
  IsUnique [] = Unit {0}
  IsUnique (x ∷ xs) = (contains x xs ≡ false) × IsUnique xs

  pub contains-insert_self : (a : A) (xs : List A) → contains a (insert a xs) ≡ true
  unfolding contains insert
  contains-insert_self a [] = ground arith
  contains-insert_self a (x ∷ xs) = ground (arith, contains-insert_self a xs)

  pub contains-insert_ne :
      (a b : A) (xs : List A) → b ≢ a → contains b (insert a xs) ≡ contains b xs
  unfolding contains insert
  contains-insert_ne a b [] h = ground arith
  contains-insert_ne a b (x ∷ xs) h = ground (arith, contains-insert_ne a b xs h)

  pub contains-erase_self : (a : A) (xs : List A) → contains a (erase a xs) ≡ false
  unfolding contains erase
  contains-erase_self a [] = refl
  contains-erase_self a (x ∷ xs) = ground (arith, contains-erase_self a xs)

  pub contains-erase_ne : (a b : A) (xs : List A) → b ≢ a → contains b (erase a xs) ≡ contains b xs
  unfolding contains erase
  contains-erase_ne a b [] h = refl
  contains-erase_ne a b (x ∷ xs) h = ground (arith, contains-erase_ne a b xs h)

  pub insert-IsUnique : (a : A) (xs : List A) → IsUnique xs → IsUnique (insert a xs)
  unfolding contains insert
  insert-IsUnique a [] h = (refl, tt)
  insert-IsUnique a (x ∷ xs) h = ground (arith, insert-IsUnique a xs h.1, contains-insert_ne a x xs)

  pub erase-IsUnique : (a : A) (xs : List A) → IsUnique xs → IsUnique (erase a xs)
  unfolding contains erase
  erase-IsUnique a [] h = tt
  erase-IsUnique a (x ∷ xs) h = ground (arith, erase-IsUnique a xs h.1, contains-erase_ne a x xs)

  -- A new element goes to the end.
  pub insert_new : (a : A) (xs : List A) → contains a xs ≡ false → insert a xs ≡ xs ++ (a ∷ [])
  unfolding contains insert
  insert_new a [] h = refl
  insert_new a (x ∷ xs) h = ground (arith, insert_new a xs)

  pub insert_old : (a : A) (xs : List A) → contains a xs ≡ true → insert a xs ≡ xs
  unfolding contains insert
  insert_old a [] h = cc
  insert_old a (x ∷ xs) h = ground (arith, insert_old a xs)

  pub erase_absent : (a : A) (xs : List A) → contains a xs ≡ false → erase a xs ≡ xs
  unfolding contains erase
  erase_absent a [] h = refl
  erase_absent a (x ∷ xs) h = ground (arith, erase_absent a xs)

  pub length-erase-le : (a : A) (xs : List A) → length (erase a xs) ≤ length xs
  unfolding erase
  length-erase-le a [] = omega arith
  length-erase-le a (x ∷ xs) = ground (arith, length-erase-le a xs)

  pub length-erase :
      (a : A) (xs : List A)
      → IsUnique xs
      → contains a xs ≡ true
      → length (erase a xs) + 1 ≡ length xs
  unfolding contains erase
  length-erase a [] u h = cc
  length-erase a (x ∷ xs) u h = ground (arith, length-erase a xs u.1, erase_absent a xs)

  pub contains-append :
      (a : A) (xs ys : List A) → contains a (xs ++ ys) ≡ (contains a xs || contains a ys)
  unfolding contains
  contains-append a [] ys = refl
  contains-append a (x ∷ xs) ys = ground (arith, contains-append a xs ys)

  -- An element of a list stands at its head or behind it.
  pub contains_head : (a : A) (xs : List A) → contains a (a ∷ xs) ≡ true
  unfolding contains
  contains_head a xs = ground arith

  pub contains_tail : (a x : A) (xs : List A) → contains a xs ≡ true → contains a (x ∷ xs) ≡ true
  unfolding contains
  contains_tail a x xs h = ground arith

  pub contains_behind :
      (a x : A) (xs : List A) → a ≢ x → contains a (x ∷ xs) ≡ true → contains a xs ≡ true
  unfolding contains
  contains_behind a x xs d h = ground arith

  pub ne-of-contains :
      (a x : A) (xs : List A) → contains a xs ≡ true → contains x xs ≡ false → a ≢ x
  ne-of-contains a x xs h k e = cc

  pub erase_head : (a x : A) (xs : List A) → a ≡ x → contains a xs ≡ false → erase a (x ∷ xs) ≡ xs
  unfolding erase
  erase_head a x xs e h = ground (arith, erase_absent a xs h)

  pub erase_other : (a x : A) (xs : List A) → a ≢ x → erase a (x ∷ xs) ≡ x ∷ erase a xs
  unfolding erase
  erase_other a x xs d = ground arith
