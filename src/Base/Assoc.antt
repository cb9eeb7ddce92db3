-- ===== src/Base/Assoc.antt =====
-- `std::unordered_map` as an association list. The order of the list is the order of iteration,
-- which the standard leaves open; no theorem depends on it unless it says so.
use mathlib.Core.List.{lookup}
use mathlib.Core.Path.{◌≡◌, refl, sym, ◌∙◌}
use mathlib.Core.Logic.{◌≢◌, inl, inr, ite}
use mathlib.Core.Bool.{Bool, true, false, ◌||◌, ◌&&◌, not, decide, true≢false}
use mathlib.Core.Option.{none, some}
use mathlib.Core.List.{List, [], ◌∷◌}
use bicast.Base.Tests.{Option-cases}
use native.Mathlib.Omega.{arith}
unfoldable pub use mathlib.Core.List.{lookup}

module _ {ℓ} {K V : Type ℓ} (dec : Discrete K) where
  -- `count(k)` as a Boolean.
  unfoldable pub has : K → List (K × V) → Bool
  unfolding decide
  has k [] = false
  has k (e ∷ m) = decide (dec k e.0) || has k m

  -- `m[k] = v`.
  unfoldable pub put : K → V → List (K × V) → List (K × V)
  put k v [] = (k, v) ∷ []
  put k v (e ∷ m) = ite (dec k e.0) ((e.0, v) ∷ m) (e ∷ put k v m)

  -- `insert({k, v})`, which leaves the value of a key that is there.
  unfoldable pub add : K → V → List (K × V) → List (K × V)
  add k v [] = (k, v) ∷ []
  add k v (e ∷ m) = ite (dec k e.0) (e ∷ m) (e ∷ add k v m)

  -- `erase(k)`. A map has a key at most once; the whole list is swept.
  unfoldable pub erase : K → List (K × V) → List (K × V)
  erase k [] = []
  erase k (e ∷ m) = ite (dec k e.0) (erase k m) (e ∷ erase k m)

  pub lookup-put_self : (k : K) (v : V) (m : List (K × V)) → lookup dec k (put k v m) ≡ some v
  unfolding lookup put
  lookup-put_self k v [] = ground arith
  lookup-put_self k v (e ∷ m) = ground (arith, lookup-put_self k v m)

  pub lookup-put_ne :
      (k j : K) (v : V) (m : List (K × V)) → j ≢ k → lookup dec j (put k v m) ≡ lookup dec j m
  unfolding lookup put
  lookup-put_ne k j v [] h = ground arith
  lookup-put_ne k j v (e ∷ m) h = ground (arith, lookup-put_ne k j v m h)

  pub lookup-add_ne :
      (k j : K) (v : V) (m : List (K × V)) → j ≢ k → lookup dec j (add k v m) ≡ lookup dec j m
  unfolding lookup add
  lookup-add_ne k j v [] h = ground arith
  lookup-add_ne k j v (e ∷ m) h = ground (arith, h, lookup-add_ne k j v m h)

  pub lookup-add_new :
      (k : K) (v : V) (m : List (K × V)) → has k m ≡ false → lookup dec k (add k v m) ≡ some v
  unfolding lookup add has
  lookup-add_new k v [] h = ground arith
  lookup-add_new k v (e ∷ m) h = ground (arith, h, lookup-add_new k v m)

  pub lookup-erase_self : (k : K) (m : List (K × V)) → lookup dec k (erase k m) ≡ none
  unfolding lookup erase
  lookup-erase_self k [] = refl
  lookup-erase_self k (e ∷ m) = ground (arith, lookup-erase_self k m)

  pub lookup-erase_ne :
      (k j : K) (m : List (K × V)) → j ≢ k → lookup dec j (erase k m) ≡ lookup dec j m
  unfolding lookup erase
  lookup-erase_ne k j [] h = refl
  lookup-erase_ne k j (e ∷ m) h = ground (arith, lookup-erase_ne k j m h)

  -- A key is there exactly when it has a value.
  pub has-lookup-none : (k : K) (m : List (K × V)) → has k m ≡ false → lookup dec k m ≡ none
  unfolding lookup has
  has-lookup-none k [] h = refl
  has-lookup-none k (e ∷ m) h = ground (arith, has-lookup-none k m)

  pub lookup-none-has : (k : K) (m : List (K × V)) → lookup dec k m ≡ none → has k m ≡ false
  unfolding lookup has
  lookup-none-has k [] h = refl
  lookup-none-has k (e ∷ m) h = ground (arith, lookup-none-has k m)

  pub has-lookup-some :
      (k : K) (m : List (K × V)) → has k m ≡ true → (v : V) × (lookup dec k m ≡ some v)
  has-lookup-some k m h = elim (Option-cases (lookup dec k m)) [
    | inl e ↦ absurd (true≢false (sym h ∙ lookup-none-has k m e))
    | inr found ↦ found
  ]

  pub lookup-has : (k : K) (m : List (K × V)) (v : V) → lookup dec k m ≡ some v → has k m ≡ true
  unfolding lookup has
  lookup-has k [] v h = cc
  lookup-has k (e ∷ m) v h = ground (arith, lookup-has k m v)

  pub has-put_self : (k : K) (v : V) (m : List (K × V)) → has k (put k v m) ≡ true
  has-put_self k v m = lookup-has k (put k v m) v (lookup-put_self k v m)

  pub has-put : (k j : K) (v : V) (m : List (K × V)) → has j m ≡ true → has j (put k v m) ≡ true
  unfolding has put
  has-put k j v [] h = cc
  has-put k j v (e ∷ m) h = ground (arith, has-put k j v m)

  pub has-erase_ne : (k j : K) (m : List (K × V)) → j ≢ k → has j (erase k m) ≡ has j m
  unfolding has erase
  has-erase_ne k j [] h = refl
  has-erase_ne k j (e ∷ m) h = ground (arith, has-erase_ne k j m h)

  pub has-put_ne : (k j : K) (v : V) (m : List (K × V)) → j ≢ k → has j (put k v m) ≡ has j m
  unfolding has put
  has-put_ne k j v [] h = ground arith
  has-put_ne k j v (e ∷ m) h = ground (arith, has-put_ne k j v m h)

  pub has-put_if :
      (k j : K) (v : V) (m : List (K × V)) → has j (put k v m) ≡ (decide (dec j k) || has j m)
  unfolding has put decide
  has-put_if k j v [] = ground arith
  has-put_if k j v (e ∷ m) = ground (arith, has-put_if k j v m)

  pub has-erase_if :
      (k j : K) (m : List (K × V)) → has j (erase k m) ≡ (not (decide (dec j k)) && has j m)
  unfolding has erase decide
  has-erase_if k j [] = ground arith
  has-erase_if k j (e ∷ m) = ground (arith, has-erase_if k j m)

  pub has-add_if :
      (k j : K) (v : V) (m : List (K × V)) → has j (add k v m) ≡ (decide (dec j k) || has j m)
  unfolding has add decide
  has-add_if k j v [] = ground arith
  has-add_if k j v (e ∷ m) = ground (arith, has-add_if k j v m)
