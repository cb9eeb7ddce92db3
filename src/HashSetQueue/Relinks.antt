-- ===== src/HashSetQueue/Relinks.antt =====
-- The two relinkings of `erase` of main/misc/HashSetQueue.h.
use bicast.Base.{◌≢◌, length, Bool, true, some, none, Option, decide, ◌≡◌, refl, ◌∙◌, ap, arith}
use bicast.Base.Assoc
use bicast.Base.Assoc.{lookup}
use bicast.Base.Sets
use bicast.HashSetQueue.{Links}
use bicast.HashSetQueue.Chain.{Table, keys_of, has-put, put-keyed, length-put_old}
use bicast.HashSetQueue.Unlink.{relinked}

module _ {V : Type 0} (dec : Discrete V) (unset : V) where
  -- The table `n` has the keys of `m`, and their links without `gone`.
  pub record Relinks (first last : Bool) (gone : Links V) (m n : Table dec unset) : Type 0 where
    pub others : (k : V) → lookup dec k n ≡ relinked dec unset first last gone k (lookup dec k m)
    pub keys : (k : V) → Assoc.has dec k n ≡ Assoc.has dec k m
    pub keyed : Sets.IsUnique dec (keys_of dec unset m) → Sets.IsUnique dec (keys_of dec unset n)
    pub count : length n ≡ length m

  relinked_nothing :
      (gone : Links V) (k : V) (o : Option (Links V)) → o ≡ relinked dec unset true true gone k o
  relinked_nothing gone k none = refl
  relinked_nothing gone k (some l) = refl

  relinked_twice :
      (f t : Bool) (gone : Links V) (k : V) (o : Option (Links V))
      → relinked dec unset true t gone k (relinked dec unset f true gone k o)
        ≡ relinked dec unset f t gone k o
  relinked_twice f t gone k none = refl
  relinked_twice f t gone k (some l) = refl

  pub Relinks-nothing : (gone : Links V) (m : Table dec unset) → Relinks true true gone m m
  Relinks-nothing gone m = record {
    others = λ k. relinked_nothing gone k (lookup dec k m);
    keys = λ k. refl;
    keyed = λ u. u;
    count = refl;
  }

  pub Relinks-trans :
      (f t : Bool) (gone : Links V) (m n o : Table dec unset)
      → Relinks f true gone m n
      → Relinks true t gone n o
      → Relinks f t gone m o
  Relinks-trans f t gone m n o a b = record {
    others = λ k.
        b.others k
        ∙ ap (relinked dec unset true t gone k) (a.others k)
        ∙ relinked_twice f t gone k (lookup dec k m);
    keys = λ k. b.keys k ∙ a.keys k;
    keyed = λ u. b.keyed (a.keyed u);
    count = b.count ∙ a.count;
  }

  has-put_old :
      (a : V) (l : Links V) (m : Table dec unset) (k : V)
      → Assoc.has dec a m ≡ true
      → Assoc.has dec k (Assoc.put dec a l m) ≡ Assoc.has dec k m
  unfolding decide
  has-put_old a l m k h = ground (arith, has-put dec unset k a l m)

  -- Links that are put in the place of a key's.
  pub Relinks-put :
      (f t : Bool) (gone : Links V) (a : V) (old new : Links V) (m : Table dec unset)
      → lookup dec a m ≡ some old
      → some new ≡ relinked dec unset f t gone a (some old)
      → ((k : V) → k ≢ a → (o : Option (Links V)) → o ≡ relinked dec unset f t gone k o)
      → Relinks f t gone m (Assoc.put dec a new m)
  Relinks-put f t gone a old new m e self other =
      let there = Assoc.lookup-has dec a m old e in
      record {
        others = λ k. elim (dec k a) [
          | yes same ↦ rw (same, Assoc.lookup-put_self dec a new m, e) self
          | no apart ↦ Assoc.lookup-put_ne dec a k new m apart ∙ other k apart (lookup dec k m)
        ];
        keys = λ k. has-put_old a new m k there;
        keyed = put-keyed dec unset a new m;
        count = length-put_old dec unset a new m there;
      }
