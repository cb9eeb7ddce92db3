-- ===== src/HashSetQueue/Erase.antt =====
-- `erase` of main/misc/HashSetQueue.h is a list's.
use bicast.Base.{
  List, true, false, some, decide, ◌≡◌, refl, sym, ◌∙◌, ap, arith, if◌then◌else◌, Bool-cases, inl,
  inr, Option-cases,
}
use mathlib.Core.Bool.{true≢false}
use bicast.Base.Result.{ok}
use bicast.Base.Assoc
use bicast.Base.Assoc.{lookup}
use bicast.Base.Sets
use bicast.HashSetQueue.{Links, HashSetQueue, set_next, set_prev, unlink_front, unlink_back, erase}
use bicast.HashSetQueue.Chain.{
  front_or, Represents, length-erase_key, erase-keyed, has-erase_contains,
}
use bicast.HashSetQueue.Unlink.{relinked, relinked_same, beside}
use bicast.HashSetQueue.Relinks.{Relinks, Relinks-nothing, Relinks-put, Relinks-trans}
use bicast.HashSetQueue.Removal.{
  last_or-erase, front_or-erase, IsChain-erase, prev_within, next_within,
}

module _ {V : Type 0} (dec : Discrete V) (unset : V) where
  unlink_front_lem :
      (v : V) (gone : Links V) (q : HashSetQueue V)
      → (decide (dec q.head v) ≡ false → Assoc.has dec gone.prev q.links_map ≡ true)
      → (f : HashSetQueue V) × ((unlink_front dec unset v gone q ≡ ok f)
          × ((f.tail ≡ q.tail)
              × ((f.head ≡ (if decide (dec q.head v) then gone.next else q.head))
                  × Relinks dec unset (decide (dec q.head v)) true gone q.links_map f.links_map)))
  unfolding unlink_front set_next
  unlink_front_lem v gone q h = elim (Bool-cases (decide (dec q.head v))) [
    | inl is_first ↦ rw is_first (
      record q { head = gone.next },
      (refl, (refl, (refl, Relinks-nothing dec unset gone q.links_map))),
    )
    | inr behind ↦
        let (old, e) = Assoc.has-lookup-some dec gone.prev q.links_map (h behind) in
        let m = Assoc.put dec gone.prev (record old { next = gone.next }) q.links_map in
        rw behind (
          record q { links_map = m },
          (
            ground (arith, e),
            (
              refl,
              (
                refl,
                Relinks-put dec unset false true gone gone.prev old
                    (record old { next = gone.next }) q.links_map e
                    (rw (beside dec unset gone.prev gone.prev refl) refl)
                    (λ k d o. sym (
                      relinked_same dec unset false true gone k o (λ _. d)
                        (λ f. absurd (true≢false f)))),
              ),
            ),
          ),
        )
  ]

  unlink_back_lem :
      (v : V) (gone : Links V) (q : HashSetQueue V)
      → (decide (dec q.tail v) ≡ false → Assoc.has dec gone.next q.links_map ≡ true)
      → (f : HashSetQueue V) × ((unlink_back dec unset v gone q ≡ ok f)
          × ((f.head ≡ q.head)
              × ((f.tail ≡ (if decide (dec q.tail v) then gone.prev else q.tail))
                  × Relinks dec unset true (decide (dec q.tail v)) gone q.links_map f.links_map)))
  unfolding unlink_back set_prev
  unlink_back_lem v gone q h = elim (Bool-cases (decide (dec q.tail v))) [
    | inl is_last ↦ rw is_last (
      record q { tail = gone.prev },
      (refl, (refl, (refl, Relinks-nothing dec unset gone q.links_map))),
    )
    | inr before ↦
        let (old, e) = Assoc.has-lookup-some dec gone.next q.links_map (h before) in
        let m = Assoc.put dec gone.next (record old { prev = gone.prev }) q.links_map in
        rw before (
          record q { links_map = m },
          (
            ground (arith, e),
            (
              refl,
              (
                refl,
                Relinks-put dec unset true false gone gone.next old
                    (record old { prev = gone.prev }) q.links_map e
                    (rw (beside dec unset gone.next gone.next refl) refl)
                    (λ k d o. sym (
                      relinked_same dec unset true false gone k o (λ f. absurd (true≢false f))
                        (λ _. d))),
              ),
            ),
          ),
        )
  ]

  -- What `erase` comes to.
  abbrev pub Erases : V → HashSetQueue V → List V → Type 0
  Erases v q xs =
      (r : HashSetQueue V) × ((erase dec unset v q ≡ ok (Sets.contains dec v xs, r))
        × Represents dec unset r (Sets.erase dec v xs))

  erase_old :
      (v : V) (xs : List V) (q : HashSetQueue V) (gone : Links V)
      → Represents dec unset q xs
      → lookup dec v q.links_map ≡ some gone
      → Sets.contains dec v xs ≡ true
      → Erases v q xs
  unfolding erase
  erase_old v xs q gone w e h =
      let m = q.links_map in
      let (f, (front, (tail, (head, relinked1)))) = unlink_front_lem v gone q (λ l.
        w.keys gone.prev
        ∙ prev_within dec unset m v gone unset xs e w.chain h
            (ap (λ y. decide (dec y v)) (sym w.first) ∙ l)) in
      let (b, (back, (head2, (tail2, relinked2)))) = unlink_back_lem v gone f (λ l.
        relinked1.keys gone.next
        ∙ w.keys gone.next
        ∙ next_within dec unset m v gone unset xs e w.chain h
            (ap (λ y. decide (dec y v)) (sym w.last ∙ sym tail) ∙ l)) in
      let links =
        Relinks-trans dec unset (decide (dec q.head v)) (decide (dec f.tail v)) gone m f.links_map
          b.links_map relinked1 relinked2 in
      let n = Assoc.erase dec v b.links_map in
      (
        record b { links_map = n },
        (
          ground (arith, e, front, back, h),
          record {
            unique = Sets.erase-IsUnique dec v xs w.unique;
            keys =
                λ k. has-erase_contains dec unset v k b.links_map xs (λ j. links.keys j ∙ w.keys j);
            keyed = erase-keyed dec unset v b.links_map (links.keyed w.keyed);
            count = omega (
              arith,
              length-erase_key dec unset v b.links_map (links.keyed w.keyed)
                  (links.keys v ∙ w.keys v ∙ h),
              Sets.length-erase dec v xs w.unique h,
              links.count,
              w.count,
            );
            chain = IsChain-erase dec unset m n v gone unset xs e w.chain w.unique h (λ k d.
                Assoc.lookup-erase_ne dec v k b.links_map d
                ∙ links.others k
                ∙ ap
                    (λ y.
                      relinked dec unset (decide (dec y v)) (decide (dec f.tail v)) gone k
                        (lookup dec k m))
                    w.first
                ∙ ap
                    (λ y.
                      relinked dec unset (decide (dec (front_or dec unset xs) v)) (decide (dec y v))
                        gone k (lookup dec k m))
                    (tail ∙ w.last));
            first =
                head2
                ∙ head
                ∙ ap (λ y. if decide (dec y v) then gone.next else y) w.first
                ∙ front_or-erase dec unset m v gone unset xs e w.chain w.unique h;
            last =
                tail2
                ∙ ap (λ y. if decide (dec y v) then gone.prev else y) (tail ∙ w.last)
                ∙ last_or-erase dec unset m v gone unset xs e w.chain w.unique h;
          },
        ),
      )

  -- If a queue stands for a list of values without duplicates, then `erase` of a value returns,
  -- answers whether the list has the value, and leaves a queue that stands for the list without
  -- it.
  pub erase-Represents :
      (v : V) (xs : List V) (q : HashSetQueue V) → Represents dec unset q xs → Erases v q xs
  erase-Represents v xs q w = elim (Option-cases (lookup dec v q.links_map)) [
    | inl none_there ↦
        let absent = sym (w.keys v) ∙ Assoc.lookup-none-has dec v q.links_map none_there in
        unfold erase in
        rw (Sets.erase_absent dec v xs absent, absent) (q, (ground (arith, none_there), w))
    | inr (gone, e) ↦
        erase_old v xs q gone w e (sym (w.keys v) ∙ Assoc.lookup-has dec v q.links_map gone e)
  ]
