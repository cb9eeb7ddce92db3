-- ===== src/Repository/Deletion.antt =====
-- The thread that deletes products (`deleteProds` of main/repository/Repository.cpp).
use bicast.Base.{
  ℕ, List, [], ◌∷◌, Bool, true, false, some, ℕ_discrete, ◌≡◌, ◌≢◌, refl, sym, ap, ◌∙◌, subst, arith,
  Bool-cases, inl, inr,
}
use mathlib.Core.Bool.{true≢false}
use bicast.Base.Result.{Result, ok, raise, Error, Result-cases}
use bicast.Base.Int.{ℤ, ltb_ℤ}
use bicast.Base.Assoc
use bicast.Base.Assoc.{lookup}
use bicast.Base.Sets
use bicast.Proto.{ProdId}
use bicast.HashSetQueue.Erase.{erase-Represents}
use bicast.Repository.{ProdEntry, DeleteEntry, Repo, delete_prods}
use bicast.Repository.Valid.{IsValid, scheduled, info_at, info_of}

contains_other :
    (k x : ProdId) (xs : List ProdId)
    → k ≢ x
    → Sets.contains ℕ_discrete k xs ≡ Sets.contains ℕ_discrete k (x ∷ xs)
unfolding Sets.contains
contains_other k x xs d = ground arith

module _ (m max_open : ℕ) (keep_time : ℤ) (can_map : ℕ → Bool) where
  -- The repository without a product.
  abbrev pub Lacks : ProdId → Repo → Repo → Type 0
  Lacks id r s =
      (Assoc.has ℕ_discrete id s.prod_entries ≡ false)
      × ((j : ProdId)
          → j ≢ id
          → lookup ℕ_discrete j s.prod_entries ≡ lookup ℕ_discrete j r.prod_entries)

  -- A product that is to be deleted has an entry.
  entry_there :
      (d : DeleteEntry) (ds : List DeleteEntry) (r : Repo)
      → IsValid m max_open keep_time can_map r
      → r.delete_queue ≡ d ∷ ds
      → (e : ProdEntry) × (lookup ℕ_discrete d.prod_id r.prod_entries ≡ some e)
  entry_there d ds r ((xs, o), k) queue =
      Assoc.has-lookup-some ℕ_discrete d.prod_id r.prod_entries (
        sym (
          ap (λ q. Sets.contains ℕ_discrete d.prod_id (scheduled q)) (sym queue) ∙ k.kept d.prod_id)
        ∙ Sets.contains_head ℕ_discrete d.prod_id (scheduled ds))

  -- If its file cannot be removed, the exception goes on.
  pub delete_prods_fails :
      (x : Error) (now : ℤ) (d : DeleteEntry) (ds : List DeleteEntry) (r : Repo)
      → IsValid m max_open keep_time can_map r
      → r.done ≡ false
      → r.delete_queue ≡ d ∷ ds
      → ltb_ℤ now d.delete_time ≡ false
      → delete_prods m max_open keep_time can_map (raise x) now r ≡ raise x
  unfolding delete_prods
  delete_prods_fails x now d ds r w going queue due =
      let (e, there) = entry_there d ds r w queue in ground (arith, going, queue, due, there)

  pub delete_prods_due :
      (now : ℤ) (d : DeleteEntry) (ds : List DeleteEntry) (r : Repo)
      → IsValid m max_open keep_time can_map r
      → r.done ≡ false
      → r.delete_queue ≡ d ∷ ds
      → ltb_ℤ now d.delete_time ≡ false
      → (s : Repo) × ((delete_prods m max_open keep_time can_map (ok tt) now r ≡ ok (true, s))
          × (IsValid m max_open keep_time can_map s
              × ((s.delete_queue ≡ ds) × Lacks d.prod_id r s)))
  unfolding delete_prods
  delete_prods_due now d ds r ((xs, o), k) going queue due =
      let id = d.prod_id in
      let once : Sets.IsUnique ℕ_discrete (scheduled (d ∷ ds)) =
        subst (λ q. Sets.IsUnique ℕ_discrete (scheduled q)) queue k.once in
      let kept =
        λ (j : ProdId). ap (λ q. Sets.contains ℕ_discrete j (scheduled q)) (sym queue) ∙ k.kept j in
      let (e, there) = entry_there d ds r ((xs, o), k) queue in
      let (q, (erased, w)) = erase-Represents ℕ_discrete 0 id xs r.open_prods o.lists in
      let es = Assoc.erase ℕ_discrete id r.prod_entries in
      let gone =
        Assoc.lookup-none-has ℕ_discrete id es
          (Assoc.lookup-erase_self ℕ_discrete id r.prod_entries) in
      let s = record r { prod_entries = es; delete_queue = ds; open_prods = q } in
      (
        s,
        (
          ground (arith, going, queue, due, there, erased),
          (
            (
              (
                Sets.erase ℕ_discrete id xs,
                record {
                  lists = w;
                  few = omega (arith, o.few, Sets.length-erase-le ℕ_discrete id xs);
                  have = λ j l. elim (ℕ_discrete j id) [
                    | yes here ↦
                        absurd
                          (true≢false (sym l ∙ rw here (Sets.contains-erase_self ℕ_discrete id xs)))
                    | no other ↦
                        Assoc.has-erase_ne ℕ_discrete id j r.prod_entries other
                        ∙ o.have j (sym (Sets.contains-erase_ne ℕ_discrete id j xs other) ∙ l)
                  ];
                },
              ),
              record {
                once = once.1;
                kept = λ j. elim (ℕ_discrete j id) [
                  | yes here ↦ rw here (once.0 ∙ sym gone)
                  | no other ↦
                      contains_other j id (scheduled ds) other
                      ∙ kept j
                      ∙ sym (Assoc.has-erase_ne ℕ_discrete id j r.prod_entries other)
                ];
                named = λ j i h. elim (ℕ_discrete j id) [
                  | yes here ↦
                      let h2 : info_of (lookup ℕ_discrete id es) ≡ some i =
                        subst (λ y. info_at y es ≡ some i) here h in
                      let none_there = Assoc.lookup-erase_self ℕ_discrete id r.prod_entries in cc
                  | no other ↦ k.named j i (
                      ap info_of (sym (Assoc.lookup-erase_ne ℕ_discrete id j r.prod_entries other))
                      ∙ h)
                ];
              },
            ),
            (refl, (gone, λ j other. Assoc.lookup-erase_ne ℕ_discrete id j r.prod_entries other)),
          ),
        ),
      )

  pub delete_prods-IsValid :
      (removal : Result (Unit {0})) (now : ℤ) (b : Bool) (r s : Repo)
      → IsValid m max_open keep_time can_map r
      → delete_prods m max_open keep_time can_map removal now r ≡ ok (b, s)
      → IsValid m max_open keep_time can_map s
  delete_prods-IsValid removal now b r s w done = elim (Bool-cases r.done) [
    | inl over ↦
        subst (IsValid m max_open keep_time can_map)
          (let e : r ≡ s = unfold delete_prods in ground (arith, over, done) in e) w
    | inr going ↦ by_queue r.delete_queue refl going
  ]
    where
      by_queue :
          (q : List DeleteEntry)
          → r.delete_queue ≡ q
          → r.done ≡ false
          → IsValid m max_open keep_time can_map s
      by_queue [] e going =
          subst (IsValid m max_open keep_time can_map)
            (let f : r ≡ s = unfold delete_prods in ground (arith, e, going, done) in f) w
      by_queue (d ∷ ds) e going = elim (Bool-cases (ltb_ℤ now d.delete_time)) [
        | inl early ↦
            subst (IsValid m max_open keep_time can_map)
              (let f : r ≡ s = unfold delete_prods in ground (arith, e, going, early, done) in f) w
        | inr due ↦
            let (t, (deleted, (valid, _))) = delete_prods_due now d ds r w going e due in
            elim (Result-cases removal) [
              | inl (_, removed) ↦
                  let same : t ≡ s = ground (
                    arith,
                    ap (λ o. delete_prods m max_open keep_time can_map o now r) removed,
                    deleted,
                    done,
                  ) in
                  subst (IsValid m max_open keep_time can_map) same valid
              | inr (x, failed) ↦
                  let fails = delete_prods_fails x now d ds r w going e due in
                  absurd (
                    ground (
                      arith,
                      ap (λ o. delete_prods m max_open keep_time can_map o now r) failed,
                      fails,
                      done,
                    ))
            ]
      ]
