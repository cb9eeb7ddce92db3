-- ===== src/Repository/Calls.antt =====
-- The calls of `Repository::Impl` (main/repository/Repository.cpp) keep a repository valid, and the
-- thread that deletes products finds each of them.
use bicast.Base.{
  ℕ, List, [], ◌∷◌, ◌||◌, Bool, true, false, Option, some, ℕ_discrete, decide, ◌≡◌, refl, sym, ap,
  ◌∙◌, subst, arith, Bool-cases, Option-cases, inl, inr,
}
use mathlib.Core.Bool.{true≢false}
use bicast.Base.Result.{ok, Result-cases}
use bicast.Base.Int.{ℤ, ◌+ℤ◌}
use bicast.Base.Assoc
use bicast.Base.Assoc.{lookup}
use bicast.Base.Sets
use bicast.Proto.{ProdId, ProdInfo}
use bicast.HashSetQueue
use bicast.HashSetQueue.{HashSetQueue}
use bicast.HashSetQueue.Erase.{erase-Represents}
use bicast.ProdFile.Pub.{PubProdFile}
use bicast.Repository.{
  ProdEntry, DeleteEntry, Repo, push_delete, activate, get_prod_entry, next_of, get_next_prod,
  returns, add_new, pub_file,
}
use bicast.Repository.Lru.{Lists}
use bicast.Repository.Valid.{IsValid, SameInfos, scheduled, info_at, info_of, activate-IsValid}

-- The schedule with a product more.
scheduled-push_delete :
    (k : ProdId) (d : DeleteEntry) (ds : List DeleteEntry)
    → Sets.contains ℕ_discrete k (scheduled (push_delete d ds))
      ≡ (decide (ℕ_discrete k d.prod_id) || Sets.contains ℕ_discrete k (scheduled ds))
unfolding push_delete Sets.contains decide
scheduled-push_delete k d [] = refl
scheduled-push_delete k d (e ∷ ds) = ground (arith, scheduled-push_delete k d ds)

push_delete-once :
    (d : DeleteEntry) (ds : List DeleteEntry)
    → Sets.IsUnique ℕ_discrete (scheduled ds)
    → Sets.contains ℕ_discrete d.prod_id (scheduled ds) ≡ false
    → Sets.IsUnique ℕ_discrete (scheduled (push_delete d ds))
unfolding push_delete Sets.contains decide
push_delete-once d [] u h = (refl, tt)
push_delete-once d (e ∷ ds) u h =
    ground (arith, h, u.0, push_delete-once d ds u.1, scheduled-push_delete e.prod_id d ds)

module _ (m max_open : ℕ) (keep_time : ℤ) (can_map : ℕ → Bool) where
  abbrev Valid : Repo → Type 0
  Valid r = IsValid m max_open keep_time can_map r

  -- The queue of products to process has no part in it.
  pub with_queue-IsValid :
      (q : List (ℤ × ProdId)) (r : Repo) → Valid r → Valid (record r { proc_queue = q })
  with_queue-IsValid q r ((xs, o), k) = (
    (xs, record { lists = o.lists; few = o.few; have = o.have }),
    record { once = k.once; kept = k.kept; named = k.named },
  )

  -- A product that is no longer counted as open.
  pub uncounted-IsValid :
      (id : ProdId) (b : Bool) (q : HashSetQueue ProdId) (r : Repo)
      → Valid r
      → HashSetQueue.erase ℕ_discrete 0 id r.open_prods ≡ ok (b, q)
      → Valid (record r { open_prods = q })
  uncounted-IsValid id b q r ((xs, o), k) done =
      let (q2, (erased, w)) = erase-Represents ℕ_discrete 0 id xs r.open_prods o.lists in
      let same : q2 ≡ q = ground (arith, erased, done) in
      (
        (
          Sets.erase ℕ_discrete id xs,
          record {
            lists = subst (λ y. Lists y (Sets.erase ℕ_discrete id xs)) same w;
            few = omega (arith, o.few, Sets.length-erase-le ℕ_discrete id xs);
            have = λ j l. o.have j (within id j xs l);
          },
        ),
        record { once = k.once; kept = k.kept; named = k.named },
      )
    where
      within :
          (id j : ProdId) (xs : List ProdId)
          → Sets.contains ℕ_discrete j (Sets.erase ℕ_discrete id xs) ≡ true
          → Sets.contains ℕ_discrete j xs ≡ true
      within id j xs l = elim (ℕ_discrete j id) [
        | yes e ↦ absurd (true≢false (sym l ∙ rw e (Sets.contains-erase_self ℕ_discrete id xs)))
        | no d ↦ sym (Sets.contains-erase_ne ℕ_discrete id j xs d) ∙ l
      ]

  pub get_prod_entry-IsValid :
      (id : ProdId) (o : Option ProdEntry) (r s : Repo)
      → Valid r
      → get_prod_entry m max_open keep_time can_map id r ≡ ok (o, s)
      → Valid s × SameInfos r.prod_entries s.prod_entries
  unfolding get_prod_entry
  get_prod_entry-IsValid id o r s w done =
      elim (Option-cases (lookup ℕ_discrete id r.prod_entries)) [
        | inl missing ↦
            let same : r ≡ s = ground (arith, missing, done) in
            subst (λ t. Valid t × SameInfos r.prod_entries t.prod_entries) same (w, λ k. refl)
        | inr (e, there) ↦ elim (Result-cases (activate m max_open keep_time can_map id e r)) [
          | inr (x, fails) ↦ absurd (ground (arith, there, fails, done))
          | inl (t, active) ↦
              let same : t ≡ s = ground (arith, there, active, done) in
              subst (λ u. Valid u × SameInfos r.prod_entries u.prod_entries) same
                (activate-IsValid m max_open keep_time can_map id e r t w there active)
        ]
      ]

  next_of-IsValid :
      (ps : List (ℤ × ProdId)) (r s : Repo) (o : Option ProdEntry)
      → Valid r
      → next_of m max_open keep_time can_map ps r ≡ ok (returns o s)
      → Valid s
  unfolding next_of
  next_of-IsValid [] r s o w done = cc
  next_of-IsValid (p ∷ ps) r s o w done =
      elim (Result-cases
        (get_prod_entry m max_open keep_time can_map p.1 (record r { proc_queue = p ∷ ps }))) [
          | inr (x, fails) ↦ absurd (ground (arith, fails, done))
          | inl ((found, t), got) ↦
              let valid =
                (get_prod_entry-IsValid p.1 found (record r { proc_queue = p ∷ ps }) t
                  (with_queue-IsValid (p ∷ ps) r w) got).0 in
              elim (Option-cases found) [
                | inl missing ↦
                    next_of-IsValid ps (record t { proc_queue = ps }) s o
                      (with_queue-IsValid ps t valid) (ground (arith, missing, got, done))
                | inr (e, there) ↦
                    elim (Result-cases
                      (HashSetQueue.erase ℕ_discrete 0 e.prod_info.prod_id t.open_prods)) [
                        | inr (x, fails) ↦ absurd (ground (arith, there, got, fails, done))
                        | inl ((b, q), erased) ↦
                            let same : record t { proc_queue = ps; open_prods = q } ≡ s =
                              ground (arith, there, got, erased, done) in
                            subst Valid same (
                              with_queue-IsValid ps (record t { open_prods = q })
                                (uncounted-IsValid e.prod_info.prod_id b q t valid erased))
                      ]
              ]
        ]

  pub get_next_prod-IsValid :
      (r s : Repo) (o : Option ProdEntry)
      → Valid r
      → get_next_prod m max_open keep_time can_map r ≡ ok (returns o s)
      → Valid s
  unfolding get_next_prod
  get_next_prod-IsValid r s o w done = elim (Bool-cases r.stop) [
    | inl halted ↦ let same : r ≡ s = ground (arith, halted, done) in subst Valid same w
    | inr going ↦ next_of-IsValid r.proc_queue r s o w (ground (arith, going, done))
  ]

  -- A product that is new.
  pub added-IsValid :
      (e : ProdEntry) (d : DeleteEntry) (r : Repo)
      → Valid r
      → d.prod_id ≡ e.prod_info.prod_id
      → Assoc.has ℕ_discrete e.prod_info.prod_id r.prod_entries ≡ false
      → Valid (record r {
        prod_entries = Assoc.put ℕ_discrete e.prod_info.prod_id e r.prod_entries;
        delete_queue = push_delete d r.delete_queue;
      })
  added-IsValid e d r ((xs, o), k) same new =
      let id = e.prod_info.prod_id in
      (
        (
          xs,
          record {
            lists = o.lists;
            few = o.few;
            have = λ j l. Assoc.has-put ℕ_discrete id j e r.prod_entries (o.have j l);
          },
        ),
        record {
          once =
              push_delete-once d r.delete_queue k.once
                (k.kept d.prod_id ∙ ap (λ j. Assoc.has ℕ_discrete j r.prod_entries) same ∙ new);
          kept = λ j.
              scheduled-push_delete j d r.delete_queue
              ∙ ap
                  (λ i.
                    decide (ℕ_discrete j i)
                    || Sets.contains ℕ_discrete j (scheduled r.delete_queue))
                  same
              ∙ ap (λ b. decide (ℕ_discrete j id) || b) (k.kept j)
              ∙ sym (Assoc.has-put_if ℕ_discrete id j e r.prod_entries);
          named = λ j i h. elim (ℕ_discrete j id) [
            | yes here ↦
                let there : info_at id (Assoc.put ℕ_discrete id e r.prod_entries)
                    ≡ some e.prod_info =
                  ap info_of (Assoc.lookup-put_self ℕ_discrete id e r.prod_entries) in
                let h2 : info_at id (Assoc.put ℕ_discrete id e r.prod_entries) ≡ some i =
                  subst (λ y. info_at y (Assoc.put ℕ_discrete id e r.prod_entries) ≡ some i) here
                    h in
                let equal : e.prod_info ≡ i = cc in ap (λ y. y.prod_id) (sym equal) ∙ sym here
            | no other ↦
                k.named j i (
                  ap info_of (sym (Assoc.lookup-put_ne ℕ_discrete id j e r.prod_entries other)) ∙ h)
          ];
        },
      )

  pub add_new-IsValid :
      (info : ProdInfo) (f : PubProdFile) (mod_time : ℤ) (r : Repo)
      → Valid r
      → Valid (add_new m max_open keep_time can_map info f mod_time r).1
  unfolding add_new
  add_new-IsValid info f mod_time r w =
      elim (Bool-cases (Assoc.has ℕ_discrete info.prod_id r.prod_entries)) [
        | inl old ↦ rw old w
        | inr new ↦ rw new (
            with_queue-IsValid _ _ (
              added-IsValid (record { prod_info = info; prod_file = pub_file f })
                (record { delete_time = mod_time +ℤ keep_time; prod_id = info.prod_id }) r w refl
                new))
      ]
