-- ===== src/Repository/Sub/Kept.antt =====
-- What a subscriber's repository (`SubRepo::Impl` of main/repository/Repository.cpp) saves keeps it valid.
use bicast.Base.{
  ℕ, ◌&&◌, Bool, true, Option, none, some, ℕ_discrete, ◌≡◌, refl, decide, sym, ap, ◌∙◌, subst,
  arith, Bool-cases, Option-cases, inl, inr, if◌then◌else◌,
}
use bicast.Base.Result.{ok, Result-cases}
use bicast.Base.Int.{ℤ}
use bicast.Base.Assoc
use bicast.Base.Assoc.{lookup}
use bicast.Proto.{ProdId, is_set}
use bicast.HashSetQueue
use bicast.Repository.{ProdEntry, Repo, close, emplace, activate, get_prod_entry}
use bicast.Repository.Valid.{IsValid, info_at, info_of}
use bicast.Repository.Calls.{with_queue-IsValid, uncounted-IsValid}
use bicast.Repository.Sub.{SubRepo, is_complete, rename, finish, try_finish, finish_at}

module _ (m max_open : ℕ) (keep_time : ℤ) (can_map : ℕ → Bool) where
  abbrev Valid : Repo → Type 0
  Valid r = IsValid m max_open keep_time can_map r

  -- The entry that `getProdEntry` finds is the map's.
  pub get_prod_entry_found :
      (id : ProdId) (o : Option ProdEntry) (r s : Repo)
      → get_prod_entry m max_open keep_time can_map id r ≡ ok (o, s)
      → lookup ℕ_discrete id s.prod_entries ≡ o
  unfolding get_prod_entry
  get_prod_entry_found id o r s done = elim (Option-cases (lookup ℕ_discrete id r.prod_entries)) [
    | inl missing ↦
        let same : r ≡ s = ground (arith, missing, done) in
        let nothing : none ≡ o = ground (arith, missing, done) in
        subst (λ t. lookup ℕ_discrete id t.prod_entries ≡ o) same (missing ∙ nothing)
    | inr (e, there) ↦ elim (Result-cases (activate m max_open keep_time can_map id e r)) [
      | inr (x, fails) ↦ absurd (ground (arith, there, fails, done))
      | inl (t, active) ↦
          let same : t ≡ s = ground (arith, there, active, done) in
          let found : lookup ℕ_discrete id t.prod_entries ≡ o =
            ground (arith, there, active, done) in
          subst (λ u. lookup ℕ_discrete id u.prod_entries ≡ o) same found
    ]
  ]

  has-put :
      (j id : ProdId) (e : ProdEntry) (r : Repo)
      → Assoc.has ℕ_discrete id r.prod_entries ≡ true
      → Assoc.has ℕ_discrete j (Assoc.put ℕ_discrete id e r.prod_entries)
        ≡ Assoc.has ℕ_discrete j r.prod_entries
  unfolding decide
  has-put j id e r h = ground (arith, h, Assoc.has-put_if ℕ_discrete id j e r.prod_entries)

  -- An entry in the place of one of the same product.
  pub replaced-IsValid :
      (id : ProdId) (old e : ProdEntry) (r : Repo)
      → Valid r
      → lookup ℕ_discrete id r.prod_entries ≡ some old
      → e.prod_info.prod_id ≡ id
      → Valid (record r { prod_entries = Assoc.put ℕ_discrete id e r.prod_entries })
  replaced-IsValid id old e r ((xs, o), k) there own =
      let es = Assoc.put ℕ_discrete id e r.prod_entries in
      let has_old = Assoc.lookup-has ℕ_discrete id r.prod_entries old there in
      let has_same = λ (j : ProdId). has-put j id e r has_old in
      (
        (xs, record { lists = o.lists; few = o.few; have = λ j l. has_same j ∙ o.have j l }),
        record {
          once = k.once;
          kept = λ j. k.kept j ∙ sym (has_same j);
          named = λ j i h. elim (ℕ_discrete j id) [
            | yes here ↦
                let h2 : info_of (lookup ℕ_discrete id es) ≡ some i =
                  subst (λ y. info_at y es ≡ some i) here h in
                let there2 = Assoc.lookup-put_self ℕ_discrete id e r.prod_entries in
                let equal : e.prod_info ≡ i = cc in ap (λ y. y.prod_id) (sym equal) ∙ own ∙ sym here
            | no other ↦
                k.named j i (
                  ap info_of (sym (Assoc.lookup-put_ne ℕ_discrete id j e r.prod_entries other)) ∙ h)
          ];
        },
      )

  -- `tryFinish` of an entry that the map has.
  finish-IsValid :
      (can_write : Bool) (now : ℤ) (id : ProdId) (e : ProdEntry) (s t : SubRepo)
      → Valid s.repo
      → lookup ℕ_discrete id s.repo.prod_entries ≡ some e
      → e.prod_info.prod_id ≡ id
      → finish m max_open keep_time can_map can_write now e s ≡ ok t
      → Valid t.repo
  unfolding finish
  finish-IsValid can_write now id e s t w there own done =
      let at = e.prod_info.prod_id in
      let there2 : lookup ℕ_discrete at s.repo.prod_entries ≡ some e =
        ap (λ y. lookup ℕ_discrete y s.repo.prod_entries) own ∙ there in
      elim (Result-cases (rename m max_open keep_time can_map can_write e.prod_file)) [
        | inr (x, fails) ↦ absurd (ground (arith, fails, done))
        | inl (file, renamed) ↦
            elim (Result-cases (HashSetQueue.erase ℕ_discrete 0 at s.repo.open_prods)) [
              | inr (x, fails) ↦ absurd (ground (arith, renamed, fails, done))
              | inl ((b, q), erased) ↦
                  let uncounted =
                    uncounted-IsValid m max_open keep_time can_map at b q s.repo w erased in
                  let f = record e { prod_file = close file } in
                  let queue =
                    if s.queue_prods
                    then emplace e.prod_info.creation_time at s.repo.proc_queue
                    else s.repo.proc_queue in
                  let replaced =
                    replaced-IsValid at e f (record s.repo { open_prods = q }) uncounted there2
                      refl in
                  let valid =
                    with_queue-IsValid m max_open keep_time can_map queue
                      (record s.repo {
                        open_prods = q;
                        prod_entries = Assoc.put ℕ_discrete at f s.repo.prod_entries;
                      })
                      replaced in
                  let same : record s.repo {
                    open_prods = q;
                    prod_entries = Assoc.put ℕ_discrete at f s.repo.prod_entries;
                    proc_queue = queue;
                  }
                      ≡ t.repo =
                    ground (arith, renamed, erased, done) in
                  subst Valid same valid
            ]
      ]

  pub finish_at-IsValid :
      (can_write : Bool) (now : ℤ) (id : ProdId) (s t : SubRepo)
      → Valid s.repo
      → finish_at m max_open keep_time can_map can_write now id s ≡ ok t
      → Valid t.repo
  unfolding finish_at try_finish
  finish_at-IsValid can_write now id s t w done =
      elim (Option-cases (lookup ℕ_discrete id s.repo.prod_entries)) [
        | inl missing ↦
            let same : s ≡ t = ground (arith, missing, done) in subst (λ y. Valid y.repo) same w
        | inr (e, there) ↦ elim (Bool-cases (is_set e.prod_info && is_complete e.prod_file)) [
          | inr not_yet ↦
              let same : s ≡ t = ground (arith, there, not_yet, done) in
              subst (λ y. Valid y.repo) same w
          | inl now_complete ↦
              finish-IsValid can_write now id e s t w there
                (w.1.named id e.prod_info (ap info_of there))
                (ground (arith, there, now_complete, done))
        ]
      ]
