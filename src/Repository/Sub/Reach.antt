-- ===== src/Repository/Sub/Reach.antt =====
-- The repositories that a subscriber's calls and threads (main/repository/Repository.cpp) lead to.
use bicast.Base.{
  ℕ, List, [], Bool, true, false, Option, ℕ_discrete, ◌≡◌, refl, sym, subst, arith, Bool-cases, inl,
  inr, ◌==◌, not,
}
use bicast.Base.Result.{Result, ok}
use bicast.Base.Int.{ℤ, pos, ltb_ℤ}
use bicast.Base.Assoc
use bicast.Base.Assoc.{lookup}
use bicast.Base.Sets
use bicast.Proto.{ProdId, DataSegId, ProdInfo}
use bicast.DataSeg.{DataSeg}
use bicast.HashSetQueue
use bicast.ProdFile.Pub.{PubProdFile}
use bicast.Repository.{
  ProdEntry, DeleteEntry, Repo, new, halt, returns, get_next_prod, get_prod_info, get_data_seg,
  add_new, delete_prods,
}
use bicast.Repository.Valid.{IsValid}
use bicast.Repository.Calls.{get_next_prod-IsValid, add_new-IsValid}
use bicast.Repository.Deletion.{Lacks, delete_prods-IsValid}
use bicast.Repository.Sub.{SubRepo, exists, exists_seg, save_info, save_seg}
use bicast.Repository.Sub.Asks.{
  exists-IsValid, exists_seg-IsValid, get_prod_info-IsValid, get_data_seg-IsValid,
}
use bicast.Repository.Sub.Saves.{save_info-IsValid, save_seg-IsValid}

module _ (m max_open : ℕ) (keep_time : ℤ) (can_map : ℕ → Bool) (can_write : Bool) where
  abbrev Valid : Repo → Type 0
  Valid r = IsValid m max_open keep_time can_map r

  -- A call that returns, or a round of a thread.
  pub data Step (s t : SubRepo) : Type 0 where
    info_saved :
        (now : ℤ) (info : ProdInfo) (b : Bool)
        → save_info m max_open keep_time can_map can_write now info s ≡ ok (b, t)
        → Step s t
    seg_saved :
        (now : ℤ) (seg : DataSeg) (b : Bool)
        → save_seg m max_open keep_time can_map can_write now seg s ≡ ok (b, t)
        → Step s t
    prod_asked :
        (id : ProdId) (b : Bool)
        → exists m max_open keep_time can_map can_write id s ≡ ok (b, t)
        → Step s t
    seg_asked :
        (id : DataSegId) (b : Bool)
        → exists_seg m max_open keep_time can_map can_write id s ≡ ok (b, t)
        → Step s t
    info_read :
        (id : ProdId) (o : Option ProdInfo) (r : Repo)
        → get_prod_info m max_open keep_time can_map id s.repo ≡ ok (o, r)
        → t ≡ record s { repo = r }
        → Step s t
    seg_read :
        (id : DataSegId) (seg : DataSeg) (r : Repo)
        → get_data_seg m max_open keep_time can_map id s.repo ≡ ok (seg, r)
        → t ≡ record s { repo = r }
        → Step s t
    next_taken :
        (o : Option ProdEntry) (r : Repo)
        → get_next_prod m max_open keep_time can_map s.repo ≡ ok (returns o r)
        → t ≡ record s { repo = r }
        → Step s t
    file_added :
        (info : ProdInfo) (f : PubProdFile) (mod_time : ℤ)
        → t ≡ record s { repo = (add_new m max_open keep_time can_map info f mod_time s.repo).1 }
        → Step s t
    deleted :
        (removal : Result (Unit {0})) (now : ℤ) (b : Bool) (r : Repo)
        → delete_prods m max_open keep_time can_map removal now s.repo ≡ ok (b, r)
        → t ≡ record s { repo = r }
        → Step s t
    halted : t ≡ record s { repo = halt s.repo } → Step s t

  pub data Reach (s : SubRepo) : SubRepo → Type 0 where
    here : Reach s s
    next : {t u : SubRepo} → Reach s t → Step t u → Reach s u

  Step-IsValid : (s t : SubRepo) → Step s t → Valid s.repo → Valid t.repo
  Step-IsValid s t (info_saved now info b e) w =
      save_info-IsValid m max_open keep_time can_map can_write now info b s t w e
  Step-IsValid s t (seg_saved now seg b e) w =
      save_seg-IsValid m max_open keep_time can_map can_write now seg b s t w e
  Step-IsValid s t (prod_asked id b e) w =
      exists-IsValid m max_open keep_time can_map can_write id b s t w e
  Step-IsValid s t (seg_asked id b e) w =
      exists_seg-IsValid m max_open keep_time can_map can_write id b s t w e
  Step-IsValid s t (info_read id o r e same) w =
      subst (λ y. Valid y.repo) (sym same)
        (get_prod_info-IsValid m max_open keep_time can_map can_write id o s.repo r w e)
  Step-IsValid s t (seg_read id seg r e same) w =
      subst (λ y. Valid y.repo) (sym same)
        (get_data_seg-IsValid m max_open keep_time can_map can_write id seg s.repo r w e)
  Step-IsValid s t (next_taken o r e same) w =
      subst (λ y. Valid y.repo) (sym same)
        (get_next_prod-IsValid m max_open keep_time can_map s.repo r o w e)
  Step-IsValid s t (file_added info f mod_time same) w =
      subst (λ y. Valid y.repo) (sym same)
        (add_new-IsValid m max_open keep_time can_map info f mod_time s.repo w)
  Step-IsValid s t (deleted removal now b r e same) w =
      subst (λ y. Valid y.repo) (sym same)
        (delete_prods-IsValid m max_open keep_time can_map removal now b s.repo r w e)
  Step-IsValid s t (halted same) ((xs, o), k) =
      subst (λ y. Valid y.repo) (sym same)
        (unfold halt in
          (
            (xs, record { lists = o.lists; few = o.few; have = o.have }),
            record { once = k.once; kept = k.kept; named = k.named },
          ))

  -- A repository without products.
  abbrev empty_repo : ℤ → Repo
  empty_repo t = record {
    prod_entries = [];
    delete_queue = [];
    open_prods = HashSetQueue.new ℕ_discrete 0;
    proc_queue = [];
    last_processed = t;
    stop = false;
    done = false;
  }

  empty-IsValid : (t : ℤ) → Valid (empty_repo t)
  unfolding HashSetQueue.new Assoc.has Sets.contains
  empty-IsValid t = (
    (
      [],
      record {
        lists = record {
          unique = tt;
          keys = λ k. refl;
          keyed = tt;
          count = refl;
          chain = tt;
          first = refl;
          last = refl;
        };
        few = omega arith;
        have = λ k l. cc;
      },
    ),
    record { once = tt; kept = λ k. refl; named = λ k i e. unfold lookup in cc },
  )

  new-IsValid : (t : ℤ) (r : Repo) → new m max_open keep_time can_map t ≡ ok r → Valid r
  new-IsValid t r made = elim (Bool-cases (max_open == 0)) [
    | inl nothing ↦ absurd (unfold new in ground (arith, nothing, made))
    | inr some_open ↦ elim (Bool-cases (not (ltb_ℤ (pos 0) keep_time))) [
      | inl nothing ↦ absurd (unfold new in ground (arith, some_open, nothing, made))
      | inr kept ↦
          let e : empty_repo t ≡ r = unfold new in ground (arith, some_open, kept, made) in
          subst Valid e (empty-IsValid t)
    ]
  ]

  -- In every state that a subscriber's repository reaches from its constructor, the queue of
  -- open products stands for a list of products with entries that is no longer than the limit,
  -- and the products that have entries are exactly those of the delete-queue, each once and
  -- under its own identifier.
  pub reachable-IsValid :
      (t0 : ℤ) (s u : SubRepo)
      → new m max_open keep_time can_map t0 ≡ ok s.repo
      → Reach s u
      → Valid u.repo
  reachable-IsValid t0 s u made here = new-IsValid t0 s.repo made
  reachable-IsValid t0 s u made (next {t} r step) =
      Step-IsValid t u step (reachable-IsValid t0 s t made r)

  -- A round of `deleteProds` deletes the product of the entry, and leaves the rest of the queue.
  abbrev pub Disposes : Result (Unit {0}) → ℤ → DeleteEntry → List DeleteEntry → Repo → Type 0
  Disposes removal now d ds r =
      (s : Repo) × ((delete_prods m max_open keep_time can_map removal now r ≡ ok (true, s))
        × ((s.delete_queue ≡ ds) × Lacks m max_open keep_time can_map d.prod_id r s))
