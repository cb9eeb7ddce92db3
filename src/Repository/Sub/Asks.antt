-- ===== src/Repository/Sub/Asks.antt =====
-- The inquiries of main/repository/Repository.cpp keep a repository valid.
use bicast.Base.{ℕ, Bool, Option, ℕ_discrete, ◌≡◌, ap, ◌∙◌, subst, arith, Option-cases, inl, inr}
use bicast.Base.Result.{ok, Result-cases}
use bicast.Base.Int.{ℤ}
use bicast.Base.Assoc
use bicast.Base.Assoc.{lookup}
use bicast.Proto.{ProdId, DataSegId, ProdInfo}
use bicast.DataSeg.{DataSeg}
use bicast.Repository.{ProdEntry, Repo, get_prod_entry, get_prod_info, get_data_seg, data_from}
use bicast.Repository.Valid.{IsValid, info_of}
use bicast.Repository.Calls.{get_prod_entry-IsValid}
use bicast.Repository.Sub.{SubRepo, exists, exists_seg, exists_in}
use bicast.Repository.Sub.Kept.{get_prod_entry_found, replaced-IsValid}

module _ (m max_open : ℕ) (keep_time : ℤ) (can_map : ℕ → Bool) (can_write : Bool) where
  abbrev Valid : Repo → Type 0
  Valid r = IsValid m max_open keep_time can_map r

  -- An inquiry that starts with `getProdEntry`.
  looked_up :
      (id : ProdId) (o : Option ProdEntry) (r s : Repo)
      → Valid r
      → get_prod_entry m max_open keep_time can_map id r ≡ ok (o, s)
      → Valid s
  looked_up id o r s w got = (get_prod_entry-IsValid m max_open keep_time can_map id o r s w got).0

  pub exists-IsValid :
      (id : ProdId) (b : Bool) (s t : SubRepo)
      → Valid s.repo
      → exists m max_open keep_time can_map can_write id s ≡ ok (b, t)
      → Valid t.repo
  unfolding exists
  exists-IsValid id b s t w done =
      elim (Result-cases (get_prod_entry m max_open keep_time can_map id s.repo)) [
        | inr (x, fails) ↦ absurd (ground (arith, fails, done))
        | inl ((o, r), got) ↦
            let same : r ≡ t.repo = ground (arith, got, done) in
            subst Valid same (looked_up id o s.repo r w got)
      ]

  pub exists_seg-IsValid :
      (id : DataSegId) (b : Bool) (s t : SubRepo)
      → Valid s.repo
      → exists_seg m max_open keep_time can_map can_write id s ≡ ok (b, t)
      → Valid t.repo
  unfolding exists_seg
  exists_seg-IsValid id b s t w done =
      elim (Result-cases (get_prod_entry m max_open keep_time can_map id.prod_id s.repo)) [
        | inr (x, fails) ↦ absurd (ground (arith, fails, done))
        | inl ((o, r), got) ↦ elim (Option-cases o) [
          | inl missing ↦
              let same : r ≡ t.repo = ground (arith, got, missing, done) in
              subst Valid same (looked_up id.prod_id o s.repo r w got)
          | inr (e, there) ↦
              elim (Result-cases
                (exists_in m max_open keep_time can_map can_write id.offset e.prod_file)) [
                  | inr (x, fails) ↦ absurd (ground (arith, got, there, fails, done))
                  | inl (c, answer) ↦
                      let same : r ≡ t.repo = ground (arith, got, there, answer, done) in
                      subst Valid same (looked_up id.prod_id o s.repo r w got)
                ]
        ]
      ]

  pub get_prod_info-IsValid :
      (id : ProdId) (i : Option ProdInfo) (r s : Repo)
      → Valid r
      → get_prod_info m max_open keep_time can_map id r ≡ ok (i, s)
      → Valid s
  unfolding get_prod_info
  get_prod_info-IsValid id i r s w done =
      elim (Result-cases (get_prod_entry m max_open keep_time can_map id r)) [
        | inr (x, fails) ↦ absurd (ground (arith, fails, done))
        | inl ((o, t), got) ↦
            let same : t ≡ s = ground (arith, got, done) in
            subst Valid same (looked_up id o r t w got)
      ]

  pub get_data_seg-IsValid :
      (id : DataSegId) (seg : DataSeg) (r s : Repo)
      → Valid r
      → get_data_seg m max_open keep_time can_map id r ≡ ok (seg, s)
      → Valid s
  unfolding get_data_seg
  get_data_seg-IsValid id seg r s w done =
      elim (Result-cases (get_prod_entry m max_open keep_time can_map id.prod_id r)) [
        | inr (x, fails) ↦ absurd (ground (arith, fails, done))
        | inl ((o, t), got) ↦
            let valid = looked_up id.prod_id o r t w got in
            elim (Option-cases o) [
              | inl missing ↦
                  let same : t ≡ s = ground (arith, got, missing, done) in subst Valid same valid
              | inr (e, there) ↦
                  elim (Result-cases
                    (data_from m max_open keep_time can_map id.offset e.prod_file)) [
                      | inr (x, fails) ↦ absurd (ground (arith, got, there, fails, done))
                      | inl ((bytes, file), read) ↦
                          let f = record e { prod_file = file } in
                          let found =
                            get_prod_entry_found m max_open keep_time can_map id.prod_id o r t got
                            ∙ there in
                          let same : record t {
                            prod_entries = Assoc.put ℕ_discrete id.prod_id f t.prod_entries;
                          }
                              ≡ s =
                            ground (arith, got, there, read, done) in
                          subst Valid same (
                            replaced-IsValid m max_open keep_time can_map id.prod_id e f t valid
                              found (valid.1.named id.prod_id e.prod_info (ap info_of found)))
                    ]
            ]
      ]
