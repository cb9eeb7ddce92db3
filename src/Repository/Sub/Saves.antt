-- ===== src/Repository/Sub/Saves.antt =====
-- `save` of a subscriber's repository (main/repository/Repository.cpp), of the information on a product
-- and of a segment, keeps the repository valid.
use bicast.Base.{
  ℕ, Bool, Option, none, ℕ_discrete, ◌≡◌, refl, ap, ◌∙◌, subst, arith, Bool-cases, Option-cases,
  inl, inr,
}
use bicast.Base.Result.{Result, ok, Result-cases}
use bicast.Base.Int.{ℤ, ◌+ℤ◌}
use bicast.Base.Assoc
use bicast.Base.Assoc.{lookup}
use bicast.Proto.{ProdId, ProdInfo, is_set}
use bicast.DataSeg.{DataSeg}
use bicast.ProdFile.{sub_prod_file}
use bicast.Repository.{
  sub_file, ProdEntry, DeleteEntry, Repo, push_delete, unknown_info, get_prod_entry,
}
use bicast.Repository.Valid.{IsValid, info_of, activate-IsValid}
use bicast.Repository.Calls.{get_prod_entry-IsValid, added-IsValid}
use bicast.Repository.Sub.{
  SubRepo, create_time, save_in, add, with_entry, finish_at, save_info, save_seg,
}
use bicast.Repository.Sub.Kept.{get_prod_entry_found, replaced-IsValid, finish_at-IsValid}

module _ (m max_open : ℕ) (keep_time : ℤ) (can_map : ℕ → Bool) (can_write : Bool) where
  abbrev Valid : Repo → Type 0
  Valid r = IsValid m max_open keep_time can_map r

  abbrev Get : ProdId → Repo → Result (Option ProdEntry × Repo)
  Get id r = get_prod_entry m max_open keep_time can_map id r

  add-IsValid :
      (now : ℤ) (e : ProdEntry) (r s : Repo)
      → Valid r
      → lookup ℕ_discrete e.prod_info.prod_id r.prod_entries ≡ none
      → add m max_open keep_time can_map can_write now e r ≡ ok s
      → Valid s
  unfolding add
  add-IsValid now e r s w new done =
      let id = e.prod_info.prod_id in
      let d : DeleteEntry = record {
        delete_time = create_time e.prod_info now +ℤ keep_time;
        prod_id = id;
      } in
      let t = record r {
        prod_entries = Assoc.put ℕ_discrete id e r.prod_entries;
        delete_queue = push_delete d r.delete_queue;
      } in
      (activate-IsValid m max_open keep_time can_map id e t s
        (added-IsValid m max_open keep_time can_map e d r w refl
          (Assoc.lookup-none-has ℕ_discrete id r.prod_entries new))
        (Assoc.lookup-put_self ℕ_discrete id e r.prod_entries) done).0

  pub save_info-IsValid :
      (now : ℤ) (info : ProdInfo) (b : Bool) (s t : SubRepo)
      → Valid s.repo
      → save_info m max_open keep_time can_map can_write now info s ≡ ok (b, t)
      → Valid t.repo
  unfolding save_info
  save_info-IsValid now info b s t w done = elim (Result-cases (Get info.prod_id s.repo)) [
    | inr (x, fails) ↦ absurd (ground (arith, fails, done))
    | inl ((o, r), got) ↦
        let valid =
          (get_prod_entry-IsValid m max_open keep_time can_map info.prod_id o s.repo r w got).0 in
        let found = get_prod_entry_found m max_open keep_time can_map info.prod_id o s.repo r got in
        elim (Option-cases o) [
          | inr (e, there) ↦ elim (Bool-cases (is_set e.prod_info)) [
            | inl known ↦
                let same : r ≡ t.repo = ground (arith, got, there, known, done) in
                subst Valid same valid
            | inr unknown ↦
                let u = record s {
                  repo =
                      with_entry m max_open keep_time can_map can_write info.prod_id
                        (record e { prod_info = info }) r;
                } in
                elim (Result-cases
                  (finish_at m max_open keep_time can_map can_write now info.prod_id u)) [
                    | inr (x, fails) ↦ absurd (ground (arith, got, there, unknown, fails, done))
                    | inl (v, finished) ↦
                        let same : v ≡ t = ground (arith, got, there, unknown, finished, done) in
                        subst (λ y. Valid y.repo) same
                          (finish_at-IsValid m max_open keep_time can_map can_write now info.prod_id
                            u v
                            (replaced-IsValid m max_open keep_time can_map info.prod_id e
                              (record e { prod_info = info }) r valid (found ∙ there) refl)
                            finished)
                  ]
          ]
          | inl missing ↦ elim (Result-cases (sub_prod_file m can_write info.size)) [
            | inr (x, fails) ↦ absurd (ground (arith, got, missing, fails, done))
            | inl (file, made) ↦
                let e : ProdEntry = record { prod_info = info; prod_file = sub_file file } in
                elim (Result-cases (add m max_open keep_time can_map can_write now e r)) [
                  | inr (x, fails) ↦ absurd (ground (arith, got, missing, made, fails, done))
                  | inl (a, added) ↦
                      elim (Result-cases (
                        finish_at m max_open keep_time can_map can_write now info.prod_id
                          (record s { repo = a }))) [
                            | inr (x, fails) ↦
                                absurd (ground (arith, got, missing, made, added, fails, done))
                            | inl (v, finished) ↦
                                let same : v ≡ t =
                                  ground (arith, got, missing, made, added, finished, done) in
                                subst (λ y. Valid y.repo) same
                                  (finish_at-IsValid m max_open keep_time can_map can_write now
                                    info.prod_id (record s { repo = a }) v
                                    (add-IsValid now e r a valid (found ∙ missing) added) finished)
                          ]
                ]
          ]
        ]
  ]

  pub save_seg-IsValid :
      (now : ℤ) (seg : DataSeg) (b : Bool) (s t : SubRepo)
      → Valid s.repo
      → save_seg m max_open keep_time can_map can_write now seg s ≡ ok (b, t)
      → Valid t.repo
  unfolding save_seg
  save_seg-IsValid now seg b s t w done =
      let id = seg.seg_id.prod_id in
      elim (Result-cases (Get id s.repo)) [
        | inr (x, fails) ↦ absurd (ground (arith, fails, done))
        | inl ((o, r), got) ↦
            let valid =
              (get_prod_entry-IsValid m max_open keep_time can_map id o s.repo r w got).0 in
            let found = get_prod_entry_found m max_open keep_time can_map id o s.repo r got in
            elim (Option-cases o) [
              | inr (e, there) ↦
                  elim (Result-cases
                    (save_in m max_open keep_time can_map can_write seg e.prod_file)) [
                      | inr (x, fails) ↦ absurd (ground (arith, got, there, fails, done))
                      | inl ((new, file), saved) ↦
                          let u = record s {
                            repo =
                                with_entry m max_open keep_time can_map can_write id
                                  (record e { prod_file = file }) r;
                          } in
                          let replaced =
                            replaced-IsValid m max_open keep_time can_map id e
                              (record e { prod_file = file }) r valid (found ∙ there)
                              (valid.1.named id e.prod_info (ap info_of (found ∙ there))) in
                          elim (Bool-cases new) [
                            | inr old ↦
                                let same : u ≡ t = ground (arith, got, there, saved, old, done) in
                                subst (λ y. Valid y.repo) same replaced
                            | inl fresh ↦
                                elim (Result-cases
                                  (finish_at m max_open keep_time can_map can_write now id u)) [
                                    | inr (x, fails) ↦
                                        absurd
                                          (ground (arith, got, there, saved, fresh, fails, done))
                                    | inl (v, finished) ↦
                                        let same : v ≡ t =
                                          ground
                                            (arith, got, there, saved, fresh, finished, done) in
                                        subst (λ y. Valid y.repo) same
                                          (finish_at-IsValid m max_open keep_time can_map can_write
                                            now id u v replaced finished)
                                  ]
                          ]
                    ]
              | inl missing ↦ elim (Result-cases (sub_prod_file m can_write seg.prod_size)) [
                | inr (x, fails) ↦ absurd (ground (arith, got, missing, fails, done))
                | inl (file, made) ↦
                    elim (Result-cases
                      (save_in m max_open keep_time can_map can_write seg (sub_file file))) [
                        | inr (x, fails) ↦ absurd (ground (arith, got, missing, made, fails, done))
                        | inl ((new, kept), saved) ↦
                            let e : ProdEntry = record {
                              prod_info = unknown_info id;
                              prod_file = kept;
                            } in
                            elim (Result-cases
                              (add m max_open keep_time can_map can_write now e r)) [
                                | inr (x, fails) ↦
                                    absurd (ground (arith, got, missing, made, saved, fails, done))
                                | inl (a, added) ↦
                                    let same : record s { repo = a } ≡ t =
                                      ground (arith, got, missing, made, saved, added, done) in
                                    subst (λ y. Valid y.repo) same
                                      (add-IsValid now e r a valid (found ∙ missing) added)
                              ]
                      ]
              ]
            ]
      ]
