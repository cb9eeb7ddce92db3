-- ===== src/Repository/Gaps.antt =====
-- Where main/repository/Repository.cpp does not do what it means to.
use bicast.Base.{
  ℕ, List, [], ◌∷◌, Bool, true, false, none, ℕ_discrete, ◌≡◌, ◌≢◌, refl, sym, arith, Bool-cases,
  inl, inr,
}
use bicast.Base.Result.{raise, system_error}
use bicast.Base.Int.{ℤ, ltb_ℤ}
use bicast.Base.Assoc
use bicast.Base.Assoc.{lookup}
use bicast.Proto.{ProdId, ProdInfo}
use bicast.ProdFile.{sub_prod_file, ensure_access}
use bicast.ProdFile.Pub.{PubProdFile}
use bicast.Repository.{Repo, pub_file, emplace, add_new, activate, open_file, get_prod_entry}
use bicast.Repository.Sub.{SubRepo, add, save_info}

emplace_twice :
    (t : ℤ) (i j : ProdId) (q : List (ℤ × ProdId)) → emplace t j (emplace t i q) ≡ emplace t i q
unfolding emplace
emplace_twice t i j [] = ground arith
emplace_twice t i j (e ∷ q) = ground (arith, emplace_twice t i j q)

module _ (m max_open : ℕ) (keep_time : ℤ) (can_map : ℕ → Bool) where
  -- Of two new files of different products with the same modification time, the second is added
  -- as well, but it does not change the processing-queue.
  pub add_new_same_time :
      (a b : ProdInfo) (f g : PubProdFile) (t : ℤ) (r : Repo)
      → a.prod_id ≢ b.prod_id
      → Assoc.has ℕ_discrete a.prod_id r.prod_entries ≡ false
      → Assoc.has ℕ_discrete b.prod_id r.prod_entries ≡ false
      → let one = add_new m max_open keep_time can_map a f t r in
        let two = add_new m max_open keep_time can_map b g t one.1 in
        (one.0 ≡ true) × ((two.0 ≡ true) × (two.1.proc_queue ≡ one.1.proc_queue))
  unfolding add_new
  add_new_same_time a b f g t r apart new_a new_b =
      let there =
        Assoc.has-put_ne ℕ_discrete a.prod_id b.prod_id
          (record { prod_info = a; prod_file = pub_file f }) r.prod_entries (λ e. apart (sym e)) in
      elim (Bool-cases (ltb_ℤ r.last_processed t)) [
        | inl late ↦
            rw (new_a, there, new_b, late)
              (refl, (refl, emplace_twice t a.prod_id b.prod_id r.proc_queue))
        | inr early ↦ rw (new_a, there, new_b, early) (refl, (refl, refl))
      ]

  -- If an empty file cannot be mapped, then a subscriber that saves the information on a new
  -- product of no bytes gets the exception of a failed system call.
  pub save_info_empty :
      (now : ℤ) (info : ProdInfo) (s : SubRepo)
      → can_map 0 ≡ false
      → info.size ≡ 0
      → lookup ℕ_discrete info.prod_id s.repo.prod_entries ≡ none
      → save_info m max_open keep_time can_map true now info s ≡ raise system_error
  unfolding save_info get_prod_entry sub_prod_file add activate open_file ensure_access
  save_info_empty now info s fails empty new = ground (arith, fails, empty, new)
