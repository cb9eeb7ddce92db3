-- ===== src/Repository/Valid.antt =====
-- What every operation of main/repository/Repository.cpp keeps: the products that have entries are
-- those that will be deleted, and the open products have entries and are not too many.
use bicast.Base.{
  ℕ, zero, suc, ◌≤◌, List, [], ◌∷◌, length, take, drop, map, length-drop, Bool, true, false, Option,
  none, some, ℕ_discrete, ◌≡◌, refl, sym, ap, ◌∙◌, subst, arith, Option-cases, inl, inr,
}
use bicast.Base.Result.{ok, Result-cases}
use bicast.Base.Int.{ℤ}
use bicast.Base.Assoc
use bicast.Base.Assoc.{lookup}
use bicast.Base.Sets
use bicast.Proto.{ProdId, ProdInfo}
use bicast.Repository.{Entries, ProdEntry, DeleteEntry, Repo, close_entry, open_file, activate}
use bicast.Repository.Lru.{
  Lists, HaveEntries, close_at, close_all, renewed, excess, activate_lem, renewed-HaveEntries,
}

-- The information on a product, if it has an entry.
abbrev pub info_of : Option ProdEntry → Option ProdInfo
info_of none = none
info_of (some e) = some e.prod_info

abbrev pub info_at : ProdId → Entries → Option ProdInfo
info_at k es = info_of (lookup ℕ_discrete k es)

abbrev pub SameInfos : Entries → Entries → Type 0
SameInfos es fs = (k : ProdId) → info_at k fs ≡ info_at k es

abbrev pub scheduled : List DeleteEntry → List ProdId
scheduled ds = map (λ d. d.prod_id) ds

put-SameInfos :
    (id : ProdId) (e f : ProdEntry) (es : Entries)
    → lookup ℕ_discrete id es ≡ some e
    → f.prod_info ≡ e.prod_info
    → SameInfos es (Assoc.put ℕ_discrete id f es)
put-SameInfos id e f es h same k = elim (ℕ_discrete k id) [
  | yes here ↦ rw (here, Assoc.lookup-put_self ℕ_discrete id f es, h) (ap some same)
  | no other ↦ ap info_of (Assoc.lookup-put_ne ℕ_discrete id k f es other)
]

close_at-SameInfos :
    (id : ProdId) (o : Option ProdEntry) (es : Entries)
    → lookup ℕ_discrete id es ≡ o
    → SameInfos es (close_at id o es)
unfolding close_at
close_at-SameInfos id none es h k = refl
close_at-SameInfos id (some e) es h k = put-SameInfos id e (close_entry e) es h refl k

close_all-SameInfos : (ids : List ProdId) (es : Entries) → SameInfos es (close_all ids es)
unfolding close_all
close_all-SameInfos [] es k = refl
close_all-SameInfos (id ∷ ids) es k =
    close_all-SameInfos ids (close_at id (lookup ℕ_discrete id es) es) k
    ∙ close_at-SameInfos id (lookup ℕ_discrete id es) es refl k

abbrev is_some : Option ProdInfo → Bool
is_some none = false
is_some (some i) = true

has_lem : (k : ProdId) (es : Entries) → Assoc.has ℕ_discrete k es ≡ is_some (info_at k es)
has_lem k es = elim (Option-cases (lookup ℕ_discrete k es)) [
  | inl e ↦ rw e (Assoc.lookup-none-has ℕ_discrete k es e)
  | inr (v, e) ↦ rw e (Assoc.lookup-has ℕ_discrete k es v e)
]

pub SameInfos-has :
    (es fs : Entries)
    → SameInfos es fs
    → (k : ProdId) → Assoc.has ℕ_discrete k fs ≡ Assoc.has ℕ_discrete k es
SameInfos-has es fs h k = has_lem k fs ∙ ap is_some (h k) ∙ sym (has_lem k es)

ok-inj : (r s : Repo) → ok r ≡ ok s → r ≡ s
ok-inj r s e = cc

contains-drop :
    (k : ProdId) (n : ℕ) (xs : List ProdId)
    → Sets.contains ℕ_discrete k (drop n xs) ≡ true
    → Sets.contains ℕ_discrete k xs ≡ true
contains-drop k zero xs h = h
contains-drop k (suc n) [] h = h
contains-drop k (suc n) (x ∷ xs) h = Sets.contains_tail ℕ_discrete k x xs (contains-drop k n xs h)

module _ (m max_open : ℕ) (keep_time : ℤ) (can_map : ℕ → Bool) where
  -- The open products are those of the list.
  pub record IsOpen (xs : List ProdId) (r : Repo) : Type 0 where
    pub lists : Lists r.open_prods xs
    pub few : length xs ≤ max_open
    pub have : HaveEntries r.prod_entries xs

  -- The products with entries are those that will be deleted, each once and under its own identifier.
  pub record IsKept (r : Repo) : Type 0 where
    pub once : Sets.IsUnique ℕ_discrete (scheduled r.delete_queue)
    pub kept :
        (k : ProdId)
        → Sets.contains ℕ_discrete k (scheduled r.delete_queue)
          ≡ Assoc.has ℕ_discrete k r.prod_entries
    pub named : (k : ProdId) (i : ProdInfo) → info_at k r.prod_entries ≡ some i → i.prod_id ≡ k

  abbrev pub IsValid : Repo → Type 0
  IsValid r = ((xs : List ProdId) × IsOpen xs r) × IsKept r

  SameInfos-IsKept :
      (r s : Repo)
      → SameInfos r.prod_entries s.prod_entries
      → s.delete_queue ≡ r.delete_queue
      → IsKept r
      → IsKept s
  SameInfos-IsKept r s same queue w = record {
    once = rw queue w.once;
    kept = λ k. rw queue (w.kept k ∙ sym (SameInfos-has r.prod_entries s.prod_entries same k));
    named = λ k i e. w.named k i (sym (same k) ∙ e);
  }

  pub activate-IsValid :
      (id : ProdId) (e : ProdEntry) (r s : Repo)
      → IsValid r
      → lookup ℕ_discrete id r.prod_entries ≡ some e
      → activate m max_open keep_time can_map id e r ≡ ok s
      → IsValid s × SameInfos r.prod_entries s.prod_entries
  activate-IsValid id e r s ((xs, w), kept) there done =
      elim (Result-cases (open_file m max_open keep_time can_map e.prod_file)) [
        | inr (x, fails) ↦ absurd (unfold activate in ground (arith, fails, done))
        | inl (file, opened) ↦
            let (q, (activated, wq)) =
              activate_lem m max_open keep_time can_map id e file r xs w.lists w.have opened in
            let ys = renewed id xs in
            let f = record e { prod_file = file } in
            let es = Assoc.put ℕ_discrete id f r.prod_entries in
            let n = excess max_open ys in
            let t = record r { prod_entries = close_all (take n ys) es; open_prods = q } in
            let closed = close_all-SameInfos (take n ys) es in
            let same =
              λ (k : ProdId). closed k ∙ put-SameInfos id e f r.prod_entries there refl k in
            let valid : IsValid t × SameInfos r.prod_entries t.prod_entries = (
              (
                (
                  drop n ys,
                  record {
                    lists = wq;
                    few = omega (arith, length-drop n ys);
                    have = λ k l.
                        SameInfos-has es t.prod_entries closed k
                        ∙ renewed-HaveEntries id f r.prod_entries xs w.have k
                            (contains-drop k n ys l);
                  },
                ),
                SameInfos-IsKept r t same refl kept,
              ),
              same,
            ) in
            subst (λ u. IsValid u × SameInfos r.prod_entries u.prod_entries)
              (ok-inj t s (sym activated ∙ done)) valid
      ]
