-- ===== src/Repository/Lru.antt =====
-- Which files `activate` of main/repository/Repository.cpp leaves open.
use bicast.Base.{
  if◌then◌else◌, ◌≢◌, ℕ, zero, suc, ◌-◌, ◌≤◌, List, [], ◌∷◌, ◌++◌, length, take, drop, ltb, Bool,
  true, false, Option, none, some, ℕ_discrete, ◌≡◌, refl, sym, ap, ◌∙◌, subst, arith, Bool-cases,
  inl, inr, ltb→lt,
}
use bicast.Base.Result.{ok}
use bicast.Base.Int.{ℤ}
use bicast.Base.Assoc
use bicast.Base.Assoc.{lookup}
use bicast.Base.Sets
use bicast.Proto.{ProdId}
use bicast.HashSetQueue.{HashSetQueue, size}
use bicast.HashSetQueue.Chain.{Represents}
use bicast.HashSetQueue.Push.{push-Represents}
use bicast.HashSetQueue.Pop.{pop-Represents}
use bicast.HashSetQueue.Erase.{erase-Represents}
use bicast.Repository.{
  AnyFile, Entries, ProdEntry, Repo, close_entry, open_file, close_oldest, activate,
}

-- The queue of the open products stands for the list, the oldest first.
abbrev pub Lists : HashSetQueue ProdId → List ProdId → Type 0
Lists q xs = Represents ℕ_discrete 0 q xs

-- Every product of the list has an entry.
abbrev pub HaveEntries : Entries → List ProdId → Type 0
HaveEntries es xs =
    (k : ProdId) → Sets.contains ℕ_discrete k xs ≡ true → Assoc.has ℕ_discrete k es ≡ true

-- The entries with the files of a list closed.
unfoldable pub close_at : ProdId → Option ProdEntry → Entries → Entries
close_at id none es = es
close_at id (some e) es = Assoc.put ℕ_discrete id (close_entry e) es

unfoldable pub close_all : List ProdId → Entries → Entries
close_all [] es = es
close_all (id ∷ ids) es = close_all ids (close_at id (lookup ℕ_discrete id es) es)

-- The list with a product at its end.
abbrev pub renewed : ProdId → List ProdId → List ProdId
renewed id xs = Sets.erase ℕ_discrete id xs ++ (id ∷ [])

-- How many of a list are too many.
abbrev pub excess : ℕ → List ProdId → ℕ
excess max xs = length xs - max

put-HaveEntries :
    (id : ProdId) (e : ProdEntry) (es : Entries) (xs : List ProdId)
    → HaveEntries es xs
    → HaveEntries (Assoc.put ℕ_discrete id e es) xs
put-HaveEntries id e es xs h k l = Assoc.has-put ℕ_discrete id k e es (h k l)

contains-init :
    (k id : ProdId) (xs : List ProdId)
    → k ≢ id
    → Sets.contains ℕ_discrete k (xs ++ (id ∷ [])) ≡ true
    → Sets.contains ℕ_discrete k xs ≡ true
unfolding Sets.contains
contains-init k id xs d h = ground (arith, h, Sets.contains-append ℕ_discrete k xs (id ∷ []))

pub renewed-HaveEntries :
    (id : ProdId) (e : ProdEntry) (es : Entries) (xs : List ProdId)
    → HaveEntries es xs
    → HaveEntries (Assoc.put ℕ_discrete id e es) (renewed id xs)
renewed-HaveEntries id e es xs h k l = elim (ℕ_discrete k id) [
  | yes same ↦ rw same (Assoc.has-put_self ℕ_discrete id e es)
  | no other ↦ Assoc.has-put ℕ_discrete id k e es (
      h k (
        sym (Sets.contains-erase_ne ℕ_discrete id k xs other)
        ∙ contains-init k id (Sets.erase ℕ_discrete id xs) other l))
]

module _ (m max_open : ℕ) (keep_time : ℤ) (can_map : ℕ → Bool) where
  -- What the loop of `activate` comes to.
  abbrev pub Closes : ℕ → Entries → HashSetQueue ProdId → List ProdId → Type 0
  Closes fuel es q xs =
      (r : HashSetQueue ProdId) × ((close_oldest m max_open keep_time can_map fuel es q
          ≡ ok (close_all (take (excess max_open xs) xs) es, r))
        × Lists r (drop (excess max_open xs) xs))

  few_open :
      (fuel : ℕ) (es : Entries) (q : HashSetQueue ProdId) (xs : List ProdId)
      → Lists q xs
      → length xs ≤ max_open
      → Closes fuel es q xs
  unfolding close_oldest close_all size
  few_open zero es q xs w h =
      let none_over : excess max_open xs ≡ 0 = omega arith in rw none_over (q, (refl, w))
  few_open (suc fuel) es q xs w h =
      let none_over : excess max_open xs ≡ 0 = omega arith in
      let test : ltb max_open (length q.links_map) ≡ false = ground (arith, w.count) in
      rw none_over (q, (ground (arith, test), w))

  close_oldest_lem :
      (fuel : ℕ) (es : Entries) (q : HashSetQueue ProdId) (xs : List ProdId)
      → Lists q xs
      → HaveEntries es xs
      → length xs ≤ fuel
      → Closes fuel es q xs
  close_oldest_lem zero es q xs w h l = few_open zero es q xs w (omega arith)
  close_oldest_lem (suc fuel) es q [] w h l = few_open (suc fuel) es q [] w (omega arith)
  close_oldest_lem (suc fuel) es q (x ∷ xs) w h l =
      elim (Bool-cases (ltb max_open (suc (length xs)))) [
        | inr fits ↦ few_open (suc fuel) es q (x ∷ xs) w (ground (arith, fits))
        | inl over ↦
            let (front, (rest, (popped, wr))) = pop-Represents ℕ_discrete 0 x xs q w in
            let (e, there) =
              Assoc.has-lookup-some ℕ_discrete x es (h x (Sets.contains_head ℕ_discrete x xs)) in
            let es2 = Assoc.put ℕ_discrete x (close_entry e) es in
            let (r, (closed, wd)) =
              close_oldest_lem fuel es2 rest xs wr
                (put-HaveEntries x (close_entry e) es xs
                  (λ k c. h k (Sets.contains_tail ℕ_discrete k x xs c)))
                (omega arith) in
            let one_more : excess max_open (x ∷ xs) ≡ suc (excess max_open xs) =
              omega (arith, ltb→lt max_open (suc (length xs)) over) in
            let test : ltb max_open (length q.links_map) ≡ true = ground (arith, w.count, over) in
            let step : close_oldest m max_open keep_time can_map (suc fuel) es q
                ≡ close_oldest m max_open keep_time can_map fuel es2 rest =
              unfold close_oldest size in ground (arith, test, front, popped, there) in
            let same : close_all (take (suc (excess max_open xs)) (x ∷ xs)) es
                ≡ close_all (take (excess max_open xs) xs) es2 =
              unfold close_all close_at in ground (arith, there) in
            rw one_more (r, (step ∙ closed ∙ ap (λ y. ok (y, r)) (sym same), wd))
      ]

  -- If the queue of open products stands for a list of products that have entries, and the file
  -- of a product can be opened, then `activate` of it returns, closes exactly the files of the
  -- oldest products of the list with the product moved to its end, as many as there are above
  -- the limit, and leaves a queue that stands for the others: a least-recently-used cache.
  pub activate_lem :
      (id : ProdId) (e : ProdEntry) (file : AnyFile) (r : Repo) (xs : List ProdId)
      → Lists r.open_prods xs
      → HaveEntries r.prod_entries xs
      → open_file m max_open keep_time can_map e.prod_file ≡ ok file
      → let ys = renewed id xs in
        let n = excess max_open ys in
        (q : HashSetQueue ProdId) × ((activate m max_open keep_time can_map id e r
            ≡ ok (record r {
              prod_entries =
                  close_all
                    (take n ys)
                    (Assoc.put ℕ_discrete id (record e { prod_file = file }) r.prod_entries);
              open_prods = q;
            }))
          × Lists q (drop n ys))
  activate_lem id e file r xs w h opened =
      let ys = renewed id xs in
      let es = Assoc.put ℕ_discrete id (record e { prod_file = file }) r.prod_entries in
      let (q1, (erased, w1)) = erase-Represents ℕ_discrete 0 id xs r.open_prods w in
      let (q2, (pushed, w2)) =
        push-Represents ℕ_discrete 0 id q1 (Sets.erase ℕ_discrete id xs) w1 in
      let gone = Sets.contains-erase_self ℕ_discrete id xs in
      let w3 : Lists q2 ys =
        subst (λ b. Lists q2 (if b then Sets.erase ℕ_discrete id xs else ys)) gone w2 in
      let (q, (closed, wq)) =
        close_oldest_lem (size ℕ_discrete 0 q2) es q2 ys w3
          (renewed-HaveEntries id (record e { prod_file = file }) r.prod_entries xs h)
          (unfold size in omega (arith, w3.count)) in
      (q, (unfold activate in rw (opened, erased, pushed, closed) refl, wq))
