-- ===== src/Tests/Repos.antt =====
-- Runs of main/repository/Repository.cpp: segments of two bytes, one open file at most, and products
-- that are kept for ten seconds. An empty file cannot be mapped.
use bicast.Base.{
  ℕ, Bool, true, false, [], ◌∷◌, take, drop, ltb, none, ◌≡◌, ◌≢◌, refl, arith, ℕ_discrete, decide,
}
use bicast.Base.Int.{pos}
use bicast.Base.Assoc
use bicast.Base.Assoc.{lookup}
use bicast.Base.Sets
use bicast.Base.Result.{ok, raise, system_error}
use bicast.Proto.{ProdId, ProdInfo}
use bicast.HashSetQueue
use bicast.HashSetQueue.{HashSetQueue}
use bicast.HashSetQueue.Chain.{Represents}
use bicast.HashSetQueue.Erase.{Erases, erase-Represents}
use bicast.ProdFile.Pub.{PubProdFile, pub_prod_file}
use bicast.Repository
use bicast.Repository.{
  AnyFile, pub_file, ProdEntry, Repo, DeleteEntry, new, add_new, activate, open_file,
}
use bicast.Repository.Lru.{close_all, renewed, excess, activate_lem}
use bicast.Repository.Valid.{IsValid}
use bicast.Repository.Gaps.{add_new_same_time, save_info_empty}
use bicast.Repository.Sub.{SubRepo, save_info}
use bicast.Repository.Sub.Reach.{Reach, here, next, file_added, reachable-IsValid}

abbrev can_map : ℕ → Bool
can_map n = ltb 0 n

abbrev info : ProdId → ProdInfo
info id = record { prod_id = id; name = 97 ∷ []; size = 3; creation_time = pos 5 }

abbrev file : PubProdFile
file = pub_prod_file (10 ∷ 20 ∷ 30 ∷ [])

abbrev start : SubRepo
start = record {
  repo = record {
    prod_entries = [];
    delete_queue = [];
    open_prods = HashSetQueue.new ℕ_discrete 0;
    proc_queue = [];
    last_processed = pos 0;
    stop = false;
    done = false;
  };
  queue_prods = true;
  last_received = pos 0;
  total_prods = 0;
  total_bytes = 0;
  total_latency = 0;
}

made : new 2 1 (pos 10) can_map (pos 0) ≡ ok start.repo
unfolding new
made = ground arith

-- The repository with a file of three bytes.
abbrev one_file : SubRepo
one_file = record start { repo = (add_new 2 1 (pos 10) can_map (info 7) file (pos 5) start.repo).1 }

added : Reach 2 1 (pos 10) can_map true start one_file
added = next here (file_added (info 7) file (pos 5) refl)

reachable-IsValid_example : IsValid 2 1 (pos 10) can_map one_file.repo
reachable-IsValid_example =
    reachable-IsValid 2 1 (pos 10) can_map true (pos 0) start one_file made added

abbrev due : DeleteEntry
due = record { delete_time = pos 15; prod_id = 7 }

-- The files of the products 5 and 6 are open, and one may be.
abbrev two_open : HashSetQueue ProdId
two_open = record {
  links_map = (5, record { prev = 0; next = 6 }) ∷ (6, record { prev = 5; next = 0 }) ∷ [];
  head = 5;
  tail = 6;
}

two_open-Represents : Represents ℕ_discrete 0 two_open (5 ∷ 6 ∷ [])
unfolding Sets.contains Assoc.has lookup ℕ_discrete decide
two_open-Represents = record {
  unique = (refl, (refl, tt));
  keys = λ k. refl;
  keyed = (refl, (refl, tt));
  count = refl;
  chain = (refl, (refl, tt));
  first = refl;
  last = refl;
}

erase-Represents_example : Erases ℕ_discrete 0 6 two_open (5 ∷ 6 ∷ [])
erase-Represents_example = erase-Represents ℕ_discrete 0 6 (5 ∷ 6 ∷ []) two_open two_open-Represents

abbrev entry : ProdId → ProdEntry
entry id = record { prod_info = info id; prod_file = pub_file (record file { is_open = true }) }

abbrev two_files : Repo
two_files = record start.repo {
  prod_entries = (5, entry 5) ∷ (6, entry 6) ∷ [];
  open_prods = two_open;
}

have :
    (k : ProdId)
    → Sets.contains ℕ_discrete k (5 ∷ 6 ∷ []) ≡ true
    → Assoc.has ℕ_discrete k two_files.prod_entries ≡ true
unfolding Sets.contains Assoc.has
have k h = h

opened : open_file 2 1 (pos 10) can_map (entry 5).prod_file ≡ ok (entry 5).prod_file
unfolding open_file bicast.ProdFile.Pub.open_pub
opened = refl

activate_lem_example :
    (q : HashSetQueue ProdId) × ((activate 2 1 (pos 10) can_map 5 (entry 5) two_files
        ≡ ok (record two_files {
          prod_entries =
              close_all
                (take (excess 1 (renewed 5 (5 ∷ 6 ∷ []))) (renewed 5 (5 ∷ 6 ∷ [])))
                (Assoc.put ℕ_discrete 5 (entry 5) two_files.prod_entries);
          open_prods = q;
        }))
      × Represents ℕ_discrete 0 q
          (drop (excess 1 (renewed 5 (5 ∷ 6 ∷ []))) (renewed 5 (5 ∷ 6 ∷ []))))
activate_lem_example =
    activate_lem 2 1 (pos 10) can_map 5 (entry 5) (entry 5).prod_file two_files (5 ∷ 6 ∷ [])
      two_open-Represents have opened

apart : (info 7).prod_id ≢ (info 8).prod_id
apart e = ground (arith, e)

unknown : (k : ProdId) → Assoc.has ℕ_discrete k start.repo.prod_entries ≡ false
unfolding Assoc.has
unknown k = refl

add_new_same_time_example :
    let one = add_new 2 1 (pos 10) can_map (info 7) file (pos 5) start.repo in
    let two = add_new 2 1 (pos 10) can_map (info 8) file (pos 5) one.1 in
    (one.0 ≡ true) × ((two.0 ≡ true) × (two.1.proc_queue ≡ one.1.proc_queue))
add_new_same_time_example =
    add_new_same_time 2 1 (pos 10) can_map (info 7) (info 8) file file (pos 5) start.repo apart
      (unknown 7) (unknown 8)

abbrev empty_product : ProdInfo
empty_product = record (info 7) { size = 0 }

nothing_there : lookup ℕ_discrete 7 start.repo.prod_entries ≡ none
unfolding lookup
nothing_there = refl

save_info_empty_example :
    save_info 2 1 (pos 10) can_map true (pos 9) empty_product start ≡ raise system_error
save_info_empty_example =
    save_info_empty 2 1 (pos 10) can_map (pos 9) empty_product start refl refl nothing_there
