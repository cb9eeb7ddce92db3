-- ===== src/Repository.antt =====
-- `Repository::Impl` of main/repository/Repository.cpp: the products of a node, their files, and when
-- they are processed and deleted. A call holds the mutex, so that calls come one after the other.
-- Threads' exceptions (`threadEx`) are not modelled. `RunPar::maxSegSize`, `maxOpenProds` and
-- `prodKeepTime` are parameters, and so is whether a file of a size can be opened and mapped.
pub mod Sub
pub mod Lru
pub mod Valid
pub mod Calls
pub mod Deletion
pub mod Gaps
use bicast.Base.{
  ℕ, zero, suc, ◌+◌, ◌%◌, ◌^◌, List, [], ◌∷◌, map, ltb, leb, if◌then◌else◌, not, ◌&&◌, Bool, true,
  false, Option, none, some, ℕ_discrete, length, ◌==◌,
}
use bicast.Base.Int.{ℤ, pos, ◌+ℤ◌, ltb_ℤ}
use bicast.Base.Result.{
  Result, ok, raise, ◌>>=◌, ◌>>◌, ◌>>◌, invalid_argument, system_error, undefined,
}
use bicast.Base.Assoc
use bicast.Base.Assoc.{lookup}
use bicast.Base.Sets
use bicast.Proto.{ProdId, DataSegId, ProdInfo, ProdIdSet, named_prod_info}
use bicast.DataSeg.{DataSeg, unset, data_seg}
use bicast.HashSetQueue
use bicast.HashSetQueue.{HashSetQueue}
use bicast.ProdFile.{SubProdFile, ensure_access, disable_access, get_data}
use bicast.ProdFile
use bicast.ProdFile.Pub.{PubProdFile, pub_prod_file, open_pub, data_at, pub_exists}

-- `ProdFile`: a handle of an implementation for a publisher or for a subscriber.
pub data AnyFile : Type 0 where
  pub_file : PubProdFile → AnyFile
  sub_file : SubProdFile → AnyFile

pub record ProdEntry : Type 0 where
  pub prod_info : ProdInfo
  pub prod_file : AnyFile

pub record DeleteEntry : Type 0 where
  pub delete_time : ℤ
  pub prod_id : ProdId

abbrev pub Entries : Type 0
Entries = List (ProdId × ProdEntry)

-- `delete_queue` has the top of the priority queue first; entries of the same time are in the order
-- of their arrival, which the standard leaves open. `proc_queue` is in the order of its times.
pub record Repo : Type 0 where
  pub prod_entries : Entries
  pub delete_queue : List DeleteEntry
  pub open_prods : HashSetQueue ProdId
  pub proc_queue : List (ℤ × ProdId)
  pub last_processed : ℤ
  pub stop : Bool
  pub done : Bool

-- `ProdEntry(prodId)` of a product whose information is not known.
abbrev pub unknown_info : ProdId → ProdInfo
unknown_info id = record { prod_id = id; name = []; size = 0; creation_time = pos 0 }

unfoldable pub prod_size : AnyFile → ℕ
prod_size (pub_file f) = f.prod_size
prod_size (sub_file f) = f.prod_size

-- `ProdFile::close`.
unfoldable pub close : AnyFile → AnyFile
close (pub_file f) = pub_file (record f { is_open = false })
close (sub_file f) = sub_file (disable_access f)

abbrev pub close_entry : ProdEntry → ProdEntry
close_entry e = record e { prod_file = close e.prod_file }

-- `deleteQueue.push`.
unfoldable pub push_delete : DeleteEntry → List DeleteEntry → List DeleteEntry
push_delete d [] = d ∷ []
push_delete d (e ∷ ds) =
    let rest = push_delete d ds in
    if ltb_ℤ d.delete_time e.delete_time then d ∷ e ∷ ds else e ∷ rest

-- `procQueue.emplace`, which does nothing if there is an element of the same time.
unfoldable pub emplace : ℤ → ProdId → List (ℤ × ProdId) → List (ℤ × ProdId)
emplace t id [] = (t, id) ∷ []
emplace t id (e ∷ q) =
    let rest = emplace t id q in
    if ltb_ℤ t e.0 then (t, id) ∷ e ∷ q else if ltb_ℤ e.0 t then e ∷ rest else e ∷ q

unfoldable pub halt : Repo → Repo
halt r = record r { stop = true }

-- `getProdIds` and `subtract`.
unfoldable pub get_prod_ids : Repo → ProdIdSet
get_prod_ids r = map (λ e. e.0) r.prod_entries

unfoldable pub without : ProdIdSet → Entries → ProdIdSet
without rhs [] = []
without rhs (e ∷ es) =
    let rest = without rhs es in if Sets.contains ℕ_discrete e.0 rhs then rest else e.0 ∷ rest

unfoldable pub subtract : Repo → ProdIdSet → ProdIdSet
subtract r rhs = without rhs r.prod_entries

module _ (max_seg_size max_open : ℕ) (keep_time : ℤ) (can_map : ℕ → Bool) where
  -- The constructor, without its search of the directory.
  unfoldable pub new : ℤ → Result Repo
  new last_proc_time =
      if max_open == 0
      then raise invalid_argument
      else if not (ltb_ℤ (pos 0) keep_time)
      then raise invalid_argument
      else ok (record {
        prod_entries = [];
        delete_queue = [];
        open_prods = HashSetQueue.new ℕ_discrete 0;
        proc_queue = [];
        last_processed = last_proc_time;
        stop = false;
        done = false;
      })

  -- `prodFile.getData()`, which opens the file.
  unfoldable pub open_file : AnyFile → Result AnyFile
  open_file (pub_file f) = open_pub (can_map f.prod_size) f >>= λ g. ok (pub_file g)
  open_file (sub_file f) = ensure_access (can_map f.prod_size) f >>= λ g. ok (sub_file g)

  -- The loop of `activate`, at most `fuel` rounds of it.
  unfoldable pub close_oldest :
      ℕ → Entries → HashSetQueue ProdId → Result (Entries × HashSetQueue ProdId)
  close_oldest zero es q = ok (es, q)
  close_oldest (suc fuel) es q = elim (ltb max_open (HashSetQueue.size ℕ_discrete 0 q)) [
    | false ↦ ok (es, q)
    | true ↦ HashSetQueue.front ℕ_discrete 0 q >>= λ id. elim (lookup ℕ_discrete id es) [
      | none ↦ raise undefined
      | some e ↦ HashSetQueue.pop ℕ_discrete 0 q >>= λ rest.
          close_oldest fuel (Assoc.put ℕ_discrete id (close_entry e) es) rest
    ]
  ]

  -- `activate`, of the entry of a product.
  unfoldable pub activate : ProdId → ProdEntry → Repo → Result Repo
  activate id e r = do
    file ← open_file e.prod_file
    erased ← HashSetQueue.erase ℕ_discrete 0 id r.open_prods
    pushed ← HashSetQueue.push ℕ_discrete 0 id erased.1
    let es = Assoc.put ℕ_discrete id (record e { prod_file = file }) r.prod_entries
    closed ← close_oldest (HashSetQueue.size ℕ_discrete 0 pushed.1) es pushed.1
    ok (record r { prod_entries = closed.0; open_prods = closed.1 })

  unfoldable pub get_prod_entry : ProdId → Repo → Result (Option ProdEntry × Repo)
  get_prod_entry id r = elim (lookup ℕ_discrete id r.prod_entries) [
    | none ↦ ok (none, r)
    | some e ↦ activate id e r >>= λ s. ok (lookup ℕ_discrete id s.prod_entries, s)
  ]

  -- `getNextProd`: it waits, or returns an entry, which is none if the repository is halted.
  pub data Next : Type 0 where
    waits : Repo → Next
    returns : Option ProdEntry → Repo → Next

  -- The loop, over the elements of the queue.
  unfoldable pub next_of : List (ℤ × ProdId) → Repo → Result Next
  next_of [] r = ok (waits r)
  next_of (p ∷ ps) r = get_prod_entry p.1 (record r { proc_queue = p ∷ ps }) >>= λ s. elim s.0 [
    | none ↦ next_of ps (record s.1 { proc_queue = ps })
    | some e ↦ HashSetQueue.erase ℕ_discrete 0 e.prod_info.prod_id s.1.open_prods >>= λ q.
        ok (returns (some e) (record s.1 { proc_queue = ps; open_prods = q.1 }))
  ]

  unfoldable pub get_next_prod : Repo → Result Next
  get_next_prod r = if r.stop then ok (returns none r) else next_of r.proc_queue r

  unfoldable pub get_prod_info : ProdId → Repo → Result (Option ProdInfo × Repo)
  get_prod_info id r = get_prod_entry id r >>= λ s. elim s.0 [
    | none ↦ ok (none, s.1)
    | some e ↦ ok (some e.prod_info, s.1)
  ]

  -- `getData(offset)` of a file, whose entry is then open.
  unfoldable pub data_from : ℕ → AnyFile → Result (List ℕ × AnyFile)
  data_from offset (pub_file f) =
      data_at max_seg_size (can_map f.prod_size) offset f >>= λ r. ok (r.0, pub_file r.1)
  data_from offset (sub_file f) =
      get_data max_seg_size (can_map f.prod_size) offset f >>= λ r. ok (r.0, sub_file r.1)

  unfoldable pub get_data_seg : DataSegId → Repo → Result (DataSeg × Repo)
  get_data_seg id r = get_prod_entry id.prod_id r >>= λ s. elim s.0 [
    | none ↦ ok (unset, s.1)
    | some e ↦ data_from id.offset e.prod_file >>= λ d. ok (
      data_seg max_seg_size id (prod_size e.prod_file) d.0,
      record s.1 {
        prod_entries =
            Assoc.put ℕ_discrete id.prod_id (record e { prod_file = d.1 }) s.1.prod_entries;
      },
    )
  ]

  -- A round of `deleteProds` at the time `now`, and whether it has deleted a product. `removal` is what
  -- `removeFileAndPrune` of the product's file comes to; an exception ends the thread.
  unfoldable pub delete_prods : Result (Unit {0}) → ℤ → Repo → Result (Bool × Repo)
  delete_prods removal now r = if r.done then ok (false, r) else elim r.delete_queue [
    | [] ↦ ok (false, r)
    | d ∷ ds ↦
        if ltb_ℤ now d.delete_time
        then ok (false, r)
        else elim (lookup ℕ_discrete d.prod_id r.prod_entries) [
          | none ↦ ok (false, r)
          | some e ↦
              removal
              >> (HashSetQueue.erase ℕ_discrete 0 d.prod_id r.open_prods >>= λ q. ok (
                true,
                record r {
                  prod_entries = Assoc.erase ℕ_discrete d.prod_id r.prod_entries;
                  delete_queue = ds;
                  open_prods = q.1;
                },
              ))
        ]
  ]

  -- `tryAddFile` at the time `now`, of a file with the given name, content and time. `removal` is what
  -- `removeFileAndPrune` of a file that is too old comes to.
  unfoldable pub add_new : ProdInfo → PubProdFile → ℤ → Repo → Bool × Repo
  add_new info f mod_time r =
      if Assoc.has ℕ_discrete info.prod_id r.prod_entries then (false, r) else (
        true,
        record r {
          prod_entries =
              Assoc.put ℕ_discrete info.prod_id
                (record { prod_info = info; prod_file = pub_file f }) r.prod_entries;
          delete_queue =
              push_delete (record { delete_time = mod_time +ℤ keep_time; prod_id = info.prod_id })
                r.delete_queue;
          proc_queue =
              if ltb_ℤ r.last_processed mod_time
              then emplace mod_time info.prod_id r.proc_queue
              else r.proc_queue;
        },
      )

  unfoldable pub try_add_file :
      (List ℕ → Option (ℕ × ℕ × ℕ × ℕ))
      → Result (Unit {0})
      → ℤ
      → List ℕ
      → List ℕ
      → ℤ
      → Repo
      → Result (Bool × Repo)
  try_add_file sha256 removal now name content mod_time r =
      if ltb_ℤ (mod_time +ℤ keep_time) now
      then (removal >> ok (false, r))
      else (named_prod_info sha256 name (pub_prod_file content).prod_size mod_time >>= λ info.
          ok (add_new info (pub_prod_file content) mod_time r))
