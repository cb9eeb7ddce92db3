-- ===== src/Repository/Sub.antt =====
-- `SubRepo::Impl` of main/repository/Repository.cpp: what a subscriber does with the information on a
-- product and with its segments, in whichever order they come. `can_write` is whether files can be
-- created, renamed and given times; the time of a file that is set is the one that is read back.
pub mod Kept
pub mod Saves
pub mod Asks
pub mod Reach
use bicast.Base.{ℕ, ◌+◌, ◌%◌, ◌^◌, if◌then◌else◌, ◌&&◌, Bool, true, false, none, some, ℕ_discrete}
use bicast.Base.Int.{ℤ, ◌+ℤ◌, ◌-ℤ◌}
use bicast.Base.Result.{Result, ok, raise, ◌>>=◌, system_error, logic_error}
use bicast.Base.Assoc
use bicast.Base.Assoc.{lookup}
use bicast.Xprt.{to_uint64}
use bicast.Proto.{ProdId, DataSegId, ProdInfo, is_set}
use bicast.DataSeg.{DataSeg}
use bicast.HashSetQueue
use bicast.ProdFile.{SubProdFile, sub_prod_file}
use bicast.ProdFile
use bicast.ProdFile.Pub.{pub_exists, pub_is_complete, pub_save}
use bicast.Repository.{
  AnyFile, pub_file, sub_file, ProdEntry, Repo, unknown_info, close, push_delete, emplace, activate,
  get_prod_entry,
}

pub record SubRepo : Type 0 where
  pub repo : Repo
  pub queue_prods : Bool
  pub last_received : ℤ
  pub total_prods : ℕ
  pub total_bytes : ℕ
  pub total_latency : ℕ

-- `ProdFile::isComplete`.
unfoldable pub is_complete : AnyFile → Bool
is_complete (pub_file f) = pub_is_complete f
is_complete (sub_file f) = ProdFile.is_complete f

-- `createTime` of `add`: of a product without information, the time of its new file.
abbrev pub create_time : ProdInfo → ℤ → ℤ
create_time info now = if is_set info then info.creation_time else now

module _ (max_seg_size max_open : ℕ) (keep_time : ℤ) (can_map : ℕ → Bool) (can_write : Bool) where
  -- `ProdFile::save`, with the implementation's own opening of the file.
  unfoldable pub save_in : DataSeg → AnyFile → Result (Bool × AnyFile)
  save_in seg (pub_file f) = pub_save seg f >>= λ r. ok (r.0, pub_file r.1)
  save_in seg (sub_file f) =
      ProdFile.save max_seg_size (can_map f.prod_size) seg f >>= λ r. ok (r.0, sub_file r.1)

  -- `ProdFile::exists`.
  unfoldable pub exists_in : ℕ → AnyFile → Result Bool
  exists_in offset (pub_file f) = pub_exists max_seg_size offset f
  exists_in offset (sub_file f) = ProdFile.exists max_seg_size offset f

  -- `ProdFile::rename`.
  unfoldable pub rename : AnyFile → Result AnyFile
  rename (pub_file f) = raise logic_error
  rename (sub_file f) = if can_write then ok (sub_file f) else raise system_error

  -- `add` of a product that is new, at the time `now`.
  unfoldable pub add : ℤ → ProdEntry → Repo → Result Repo
  add now e r =
      let id = e.prod_info.prod_id in
      activate max_seg_size max_open keep_time can_map id e (record r {
        prod_entries = Assoc.put ℕ_discrete id e r.prod_entries;
        delete_queue =
            push_delete
              (record { delete_time = create_time e.prod_info now +ℤ keep_time; prod_id = id })
              r.delete_queue;
      })

  -- What `tryFinish` does with a product that is there.
  unfoldable pub finish : ℤ → ProdEntry → SubRepo → Result SubRepo
  finish now e s =
      let info = e.prod_info in
      let r = s.repo in
      rename e.prod_file >>= λ file.
      HashSetQueue.erase ℕ_discrete 0 info.prod_id r.open_prods >>= λ q. ok (record s {
        repo = record r {
          prod_entries =
              Assoc.put ℕ_discrete info.prod_id (record e { prod_file = close file })
                r.prod_entries;
          open_prods = q.1;
          proc_queue =
              if s.queue_prods
              then emplace info.creation_time info.prod_id r.proc_queue
              else r.proc_queue;
        };
        last_received = info.creation_time;
        total_prods = (s.total_prods + 1) % 2 ^ 64;
        total_bytes = (s.total_bytes + info.size) % 2 ^ 64;
        total_latency = (s.total_latency + to_uint64 (now -ℤ info.creation_time)) % 2 ^ 64;
      })

  unfoldable pub try_finish : ℤ → ProdEntry → SubRepo → Result SubRepo
  try_finish now e s =
      if is_set e.prod_info && is_complete e.prod_file then finish now e s else ok s

  abbrev pub with_entry : ProdId → ProdEntry → Repo → Repo
  with_entry id e r = record r { prod_entries = Assoc.put ℕ_discrete id e r.prod_entries }

  -- `tryFinish` of the entry that the map has.
  unfoldable pub finish_at : ℤ → ProdId → SubRepo → Result SubRepo
  finish_at now id s = elim (lookup ℕ_discrete id s.repo.prod_entries) [
    | none ↦ ok s
    | some e ↦ try_finish now e s
  ]

  -- `save(const ProdInfo)`.
  unfoldable pub save_info : ℤ → ProdInfo → SubRepo → Result (Bool × SubRepo)
  save_info now info s =
      get_prod_entry max_seg_size max_open keep_time can_map info.prod_id s.repo >>= λ g. elim g.0 [
        | some e ↦
            if is_set e.prod_info
            then ok (false, record s { repo = g.1 })
            else (finish_at now info.prod_id
                  (record s { repo = with_entry info.prod_id (record e { prod_info = info }) g.1 })
                >>= λ t. ok (true, t))
        | none ↦ do
          file ← sub_prod_file max_seg_size can_write info.size
          added ← add now (record { prod_info = info; prod_file = sub_file file }) g.1
          t ← finish_at now info.prod_id (record s { repo = added })
          ok (true, t)
      ]

  -- `save(const DataSeg)`.
  unfoldable pub save_seg : ℤ → DataSeg → SubRepo → Result (Bool × SubRepo)
  save_seg now seg s =
      let id = seg.seg_id.prod_id in
      get_prod_entry max_seg_size max_open keep_time can_map id s.repo >>= λ g. elim g.0 [
        | some e ↦ save_in seg e.prod_file >>= λ saved.
            let t = record s { repo = with_entry id (record e { prod_file = saved.1 }) g.1 } in
            if saved.0 then (finish_at now id t >>= λ u. ok (true, u)) else ok (false, t)
        | none ↦ do
          file ← sub_prod_file max_seg_size can_write seg.prod_size
          saved ← save_in seg (sub_file file)
          added ← add now (record { prod_info = unknown_info id; prod_file = saved.1 }) g.1
          ok (true, record s { repo = added })
      ]

  -- `exists(const ProdId)` and `exists(const DataSegId)`.
  unfoldable pub exists : ProdId → SubRepo → Result (Bool × SubRepo)
  exists id s = get_prod_entry max_seg_size max_open keep_time can_map id s.repo >>= λ g.
      ok (elim g.0 [ none ↦ false | some e ↦ is_set e.prod_info ], record s { repo = g.1 })

  unfoldable pub exists_seg : DataSegId → SubRepo → Result (Bool × SubRepo)
  exists_seg id s =
      get_prod_entry max_seg_size max_open keep_time can_map id.prod_id s.repo >>= λ g. elim g.0 [
        | none ↦ ok (false, record s { repo = g.1 })
        | some e ↦ exists_in id.offset e.prod_file >>= λ b. ok (b, record s { repo = g.1 })
      ]
