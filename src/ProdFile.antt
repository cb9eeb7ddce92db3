-- ===== src/ProdFile.antt =====
-- main/repository/ProdFile.cpp: the file of a product that a subscriber receives in segments.
-- The file is what its memory map holds. Whether `open` and `mmap` succeed is the argument
-- `accessible`. `maxSegSize`, the parameter `max_seg_size`, is not 0.
pub mod Overwrite
pub mod Agrees
pub mod Saved
pub mod Runs
pub mod Pub
pub mod Published
use bicast.Base.{
  ℕ, zero, suc, ◌+◌, ◌%◌, ◌^◌, List, [], ◌∷◌, get_elem?, set, replicate, drop, leb, ◌==◌,
  if◌then◌else◌, not, ◌||◌, Bool, true, false, none, some,
}
use bicast.Base.Result.{
  Result, ok, raise, ◌>>=◌, ◌>>◌, invalid_argument, system_error, undefined, logic_error,
}
use bicast.DataSeg.{DataSeg, size, num_segs, seg_index, get_size, payload}

-- `SubProdFile`, with the members of `ProdFile::Impl`.
pub record SubProdFile : Type 0 where
  pub prod_size : ℕ
  pub num_segs : ℕ
  pub is_open : Bool
  pub bytes : List ℕ
  pub have_segs : List Bool
  pub seg_count : ℕ

-- `memcpy` to an offset of the map, whose size does not change.
unfoldable pub overwrite : ℕ → List ℕ → List ℕ → List ℕ
overwrite zero [] map = map
overwrite zero (b ∷ bs) [] = []
overwrite zero (b ∷ bs) (x ∷ map) = b ∷ overwrite zero bs map
overwrite (suc o) bs [] = []
overwrite (suc o) bs (x ∷ map) = x ∷ overwrite o bs map

-- `ensureAccess` and `disableAccess`.
unfoldable pub ensure_access : Bool → SubProdFile → Result SubProdFile
ensure_access accessible f =
    if f.is_open || accessible then ok (record f { is_open = true }) else raise system_error

unfoldable pub disable_access : SubProdFile → SubProdFile
disable_access f = record f { is_open = false }

module _ (max_seg_size : ℕ) where
  -- `vet`.
  unfoldable pub vet : ℕ → SubProdFile → Result (Unit {0})
  vet offset f =
      if leb f.prod_size offset || not (offset % max_seg_size == 0)
      then raise invalid_argument
      else ok tt

  -- The constructor: the file has the product's size and is filled with zeros.
  unfoldable pub sub_prod_file : Bool → ℕ → Result SubProdFile
  sub_prod_file creatable prod_size =
      if creatable
      then ok (record {
        prod_size = prod_size;
        num_segs = num_segs max_seg_size prod_size;
        is_open = false;
        bytes = replicate prod_size 0;
        have_segs = replicate (num_segs max_seg_size prod_size) false;
        seg_count = 0;
      })
      else raise system_error

  -- `haveSegs[i]`, which has no meaning beyond the end.
  unfoldable pub have_seg : ℕ → SubProdFile → Result Bool
  have_seg i f = elim (get_elem? f.have_segs i) [ none ↦ raise undefined | some have ↦ ok have ]

  unfoldable pub exists : ℕ → SubProdFile → Result Bool
  exists offset f = do vet offset f; have_seg (seg_index max_seg_size offset) f

  -- What `save` does with a segment that is needed.
  unfoldable pub store_seg : DataSeg → SubProdFile → SubProdFile
  store_seg seg f = record f {
    bytes = overwrite seg.seg_id.offset (payload max_seg_size seg) f.bytes;
    have_segs = set f.have_segs (seg_index max_seg_size seg.seg_id.offset) true;
    seg_count = (f.seg_count + 1) % 2 ^ 32;
  }

  unfoldable pub keep_or_store : Bool → DataSeg → SubProdFile → Bool → Result (Bool × SubProdFile)
  keep_or_store accessible seg f true = ok (false, f)
  keep_or_store accessible seg f false = do
    opened ← ensure_access accessible f
    ok (true, store_seg seg opened)

  unfoldable pub vet_size : DataSeg → SubProdFile → Result (Unit {0})
  vet_size seg f =
      if get_size max_seg_size seg == size max_seg_size f.prod_size seg.seg_id.offset
      then ok tt
      else raise invalid_argument

  unfoldable pub save : Bool → DataSeg → SubProdFile → Result (Bool × SubProdFile)
  save accessible seg f = do
    vet seg.seg_id.offset f
    vet_size seg f
    have ← have_seg (seg_index max_seg_size seg.seg_id.offset) f
    keep_or_store accessible seg f have

  -- `getData(offset)`: the bytes from the offset on, with the file that is then open.
  unfoldable pub get_data : Bool → ℕ → SubProdFile → Result (List ℕ × SubProdFile)
  get_data accessible offset f = do
    vet offset f
    opened ← ensure_access accessible f
    ok (drop offset opened.bytes, opened)

unfoldable pub is_complete : SubProdFile → Bool
is_complete f = f.seg_count == f.num_segs
