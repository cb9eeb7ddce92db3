-- ===== src/DataSeg.antt =====
-- main/p2p/DataSeg.cpp: the segments that a product's data is sent in. `RunPar::maxSegSize`, a
-- `uint16_t` of the configuration, is the parameter `max_seg_size`; `ProdSize` is a `uint32_t`.
pub mod Geometry
pub mod Carried
use bicast.Base.{
  ℕ, ◌+◌, ◌-◌, ◌/◌, ◌%◌, ◌^◌, List, [], ◌++◌, take, drop, leb, ltb, ◌==◌, if◌then◌else◌, ◌&&◌, not,
  Bool, true, false, Option, none, some,
}
use bicast.Xprt.{Write, ◌then_write◌, Read, ◌>>=◌, pure, write_bytes, read_bytes, write32, read32}
use bicast.Proto.{DataSegId, same_bytes, write_data_seg_id, read_data_seg_id}

-- `DataSeg::Impl`. The buffer is `none` for a null pointer.
pub record DataSeg : Type 0 where
  pub seg_id : DataSegId
  pub prod_size : ℕ
  pub buf_size : ℕ
  pub buf : Option (List ℕ)

abbrev pub unset : DataSeg
unset = record {
  seg_id = record { prod_id = 0; offset = 0 };
  prod_size = 0;
  buf_size = 0;
  buf = none;
}

-- `operator bool`.
unfoldable pub is_set : DataSeg → Bool
is_set s = elim s.buf [ none ↦ false | some _ ↦ true ]

-- What the buffer holds.
abbrev pub contents : Option (List ℕ) → List ℕ
contents none = []
contents (some bytes) = bytes

module _ (max_seg_size : ℕ) where
  -- `size`. The subtraction is of `uint32_t`s.
  unfoldable pub size : ℕ → ℕ → ℕ
  size prod_size offset =
      let nbytes = (prod_size + 2 ^ 32 - offset) % 2 ^ 32 in
      if leb nbytes max_seg_size then nbytes else max_seg_size

  -- `numSegs`. The sum is of `uint32_t`s.
  unfoldable pub num_segs : ℕ → ℕ
  num_segs prod_size = (prod_size + (max_seg_size - 1)) % 2 ^ 32 / max_seg_size

  -- `getSegIndex`.
  unfoldable pub seg_index : ℕ → ℕ
  seg_index offset = offset / max_seg_size

  -- The constructor, which copies `size` bytes of the data.
  unfoldable pub data_seg : DataSegId → ℕ → List ℕ → DataSeg
  data_seg seg_id prod_size bytes =
      let n = size prod_size seg_id.offset in
      record { seg_id = seg_id; prod_size = prod_size; buf_size = n; buf = some (take n bytes) }

  -- `getSize`, and the bytes that a segment stands for.
  unfoldable pub get_size : DataSeg → ℕ
  get_size s = size s.prod_size s.seg_id.offset

  abbrev pub payload : DataSeg → List ℕ
  payload s = take (get_size s) (contents s.buf)

  -- `operator==` of two instances.
  unfoldable pub same_data_seg : DataSeg → DataSeg → Bool
  same_data_seg s t =
      if not (is_set s) && not (is_set t)
      then true
      else if not (is_set s)
      then false
      else if not (is_set t)
      then false
      else s.prod_size == t.prod_size
        && (s.seg_id.prod_id == t.seg_id.prod_id
            && s.seg_id.offset == t.seg_id.offset
            && same_bytes (take (get_size s) (contents s.buf)) (take (get_size s) (contents t.buf)))

  unfoldable pub write_data_seg : DataSeg → Write
  write_data_seg s =
      write_data_seg_id s.seg_id then_write write32 s.prod_size then_write write_bytes (payload s)

  -- The buffer is made anew if it is too small; the bytes that come overwrite the first ones.
  unfoldable pub store : DataSeg → DataSegId → ℕ → List ℕ → DataSeg
  store d seg_id prod_size bytes =
      let n = size prod_size seg_id.offset in
      if ltb d.buf_size n
      then record { seg_id = seg_id; prod_size = prod_size; buf_size = n; buf = some bytes }
      else record d {
        seg_id = seg_id;
        prod_size = prod_size;
        buf = elim d.buf [ none ↦ none | some old ↦ some (bytes ++ drop n old) ];
      }

  -- `read` into an instance.
  unfoldable pub read_data_seg : DataSeg → Read DataSeg
  read_data_seg d = do
    seg_id ← read_data_seg_id
    prod_size ← read32
    bytes ← read_bytes (size prod_size seg_id.offset)
    pure (store d seg_id prod_size bytes)
