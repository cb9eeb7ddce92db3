-- ===== src/ProdFile/Pub.antt =====
-- main/repository/ProdFile.cpp: a publisher's file, whose operations are those of `ProdFile::Impl`;
-- and main/repository/Repository.cpp: the segments that are made of it.
use bicast.Base.{
  ℕ, ◌%◌, ◌^◌, List, [], ◌∷◌, length, take, drop, leb, ◌==◌, if◌then◌else◌, not, ◌||◌, Bool, true,
  false, Option, none, some,
}
use bicast.Base.Result.{Result, ok, raise, ◌>>=◌, ◌>>◌, invalid_argument, system_error, logic_error}
use bicast.Proto.{DataSegId}
use bicast.DataSeg.{DataSeg, unset, data_seg}

-- The bytes are those that the memory map holds, or will hold.
pub record PubProdFile : Type 0 where
  pub prod_size : ℕ
  pub bytes : List ℕ
  pub is_open : Bool

-- The constructor, of a file with the given content. The size is cast to a `uint32_t`, and as many
-- bytes are mapped.
unfoldable pub pub_prod_file : List ℕ → PubProdFile
pub_prod_file content =
    let n = length content % 2 ^ 32 in
    record { prod_size = n; bytes = take n content; is_open = false }

unfoldable pub open_pub : Bool → PubProdFile → Result PubProdFile
open_pub accessible f =
    if f.is_open || accessible then ok (record f { is_open = true }) else raise system_error

-- `getData()`.
unfoldable all_data : Bool → PubProdFile → Result (List ℕ × PubProdFile)
all_data accessible f = do opened ← open_pub accessible f; ok (opened.bytes, opened)

module _ (max_seg_size : ℕ) where
  unfoldable pub vet_pub : ℕ → PubProdFile → Result (Unit {0})
  vet_pub offset f =
      if leb f.prod_size offset || not (offset % max_seg_size == 0)
      then raise invalid_argument
      else ok tt

  -- `getData(offset)`: the bytes from the offset on.
  unfoldable pub data_at : Bool → ℕ → PubProdFile → Result (List ℕ × PubProdFile)
  data_at accessible offset f = do
    vet_pub offset f
    opened ← open_pub accessible f
    ok (drop offset opened.bytes, opened)

  -- `exists(offset)`.
  unfoldable pub pub_exists : ℕ → PubProdFile → Result Bool
  pub_exists offset f = do vet_pub offset f; ok true

  -- `Repository::Impl::getDataSeg`, with the file of the product's entry, if there is one.
  unfoldable pub get_data_seg :
      Bool → DataSegId → Option PubProdFile → Result (DataSeg × Option PubProdFile)
  get_data_seg accessible id none = ok (unset, none)
  get_data_seg accessible id (some f) = do
    r ← data_at accessible id.offset f
    ok (data_seg max_seg_size id f.prod_size r.0, some r.1)

  -- Requests that are answered one after the other.
  unfoldable pub answers : List DataSegId → Option PubProdFile → Result (List DataSeg)
  answers [] entry = ok []
  answers (id ∷ ids) entry = do
    r ← get_data_seg true id entry
    segs ← answers ids r.1
    ok (r.0 ∷ segs)

unfoldable pub pub_is_complete : PubProdFile → Bool
pub_is_complete f = true

unfoldable pub pub_save : DataSeg → PubProdFile → Result (Bool × PubProdFile)
pub_save seg f = raise logic_error
