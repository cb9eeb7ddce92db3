-- ===== src/Proto.antt =====
-- main/BicastProto.h and main/BicastProto.cpp: the data that goes through connections.
-- A string is the list of its bytes, and a `ProdId` is its `id`.
pub mod Carried
pub mod Ids
use bicast.Base.{
  ℕ, zero, suc, ◌+◌, ◌-◌, ◌%◌, ◌^◌, List, [], ◌∷◌, length, ltb, leb, ◌==◌, if◌then◌else◌, ite, not,
  Bool, true, false, ◌&&◌, Option, none, some, ℕ_discrete, ◌≡◌, arith,
}
use Prim.Native.Nat.{bit_xor}
use bicast.Base.Result.{
  Error, Result, invalid_argument, runtime_error, logic_error, assertion_failed,
}
use bicast.Base.Sets.{contains, insert, erase}
use bicast.Base.Int.{ℤ}
use bicast.Xprt.{
  Io, ok, lost, raise, Out, Write, ◌then_write◌, Read, ◌>>=◌, pure, fail, write_bytes, read_bytes,
  write16, read16, write32, read32, write64, read64, to_uint64, to_int64,
}

-- `PduId::MAX_PDU_ID`, which is `HEARTBEAT`.
abbrev pub max_pdu_id : ℕ
max_pdu_id = 11

-- `PduId::PduId(Type)`.
unfoldable pub pdu_id : ℕ → Result ℕ
pdu_id value = if ltb max_pdu_id value then Result.raise invalid_argument else Result.ok value

unfoldable pub write_pdu_id : ℕ → Write
write_pdu_id value = write16 value

unfoldable pub read_pdu_id : Read ℕ
read_pdu_id = do value ← read16; if ltb max_pdu_id value then fail invalid_argument else pure value

abbrev pub ProdId : Type 0
ProdId = ℕ

-- `ProdId::ProdId(const String&)`. SHA-256 is OpenSSL's: the four words of a digest, or a failure.
unfoldable pub prod_id : (List ℕ → Option (ℕ × ℕ × ℕ × ℕ)) → List ℕ → Result ProdId
prod_id sha256 name = elim (sha256 name) [
  | none ↦ Result.raise runtime_error
  | some (a, b, c, d) ↦ Result.ok (bit_xor (bit_xor (bit_xor a b) c) d)
]

unfoldable pub write_prod_id : ProdId → Write
write_prod_id id = write64 id

unfoldable pub read_prod_id : Read ProdId
read_prod_id = read64

pub record DataSegId : Type 0 where
  pub prod_id : ProdId
  pub offset : ℕ

unfoldable pub DataSegId-discrete : Discrete DataSegId
DataSegId-discrete = hlevel ℕ_discrete

unfoldable pub write_data_seg_id : DataSegId → Write
write_data_seg_id s = write_prod_id s.prod_id then_write write32 s.offset

unfoldable pub read_data_seg_id : Read DataSegId
read_data_seg_id = do
  prod_id ← read_prod_id
  offset ← read32
  pure (record { prod_id = prod_id; offset = offset })

-- `ProdInfo::Impl`.
pub record ProdInfo : Type 0 where
  pub prod_id : ProdId
  pub name : List ℕ
  pub size : ℕ
  pub creation_time : ℤ

-- `PATH_MAX - 1`.
abbrev pub max_name_len : ℕ
max_name_len = 4095

-- The constructor with a product's ID.
unfoldable pub prod_info : ProdId → List ℕ → ℕ → ℤ → Result ProdInfo
prod_info id name size create_time =
    if ltb max_name_len (length name)
    then Result.raise invalid_argument
    else Result.ok (record { prod_id = id; name = name; size = size; creation_time = create_time })

-- The constructor without one.
unfoldable pub named_prod_info :
    (List ℕ → Option (ℕ × ℕ × ℕ × ℕ)) → List ℕ → ℕ → ℤ → Result ProdInfo
named_prod_info sha256 name size create_time = elim (prod_id sha256 name) [
  | Result.ok id ↦ prod_info id name size create_time
  | Result.raise e ↦ Result.raise e
]

-- `operator bool`.
unfoldable pub is_set : ProdInfo → Bool
is_set p = ltb 0 (length p.name)

unfoldable pub same_bytes : List ℕ → List ℕ → Bool
same_bytes [] [] = true
same_bytes (x ∷ xs) (y ∷ ys) = x == y && same_bytes xs ys
same_bytes _ _ = false

-- `operator==`, which ignores the time of creation.
unfoldable same_prod_info : ProdInfo → ProdInfo → Bool
unfolding same_bytes
same_prod_info p q = p.prod_id == q.prod_id && (same_bytes p.name q.name && p.size == q.size)

unfoldable pub write_prod_info : ProdInfo → Write
write_prod_info p =
    write_prod_id p.prod_id
    then_write write16 (length p.name % 2 ^ 16)
    then_write write_bytes p.name
    then_write write32 p.size
    then_write write64 (to_uint64 p.creation_time)

-- What follows the length of the name.
unfoldable pub read_prod_info_from : ProdId → ℕ → Read ProdInfo
read_prod_info_from id nbytes = do
  name ← read_bytes nbytes
  size ← read32
  count ← read64
  pure (record { prod_id = id; name = name; size = size; creation_time = to_int64 count })

unfoldable pub read_prod_info : Read ProdInfo
read_prod_info = do
  id ← read_prod_id
  nbytes ← read16
  if ltb max_name_len nbytes then fail runtime_error else read_prod_info_from id nbytes

-- `ProdIdSet`.
abbrev pub ProdIdSet : Type 0
ProdIdSet = List ProdId

unfoldable pub subtract : ProdIdSet → ProdIdSet → ProdIdSet
subtract ids [] = ids
subtract ids (r ∷ rhs) = subtract (erase ℕ_discrete r ids) rhs

-- The loop of `write`, which counts `size` down, and the assertion behind it.
unfoldable pub write_ids : ProdIdSet → ℕ → Write
write_ids [] size o = if size == 0 then ok o else raise assertion_failed
write_ids (id ∷ ids) size o =
    (write_prod_id id then_write write_ids ids ((size + 2 ^ 32 - 1) % 2 ^ 32)) o

unfoldable pub write_prod_id_set : ProdIdSet → Write
write_prod_id_set ids = let size = length ids % 2 ^ 32 in write32 size then_write write_ids ids size

-- The loop of `read`, `size` rounds.
unfoldable pub read_ids : ℕ → ProdIdSet → Read ProdIdSet
read_ids zero ids = pure ids
read_ids (suc size) ids = do id ← read_prod_id; read_ids size (insert ℕ_discrete id ids)

unfoldable pub read_prod_id_set : Read ProdIdSet
read_prod_id_set = do size ← read32; read_ids size []
