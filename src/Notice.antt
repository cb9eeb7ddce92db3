-- ===== src/Notice.antt =====
-- main/p2p/Notice.h and Notice.cpp: what a peer announces or asks for. An object is its value: copies
-- and assignments, which rebuild the member of the union, are the identity.
pub mod Equality
use bicast.Base.{ℕ, ◌==◌, ◌&&◌, not, if◌then◌else◌, Bool, true, false}
use Prim.Native.Nat.{bit_xor}
use bicast.Proto.{ProdId, DataSegId}
use bicast.SrvrInfo.{SrvrInfo}
use bicast.Tracker.{Tracker}

-- The tag with the member of the union that it stands for.
pub data Notice : Type 0 where
  unset_notice : Notice
  srvr_info_notice : SrvrInfo → Notice
  tracker_notice : Tracker → Notice
  prod_id_notice : ProdId → Notice
  data_seg_id_notice : DataSegId → Notice
  heartbeat : Notice

-- `Notice::Id` as its number.
unfoldable pub get_type : Notice → ℕ
get_type unset_notice = 0
get_type (srvr_info_notice i) = 1
get_type (tracker_notice t) = 2
get_type (prod_id_notice id) = 3
get_type (data_seg_id_notice s) = 4
get_type heartbeat = 5

-- `DataSegId::operator==`.
abbrev same_data_seg_id : DataSegId → DataSegId → Bool
same_data_seg_id s t = s.prod_id == t.prod_id && s.offset == t.offset

-- `equals`.
unfoldable pub equals_prod_id : Notice → ProdId → Bool
equals_prod_id (prod_id_notice id) prod_id = id == prod_id
equals_prod_id _ prod_id = false

unfoldable pub equals_data_seg_id : Notice → DataSegId → Bool
equals_data_seg_id (data_seg_id_notice s) seg_id = same_data_seg_id s seg_id
equals_data_seg_id _ seg_id = false

-- `operator bool`.
unfoldable pub is_set : Notice → Bool
is_set n = not (get_type n == 0)

-- The members compared by `operator==`, once the tags are the same.
unfoldable pub same_member : Notice → Notice → Bool
same_member unset_notice n = true
same_member (prod_id_notice id) n = equals_prod_id n id
same_member (data_seg_id_notice s) n = equals_data_seg_id n s
same_member heartbeat n = true
same_member _ n = false

unfoldable pub same_notice : Notice → Notice → Bool
same_notice m n = get_type m == get_type n && same_member m n

-- `hash`; `off_hash` is `std::hash` of an offset.
unfoldable pub hash : (ℕ → ℕ) → Notice → ℕ
hash off_hash (prod_id_notice id) = id
hash off_hash (data_seg_id_notice s) = bit_xor s.prod_id (off_hash s.offset)
hash off_hash _ = 0
