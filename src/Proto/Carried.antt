-- ===== src/Proto/Carried.antt =====
-- How connections carry the data of main/BicastProto.cpp.
use bicast.Base.{
  ℕ, ◌%◌, ◌^◌, ◌≤◌, ◌<◌, List, ◌++◌, length, ◌≡◌, refl, arith, lt→ltb, le→ltb, subst, ap,
}
use bicast.Base.Result.{invalid_argument}
use bicast.Base.Int.{ℤ}
use bicast.Xprt.{raise, write64, read64, pure, ◌>>=◌, hton16, to_uint64, to_int64}
use bicast.Xprt.Ints.{read16-hton16}
use bicast.Xprt.Times.{IsInt64, to_int64-to_uint64, to_uint64-lt}
use bicast.Xprt.Carries.{
  Carries, Carries-seq, Carries-then, Carries-map, write16-Carries, write32-Carries,
  write64-Carries, write_bytes-Carries,
}
use bicast.Proto.{
  DataSegId, ProdInfo, max_pdu_id, max_name_len, write_pdu_id, read_pdu_id, write_data_seg_id,
  read_data_seg_id, write_prod_info, read_prod_info, read_prod_info_from,
}
use bicast.Proto.Ids.{write_prod_id-Carries}

-- A PDU ID up to the largest known one is carried by a connection; a connection that is lost
-- before the last byte is reported as lost.
pub write_pdu_id-Carries : (v : ℕ) → v ≤ max_pdu_id → Carries (write_pdu_id v) read_pdu_id v
unfolding write_pdu_id read_pdu_id
write_pdu_id-Carries v h =
    Carries-then _ (write16-Carries v (omega arith)) (λ rest. rw (le→ltb max_pdu_id v h) refl)

-- A read of a PDU ID of 16 bits above the largest known one throws the exception of an invalid
-- argument, whatever follows it.
read_pdu_id_unknown :
    (v : ℕ) (rest : List ℕ)
    → max_pdu_id < v
    → v < 2 ^ 16
    → read_pdu_id (hton16 v ++ rest) ≡ raise invalid_argument
unfolding read_pdu_id
read_pdu_id_unknown v rest h w = rw (◌>>=◌, read16-hton16 v rest w, lt→ltb max_pdu_id v h) refl

pub write_data_seg_id-Carries :
    (s : DataSegId)
    → s.prod_id < 2 ^ 64
    → s.offset < 2 ^ 32
    → Carries (write_data_seg_id s) read_data_seg_id s
unfolding write_data_seg_id read_data_seg_id
write_data_seg_id-Carries s h w = Carries-seq _ (write_prod_id-Carries s.prod_id h) (
    Carries-map (λ offset. record { prod_id = s.prod_id; offset = offset })
      (write32-Carries s.offset w))

-- The product information that the constructor accepts, in machine words.
pub record IsWire (p : ProdInfo) : Type 0 where
  pub id : p.prod_id < 2 ^ 64
  pub short : length p.name ≤ max_name_len
  pub size : p.size < 2 ^ 32
  pub time : IsInt64 p.creation_time

-- Product information with its fields in range (an ID of 64 bits, a name of up to 4095 bytes, a
-- size of 32 bits, an `int64_t` for the time) is written as some bytes, all or none of which the
-- connection accepts; what reads these bytes, whatever follows them, is the same information, and
-- a connection that is lost before the last of them is reported as lost.
pub write_prod_info-Carries :
    (p : ProdInfo) → IsWire p → Carries (write_prod_info p) read_prod_info p
unfolding write_prod_info read_prod_info read_prod_info_from
write_prod_info-Carries p h = rw fits (
    Carries-seq _ (write_prod_id-Carries p.prod_id h.id) (
      Carries-seq _ (write16-Carries (length p.name) (omega arith)) (
        rw (le→ltb max_name_len (length p.name) h.short) (
          Carries-seq _ (write_bytes-Carries p.name)
            (Carries-seq _ (write32-Carries p.size h.size) time_part)))))
  where
    fits : length p.name % 2 ^ 16 ≡ length p.name
    fits = omega arith

    at_time : ℤ → ProdInfo
    at_time t = record p { creation_time = t }

    time_part :
        Carries
          (write64 (to_uint64 p.creation_time))
          (read64 >>= λ c. pure (at_time (to_int64 c)))
          p
    time_part =
        subst
          (Carries (write64 (to_uint64 p.creation_time))
            (read64 >>= λ c. pure (at_time (to_int64 c))))
          (ap at_time (to_int64-to_uint64 p.creation_time h.time))
          (Carries-map (λ c. at_time (to_int64 c))
            (write64-Carries (to_uint64 p.creation_time) (to_uint64-lt p.creation_time)))
