-- ===== src/SrvrInfo/Carried.antt =====
-- Information on a P2P server through a connection.
use bicast.Inet.{Impl, SockAddr}
use bicast.Base.{ℕ, some, subst, ◌^◌, ◌<◌, ◌≡◌, arith}
use bicast.Base.Int.{ℤ, pos, negsuc}
use bicast.Inet.Carried.{IsWireSock, write_sock-Delivers}
use bicast.SrvrInfo.{SrvrInfo, to_uint16, to_int16, write_srvr_info, read_srvr_info}
use bicast.Xprt.Carries.{write16-Carries, write_time-Carries}
use bicast.Xprt.Times.{IsInt64, whole_usecs}
use bicast.Xprt.Delivers.{Delivers, Carries-Delivers, Delivers-seq, Delivers-map}

-- An `int16_t`.
abbrev pub IsInt16 : ℤ → Type 0
IsInt16 (pos n) = n < 2 ^ 15
IsInt16 (negsuc n) = n < 2 ^ 15

to_int16-to_uint16 : (v : ℤ) → IsInt16 v → to_int16 (to_uint16 v) ≡ v
unfolding to_int16 to_uint16
to_int16-to_uint16 (pos n) h = ground arith
to_int16-to_uint16 (negsuc n) h = ground arith

to_uint16-lt : (v : ℤ) → to_uint16 v < 2 ^ 16
unfolding to_uint16
to_uint16-lt (pos n) = omega arith
to_uint16-lt (negsuc n) = omega arith

-- What a connection can carry.
pub record IsWire (inet : Impl) (port : ℕ) (tier num_avail valid : ℤ) : Type 0 where
  pub addr_wire : IsWireSock inet port
  pub tier_wire : IsInt16 tier
  pub num_avail_wire : IsInt16 num_avail
  pub valid_wire : IsInt64 valid

-- The information on a server with an address and a port.
abbrev pub srvr_at : Impl → ℕ → ℤ → ℤ → ℤ → SrvrInfo
srvr_at inet port tier num_avail valid = record {
  valid = valid;
  srvr_addr = some (record { inet_addr = some inet; port = port });
  tier = tier;
  num_avail = num_avail;
}

-- Information on a server with a set address of a size that its class allows, with an `int16_t`
-- for the tier and the number, and an `int64_t` for the time, is written as some bytes, all or
-- none of which the connection accepts, and from these, whatever follows them, is read as it was,
-- its time without the part below a microsecond.
pub write_srvr_info-Delivers :
    (inet : Impl) (port : ℕ) (tier num_avail valid : ℤ)
    → IsWire inet port tier num_avail valid
    → Delivers
        (write_srvr_info (srvr_at inet port tier num_avail valid))
        read_srvr_info
        (srvr_at inet port tier num_avail (whole_usecs valid))
unfolding write_srvr_info read_srvr_info
write_srvr_info-Delivers inet port tier num_avail valid h =
    let addr : SockAddr = some (record { inet_addr = some inet; port = port }) in
    let make : ℤ → ℤ → ℤ → SrvrInfo =
      λ t n v. record { valid = v; srvr_addr = addr; tier = t; num_avail = n } in
    let sent_tier = to_uint16 tier in
    let sent_num = to_uint16 num_avail in
    let d : Delivers (write_srvr_info (srvr_at inet port tier num_avail valid)) read_srvr_info
        (make (to_int16 sent_tier) (to_int16 sent_num) (whole_usecs valid)) =
      let c = Delivers-seq _ (write_sock-Delivers inet port h.addr_wire) (
        Delivers-seq _ (Carries-Delivers (write16-Carries sent_tier (to_uint16-lt tier))) (
          Delivers-seq _ (Carries-Delivers (write16-Carries sent_num (to_uint16-lt num_avail))) (
            Delivers-map (make (to_int16 sent_tier) (to_int16 sent_num))
              (Carries-Delivers (write_time-Carries valid h.valid_wire))))) in
      record { bytes = c.bytes; sends = c.sends; reads = c.reads } in
    subst
      (λ t.
        Delivers (write_srvr_info (srvr_at inet port tier num_avail valid)) read_srvr_info
          (make t num_avail (whole_usecs valid)))
      (to_int16-to_uint16 tier h.tier_wire)
      (subst
        (λ n.
          Delivers (write_srvr_info (srvr_at inet port tier num_avail valid)) read_srvr_info
            (make (to_int16 sent_tier) n (whole_usecs valid)))
        (to_int16-to_uint16 num_avail h.num_avail_wire) d)
