-- ===== src/SrvrInfo.antt =====
-- main/p2p/P2pSrvrInfo.h and .cpp: what is known of a P2P server.
pub mod Carried
use bicast.Base.{ℕ, ◌-◌, ◌%◌, ◌^◌, ltb, ◌&&◌, Bool, true, false, if◌then◌else◌, ℕ_discrete}
use bicast.Base.Int.{ℤ, pos, negsuc, ◌+ℤ◌}
use bicast.Inet.{SockAddr, write_sock, read_sock}
use bicast.Xprt.{Write, Read, ◌then_write◌, ◌>>=◌, pure, write16, read16, write_time, read_time}

unfoldable pub SockAddr-discrete : Discrete SockAddr
SockAddr-discrete = hlevel ℕ_discrete

-- `P2pSrvrInfo`. `Tier` and `NumAvail` are `int16_t`.
pub record SrvrInfo : Type 0 where
  pub valid : ℤ
  pub srvr_addr : SockAddr
  pub tier : ℤ
  pub num_avail : ℤ

abbrev is_natural : ℤ → Bool
is_natural (pos n) = true
is_natural (negsuc n) = false

unfoldable pub valid_metrics : SrvrInfo → Bool
valid_metrics i = is_natural i.tier && is_natural i.num_avail

-- `static_cast` between `int16_t` and `uint16_t`.
unfoldable pub to_uint16 : ℤ → ℕ
to_uint16 (pos n) = n % 2 ^ 16
to_uint16 (negsuc n) = 2 ^ 16 - 1 - n % 2 ^ 16

unfoldable pub to_int16 : ℕ → ℤ
to_int16 v = if ltb v (2 ^ 15) then pos v else negsuc (2 ^ 16 - 1 - v)

unfoldable pub get_rmt_tier : SrvrInfo → ℤ
get_rmt_tier i = if is_natural i.tier then to_int16 (to_uint16 (i.tier +ℤ pos 1)) else negsuc 0

unfoldable pub write_srvr_info : SrvrInfo → Write
write_srvr_info i =
    write_sock i.srvr_addr
    then_write write16 (to_uint16 i.tier)
    then_write write16 (to_uint16 i.num_avail)
    then_write write_time i.valid

unfoldable pub read_srvr_info : Read SrvrInfo
read_srvr_info = do
  srvr_addr ← read_sock
  tier ← read16
  num_avail ← read16
  valid ← read_time
  pure (record {
    valid = valid;
    srvr_addr = srvr_addr;
    tier = to_int16 tier;
    num_avail = to_int16 num_avail;
  })
