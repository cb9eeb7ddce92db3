-- ===== src/Notice/Equality.antt =====
-- Equality of notices (main/p2p/Notice.cpp), by which maps find them.
use bicast.Base.{Bool, true, false, ◌≡◌, ◌↔◌, arith}
use bicast.Notice.{
  Notice, srvr_info_notice, tracker_notice, get_type, equals_prod_id, equals_data_seg_id,
  same_member, same_notice,
}

-- The notices that maps hold: all but those of servers.
abbrev pub is_key : Notice → Bool
is_key (srvr_info_notice i) = false
is_key (tracker_notice t) = false
is_key _ = true

-- `==` of two notices is true exactly if they are the same and are not about P2P servers: a
-- notice about a server or about servers is not even equal to itself.
pub same_notice_iff : (m n : Notice) → (same_notice m n ≡ true) ↔ ((m ≡ n) × (is_key m ≡ true))
unfolding same_notice same_member get_type equals_prod_id equals_data_seg_id
same_notice_iff m n = ground arith
