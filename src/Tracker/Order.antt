-- ===== src/Tracker/Order.antt =====
-- The order in which P2P servers are tried (`QueueComp` of main/p2p/Tracker.cpp).
use bicast.Base.{Bool, true, false, ◌≡◌, arith, not, ◌&&◌, ◌⊎◌, if◌then◌else◌}
use bicast.Base.Int.{ℤ, ltb_ℤ}
use bicast.Inet.{SockAddr}
use bicast.Inet.SockOrder.{IsSock, less-Trichotomy, less_trans}
use bicast.SrvrInfo.{SrvrInfo, valid_metrics}
use bicast.Tracker.{goes_before, equal_ℤ}

-- Of two servers with well-formed addresses one goes before the other by `QueueComp` and not
-- conversely, or neither does and their addresses are the same.
pub goes_before-total :
    (a b : SockAddr) (i j : SrvrInfo)
    → IsSock a
    → IsSock b
    → ((goes_before a i b j ≡ true) × (goes_before b j a i ≡ false))
      ⊎ (((goes_before a i b j ≡ false) × (goes_before b j a i ≡ true))
          ⊎ ((goes_before a i b j ≡ false) × (goes_before b j a i ≡ false) × (a ≡ b)))
unfolding goes_before
goes_before-total a b i j ha hb = ground (arith, less-Trichotomy a b ha hb)

-- One level of the comparison: by a number, upwards or downwards, and then by the levels below.
upwards :
    (x y z : ℤ) (p q r : Bool)
    → (p ≡ true → q ≡ true → r ≡ true)
    → (if not (equal_ℤ x y) then ltb_ℤ x y else p) ≡ true
    → (if not (equal_ℤ y z) then ltb_ℤ y z else q) ≡ true
    → (if not (equal_ℤ x z) then ltb_ℤ x z else r) ≡ true
upwards x y z p q r below h k = ground arith

downwards :
    (x y z : ℤ) (p q r : Bool)
    → (p ≡ true → q ≡ true → r ≡ true)
    → (if not (equal_ℤ x y) then ltb_ℤ y x else p) ≡ true
    → (if not (equal_ℤ y z) then ltb_ℤ z y else q) ≡ true
    → (if not (equal_ℤ x z) then ltb_ℤ z x else r) ≡ true
downwards x y z p q r below h k = ground arith

abbrev by_metrics : Bool → Bool → Bool → Bool
by_metrics u v p = if u && not v then true else if not u && v then false else p

metrics_first :
    (u v w p q r : Bool)
    → (p ≡ true → q ≡ true → r ≡ true)
    → by_metrics u v p ≡ true
    → by_metrics v w q ≡ true
    → by_metrics u w r ≡ true
metrics_first u v w p q r below h k = ground arith

-- `QueueComp` is transitive on servers with well-formed addresses, whatever their tiers, numbers
-- and times are.
pub goes_before_trans :
    (a b c : SockAddr) (i j k : SrvrInfo)
    → IsSock a
    → IsSock b
    → IsSock c
    → goes_before a i b j ≡ true
    → goes_before b j c k ≡ true
    → goes_before a i c k ≡ true
unfolding goes_before
goes_before_trans a b c i j k ha hb hc =
    metrics_first (valid_metrics i) (valid_metrics j) (valid_metrics k) _ _ _ (
      upwards i.tier j.tier k.tier _ _ _ (
        downwards i.num_avail j.num_avail k.num_avail _ _ _
          (downwards i.valid j.valid k.valid _ _ _ (less_trans a b c ha hb hc))))
