-- ===== src/Inet/SockOrder.antt =====
-- The order of socket addresses (`operator<` and `operator==` of main/inet/SockAddr.cpp), by which
-- the tracker sorts and maps are keyed.
use bicast.Base.{true, none, some, ◌≡◌, ◌↔◌, refl, arith}
use bicast.Base.Result.{ok}
use bicast.Inet.{InetAddr, less_inet, Endpoint, less_endpoint, SockAddr, less, equal}
use bicast.Inet.Order.{Trichotomy, IsImpl, less_impl-Trichotomy, less_impl_trans}

abbrev pub IsInet : InetAddr → Type 0
IsInet none = Unit {0}
IsInet (some a) = IsImpl a

abbrev pub IsSock : SockAddr → Type 0
IsSock none = Unit {0}
IsSock (some a) = IsInet a.inet_addr

less_inet-Trichotomy : (a b : InetAddr) → IsInet a → IsInet b → Trichotomy less_inet a b
unfolding less_inet
less_inet-Trichotomy none none ha hb = ground arith
less_inet-Trichotomy none (some b) ha hb = ground arith
less_inet-Trichotomy (some a) none ha hb = ground arith
less_inet-Trichotomy (some a) (some b) ha hb = ground (arith, less_impl-Trichotomy a b ha hb)

less_endpoint-Trichotomy :
    (a b : Endpoint) → IsInet a.inet_addr → IsInet b.inet_addr → Trichotomy less_endpoint a b
unfolding less_endpoint
less_endpoint-Trichotomy a b ha hb =
    ground (arith, less_inet-Trichotomy a.inet_addr b.inet_addr ha hb)

-- Of two well-formed socket addresses exactly one is less than the other, or they are the same
-- and neither is.
pub less-Trichotomy : (a b : SockAddr) → IsSock a → IsSock b → Trichotomy less a b
unfolding less
less-Trichotomy none none ha hb = ground arith
less-Trichotomy none (some b) ha hb = ground arith
less-Trichotomy (some a) none ha hb = ground arith
less-Trichotomy (some a) (some b) ha hb = ground (arith, less_endpoint-Trichotomy a b ha hb)

less_inet_trans :
    (a b c : InetAddr)
    → IsInet a
    → IsInet b
    → IsInet c
    → less_inet a b ≡ true
    → less_inet b c ≡ true
    → less_inet a c ≡ true
unfolding less_inet
less_inet_trans none (some b) (some c) ha hb hc h k = refl
less_inet_trans (some a) (some b) (some c) ha hb hc h k = less_impl_trans a b c ha hb hc h k
less_inet_trans a b c ha hb hc h k = ground arith

less_endpoint_trans :
    (a b c : Endpoint)
    → IsInet a.inet_addr
    → IsInet b.inet_addr
    → IsInet c.inet_addr
    → less_endpoint a b ≡ true
    → less_endpoint b c ≡ true
    → less_endpoint a c ≡ true
unfolding less_endpoint
less_endpoint_trans a b c ha hb hc h k = ground (
  arith,
  less_inet_trans a.inet_addr b.inet_addr c.inet_addr ha hb hc,
  less_inet-Trichotomy a.inet_addr b.inet_addr ha hb,
  less_inet-Trichotomy b.inet_addr c.inet_addr hb hc,
  less_inet-Trichotomy a.inet_addr c.inet_addr ha hc,
)

-- The order of well-formed socket addresses, unset ones included, is transitive.
pub less_trans :
    (a b c : SockAddr)
    → IsSock a
    → IsSock b
    → IsSock c
    → less a b ≡ true
    → less b c ≡ true
    → less a c ≡ true
unfolding less
less_trans none (some b) (some c) ha hb hc h k = refl
less_trans (some a) (some b) (some c) ha hb hc h k = less_endpoint_trans a b c ha hb hc h k
less_trans a b c ha hb hc h k = ground arith

-- `==` of two socket addresses that are set, with well-formed Internet addresses, is true exactly
-- if they have the same Internet address and port.
pub equal_iff :
    (a b : Endpoint)
    → IsInet a.inet_addr
    → IsInet b.inet_addr
    → (equal (some a) (some b) ≡ ok true) ↔ (a ≡ b)
unfolding equal
equal_iff a b ha hb = (
  λ h. ground (arith, less_endpoint-Trichotomy a b ha hb),
  λ e. ground (arith, less_endpoint-Trichotomy a b ha hb),
)
