-- ===== src/Tracker.antt =====
-- main/p2p/Tracker.cpp: which P2P servers are known, and in which order they are tried. Assertions
-- are compiled in: `LOG_ASSERT` aborts (`assertion_failed`). A call holds the mutex throughout, so
-- that calls come one after the other. That later calls rethrow an exception of the delay thread
-- (`threadEx`) is not modelled.
pub mod Service
pub mod Wire
pub mod Order
pub mod Queue
pub mod Stable
pub mod Capacity
pub mod Add
pub mod Calls
pub mod Drained
use bicast.Base.{
  ℕ, ◌%◌, ◌^◌, List, [], ◌∷◌, length, ltb, ◌==◌, if◌then◌else◌, not, ◌&&◌, Bool, true, false,
  Option, none, some,
}
use bicast.Base.Int.{ℤ, ltb_ℤ}
use bicast.Base.Result.{Result, ok, raise, ◌>>=◌, ◌>>◌, assertion_failed, invalid_argument}
use bicast.Base.Assoc
use bicast.Base.Assoc.{lookup}
use bicast.Inet.{SockAddr, less}
use bicast.SrvrInfo.{SrvrInfo, SockAddr-discrete, valid_metrics}

pub record DelayElt : Type 0 where
  pub srvr_addr : SockAddr
  pub reveal_time : ℤ

abbrev pub Infos : Type 0
Infos = List (SockAddr × SrvrInfo)

-- `srvr_queue` is in the order of `QueueComp`. `delay_queue` has the top of the priority queue
-- first; elements of the same time are in the order of their arrival, which the standard leaves open.
pub record Tracker : Type 0 where
  pub srvr_infos : Infos
  pub srvr_queue : List SockAddr
  pub delay_queue : List DelayElt
  pub capacity : ℕ
  pub done : Bool
  pub delay : ℤ

abbrev pub equal_ℤ : ℤ → ℤ → Bool
equal_ℤ a b = not (ltb_ℤ a b) && not (ltb_ℤ b a)

-- `QueueComp::operator()` of two servers with their information.
unfoldable pub goes_before : SockAddr → SrvrInfo → SockAddr → SrvrInfo → Bool
goes_before a i b j =
    if valid_metrics i && not (valid_metrics j)
    then true
    else if not (valid_metrics i) && valid_metrics j
    then false
    else if not (equal_ℤ i.tier j.tier)
    then ltb_ℤ i.tier j.tier
    else if not (equal_ℤ i.num_avail j.num_avail)
    then ltb_ℤ j.num_avail i.num_avail
    else if not (equal_ℤ i.valid j.valid)
    then ltb_ℤ j.valid i.valid
    else less a b

-- What `std::set` finds out by `comp(a, b)` and `comp(b, a)`.
pub data Ordering : Type 0 where
  before same after : Ordering

abbrev ordering : Bool → Bool → Ordering
ordering true _ = before
ordering false true = after
ordering false false = same

unfoldable pub compare : Infos → SockAddr → SockAddr → Result Ordering
compare infos a b = elim (lookup SockAddr-discrete a infos) [
  | none ↦ raise assertion_failed
  | some i ↦ elim (lookup SockAddr-discrete b infos) [
    | none ↦ raise assertion_failed
    | some j ↦ ok (ordering (goes_before a i b j) (goes_before b j a i))
  ]
]

-- `insert`, `erase` and `count` of the `std::set`.
unfoldable pub insert_queue : Infos → SockAddr → List SockAddr → Result (List SockAddr)
insert_queue infos a [] = ok (a ∷ [])
insert_queue infos a (b ∷ q) = compare infos a b >>= λ o. elim o [
  | before ↦ ok (a ∷ b ∷ q)
  | same ↦ ok (b ∷ q)
  | after ↦ do rest ← insert_queue infos a q; ok (b ∷ rest)
]

unfoldable pub erase_queue : Infos → SockAddr → List SockAddr → Result (List SockAddr)
erase_queue infos a [] = ok []
erase_queue infos a (b ∷ q) = compare infos a b >>= λ o. elim o [
  | before ↦ ok (b ∷ q)
  | same ↦ ok q
  | after ↦ do rest ← erase_queue infos a q; ok (b ∷ rest)
]

unfoldable pub count_queue : Infos → SockAddr → List SockAddr → Result Bool
count_queue infos a [] = ok false
count_queue infos a (b ∷ q) = compare infos a b >>= λ o. elim o [
  | before ↦ ok false
  | same ↦ ok true
  | after ↦ count_queue infos a q
]

-- `assertInvariant`.
unfoldable pub all_known : Infos → List SockAddr → Bool
all_known infos [] = true
all_known infos (a ∷ q) = Assoc.has SockAddr-discrete a infos && all_known infos q

abbrev pub assert_that : Bool → Result (Unit {0})
assert_that true = ok tt
assert_that false = raise assertion_failed

-- `Impl(capacity, delay)`; the member `capacity` has 32 bits.
unfoldable pub new : ℕ → ℤ → Result Tracker
new capacity delay =
    if capacity == 0
    then raise invalid_argument
    else ok (record {
      srvr_infos = [];
      srvr_queue = [];
      delay_queue = [];
      capacity = capacity % 2 ^ 32;
      done = false;
      delay = delay;
    })

unfoldable pub remove : SockAddr → Tracker → Result Tracker
remove a t = do
  q ← erase_queue t.srvr_infos a t.srvr_queue
  ok (record t { srvr_infos = Assoc.erase SockAddr-discrete a t.srvr_infos; srvr_queue = q })

-- The queue without a server that is known, with which `update` begins.
unfoldable pub dequeued : SockAddr → Tracker → Result (List SockAddr)
dequeued a t =
    if Assoc.has SockAddr-discrete a t.srvr_infos
    then erase_queue t.srvr_infos a t.srvr_queue
    else ok t.srvr_queue

unfoldable pub update : SrvrInfo → Tracker → Result Tracker
update i t = do
  q ← dequeued i.srvr_addr t
  let infos = Assoc.put SockAddr-discrete i.srvr_addr i t.srvr_infos
  queue ← insert_queue infos i.srvr_addr q
  ok (record t { srvr_infos = infos; srvr_queue = queue })

-- `*srvrQueue.rbegin()`.
abbrev pub last : List SockAddr → Option SockAddr
last [] = none
last (a ∷ []) = some a
last (a ∷ b ∷ q) = last (b ∷ q)

-- At capacity the worst server goes.
unfoldable pub make_room : Tracker → Result Tracker
make_room t =
    if ltb (length t.srvr_infos) t.capacity
    then ok t
    else elim (last t.srvr_queue) [ none ↦ raise assertion_failed | some worst ↦ remove worst t ]

-- Of a server that is known, newer information.
unfoldable pub renew : SrvrInfo → Tracker → Result Tracker
renew i t = count_queue t.srvr_infos i.srvr_addr t.srvr_queue >>= λ queued.
    if queued
    then update i t
    else ok (record t { srvr_infos = Assoc.put SockAddr-discrete i.srvr_addr i t.srvr_infos })

abbrev pub is_set : SockAddr → Bool
is_set none = false
is_set (some e) = true

-- The two branches of `tryAdd`, up to its last assertion.
unfoldable pub merge : SrvrInfo → Tracker → Result (Bool × Tracker)
merge i t = elim (lookup SockAddr-discrete i.srvr_addr t.srvr_infos) [
  | none ↦ do roomy ← make_room t; added ← update i roomy; ok (true, added)
  | some old ↦
      if ltb_ℤ old.valid i.valid then (renew i t >>= λ t2. ok (true, t2)) else ok (false, t)
]

unfoldable pub try_add : SrvrInfo → Tracker → Result (Bool × Tracker)
try_add i t = do
  assert_that (is_set i.srvr_addr)
  r ← merge i t
  assert_that (all_known r.1.srvr_infos r.1.srvr_queue)
  ok r

-- `insert(const Impl&)`, of another instance.
unfoldable pub insert_all : Infos → Tracker → Result Tracker
insert_all [] t = ok t
insert_all (e ∷ infos) t = do r ← try_add e.1 t; insert_all infos r.1
