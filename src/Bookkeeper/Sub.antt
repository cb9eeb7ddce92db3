-- ===== src/Bookkeeper/Sub.antt =====
-- `SubBookkeeper` of main/p2p/Bookkeeper.cpp.
pub mod Requests
pub mod Alternatives
pub mod Worst
pub mod Stale
use bicast.Base.{
  ℕ, ◌+◌, ◌-◌, ◌*◌, ◌%◌, ◌^◌, List, [], ◌∷◌, ◌++◌, map, ltb, ◌==◌, if◌then◌else◌, ite, not, ◌&&◌,
  ◌||◌, Bool, true, false, Option, none, some,
}
use bicast.Base.Result.{Result, ok, raise, ◌>>=◌, ◌>>◌, logic_error, out_of_range}
use bicast.Base.Assoc
use bicast.Base.Assoc.{lookup}
use bicast.Base.Sets

-- `Rating` is `uint_fast32_t`, which has 64 bits.
pub record PeerInfo (N : Type 0) : Type 0 where
  pub rating : ℕ
  pub notices : List N
  pub is_client : Bool

pub record Peers (A : Type 0) : Type 0 where
  pub set : List A
  pub list : List A

pub record Book (A N : Type 0) : Type 0 where
  pub peer_to_info : List (A × PeerInfo N)
  pub notice_to_peers : List (N × Peers A)

abbrev no_peers : {A : Type 0} → Peers A
no_peers = record { set = []; list = [] }

-- The constructor.
unfoldable pub new : {A N : Type 0} → Book A N
new = record { peer_to_info = []; notice_to_peers = [] }

-- `peers`, or the value that `operator[]` makes.
abbrev pub peers_or_new : {A : Type 0} → Option (Peers A) → Peers A
peers_or_new none = no_peers
peers_or_new (some p) = p

-- `NoticeSet::erase`. `std::set<Notice>` sorts by `<`, which two notices have only through their
-- conversion to `bool`: all set notices are equivalent, and are erased together.
unfoldable pub erase_equivalent : {N : Type 0} → N → List N → List N
erase_equivalent n notices = []

-- The fold of `getWorstPeer`: the least rating so far, whose it is, and whether a rating is not 0.
pub record Scan (A : Type 0) : Type 0 where
  pub min_rating : ℕ
  pub worst : Option A
  pub valid : Bool

unfoldable pub scan : {A N : Type 0} → List (A × PeerInfo N) → Scan A → Scan A
scan [] s = s
scan (e ∷ es) s = scan es (
    if e.1.is_client
    then record {
      min_rating = if ltb e.1.rating s.min_rating then e.1.rating else s.min_rating;
      worst = if ltb e.1.rating s.min_rating then some e.0 else s.worst;
      valid = not (e.1.rating == 0) || s.valid;
    }
    else s)

unfoldable pub get_worst_peer : {A N : Type 0} → Book A N → Option A
get_worst_peer b =
    let s = scan b.peer_to_info (record { min_rating = 2 ^ 64 - 1; worst = none; valid = false }) in
    if s.valid then s.worst else none

unfoldable pub reset : {A N : Type 0} → Book A N → Book A N
reset b = record b { peer_to_info = map (λ e. (e.0, record e.1 { rating = 0 })) b.peer_to_info }

module _ {A N : Type 0} (dec_a : Discrete A) (dec_n : Discrete N) where
  unfoldable pub vet_peer : A → Book A N → Result (Unit {0})
  vet_peer rmt b = if Assoc.has dec_a rmt b.peer_to_info then ok tt else raise logic_error

  unfoldable pub should_notify : A → N → Book A N → Result Bool
  should_notify rmt n b = do
    vet_peer rmt b
    ok (elim (lookup dec_n n b.notice_to_peers) [
      | none ↦ true
      | some peers ↦ not (Sets.contains dec_a rmt peers.set)
    ])

  -- `set.insert(rmtAddr)`, and `list.push_back(rmtAddr)` if the address is new.
  unfoldable pub add_peer : A → Peers A → Peers A
  add_peer rmt p =
      if Sets.contains dec_a rmt p.set
      then p
      else record { set = Sets.insert dec_a rmt p.set; list = p.list ++ (rmt ∷ []) }

  unfoldable pub should_request : A → N → Book A N → Result (Bool × Book A N)
  should_request rmt n b = do
    vet_peer rmt b
    ok (
      not (Assoc.has dec_n n b.notice_to_peers),
      record b {
        notice_to_peers =
            Assoc.put dec_n n (add_peer rmt (peers_or_new (lookup dec_n n b.notice_to_peers)))
              b.notice_to_peers;
      },
    )

  -- `++(peerToInfo.at(rmtAddr).rating)`.
  unfoldable pub increment : A → List (A × PeerInfo N) → List (A × PeerInfo N)
  increment rmt m = elim (lookup dec_a rmt m) [
    | none ↦ m
    | some info ↦ Assoc.put dec_a rmt (record info { rating = (info.rating + 1) % 2 ^ 64 }) m
  ]

  unfoldable pub received : A → N → Book A N → Result (Bool × Book A N)
  received rmt n b = do
    vet_peer rmt b
    ok (elim (lookup dec_n n b.notice_to_peers) [
      | none ↦ (false, b)
      | some peers ↦
          if Sets.contains dec_a rmt peers.set
          then (true, record b { peer_to_info = increment rmt b.peer_to_info })
          else (false, b)
    ])

  -- The loop of `erase(const Notice)`: `at` throws if the address is not known.
  unfoldable pub forget_notice : N → List A → List (A × PeerInfo N) → Result (List (A × PeerInfo N))
  forget_notice n [] m = ok m
  forget_notice n (rmt ∷ list) m = elim (lookup dec_a rmt m) [
    | none ↦ raise out_of_range
    | some info ↦
        forget_notice n list
          (Assoc.put dec_a rmt (record info { notices = erase_equivalent n info.notices }) m)
  ]

  unfoldable pub erase_notice : N → Book A N → Result (Book A N)
  erase_notice n b = elim (lookup dec_n n b.notice_to_peers) [
    | none ↦ ok b
    | some peers ↦ do
      infos ← forget_notice n peers.list b.peer_to_info
      ok (record { peer_to_info = infos; notice_to_peers = Assoc.erase dec_n n b.notice_to_peers })
  ]

  -- The front of the list, after it is popped if it is the given address.
  unfoldable pub pop_front : A → List A → List A
  pop_front rmt [] = []
  pop_front rmt (a ∷ list) = ite (dec_a a rmt) list (a ∷ list)

  abbrev pub front : List A → Option A
  front [] = none
  front (a ∷ list) = some a

  -- `peerToInfo[rmtAddr].notices.erase(notice)` of a peer that is known.
  unfoldable pub drop_notice : A → N → List (A × PeerInfo N) → List (A × PeerInfo N)
  drop_notice rmt n m = elim (lookup dec_a rmt m) [
    | none ↦ m
    | some info ↦ Assoc.put dec_a rmt (record info { notices = erase_equivalent n info.notices }) m
  ]

  unfoldable pub get_alt_peer : A → N → Book A N → Option A × Book A N
  get_alt_peer rmt n b =
      let infos = drop_notice rmt n b.peer_to_info in
      elim (lookup dec_n n b.notice_to_peers) [
        | none ↦ (none, record b { peer_to_info = infos })
        | some peers ↦ (
          front (pop_front rmt peers.list),
          record {
            peer_to_info = infos;
            notice_to_peers =
                Assoc.put dec_n n
                  (record { set = Sets.erase dec_a rmt peers.set; list = pop_front rmt peers.list })
                  b.notice_to_peers;
          },
        )
      ]

  unfoldable pub add : A → Bool → Book A N → Bool × Book A N
  add rmt is_client b = (
    not (Assoc.has dec_a rmt b.peer_to_info),
    record b {
      peer_to_info =
          Assoc.add dec_a rmt (record { rating = 0; notices = []; is_client = is_client })
            b.peer_to_info;
    },
  )

  -- `list.erase(iter)` of the first element that is the address.
  unfoldable pub erase_first : A → List A → List A
  erase_first rmt [] = []
  erase_first rmt (a ∷ list) = ite (dec_a a rmt) list (a ∷ erase_first rmt list)

  -- The outer loop of `erase(const SockAddr&)`, over the notices of the peer.
  unfoldable pub forget_peer : A → List N → List (N × Peers A) → Result (List (N × Peers A))
  forget_peer rmt [] m = ok m
  forget_peer rmt (n ∷ notices) m = elim (lookup dec_n n m) [
    | none ↦ raise out_of_range
    | some peers ↦ forget_peer rmt notices (
        Assoc.put dec_n n
          (record { set = Sets.erase dec_a rmt peers.set; list = erase_first rmt peers.list }) m)
  ]

  unfoldable pub erase_peer : A → Book A N → Result (Bool × Book A N)
  erase_peer rmt b = elim (lookup dec_a rmt b.peer_to_info) [
    | none ↦ ok (false, b)
    | some info ↦ do
      m ← forget_peer rmt info.notices b.notice_to_peers
      ok (true, record { peer_to_info = Assoc.erase dec_a rmt b.peer_to_info; notice_to_peers = m })
  ]
