-- ===== src/PeerConn.antt =====
-- `PeerConnSrvrImpl` of main/p2p/PeerConn.cpp, which makes one connection of three sockets of a peer, and
-- `setXprts` of `PeerConnImpl`. A transport is a value of type `X` whose remote address is `addr_of`; the
-- listening socket, threads and mutexes are not modelled.
pub mod Factory
use bicast.Base.{
  ℕ, zero, suc, ◌+◌, List, [], ◌∷◌, ◌++◌, length, map, ltb, ◌==◌, if◌then◌else◌, not, ◌&&◌, ◌||◌,
  Bool, true, false, Option, none, some, get_elem?, set,
}
use bicast.Base.Result.{Result, ok, raise, ◌>>=◌, runtime_error, out_of_range, undefined}
use bicast.Base.Assoc
use bicast.Base.Assoc.{lookup}
use bicast.Inet.{SockAddr, Endpoint}
use bicast.SrvrInfo.{SockAddr-discrete}

-- `SockAddr::clone(port)`.
unfoldable pub clone : ℕ → SockAddr → SockAddr
clone port none = none
clone port (some e) = some (record e { port = port })

-- The transports of a connection for notices, requests and data.
pub record Xprts (X : Type 0) : Type 0 where
  pub notice_xprt : X
  pub request_xprt : X
  pub data_xprt : X

-- The loop of `setXprts`: `ids` are the identifiers that the transports read, in the order of the array,
-- and none is a transport that is lost. `indexes` has three elements; it is written behind its end if an
-- identifier is above 2.
unfoldable pub read_ids : List (Option ℕ) → ℕ → List (Option ℕ) → Result (List (Option ℕ))
read_ids [] index indexes = ok indexes
read_ids (none ∷ ids) index indexes = raise runtime_error
read_ids (some id ∷ ids) index indexes =
    let rest = read_ids ids (index + 1) (set indexes id (some index)) in
    if ltb id 3 then rest else raise undefined

-- The transport at one of the indexes, which is not defined if the index was not written.
unfoldable pub xprt_at : {X : Type 0} → List X → Option (Option ℕ) → Result X
xprt_at xs (some (some i)) = elim (get_elem? xs i) [ none ↦ raise undefined | some x ↦ ok x ]
xprt_at xs _ = raise undefined

unfoldable pub set_xprts : {X : Type 0} → List X → List (Option ℕ) → Result (Xprts X)
set_xprts xs ids = do
  indexes ← read_ids ids 0 (none ∷ none ∷ none ∷ [])
  notice ← xprt_at xs (get_elem? indexes 0)
  request ← xprt_at xs (get_elem? indexes 1)
  datum ← xprt_at xs (get_elem? indexes 2)
  ok (record { notice_xprt = notice; request_xprt = request; data_xprt = datum })

-- `PeerConnSrvrImpl`: an accepted connection is its three transports, and none is the null pointer of a
-- server that is halted.
pub record Srvr (X : Type 0) : Type 0 where
  pub peer_conns : List (SockAddr × List X)
  pub accept_q : List (Option (Xprts X))
  pub max_pend_conn : ℕ

module _ {X : Type 0} (addr_of : X → SockAddr) where
  abbrev pub get_key : X → ℕ → SockAddr
  get_key x port = clone port (addr_of x)

  -- `peerConns[key].xprts`, of an entry that has been inserted if it was not there.
  abbrev pub entry_of : SockAddr → List (SockAddr × List X) → List X
  entry_of k m = elim (lookup SockAddr-discrete k m) [ none ↦ [] | some xs ↦ xs ]

  -- `PeerConnFactory::add`. A fourth element is written behind the end of the array.
  unfoldable pub add : X → ℕ → List (SockAddr × List X) → Result (Bool × List (SockAddr × List X))
  add x port m =
      let xs = entry_of (get_key x port) m in
      if ltb (length xs) 3
      then ok (length xs + 1 == 3, Assoc.put SockAddr-discrete (get_key x port) (xs ++ (x ∷ [])) m)
      else raise undefined

  -- `PeerConnFactory::get`.
  unfoldable pub get : X → ℕ → List (SockAddr × List X) → Result (List X × List (SockAddr × List X))
  get x port m = elim (lookup SockAddr-discrete (get_key x port) m) [
    | none ↦ raise out_of_range
    | some xs ↦ ok (xs, Assoc.erase SockAddr-discrete (get_key x port) m)
  ]

  -- `processSock` of a socket whose port of the notice transport has been read. `sent_id` is the
  -- identifier that can be read from a transport, and none if it is lost; the constructor of the
  -- connection reads that of each of the three. An exception ends `acceptSocks`.
  unfoldable pub process_sock : (X → Option ℕ) → X → ℕ → Srvr X → Result (Srvr X)
  process_sock sent_id x port s =
      if not (ltb (length s.accept_q) s.max_pend_conn)
      then ok s
      else (add x port s.peer_conns >>= λ added.
          if not added.0
          then ok (record s { peer_conns = added.1 })
          else (get x port added.1 >>= λ got. set_xprts got.0 (map sent_id got.0) >>= λ conn.
              ok (record s { peer_conns = got.1; accept_q = s.accept_q ++ (some conn ∷ []) })))

-- What `acceptSocks` does when the listening socket has been shut down.
unfoldable pub end_accept : {X : Type 0} → Srvr X → Srvr X
end_accept s = record s { accept_q = none ∷ [] }

-- `accept`: it waits, or returns the first connection; the null pointer stays in the queue.
unfoldable pub accept : {X : Type 0} → Srvr X → Option (Option (Xprts X) × Srvr X)
accept s = elim s.accept_q [
  | [] ↦ none
  | none ∷ q ↦ some (none, s)
  | some xs ∷ q ↦ some (some xs, record s { accept_q = q })
]
