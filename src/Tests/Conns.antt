-- ===== src/Tests/Conns.antt =====
-- Runs of main/p2p/Peer.cpp and PeerConn.cpp.
use bicast.Base.{
  ℕ, ◌≤◌, ◌<◌, true, false, List, [], ◌∷◌, ◌++◌, map, length, Option, if◌then◌else◌, ◌==◌, none,
  some, ◌≡◌, ◌≢◌, ◌⊎◌, refl, sym, ◌∙◌, arith, decide,
}
use bicast.Base.Int.{pos}
use bicast.Base.Assoc
use bicast.Base.Assoc.{lookup}
use bicast.Base.Sets
use bicast.Base.Result.{ok, raise, logic_error, ◌>>=◌}
use bicast.Proto.{DataSegId, ProdInfo, is_set}
use bicast.Inet.{SockAddr, inet4}
use bicast.SrvrInfo.{SrvrInfo, SockAddr-discrete}
use bicast.DataSeg.{DataSeg, num_segs}
use bicast.Notice.{prod_id_notice, data_seg_id_notice}
use bicast.ProdFile.{SubProdFile, sub_prod_file, is_complete}
use bicast.ProdFile.Pub.{pub_prod_file, answers}
use bicast.ProdFile.Runs.{save_all}
use bicast.Peer.Queue.{RequestQ, push, new}
use bicast.Peer.Queue.Represents.{Represents, new-Represents, push_new-Represents}
use bicast.Peer.{
  PeerState, Request, unset, prod_request, seg_request, Request-discrete, started, hands,
  is_rmt_pub, is_sendable, add_notice, run_notice_writer, process_datum, drain_pending, backlog_of,
}
use bicast.Peer.Order.{Run, InOrder, here, next, noticed, written, notices_of, in_order}
use bicast.Peer.Requests.{Answers, process_datum_lem, drain_pending_lem}
use bicast.Peer.Backlog.{backlog_complete}
use bicast.Tracker.{Tracker}
use bicast.Xprt.Delivers.{Delivers}
use bicast.Rpc
use bicast.Rpc.{Pdu, send_all, run_reader}
use bicast.Rpc.Carried.{arrived, run_reader_lem}
use bicast.PeerConn.{Srvr, process_sock}
use bicast.PeerConn.Factory.{IsSrvr, ndr, ids_of, collected, put_entry, process_sock-IsSrvr}

abbrev first : Request
first = prod_request 7

abbrev second : Request
second = seg_request (record { prod_id = 7; offset = 0 })

first_set : first ≢ unset
first_set e = cc

second_set : second ≢ unset
second_set e = cc

one_request :
    Represents Request-discrete unset
      (push Request-discrete unset first (new Request-discrete unset)).1
      (first ∷ [])
unfolding Sets.contains
one_request =
    push_new-Represents Request-discrete unset first (new Request-discrete unset) []
      (new-Represents Request-discrete unset) first_set refl

other : Sets.contains Request-discrete second (first ∷ []) ≡ false
unfolding Sets.contains decide Request-discrete
other = refl

abbrev two_requests : RequestQ Request
two_requests =
    (push Request-discrete unset second
      (push Request-discrete unset first (new Request-discrete unset)).1).1

push_new-Represents_example : Represents Request-discrete unset two_requests (first ∷ second ∷ [])
push_new-Represents_example =
    push_new-Represents Request-discrete unset second
      (push Request-discrete unset first (new Request-discrete unset)).1 (first ∷ []) one_request
      second_set other

-- The same, for the other runs.
waiting : Represents Request-discrete unset two_requests (first ∷ second ∷ [])
waiting =
    push_new-Represents Request-discrete unset second
      (push Request-discrete unset first (new Request-discrete unset)).1 (first ∷ []) one_request
      second_set other

abbrev server : SrvrInfo
server = record {
  valid = pos 0;
  srvr_addr = some (record { inet_addr = some (inet4 1); port = 38800 });
  tier = pos 1;
  num_avail = pos 2;
}

abbrev peer : PeerState
peer = record {
  state = started;
  stop_notices = false;
  notice_q = [];
  connected = true;
  logged = false;
  stop_sem = 0;
  last_send_time = pos 0;
  rmt_srvr_info = server;
  requested = two_requests;
}

process_datum_lem_example :
    ((Sets.contains Request-discrete second (first ∷ second ∷ []) ≡ false)
      × (process_datum 2 second peer ≡ some (raise logic_error)))
    ⊎ Answers 2 second peer (first ∷ second ∷ [])
process_datum_lem_example =
    process_datum_lem 2 second peer (first ∷ second ∷ []) waiting (ground arith)

drain_pending_lem_example :
    drain_pending 2 peer
    ≡ some (first ∷ second ∷ [], record peer { requested = new Request-discrete unset })
drain_pending_lem_example = drain_pending_lem 2 peer (first ∷ second ∷ []) waiting (ground arith)

abbrev run : Run
run = record { peer = peer; queued = []; handed = [] }

abbrev told : Run
told = record run {
  peer = (add_notice (prod_id_notice 9) peer).1;
  queued = [] ++ notices_of (prod_id_notice 9) peer;
}

handed_over : run_notice_writer true told.peer ≡ ok (hands (prod_id_notice 9) peer)
unfolding run_notice_writer add_notice is_rmt_pub is_sendable
handed_over = refl

abbrev sent : Run
sent = record told { peer = peer; handed = prod_id_notice 9 ∷ [] }

in_order_example : InOrder sent
in_order_example = in_order run sent refl (
    next (next here (noticed (prod_id_notice 9) refl))
      (written true (prod_id_notice 9) peer handed_over refl))

abbrev product : List ℕ
product = 10 ∷ 20 ∷ 30 ∷ 40 ∷ 50 ∷ []

abbrev info : ProdInfo
info = record { prod_id = 7; name = 97 ∷ []; size = 5; creation_time = pos 5 }

positive : 0 < 2
positive = omega arith

enough : num_segs 2 5 ≤ 3
unfolding num_segs
enough = ground arith

named : is_set info ≡ true
unfolding is_set
named = refl

backlog_complete_example :
    (ids : List DataSegId) × ((backlog_of 2 3 7 info
        ≡ some (prod_id_notice 7 ∷ map data_seg_id_notice ids))
      × ((segs : List DataSeg) × ((answers 2 ids (some (pub_prod_file product)) ≡ ok segs)
            × ((g : SubProdFile) × (((sub_prod_file 2 true 5 >>= save_all 2 positive segs) ≡ ok g)
                  × ((is_complete g ≡ true) × (g.bytes ≡ product)))))))
backlog_complete_example =
    backlog_complete 2 positive product 7 info 3 (ground arith) named refl enough

-- Transports with the port as their identity, all from one host.
abbrev addr_of : ℕ → SockAddr
addr_of port = some (record { inet_addr = some (inet4 1); port = port })

-- A server that has two transports of a connection.
abbrev srvr : Srvr ℕ
srvr = record {
  peer_conns = Assoc.put SockAddr-discrete (addr_of 9) (9 ∷ 8 ∷ []) [];
  accept_q = [];
  max_pend_conn = 5;
}

-- The transport of port 9 is for notices, that of 8 for data, and that of 7 for requests.
abbrev sent_id : ℕ → Option ℕ
sent_id port = if port == 9 then some 0 else (if port == 8 then some 2 else some 1)

all_sent :
    length (collected addr_of sent_id 7 9 srvr) ≡ 3
    → map sent_id (collected addr_of sent_id 7 9 srvr) ≡ ids_of ndr
unfolding bicast.PeerConn.clone lookup SockAddr-discrete bicast.Base.ℕ_discrete Assoc.put
all_sent h = refl

srvr-IsSrvr : IsSrvr addr_of sent_id srvr
unfolding bicast.PeerConn.clone lookup
srvr-IsSrvr = record {
  entries = λ k xs h. elim (SockAddr-discrete k (addr_of 9)) [
    | yes same ↦
        put_entry addr_of sent_id k (addr_of 9) (9 ∷ 8 ∷ []) xs [] same
          (ground arith, (refl, (refl, tt))) h
    | no apart ↦
        let gone : none ≡ some xs =
          sym (Assoc.lookup-put_ne SockAddr-discrete (addr_of 9) k (9 ∷ 8 ∷ []) [] apart) ∙ h in
        cc
  ];
  whole = tt;
  few = ground arith;
}

process_sock-IsSrvr_example :
    (t : Srvr ℕ) × ((process_sock addr_of sent_id 7 9 srvr ≡ ok t) × IsSrvr addr_of sent_id t)
process_sock-IsSrvr_example = process_sock-IsSrvr addr_of sent_id 7 9 ndr srvr srvr-IsSrvr all_sent

abbrev no_servers : Tracker
no_servers = record {
  srvr_infos = [];
  srvr_queue = [];
  delay_queue = [];
  capacity = 1000;
  done = false;
  delay = pos 0;
}

abbrev units : List Pdu
units =
    Rpc.prod_info_notice 7
    ∷ Rpc.data_seg_request (record { prod_id = 7; offset = 2 })
    ∷ Rpc.prod_info info
    ∷ Rpc.heartbeat
    ∷ []

run_reader_lem_example :
    Delivers
      (send_all 2 no_servers units)
      (run_reader 2 no_servers 4)
      (map (arrived 2 no_servers) units)
run_reader_lem_example = run_reader_lem 2 no_servers units (
  ground arith,
  (
    (ground arith, ground arith),
    (
      record { id = ground arith; short = ground arith; size = ground arith; time = ground arith },
      (tt, tt),
    ),
  ),
)
