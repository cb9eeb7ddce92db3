-- ===== src/Tests/Managers.antt =====
-- Runs of main/p2p/P2pMgr.cpp: a subscriber's manager with one peer of each kind at most, and numbers for
-- the identifiers of data.
use bicast.Base.{
  ℕ, true, false, List, [], ◌∷◌, some, ◌≡◌, ◌≢◌, ◌⊎◌, inl, inr, refl, arith, ℕ_discrete, decide, ap,
  ◌∙◌,
}
use mathlib.Core.Bool.{true≢false}
use bicast.Base.Int.{pos, negsuc}
use bicast.Base.Assoc
use bicast.Base.Assoc.{lookup}
use bicast.Base.Sets
use bicast.Base.Result.{ok, raise, assertion_failed, out_of_range}
use bicast.Inet.{SockAddr, inet4}
use bicast.SrvrInfo.{SrvrInfo, SockAddr-discrete}
use bicast.Bookkeeper.Pub
use bicast.Bookkeeper.Pub.{Requests}
use bicast.Bookkeeper.Sub
use bicast.Bookkeeper.Sub.{Book, Peers}
use bicast.P2pMgr.{
  Peer, Mgr, Message, publisher, subscriber, started, halt_peer, in_set, is_full, is_stopping,
  add_peer, remove_peer, halt_worst_peer,
}
use bicast.P2pMgr.Books.{Bookkeeping}
use bicast.P2pMgr.SubBooks.{sub_books}
use bicast.P2pMgr.PubBooks.{pub_books}
use bicast.P2pMgr.Peers.{HasPeer}
use bicast.P2pMgr.Valid.{IsMgr, with_peer, with_peer-IsMgr, add_peer_lem, add_peer_aborts}
use bicast.P2pMgr.Removal.{without_peer, remove_peer_lem}
use bicast.P2pMgr.Worst.{halt_worst_peer_lem}
use bicast.P2pMgr.Sub.{SubMgr, recv_data}
use bicast.P2pMgr.Stale.{recv_data_stale}

abbrev addr : ℕ → SockAddr
addr n = some (record { inet_addr = some (inet4 n); port = 38800 })

abbrev books : Bookkeeping SockAddr SockAddr-discrete (Book SockAddr ℕ)
books = sub_books SockAddr-discrete ℕ_discrete

abbrev peer : ℕ → ℕ → Peer
peer pointer n = record {
  pointer = pointer;
  rmt_addr = addr n;
  is_client = true;
  is_rmt_pub = false;
  tier = pos 1;
}

abbrev own_info : SrvrInfo
own_info = record { valid = pos 0; srvr_addr = addr 9; tier = negsuc 0; num_avail = pos 2 }

-- A manager without peers.
abbrev alone : SubMgr ℕ_discrete
alone = record {
  kind = subscriber;
  state = started;
  peers_changed = false;
  max_srvr_peers = pos 1;
  num_srvr_peers = pos 0;
  max_clnt_peers = pos 1;
  num_clnt_peers = pos 0;
  peer_set = [];
  peer_map = [];
  book = record { peer_to_info = []; notice_to_peers = [] };
  srvr_info = own_info;
}

alone-IsMgr : IsMgr ℕ books alone
unfolding Assoc.has lookup bicast.P2pMgr.Peers.number
alone-IsMgr = record {
  distinct = tt;
  mapped = λ p h. elim h [ ];
  held = λ a p h. absurd (ground (arith, h));
  known = λ a. refl;
  sound = tt;
  srvrs = λ l. refl;
  clnts = λ l. refl;
}

going : is_stopping alone.state ≡ false
unfolding is_stopping
going = refl

fresh : (p : Peer) → in_set p [] ≡ false
unfolding in_set
fresh p = refl

free : (a : SockAddr) → Assoc.has SockAddr-discrete a alone.peer_map ≡ false
unfolding Assoc.has
free a = refl

add_peer_lem_example :
    (i : SrvrInfo) × ((told : List (Message ℕ)) × ((add_peer {N = ℕ} books (pos 7) (peer 1 1) alone
          ≡ ok (true, with_peer ℕ books (peer 1 1) i alone, told))
        × IsMgr ℕ books (with_peer ℕ books (peer 1 1) i alone)))
add_peer_lem_example =
    add_peer_lem ℕ books (pos 7) (peer 1 1) alone alone-IsMgr going (fresh (peer 1 1))
      (free (addr 1))

-- A manager with one peer, and with two.
abbrev one : SubMgr ℕ_discrete
one = with_peer ℕ books (peer 1 1) own_info alone

one-IsMgr : IsMgr ℕ books one
one-IsMgr =
    with_peer-IsMgr ℕ books (peer 1 1) own_info alone alone-IsMgr (fresh (peer 1 1)) (free (addr 1))

other_pointer : (n : ℕ) → in_set (peer 2 n) one.peer_set ≡ false
unfolding in_set
other_pointer n = refl

known_addr : Assoc.has SockAddr-discrete (addr 1) one.peer_map ≡ true
unfolding Assoc.has Assoc.put SockAddr-discrete ℕ_discrete decide
known_addr = refl

other_addr : Assoc.has SockAddr-discrete (addr 2) one.peer_map ≡ false
unfolding Assoc.has Assoc.put SockAddr-discrete ℕ_discrete decide
other_addr = refl

add_peer_aborts_example : add_peer {N = ℕ} books (pos 7) (peer 2 1) one ≡ raise assertion_failed
add_peer_aborts_example =
    add_peer_aborts ℕ books (pos 7) (peer 2 1) one one-IsMgr going (other_pointer 1) known_addr

abbrev two : SubMgr ℕ_discrete
two = with_peer ℕ books (peer 2 2) own_info one

two-IsMgr : IsMgr ℕ books two
two-IsMgr = with_peer-IsMgr ℕ books (peer 2 2) own_info one one-IsMgr (other_pointer 2) other_addr

first_there : HasPeer (peer 1 1) two.peer_set
first_there = inl refl

second_there : HasPeer (peer 2 2) two.peer_set
second_there = inr (inl refl)

remove_peer_lem_example :
    (i : SrvrInfo) × ((book : Book SockAddr ℕ) × ((told : List (Message ℕ)) × ((remove_peer {N = ℕ}
              books
              (pos 8)
              (peer 2 2)
              two
            ≡ ok (without_peer ℕ books (peer 2 2) i book two, told))
          × (IsMgr ℕ books (without_peer ℕ books (peer 2 2) i book two)
              × (books.erase (addr 2) two.book ≡ ok (true, book))))))
remove_peer_lem_example = remove_peer_lem ℕ books (pos 8) (peer 2 2) two two-IsMgr second_there

-- The second peer is the worse one. Both have announced the datum 7, which the first is asked for.
abbrev rated : Book SockAddr ℕ
rated = record {
  peer_to_info =
      (addr 1, record { rating = 3; notices = []; is_client = true })
      ∷ (addr 2, record { rating = 1; notices = []; is_client = true })
      ∷ [];
  notice_to_peers = (7, record { set = addr 1 ∷ addr 2 ∷ []; list = addr 2 ∷ [] }) ∷ [];
}

abbrev busy : SubMgr ℕ_discrete
busy = record two { book = rated }

rated-knows : (a : SockAddr) → books.knows a rated ≡ books.knows a two.book
unfolding Assoc.has Assoc.add Sub.add SockAddr-discrete ℕ_discrete decide
rated-knows a = refl

busy-IsMgr : IsMgr ℕ books busy
busy-IsMgr = record {
  distinct = two-IsMgr.distinct;
  mapped = two-IsMgr.mapped;
  held = two-IsMgr.held;
  known = λ a. rated-knows a ∙ two-IsMgr.known a;
  sound = (refl, (refl, tt));
  srvrs = two-IsMgr.srvrs;
  clnts = two-IsMgr.clnts;
}

halt_worst_peer_lem_example :
    (halt_worst_peer {N = ℕ} books busy ≡ ok [])
    ⊎ ((p : Peer) × ((halt_worst_peer {N = ℕ} books busy ≡ ok (halt_peer p ∷ []))
          × (HasPeer p busy.peer_set
              × ((is_full busy ≡ true) × (books.get_worst_peer busy.book ≡ some p.rmt_addr)))))
halt_worst_peer_lem_example = halt_worst_peer_lem ℕ books busy busy-IsMgr

different : addr 1 ≢ addr 2
unfolding decide SockAddr-discrete ℕ_discrete
different e = true≢false (ap (λ a. decide (SockAddr-discrete (addr 1) a)) e)

noticed :
    lookup ℕ_discrete 7 busy.book.notice_to_peers
    ≡ some (record { set = addr 1 ∷ addr 2 ∷ []; list = addr 2 ∷ [] })
unfolding lookup ℕ_discrete
noticed = refl

asked : Sets.contains SockAddr-discrete (addr 1) (addr 1 ∷ addr 2 ∷ []) ≡ true
unfolding Sets.contains SockAddr-discrete ℕ_discrete decide
asked = refl

announced : Sets.contains SockAddr-discrete (addr 2) (addr 2 ∷ []) ≡ true
unfolding Sets.contains SockAddr-discrete ℕ_discrete decide
announced = refl

recv_data_stale_example :
    (r : SubMgr ℕ_discrete) × ((told : List (Message ℕ)) × ((remove_peer {N = ℕ} books
            (pos 8)
            (peer 2 2)
            busy
          ≡ ok (r, told))
        × (recv_data ℕ_discrete 7 (addr 1) r ≡ raise out_of_range)))
recv_data_stale_example =
    recv_data_stale ℕ_discrete (pos 8) 7 (peer 1 1) (peer 2 2)
      (record { set = addr 1 ∷ addr 2 ∷ []; list = addr 2 ∷ [] }) busy busy-IsMgr going first_there
      second_there different noticed asked announced

-- A publisher's manager that is full: its peer has asked three times.
abbrev pub_mgr : Mgr (Requests SockAddr)
pub_mgr = record {
  kind = publisher;
  state = started;
  peers_changed = false;
  max_srvr_peers = pos 1;
  num_srvr_peers = pos 1;
  max_clnt_peers = pos 0;
  num_clnt_peers = pos 0;
  peer_set = peer 1 1 ∷ [];
  peer_map = (addr 1, peer 1 1) ∷ [];
  book = (addr 1, 3) ∷ [];
  srvr_info = own_info;
}

pub_halts :
    halt_worst_peer {N = ℕ} (pub_books SockAddr-discrete) pub_mgr ≡ ok (halt_peer (peer 1 1) ∷ [])
unfolding halt_worst_peer is_full Pub.get_worst_peer Pub.scan lookup SockAddr-discrete ℕ_discrete
pub_halts = refl
