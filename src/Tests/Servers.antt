-- ===== src/Tests/Servers.antt =====
-- Runs of main/p2p/Tracker.cpp and of the addresses.
use bicast.Base.{
  ℕ, ◌+◌, ◌^◌, ◌<◌, ◌≤◌, Bool, true, false, List, [], ◌∷◌, Option, none, some, ◌≡◌, ◌≢◌, ◌⊎◌, ◌↔◌,
  inl, inr, refl, arith, decide, if◌then◌else◌, All, length,
}
use bicast.Base.Int.{ℤ, pos, negsuc}
use bicast.Base.Assoc
use bicast.Base.Assoc.{lookup}
use bicast.Base.Result.{ok, raise, assertion_failed, ◌>>=◌}
use bicast.Inet.{inet4, named, Endpoint, SockAddr, less}
use bicast.Inet.Order.{Trichotomy}
use bicast.Inet.SockOrder.{less-Trichotomy}
use bicast.SrvrInfo.{SrvrInfo, SockAddr-discrete, write_srvr_info, read_srvr_info}
use bicast.SrvrInfo.Carried.{srvr_at, write_srvr_info-Delivers}
use bicast.Base.Sets
use bicast.Tracker.{Infos, Tracker, new, insert_all, try_add}
use bicast.Tracker.Drained.{addrs, take_next, drained-try_add}
use bicast.Tracker.Service.{disconnected, run_delay_queue, erase}
use bicast.Tracker.Queue.{Lacks}
use bicast.Tracker.Capacity.{IsTracker}
use bicast.Tracker.Add.{is_news, try_add-IsTracker}
use bicast.Tracker.Calls.{
  Chosen, get_next_addr_lem, disconnected-IsTracker, run_delay_queue-IsTracker, erase-abort,
}
use bicast.Xprt.Delivers.{Delivers}
use bicast.Xprt.Times.{whole_usecs}

abbrev server : ℕ → SockAddr
server n = some (record { inet_addr = some (inet4 n); port = 38800 })

abbrev info : ℕ → ℤ → SrvrInfo
info n tier = record { valid = pos 1000; srvr_addr = server n; tier = tier; num_avail = pos 3 }

-- A tracker with one server, which is queued.
abbrev one_server : Tracker
one_server = record {
  srvr_infos = (server 1, info 1 (pos 1)) ∷ [];
  srvr_queue = server 1 ∷ [];
  delay_queue = record { srvr_addr = server 1; reveal_time = pos 5 } ∷ [];
  capacity = 1;
  done = false;
  delay = pos 60;
}

one_server-IsTracker : IsTracker one_server
unfolding Assoc.has decide SockAddr-discrete bicast.Base.ℕ_discrete
one_server-IsTracker = record {
  queue = ((((ground arith), refl), tt), (tt, tt));
  bound = ground arith;
  room = ground arith;
}

try_add-IsTracker_example :
    (r : Tracker) × ((try_add (info 2 (pos 0)) one_server
        ≡ ok (is_news (info 2 (pos 0)) one_server, r))
      × (IsTracker r × (r.capacity ≡ 1)))
try_add-IsTracker_example =
    try_add-IsTracker (info 2 (pos 0)) one_server refl (ground arith) one_server-IsTracker
      (inr (λ e. ground arith))

get_next_addr_lem_example : Chosen one_server (server 1 ∷ [])
get_next_addr_lem_example = get_next_addr_lem one_server refl one_server-IsTracker

disconnected-IsTracker_example :
    (r : Tracker) × ((disconnected (server 1) true (pos 2000) one_server
        ≡ ok (Assoc.has SockAddr-discrete (server 1) one_server.srvr_infos, r))
      × (IsTracker r × Lacks (server 1) r.srvr_queue))
disconnected-IsTracker_example =
    disconnected-IsTracker (server 1) true (pos 2000) one_server (ground arith) one_server-IsTracker

run_delay_queue-IsTracker_example :
    (r : Tracker) × ((run_delay_queue (pos 10) one_server ≡ ok r) × IsTracker r)
run_delay_queue-IsTracker_example =
    run_delay_queue-IsTracker (pos 10) one_server (ground arith, tt) one_server-IsTracker

abbrev one_entry : Infos
one_entry = (server 1, info 1 (pos 1)) ∷ []

unlisted : Sets.contains SockAddr-discrete (server 2) (addrs one_entry) ≡ false
unfolding Sets.contains decide SockAddr-discrete bicast.Base.ℕ_discrete
unlisted = refl

unique : Sets.IsUnique SockAddr-discrete (addrs one_entry)
unfolding Sets.contains
unique = (refl, tt)

drained-try_add_example :
    (r : Tracker) × (((new 1 (pos 60) >>= insert_all one_entry >>= λ t.
    take_next (length t.srvr_queue) t)
        ≡ ok (some r))
      × (try_add (info 2 (pos 0)) r ≡ raise assertion_failed))
drained-try_add_example =
    drained-try_add one_entry (pos 60) (info 2 (pos 0)) (ground arith) (ground arith)
      ((refl, ground arith), tt) unique unlisted

erase-abort_example : erase (server 2) one_server ≡ raise assertion_failed
unfolding lookup SockAddr-discrete bicast.Base.ℕ_discrete
erase-abort_example = erase-abort (server 2) (server 1) [] one_server refl refl

less-Trichotomy_example : Trichotomy less (server 1) (server 2)
less-Trichotomy_example = less-Trichotomy (server 1) (server 2) (ground arith) (ground arith)

abbrev named_server : SockAddr
named_server = some (record { inet_addr = some (named (97 ∷ [])); port = 1 })

abbrev endpoint : ℕ → Endpoint
endpoint n = record { inet_addr = some (inet4 n); port = 38800 }

write_srvr_info-Delivers_example :
    Delivers
      (write_srvr_info (srvr_at (inet4 7) 38800 (negsuc 0) (pos 3) (pos 1999)))
      read_srvr_info
      (srvr_at (inet4 7) 38800 (negsuc 0) (pos 3) (whole_usecs (pos 1999)))
write_srvr_info-Delivers_example =
    write_srvr_info-Delivers (inet4 7) 38800 (negsuc 0) (pos 3) (pos 1999) (record {
      addr_wire = record { inet_wire = ground arith; port_wire = ground arith };
      tier_wire = ground arith;
      num_avail_wire = ground arith;
      valid_wire = ground arith;
    })

abbrev one_byte : List ℕ
one_byte = 0 ∷ []
