-- ===== src/Tests/Peers.antt =====
-- Runs of main/p2p/Bookkeeper.cpp and Notice.cpp, with numbers for addresses and notices.
use bicast.Base.{
  ℕ, ◌<◌, ◌≤◌, true, false, List, [], ◌∷◌, none, some, ◌≡◌, ◌≢◌, ◌⊎◌, refl, arith, ℕ_discrete, All,
  ◌&&◌, not, ◌==◌, decide,
}
use bicast.Base.Assoc.{lookup, has}
use bicast.Base.Sets
use bicast.Base.Result.{ok, raise, out_of_range, ◌>>=◌}
use bicast.Notice.{Notice, data_seg_id_notice}
use bicast.Bookkeeper.Pub
use bicast.Bookkeeper.Pub.Worst.{Has, get_worst_peer-Has}
use bicast.Bookkeeper.Sub
use bicast.Bookkeeper.Sub.{Book, Peers, PeerInfo, get_alt_peer, erase_peer, erase_notice}
use bicast.Bookkeeper.Sub.Worst.{HasClient, AtLeast, get_worst_peer-HasClient}
use bicast.Bookkeeper.Sub.Requests.{
  Call, add_call, should_request_call, erase_peer_call, get_alt_peer_call, received_call,
  num_requests, num_requests-le,
}
use bicast.Bookkeeper.Sub.Alternatives.{get_alt_peer_lem, fails_twice, fails_twice_lem}
use bicast.Bookkeeper.Sub.Stale.{erase_notice-erase_peer}

abbrev notice : ℕ → Notice
notice offset = data_seg_id_notice (record { prod_id = 77; offset = offset })

abbrev requests : List (ℕ × ℕ)
requests = (1, 5) ∷ (2, 9) ∷ []

get_worst_peer-Has_example :
    ((Pub.get_worst_peer requests ≡ none) × All (λ e. e.1 ≡ 0) requests)
    ⊎ ((a : ℕ) × (c : ℕ) × (Pub.get_worst_peer requests ≡ some a)
        × (0 < c)
        × Has a c requests
        × All (λ e. e.1 ≤ c) requests)
get_worst_peer-Has_example = get_worst_peer-Has requests

abbrev peer : ℕ → PeerInfo ℕ
peer rating = record { rating = rating; notices = []; is_client = true }

-- Two peers, both of which have announced the datum 7.
abbrev book : Book ℕ ℕ
book = record {
  peer_to_info = (1, peer 4) ∷ (2, peer 3) ∷ [];
  notice_to_peers = (7, record { set = 1 ∷ 2 ∷ []; list = 1 ∷ 2 ∷ [] }) ∷ [];
}

get_worst_peer-HasClient_example :
    ((Sub.get_worst_peer book ≡ none)
      × All (λ e. e.1.is_client && not (e.1.rating == 0) ≡ false) book.peer_to_info)
    ⊎ ((a : ℕ) × (r : ℕ) × (Sub.get_worst_peer book ≡ some a)
        × HasClient a r book.peer_to_info
        × AtLeast r book.peer_to_info)
get_worst_peer-HasClient_example = get_worst_peer-HasClient book (ground arith, (ground arith, tt))

abbrev calls : List (Call ℕ ℕ)
calls =
    add_call 1 true
    ∷ add_call 2 true
    ∷ should_request_call 1 7
    ∷ should_request_call 2 7
    ∷ get_alt_peer_call 1 7
    ∷ received_call 2 7
    ∷ erase_peer_call 1
    ∷ []

num_requests-le_example : num_requests ℕ_discrete ℕ_discrete 7 calls Sub.new ≤ 1
num_requests-le_example =
    num_requests-le ℕ_discrete ℕ_discrete 7 calls Sub.new
      (λ e. cc, (λ e. cc, (λ e. cc, (λ e. cc, (λ e. cc, (λ e. cc, (λ e. cc, tt)))))))

get_alt_peer_lem_example :
    ((get_alt_peer ℕ_discrete ℕ_discrete 1 7 book).0 ≢ some 1)
    × ((q : Peers ℕ) × (lookup ℕ_discrete 7
            (get_alt_peer ℕ_discrete ℕ_discrete 1 7 book).1.notice_to_peers
          ≡ some q)
        × (Sets.contains ℕ_discrete 1 q.set ≡ false))
unfolding lookup Sets.contains ℕ_discrete decide
get_alt_peer_lem_example =
    get_alt_peer_lem ℕ_discrete ℕ_discrete 1 7 (record { set = 1 ∷ 2 ∷ []; list = 1 ∷ 2 ∷ [] }) book
      refl (refl, (refl, tt))

fails_twice_lem_example : fails_twice ℕ_discrete ℕ_discrete 2 1 7 book ≡ ok (some 2)
unfolding lookup has ℕ_discrete decide
fails_twice_lem_example =
    fails_twice_lem ℕ_discrete ℕ_discrete 2 1 7 (1 ∷ 2 ∷ []) book (λ e. ground arith) refl refl

erase_notice-erase_peer_example :
    (erase_peer ℕ_discrete ℕ_discrete 1 book >>= λ r. erase_notice ℕ_discrete ℕ_discrete 7 r.1)
    ≡ raise out_of_range
unfolding lookup Sets.contains ℕ_discrete decide
erase_notice-erase_peer_example =
    erase_notice-erase_peer ℕ_discrete ℕ_discrete 1 7 (peer 4)
      (record { set = 1 ∷ 2 ∷ []; list = 1 ∷ 2 ∷ [] }) book (refl, (refl, tt)) refl refl refl
