-- ===== src/Peer/Requests.antt =====
-- `processDatum` and `drainPending` of main/p2p/Peer.cpp, by the list of requests without an answer.
use bicast.Base.{
  ℕ, ◌≤◌, ◌<◌, ◌+◌, List, [], ◌∷◌, ◌++◌, length, length-append, true, false, some, ◌≡◌, ◌⊎◌, inl,
  inr, sym, ap, ◌∙◌, subst, arith, Bool-cases,
}
use mathlib.Core.Bool.{true≢false}
use bicast.Base.Result.{ok, raise, logic_error}
use bicast.Base.Sets
use bicast.Peer.Queue
use bicast.Peer.Queue.{RequestQ, Outcome, count}
use bicast.Peer.Queue.Represents.{Represents}
use bicast.Peer.Queue.Loops.{drain_to_lem, process_from_lem}
use bicast.Peer.{PeerState, Request, unset, Request-discrete, process_datum, drain_pending}

abbrev pub Waits : PeerState → List Request → Type 0
Waits p rs = Represents Request-discrete unset p.requested rs

split_at :
    (r : Request) (rs : List Request)
    → Sets.contains Request-discrete r rs ≡ true
    → (before : List Request) × ((after : List Request) × (rs ≡ before ++ (r ∷ after)))
unfolding Sets.contains
split_at r [] h = absurd (true≢false (sym h))
split_at r (x ∷ rs) h = elim (Request-discrete r x) [
  | yes same ↦ ([], (rs, ap (λ y. y ∷ rs) (sym same)))
  | no apart ↦
      let (before, (after, e)) =
        split_at r rs (Sets.contains_behind Request-discrete r x rs apart h) in
      (x ∷ before, (after, ap (◌∷◌ x) e))
]

-- What an answer to one of the requests that wait does.
abbrev pub Answers : ℕ → Request → PeerState → List Request → Type 0
Answers fuel r p rs =
    (before : List Request) × ((after : List Request) × ((left : RequestQ Request) × ((rs
            ≡ before ++ (r ∷ after))
          × ((process_datum fuel r p
                ≡ some (
                    ok (
                      record { missed = before; received = true; left = left },
                      record p { requested = left },
                    )))
              × Waits (record p { requested = left }) after))))

-- If a peer's table of requests stands for a list of requests, none of them twice, and the loop
-- of `processDatum` may take as many rounds as there are requests, then a datum that is not in
-- the list raises the logic error, and one that is in the list goes to the manager, the requests
-- before it are missed, in their order, and the table then stands for the requests behind it.
pub process_datum_lem :
    (fuel : ℕ) (r : Request) (p : PeerState) (rs : List Request)
    → Waits p rs
    → length rs ≤ fuel
    → ((Sets.contains Request-discrete r rs ≡ false)
        × (process_datum fuel r p ≡ some (raise logic_error)))
      ⊎ Answers fuel r p rs
unfolding process_datum count
process_datum_lem fuel r p rs w h = elim (Bool-cases (Sets.contains Request-discrete r rs)) [
  | inr absent ↦ inl (absent, (let there = w.keys r ∙ absent in ground (arith, there)))
  | inl there ↦
      let (before, (after, e)) = split_at r rs there in
      let known = w.keys r ∙ there in
      let w2 = subst (Represents Request-discrete unset p.requested) e w in
      let long : length rs ≡ length before + length (r ∷ after) =
        ap length e ∙ length-append before (r ∷ after) in
      let short : length before < fuel = omega (arith, long, h) in
      let (left, (done, rest)) =
        process_from_lem Request-discrete unset fuel r before after p.requested w2 short in
      inr (before, (after, (left, (e, (ground (arith, known, done), rest)))))
]

-- If a peer's table of requests stands for a list, then the loop of `drainPending` ends within as
-- many rounds as there are requests, for each request in its order the manager is told that it is
-- missed, and the table is empty.
pub drain_pending_lem :
    (fuel : ℕ) (p : PeerState) (rs : List Request)
    → Waits p rs
    → length rs ≤ fuel
    → drain_pending fuel p ≡ some (rs, record p { requested = Queue.new Request-discrete unset })
unfolding drain_pending
drain_pending_lem fuel p rs w h =
    let all = drain_to_lem Request-discrete unset fuel p.requested rs w h in ground (arith, all)
