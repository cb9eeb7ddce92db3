-- ===== src/Peer/Queue.antt =====
-- `SubPeerImpl::RequestQ` of main/p2p/Peer.cpp: the requests that a remote peer has not answered, as a
-- table of each one's successor. `R` is the type of requests, and `unset` the one that is false.
pub mod Represents
pub mod Loops
use bicast.Base.{
  ℕ, zero, suc, List, [], ◌∷◌, length, not, if◌then◌else◌, Bool, true, false, Option, none, some,
  decide,
}
use bicast.Base.Assoc
use bicast.Base.Assoc.{lookup}

pub record RequestQ (R : Type 0) : Type 0 where
  pub requests : List (R × R)
  pub head : R
  pub tail : R

-- What comes of a datum: the requests that are missed, whether the datum goes to the manager, and the
-- requests that are left.
pub record Outcome (R : Type 0) : Type 0 where
  pub missed : List R
  pub received : Bool
  pub left : RequestQ R

abbrev pub also_missed : {R : Type 0} → R → Option (Outcome R) → Option (Outcome R)
also_missed h none = none
also_missed h (some o) = some (record o { missed = h ∷ o.missed })

module _ {R : Type 0} (dec : Discrete R) (unset : R) where
  unfoldable pub is_set : R → Bool
  unfolding decide
  is_set r = not (decide (dec r unset))

  unfoldable pub new : RequestQ R
  new = record { requests = []; head = unset; tail = unset }

  unfoldable pub push : R → RequestQ R → ℕ × RequestQ R
  push r q =
      let emplaced = Assoc.add dec r unset q.requests in
      let linked = if is_set q.tail then Assoc.put dec q.tail r emplaced else emplaced in
      (
        length linked,
        record { requests = linked; head = if is_set q.head then q.head else r; tail = r },
      )

  unfoldable pub count : R → RequestQ R → Bool
  count r q = Assoc.has dec r q.requests

  -- `requests[r]`, of a request that has been inserted if it was not there.
  abbrev pub successor : R → List (R × R) → R
  successor r m = elim (lookup dec r m) [ none ↦ unset | some n ↦ n ]

  unfoldable pub remove_head : RequestQ R → R × RequestQ R
  remove_head q =
      let next = successor q.head q.requests in
      (
        q.head,
        record {
          requests = Assoc.erase dec q.head q.requests;
          head = next;
          tail = if is_set next then q.tail else next;
        },
      )

  -- The loop of `drainTo`: the requests for which the manager's `missed` is called. It takes at most
  -- `fuel` rounds.
  unfoldable pub drain_from : ℕ → R → List (R × R) → Option (List R)
  drain_from zero head m = if is_set head then none else some []
  drain_from (suc fuel) head m =
      let rest = drain_from fuel (successor head m) m in
      if is_set head then elim rest [ none ↦ none | some rs ↦ some (head ∷ rs) ] else some []

  unfoldable pub drain_to : ℕ → RequestQ R → Option (List R × RequestQ R)
  drain_to fuel q = elim (drain_from fuel q.head q.requests) [
    | none ↦ none
    | some missed ↦ some (missed, new)
  ]

  -- The loop of `processDatum`, at most `fuel` rounds of it.
  unfoldable pub process_from : ℕ → R → RequestQ R → Option (Outcome R)
  unfolding decide
  process_from zero r q = none
  process_from (suc fuel) r q =
      let (head, left) = remove_head q in
      let rest = process_from fuel r left in
      if not (is_set head)
      then some (record { missed = []; received = false; left = left })
      else if decide (dec head r)
      then some (record { missed = []; received = true; left = left })
      else also_missed head rest
