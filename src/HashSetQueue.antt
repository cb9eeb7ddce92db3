-- ===== src/HashSetQueue.antt =====
-- main/misc/HashSetQueue.h: a queue without duplicates as a hash table of links. `VALUE()` is the
-- parameter `unset`. A call holds the mutex, so that calls come one after the other.
pub mod Chain
pub mod Push
pub mod Pop
pub mod Unlink
pub mod Relinks
pub mod Removal
pub mod Erase
use bicast.Base.{
  ℕ, zero, suc, List, [], ◌∷◌, length, if◌then◌else◌, ◌==◌, Bool, true, false, Option, none, some,
  decide,
}
use bicast.Base.Result.{Result, ok, raise, ◌>>=◌, ◌>>◌, out_of_range}
use bicast.Base.Assoc
use bicast.Base.Assoc.{lookup}

pub record Links (V : Type 0) : Type 0 where
  pub prev : V
  pub next : V

pub record HashSetQueue (V : Type 0) : Type 0 where
  pub links_map : List (V × Links V)
  pub head : V
  pub tail : V

module _ {V : Type 0} (dec : Discrete V) (unset : V) where
  unfoldable pub new : HashSetQueue V
  new = record { links_map = []; head = unset; tail = unset }

  unfoldable pub size : HashSetQueue V → ℕ
  size q = length q.links_map

  unfoldable pub empty : HashSetQueue V → Bool
  empty q = length q.links_map == 0

  -- `linksMap.at(v).next = next` and `linksMap.at(v).prev = prev`.
  unfoldable pub set_next : V → V → List (V × Links V) → Result (List (V × Links V))
  set_next v next m = elim (lookup dec v m) [
    | none ↦ raise out_of_range
    | some links ↦ ok (Assoc.put dec v (record links { next = next }) m)
  ]

  unfoldable pub set_prev : V → V → List (V × Links V) → Result (List (V × Links V))
  set_prev v prev m = elim (lookup dec v m) [
    | none ↦ raise out_of_range
    | some links ↦ ok (Assoc.put dec v (record links { prev = prev }) m)
  ]

  -- `push` of a value that is not there, behind `emplace`.
  unfoldable pub append : V → HashSetQueue V → Result (HashSetQueue V)
  append value q =
      let m = Assoc.put dec value (record { prev = q.tail; next = unset }) q.links_map in
      if length m == 1
      then ok (record { links_map = m; head = value; tail = value })
      else (set_next q.tail value m >>= λ linked.
          ok (record { links_map = linked; head = q.head; tail = value }))

  unfoldable pub push : V → HashSetQueue V → Result (Bool × HashSetQueue V)
  push value q =
      if Assoc.has dec value q.links_map
      then ok (false, q)
      else (append value q >>= λ r. ok (true, r))

  unfoldable pub front : HashSetQueue V → Result V
  front q = if length q.links_map == 0 then raise out_of_range else ok q.head

  -- `pop` of a queue that is not empty, whose head's successor is known.
  unfoldable pub advance : V → HashSetQueue V → Result (HashSetQueue V)
  advance next q =
      let m = Assoc.erase dec q.head q.links_map in
      if length m == 0
      then ok (record { links_map = m; head = next; tail = unset })
      else (set_prev next unset m >>= λ linked.
          ok (record { links_map = linked; head = next; tail = q.tail }))

  unfoldable pub pop : HashSetQueue V → Result (HashSetQueue V)
  pop q =
      if length q.links_map == 0 then raise out_of_range else elim (lookup dec q.head q.links_map) [
        | none ↦ raise out_of_range
        | some links ↦ advance links.next q
      ]

  -- The two relinkings of `erase`, of the side of the head and of that of the tail.
  unfoldable pub unlink_front : V → Links V → HashSetQueue V → Result (HashSetQueue V)
  unlink_front value links q =
      if decide (dec q.head value)
      then ok (record q { head = links.next })
      else (set_next links.prev links.next q.links_map >>= λ m. ok (record q { links_map = m }))

  unfoldable pub unlink_back : V → Links V → HashSetQueue V → Result (HashSetQueue V)
  unlink_back value links q =
      if decide (dec q.tail value)
      then ok (record q { tail = links.prev })
      else (set_prev links.next links.prev q.links_map >>= λ m. ok (record q { links_map = m }))

  unfoldable pub erase : V → HashSetQueue V → Result (Bool × HashSetQueue V)
  erase value q = elim (lookup dec value q.links_map) [
    | none ↦ ok (false, q)
    | some links ↦ do
      front ← unlink_front value links q
      back ← unlink_back value links front
      ok (true, record back { links_map = Assoc.erase dec value back.links_map })
  ]
