-- ===== src/Bookkeeper/Pub.antt =====
-- `PubBookkeeper` of main/p2p/Bookkeeper.cpp.
pub mod Worst
use bicast.Base.{
  ℕ, ◌+◌, ◌-◌, ◌<◌, ◌≤◌, ◌%◌, ◌^◌, List, [], ◌∷◌, map, ltb, leb, ◌==◌, if◌then◌else◌, not, ◌&&◌,
  Bool, true, false, Option, none, some,
}
use bicast.Base.Assoc
use bicast.Base.Assoc.{lookup}

-- The map of a peer's address to its number of requests, an `int_fast32_t` that stays below 2 ^ 63.
abbrev pub Requests : Type 0 → Type 0
Requests A = List (A × ℕ)

unfoldable pub reset : {A : Type 0} → Requests A → Requests A
reset m = map (λ e. (e.0, 0)) m

-- The loop of `getWorstPeer`. `maxCount` is -1 at the start, `none` here.
abbrev pub above : ℕ → Option ℕ → Bool
above count none = true
above count (some max) = ltb max count

unfoldable pub scan : {A : Type 0} → Requests A → Option ℕ → Option A → Option A
scan [] max worst = worst
scan (e ∷ m) max worst =
    let higher = not (e.1 == 0) && above e.1 max in
    scan m (if higher then some e.1 else max) (if higher then some e.0 else worst)

unfoldable pub get_worst_peer : {A : Type 0} → Requests A → Option A
get_worst_peer m = scan m none none

module _ {A : Type 0} (dec : Discrete A) where
  unfoldable pub add : A → Requests A → Bool × Requests A
  add rmt m = (not (Assoc.has dec rmt m), Assoc.add dec rmt 0 m)

  unfoldable pub erase : A → Requests A → Bool × Requests A
  erase rmt m = (Assoc.has dec rmt m, Assoc.erase dec rmt m)

  abbrev count_or_zero : Option ℕ → ℕ
  count_or_zero none = 0
  count_or_zero (some n) = n

  unfoldable pub requested : A → Requests A → Requests A
  requested rmt m = Assoc.put dec rmt (count_or_zero (lookup dec rmt m) + 1) m
