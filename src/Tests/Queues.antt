-- ===== src/Tests/Queues.antt =====
-- Runs of main/misc/HashSetQueue.h, with numbers for values and 0 for the default value.
use bicast.Base.{ℕ, [], ◌∷◌, ◌++◌, not, if◌then◌else◌, ◌≡◌, refl, ℕ_discrete, decide}
use bicast.Base.Assoc
use bicast.Base.Assoc.{lookup}
use bicast.Base.Sets
use bicast.Base.Result.{ok}
use bicast.HashSetQueue.{HashSetQueue, push, front}
use bicast.HashSetQueue.Chain.{Represents}
use bicast.HashSetQueue.Push.{push-Represents}
use bicast.HashSetQueue.Pop.{Pops, pop-Represents}

-- The queue of 5 and 6.
abbrev two_values : HashSetQueue ℕ
two_values = record {
  links_map = (5, record { prev = 0; next = 6 }) ∷ (6, record { prev = 5; next = 0 }) ∷ [];
  head = 5;
  tail = 6;
}

two_values-Represents : Represents ℕ_discrete 0 two_values (5 ∷ 6 ∷ [])
unfolding Sets.contains Assoc.has lookup ℕ_discrete decide
two_values-Represents = record {
  unique = (refl, (refl, tt));
  keys = λ k. refl;
  keyed = (refl, (refl, tt));
  count = refl;
  chain = (refl, (refl, tt));
  first = refl;
  last = refl;
}

push-Represents_example :
    (r : HashSetQueue ℕ) × ((push ℕ_discrete 0 7 two_values
        ≡ ok (not (Sets.contains ℕ_discrete 7 (5 ∷ 6 ∷ [])), r))
      × Represents ℕ_discrete 0 r (
          if Sets.contains ℕ_discrete 7 (5 ∷ 6 ∷ []) then 5 ∷ 6 ∷ [] else (5 ∷ 6 ∷ []) ++ (7 ∷ [])))
push-Represents_example =
    push-Represents ℕ_discrete 0 7 two_values (5 ∷ 6 ∷ []) two_values-Represents

pop-Represents_example :
    (front ℕ_discrete 0 two_values ≡ ok 5) × Pops ℕ_discrete 0 two_values (6 ∷ [])
pop-Represents_example = pop-Represents ℕ_discrete 0 5 (6 ∷ []) two_values two_values-Represents
