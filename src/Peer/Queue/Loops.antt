-- ===== src/Peer/Queue/Loops.antt =====
-- The loops of `drainTo` and `processDatum` of main/p2p/Peer.cpp, on a queue that stands for a list.
use bicast.Base.{
  ℕ, zero, suc, ◌≤◌, ◌<◌, List, [], ◌∷◌, ◌++◌, length, true, false, none, some, decide, ◌≡◌, ◌≢◌,
  refl, ap, ◌∙◌, arith,
}
use bicast.Base.Sets
use bicast.Peer.Queue.{
  RequestQ, is_set, remove_head, successor, drain_from, drain_to, process_from, new,
}
use bicast.Peer.Queue.Represents.{
  Represents, IsChain, front_or, is_set-unset, is_set-member, behind, remove_head-Represents,
}

module _ {R : Type 0} (dec : Discrete R) (unset : R) where
  drain_from_lem :
      (fuel : ℕ) (m : List (R × R)) (xs : List R)
      → IsChain dec unset m xs
      → Sets.contains dec unset xs ≡ false
      → length xs ≤ fuel
      → drain_from dec unset fuel (front_or dec unset xs) m ≡ some xs
  unfolding drain_from
  drain_from_lem zero m [] c set h = rw (is_set-unset dec unset) refl
  drain_from_lem zero m (x ∷ xs) c set h = absurd (omega (arith, h))
  drain_from_lem (suc fuel) m [] c set h = rw (is_set-unset dec unset) refl
  drain_from_lem (suc fuel) m (x ∷ xs) (c, cs) set h =
      let first = is_set-member dec unset x (x ∷ xs) set (Sets.contains_head dec x xs) in
      let next : successor dec unset x m ≡ front_or dec unset xs =
        ap (λ o. elim o [ none ↦ unset | some n ↦ n ]) c in
      let rest : drain_from dec unset fuel (successor dec unset x m) m ≡ some xs =
        ap (λ n. drain_from dec unset fuel n m) next
        ∙ drain_from_lem fuel m xs cs (behind dec unset x unset xs set) (omega (arith, h)) in
      ground (arith, first, rest)

  pub drain_to_lem :
      (fuel : ℕ) (q : RequestQ R) (xs : List R)
      → Represents dec unset q xs
      → length xs ≤ fuel
      → drain_to dec unset fuel q ≡ some (xs, new dec unset)
  unfolding drain_to
  drain_to_lem fuel q xs w h =
      let all : drain_from dec unset fuel q.head q.requests ≡ some xs =
        ap (λ x. drain_from dec unset fuel x q.requests) w.first
        ∙ drain_from_lem fuel q.requests xs w.chain w.set h in
      rw (all, drain_to) refl

  pub process_from_lem :
      (fuel : ℕ) (r : R) (before after : List R) (q : RequestQ R)
      → Represents dec unset q (before ++ (r ∷ after))
      → length before < fuel
      → (left : RequestQ R) × ((process_from dec unset fuel r q
            ≡ some (record { missed = before; received = true; left = left }))
          × Represents dec unset left after)
  unfolding process_from decide
  process_from_lem zero r before after q w h = absurd (omega (arith, h))
  process_from_lem (suc fuel) r [] after q w h =
      let (head, left) = remove_head-Represents dec unset q r after w in
      let set = is_set-member dec unset r (r ∷ after) w.set (Sets.contains_head dec r after) in
      let first : is_set dec unset (remove_head dec unset q).0 ≡ true =
        ap (is_set dec unset) head ∙ set in
      ((remove_head dec unset q).1, (ground (arith, first, head), left))
  process_from_lem (suc fuel) r (x ∷ before) after q w h =
      let (head, left) = remove_head-Represents dec unset q x (before ++ (r ∷ after)) w in
      let set =
        is_set-member dec unset x (x ∷ (before ++ (r ∷ after))) w.set
          (Sets.contains_head dec x (before ++ (r ∷ after))) in
      let (last, (rest, done)) =
        process_from_lem fuel r before after (remove_head dec unset q).1 left (omega (arith, h)) in
      let first : is_set dec unset (remove_head dec unset q).0 ≡ true =
        ap (is_set dec unset) head ∙ set in
      let apart : r ≢ x =
        Sets.ne-of-contains dec r x (before ++ (r ∷ after)) (contains_middle before) w.unique.0 in
      (last, (ground (arith, first, head, apart, rest), done))
    where
      contains_middle : (before : List R) → Sets.contains dec r (before ++ (r ∷ after)) ≡ true
      contains_middle [] = Sets.contains_head dec r after
      contains_middle (y ∷ ys) = Sets.contains_tail dec r y (ys ++ (r ∷ after)) (contains_middle ys)
