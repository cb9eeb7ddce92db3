-- ===== src/Tracker/Queue.antt =====
-- The server queue of main/p2p/Tracker.cpp as a `std::set` under `QueueComp`.
use bicast.Base.{true, false, ◌≡◌, ◌≢◌, refl, sym, subst, arith, ◌⊎◌, inl, inr, List, [], ◌∷◌, All}
use bicast.Base.Assoc
use bicast.Base.Assoc.{lookup}
use bicast.Base.Result.{ok}
use bicast.Inet.{SockAddr}
use bicast.Inet.SockOrder.{IsSock}
use bicast.SrvrInfo.{SockAddr-discrete}
use bicast.Tracker.{Infos, before, same, after, compare, insert_queue, erase_queue, count_queue}
use bicast.Tracker.Order.{goes_before-total, goes_before_trans}

-- An address of a well-formed kind on whose server there is information.
abbrev pub IsKnown : Infos → SockAddr → Type 0
IsKnown infos a = IsSock a × (Assoc.has SockAddr-discrete a infos ≡ true)

abbrev pub Precedes : Infos → SockAddr → SockAddr → Type 0
Precedes infos a b = compare infos a b ≡ ok before

-- Every server of the queue goes before those that follow it.
abbrev pub IsSorted : Infos → List SockAddr → Type 0
IsSorted infos [] = Unit {0}
IsSorted infos (a ∷ q) = All (Precedes infos a) q × IsSorted infos q

abbrev pub IsQueue : Infos → List SockAddr → Type 0
IsQueue infos q = All (IsKnown infos) q × IsSorted infos q

-- The queue does not have the address.
abbrev pub Lacks : SockAddr → List SockAddr → Type 0
Lacks a = All (λ b. b ≢ a)

compare_cases :
    (infos : Infos) (a b : SockAddr)
    → IsKnown infos a
    → IsKnown infos b
    → (Precedes infos a b × (compare infos b a ≡ ok after))
      ⊎ (((compare infos a b ≡ ok after) × Precedes infos b a)
          ⊎ ((compare infos a b ≡ ok same) × (a ≡ b)))
unfolding compare
compare_cases infos a b ha hb =
    let (i, p) = Assoc.has-lookup-some SockAddr-discrete a infos ha.1 in
    let (j, q) = Assoc.has-lookup-some SockAddr-discrete b infos hb.1 in
    ground (arith, p, q, goes_before-total a b i j ha.0 hb.0)

Precedes-trans :
    (infos : Infos) (a b c : SockAddr)
    → IsKnown infos a
    → IsKnown infos b
    → IsKnown infos c
    → Precedes infos a b
    → Precedes infos b c
    → Precedes infos a c
unfolding compare
Precedes-trans infos a b c ha hb hc h k =
    let (i, p) = Assoc.has-lookup-some SockAddr-discrete a infos ha.1 in
    let (j, q) = Assoc.has-lookup-some SockAddr-discrete b infos hb.1 in
    let (l, r) = Assoc.has-lookup-some SockAddr-discrete c infos hc.1 in
    ground (arith, p, q, r, goes_before_trans a b c i j l ha.0 hb.0 hc.0)

Precedes-irrefl :
    (infos : Infos) (a b : SockAddr)
    → IsKnown infos a
    → IsKnown infos b
    → Precedes infos a b
    → b ≢ a
Precedes-irrefl infos a b ha hb h e = ground (arith, compare_cases infos b b hb hb)

-- What follows a server that the address precedes, the address precedes too.
Precedes-All :
    (infos : Infos) (a b : SockAddr) (q : List SockAddr)
    → IsKnown infos a
    → IsKnown infos b
    → All (IsKnown infos) q
    → Precedes infos a b
    → All (Precedes infos b) q
    → All (Precedes infos a) q
Precedes-All infos a b [] ha hb hq h all = tt
Precedes-All infos a b (c ∷ q) ha hb hq h all =
    (Precedes-trans infos a b c ha hb hq.0 h all.0, Precedes-All infos a b q ha hb hq.1 h all.1)

Precedes-Lacks :
    (infos : Infos) (a : SockAddr) (q : List SockAddr)
    → IsKnown infos a
    → All (IsKnown infos) q
    → All (Precedes infos a) q
    → Lacks a q
Precedes-Lacks infos a [] ha hq all = tt
Precedes-Lacks infos a (b ∷ q) ha hq all =
    (Precedes-irrefl infos a b ha hq.0 all.0, Precedes-Lacks infos a q ha hq.1 all.1)

-- What an insertion and an erasure come to: a queue again, which an address precedes that preceded
-- what was put into it.
pub record Inserted (infos : Infos) (a : SockAddr) (q : List SockAddr) : Type 0 where
  pub queue : List SockAddr
  pub outcome : insert_queue infos a q ≡ ok queue
  pub known : All (IsKnown infos) queue
  pub sorted : IsSorted infos queue
  pub follows :
      (x : SockAddr) → Precedes infos x a → All (Precedes infos x) q → All (Precedes infos x) queue

pub record Erased (infos : Infos) (a : SockAddr) (q : List SockAddr) : Type 0 where
  pub queue : List SockAddr
  pub outcome : erase_queue infos a q ≡ ok queue
  pub known : All (IsKnown infos) queue
  pub sorted : IsSorted infos queue
  pub lacks : Lacks a queue
  pub follows : (x : SockAddr) → All (Precedes infos x) q → All (Precedes infos x) queue

pub insert_queue-Inserted :
    (infos : Infos) (a : SockAddr) (q : List SockAddr)
    → IsKnown infos a
    → IsQueue infos q
    → Inserted infos a q
unfolding insert_queue
insert_queue-Inserted infos a [] h w = record {
  queue = a ∷ [];
  outcome = refl;
  known = (h, tt);
  sorted = (tt, tt);
  follows = λ x p all. (p, tt);
}
insert_queue-Inserted infos a (b ∷ q) h ((hb, hq), (all, s)) = elim (compare_cases infos a b h hb) [
  | inl (p, r) ↦ record {
    queue = a ∷ b ∷ q;
    outcome = rw p;
    known = (h, (hb, hq));
    sorted = ((p, Precedes-All infos a b q h hb hq p all), (all, s));
    follows = λ x k l. (k, l);
  }
  | inr (inl (r, p)) ↦
      let rest : Inserted infos a q = insert_queue-Inserted infos a q h (hq, s) in
      record {
        queue = b ∷ rest.queue;
        outcome = rw (r, rest.outcome);
        known = (hb, rest.known);
        sorted = (rest.follows b p all, rest.sorted);
        follows = λ x k l. (l.0, rest.follows x k l.1);
      }
  | inr (inr (e, one)) ↦ record {
    queue = b ∷ q;
    outcome = rw e;
    known = (hb, hq);
    sorted = (all, s);
    follows = λ x k l. l;
  }
]

pub erase_queue-Erased :
    (infos : Infos) (a : SockAddr) (q : List SockAddr)
    → IsKnown infos a
    → IsQueue infos q
    → Erased infos a q
unfolding erase_queue
erase_queue-Erased infos a [] h w = record {
  queue = [];
  outcome = refl;
  known = tt;
  sorted = tt;
  lacks = tt;
  follows = λ x l. l;
}
erase_queue-Erased infos a (b ∷ q) h ((hb, hq), (all, s)) = elim (compare_cases infos a b h hb) [
  | inl (p, r) ↦ record {
    queue = b ∷ q;
    outcome = rw p;
    known = (hb, hq);
    sorted = (all, s);
    lacks = Precedes-Lacks infos a (b ∷ q) h (hb, hq) (p, Precedes-All infos a b q h hb hq p all);
    follows = λ x l. l;
  }
  | inr (inl (r, p)) ↦
      let rest : Erased infos a q = erase_queue-Erased infos a q h (hq, s) in
      record {
        queue = b ∷ rest.queue;
        outcome = rw (r, rest.outcome);
        known = (hb, rest.known);
        sorted = (rest.follows b all, rest.sorted);
        lacks = ((λ e. Precedes-irrefl infos b a hb h p (sym e)), rest.lacks);
        follows = λ x l. (l.0, rest.follows x l.1);
      }
  | inr (inr (e, one)) ↦ record {
    queue = q;
    outcome = rw e;
    known = hq;
    sorted = s;
    lacks = subst (λ y. Lacks y q) (sym one) (Precedes-Lacks infos b q hb hq all);
    follows = λ x l. l.1;
  }
]

-- The test whether the queue has an address, which ends in an answer, and is right if that is no.
pub count_queue_lem :
    (infos : Infos) (a : SockAddr) (q : List SockAddr)
    → IsKnown infos a
    → IsQueue infos q
    → (count_queue infos a q ≡ ok true) ⊎ ((count_queue infos a q ≡ ok false) × Lacks a q)
unfolding count_queue
count_queue_lem infos a [] h w = inr (refl, tt)
count_queue_lem infos a (b ∷ q) h ((hb, hq), (all, s)) = elim (compare_cases infos a b h hb) [
  | inl (p, r) ↦
      inr (
        rw p,
        Precedes-Lacks infos a (b ∷ q) h (hb, hq) (p, Precedes-All infos a b q h hb hq p all),
      )
  | inr (inl (r, p)) ↦ elim (count_queue_lem infos a q h (hq, s)) [
    | inl e ↦ inl (rw (r, e))
    | inr (e, l) ↦ inr (rw (r, e), ((λ e. Precedes-irrefl infos b a hb h p (sym e)), l))
  ]
  | inr (inr (e, one)) ↦ inl (rw e)
]
