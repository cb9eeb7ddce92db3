-- ===== src/Tracker/Stable.antt =====
-- What a change of the information of main/p2p/Tracker.cpp leaves of the queue.
use bicast.Base.{true, false, ◌≡◌, ◌≢◌, refl, subst, ◌∙◌, arith, List, [], ◌∷◌, All}
use bicast.Base.Assoc
use bicast.Base.Assoc.{lookup}
use bicast.Inet.{SockAddr}
use bicast.SrvrInfo.{SrvrInfo, SockAddr-discrete}
use bicast.Tracker.{Infos, compare, all_known}
use bicast.Tracker.Queue.{IsKnown, Precedes, IsSorted, IsQueue, Lacks}

-- The order of two servers rests on their own information only.
Precedes-put :
    (infos : Infos) (k : SockAddr) (i : SrvrInfo) (a b : SockAddr)
    → a ≢ k
    → b ≢ k
    → Precedes infos a b
    → Precedes (Assoc.put SockAddr-discrete k i infos) a b
unfolding compare
Precedes-put infos k i a b ha hb h = ground (
  arith,
  h,
  Assoc.lookup-put_ne SockAddr-discrete k a i infos ha,
  Assoc.lookup-put_ne SockAddr-discrete k b i infos hb,
)

Precedes-erase :
    (infos : Infos) (k a b : SockAddr)
    → a ≢ k
    → b ≢ k
    → Precedes infos a b
    → Precedes (Assoc.erase SockAddr-discrete k infos) a b
unfolding compare
Precedes-erase infos k a b ha hb h = ground (
  arith,
  h,
  Assoc.lookup-erase_ne SockAddr-discrete k a infos ha,
  Assoc.lookup-erase_ne SockAddr-discrete k b infos hb,
)

-- A queue without an address stays one if the information on that is set or erased.
pub IsQueue-put :
    (infos : Infos) (k : SockAddr) (i : SrvrInfo) (q : List SockAddr)
    → Lacks k q
    → IsQueue infos q
    → IsQueue (Assoc.put SockAddr-discrete k i infos) q
IsQueue-put infos k i q l w = (known q w.0, sorted q l w.1)
  where
    known :
        (q : List SockAddr)
        → All (IsKnown infos) q
        → All (IsKnown (Assoc.put SockAddr-discrete k i infos)) q
    known [] all = tt
    known (a ∷ q) (h, all) = ((h.0, Assoc.has-put SockAddr-discrete k a i infos h.1), known q all)

    ahead :
        (a : SockAddr) (q : List SockAddr)
        → a ≢ k
        → Lacks k q
        → All (Precedes infos a) q
        → All (Precedes (Assoc.put SockAddr-discrete k i infos) a) q
    ahead a [] n l all = tt
    ahead a (b ∷ q) n l all = (Precedes-put infos k i a b n l.0 all.0, ahead a q n l.1 all.1)

    sorted :
        (q : List SockAddr)
        → Lacks k q
        → IsSorted infos q
        → IsSorted (Assoc.put SockAddr-discrete k i infos) q
    sorted [] l s = tt
    sorted (a ∷ q) l s = (ahead a q l.0 l.1 s.0, sorted q l.1 s.1)

pub IsQueue-erase :
    (infos : Infos) (k : SockAddr) (q : List SockAddr)
    → Lacks k q
    → IsQueue infos q
    → IsQueue (Assoc.erase SockAddr-discrete k infos) q
IsQueue-erase infos k q l w = (known q l w.0, sorted q l w.1)
  where
    known :
        (q : List SockAddr)
        → Lacks k q
        → All (IsKnown infos) q
        → All (IsKnown (Assoc.erase SockAddr-discrete k infos)) q
    known [] l all = tt
    known (a ∷ q) l (h, all) =
        ((h.0, Assoc.has-erase_ne SockAddr-discrete k a infos l.0 ∙ h.1), known q l.1 all)

    ahead :
        (a : SockAddr) (q : List SockAddr)
        → a ≢ k
        → Lacks k q
        → All (Precedes infos a) q
        → All (Precedes (Assoc.erase SockAddr-discrete k infos) a) q
    ahead a [] n l all = tt
    ahead a (b ∷ q) n l all = (Precedes-erase infos k a b n l.0 all.0, ahead a q n l.1 all.1)

    sorted :
        (q : List SockAddr)
        → Lacks k q
        → IsSorted infos q
        → IsSorted (Assoc.erase SockAddr-discrete k infos) q
    sorted [] l s = tt
    sorted (a ∷ q) l s = (ahead a q l.0 l.1 s.0, sorted q l.1 s.1)

-- `assertInvariant` holds of a queue.
pub IsQueue-all_known :
    (infos : Infos) (q : List SockAddr) → IsQueue infos q → all_known infos q ≡ true
unfolding all_known
IsQueue-all_known infos [] w = refl
IsQueue-all_known infos (a ∷ q) ((h, hq), (all, s)) =
    ground (arith, h.1, IsQueue-all_known infos q (hq, s))

-- A queue whose addresses are all known lacks an address that is not.
pub unknown-Lacks :
    (infos : Infos) (a : SockAddr) (q : List SockAddr)
    → Assoc.has SockAddr-discrete a infos ≡ false
    → All (IsKnown infos) q
    → Lacks a q
unknown-Lacks infos a [] h all = tt
unknown-Lacks infos a (b ∷ q) h (k, all) = (
  (λ e.
      let p : Assoc.has SockAddr-discrete a infos ≡ true =
        subst (λ y. Assoc.has SockAddr-discrete y infos ≡ true) e k.1 in
      cc),
  unknown-Lacks infos a q h all,
)
