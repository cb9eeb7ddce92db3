-- ===== src/P2pMgr/Books.antt =====
-- What the manager of peers (main/p2p/P2pMgr.cpp) relies on in a bookkeeper (main/p2p/Bookkeeper.h). The
-- subscriber's and the publisher's bookkeepers of main/p2p/Bookkeeper.cpp are instances of it in
-- P2pMgr.SubBooks and P2pMgr.PubBooks.
use bicast.Base.{not, ◌&&◌, ◌||◌, Bool, true, Option, some, decide, ◌≡◌}
use bicast.Base.Result.{Result, ok}

-- The operations of `Bookkeeper` on peers with addresses in `A`, and their laws.
pub record Bookkeeping (A : Type 0) (dec : Discrete A) (B : Type 0) : Type 1 where
  pub add : A → Bool → B → Bool × B
  pub erase : A → B → Result (Bool × B)
  pub reset : B → B
  pub get_worst_peer : B → Option A
  -- Which peers it knows, and when it can be relied upon.
  pub knows : A → B → Bool
  pub IsSound : B → Type 0
  pub add-new : (a : A) (c : Bool) (b : B) → (add a c b).0 ≡ not (knows a b)
  pub add-knows :
      (a k : A) (c : Bool) (b : B) → knows k (add a c b).1 ≡ (decide (dec k a) || knows k b)
  pub add-IsSound : (a : A) (c : Bool) (b : B) → IsSound b → IsSound (add a c b).1
  pub erase_lem :
      (a : A) (b : B)
      → IsSound b
      → (d : B) × ((erase a b ≡ ok (knows a b, d))
          × (IsSound d × ((k : A) → knows k d ≡ (not (decide (dec k a)) && knows k b))))
  pub reset-knows : (k : A) (b : B) → knows k (reset b) ≡ knows k b
  pub reset-IsSound : (b : B) → IsSound b → IsSound (reset b)
  pub get_worst_peer-knows : (a : A) (b : B) → get_worst_peer b ≡ some a → knows a b ≡ true
