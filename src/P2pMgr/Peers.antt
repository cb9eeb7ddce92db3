-- ===== src/P2pMgr/Peers.antt =====
-- The set of peers of main/p2p/P2pMgr.cpp and its counts.
use bicast.Base.{
  ℕ, ◌+◌, List, [], ◌∷◌, ◌++◌, ◌==◌, if◌then◌else◌, not, ◌&&◌, ◌||◌, Bool, true, false, ◌≡◌, ◌⊎◌,
  inl, inr, refl, sym, ap, ◌∙◌, arith, Bool-cases,
}
use mathlib.Core.Bool.{true≢false}
use bicast.Base.Int.{ℤ}
use bicast.P2pMgr.{
  Peer, Kind, publisher, subscriber, Mgr, in_set, erase_from, update_tier, update_tiers,
  notify_srvr_info, notify_if,
}

-- The peer is one of the set.
abbrev pub HasPeer : Peer → List Peer → Type 0
HasPeer p [] = ⊥
HasPeer p (q ∷ ps) = (p ≡ q) ⊎ HasPeer p ps

-- No object twice.
abbrev pub Distinct : List Peer → Type 0
Distinct [] = Unit {0}
Distinct (p ∷ ps) = (in_set p ps ≡ false) × Distinct ps

-- Whether a peer counts as a server's or as a client's.
abbrev pub is_srvr : Kind → Peer → Bool
is_srvr publisher p = true
is_srvr subscriber p = not p.is_client

abbrev pub is_clnt : Kind → Peer → Bool
is_clnt publisher p = false
is_clnt subscriber p = p.is_client

-- How many peers of the set pass a test.
unfoldable pub number : (Peer → Bool) → List Peer → ℕ
number f [] = 0
number f (p ∷ ps) = (if f p then 1 else 0) + number f ps

pub HasPeer-in_set : (p : Peer) (ps : List Peer) → HasPeer p ps → in_set p ps ≡ true
unfolding in_set
HasPeer-in_set p [] h = elim h [ ]
HasPeer-in_set p (q ∷ ps) (inl e) = rw e (ground arith)
HasPeer-in_set p (q ∷ ps) (inr h) = let rest = HasPeer-in_set p ps h in ground (arith, rest)

flip : (p q : Peer) → (p.pointer == q.pointer) ≡ (q.pointer == p.pointer)
flip p q = ground arith

-- An object is at most once in the set.
HasPeer-ne :
    (p q : Peer) (ps : List Peer)
    → HasPeer p ps
    → in_set q ps ≡ false
    → (p.pointer == q.pointer) ≡ false
unfolding in_set
HasPeer-ne p q [] h d = elim h [ ]
HasPeer-ne p q (r ∷ ps) (inl e) d = rw e (ground (arith, d))
HasPeer-ne p q (r ∷ ps) (inr h) d = HasPeer-ne p q ps h (ground (arith, d))

pub erase_from_absent : (p : Peer) (ps : List Peer) → in_set p ps ≡ false → erase_from p ps ≡ ps
unfolding erase_from in_set
erase_from_absent p [] h = refl
erase_from_absent p (q ∷ ps) h = ground (arith, h, erase_from_absent p ps)

-- The set without a peer, and with one more.
pub in_set-erase_from :
    (p q : Peer) (ps : List Peer)
    → in_set q (erase_from p ps) ≡ (not (p.pointer == q.pointer) && in_set q ps)
unfolding erase_from in_set
in_set-erase_from p q [] = ground arith
in_set-erase_from p q (r ∷ ps) = ground (arith, in_set-erase_from p q ps)

pub erase_from-Distinct : (p : Peer) (ps : List Peer) → Distinct ps → Distinct (erase_from p ps)
unfolding erase_from
erase_from-Distinct p [] d = tt
erase_from-Distinct p (q ∷ ps) (d, ds) =
    let rest = erase_from-Distinct p ps ds in ground (arith, d, rest, in_set-erase_from p q ps)

pub number-erase_from :
    (f : Peer → Bool) (p : Peer) (ps : List Peer)
    → Distinct ps
    → HasPeer p ps
    → number f (erase_from p ps) + (if f p then 1 else 0) ≡ number f ps
unfolding number erase_from
number-erase_from f p [] d h = elim h [ ]
number-erase_from f p (q ∷ ps) (d, ds) (inl e) =
    let gone = erase_from_absent p ps (ap (λ r. in_set r ps) e ∙ d) in
    let same : (p.pointer == q.pointer) ≡ true = rw e (ground arith) in
    let value = ap {B = ℕ} (λ r. if f r then 1 else 0) e in rw (same, gone) (omega (arith, value))
number-erase_from f p (q ∷ ps) (d, ds) (inr h) =
    let rest = number-erase_from f p ps ds h in
    let other = HasPeer-ne p q ps h d in rw other (omega (arith, rest))

pub in_set-append :
    (p q : Peer) (ps : List Peer)
    → in_set q (ps ++ (p ∷ [])) ≡ (in_set q ps || (q.pointer == p.pointer))
unfolding in_set
in_set-append p q [] = ground arith
in_set-append p q (r ∷ ps) = ground (arith, in_set-append p q ps)

pub append-Distinct :
    (p : Peer) (ps : List Peer) → Distinct ps → in_set p ps ≡ false → Distinct (ps ++ (p ∷ []))
unfolding in_set
append-Distinct p [] d h = (refl, tt)
append-Distinct p (q ∷ ps) (d, ds) h =
    let rest = append-Distinct p ps ds (ground (arith, h)) in
    ground (arith, d, h, rest, in_set-append p q ps)

pub number-append :
    (f : Peer → Bool) (p : Peer) (ps : List Peer)
    → number f (ps ++ (p ∷ [])) ≡ number f ps + (if f p then 1 else 0)
unfolding number
number-append f p [] = omega arith
number-append f p (q ∷ ps) = omega (arith, number-append f p ps)

pub HasPeer-append : (p q : Peer) (ps : List Peer) → HasPeer q ps → HasPeer q (ps ++ (p ∷ []))
HasPeer-append p q [] h = elim h [ ]
HasPeer-append p q (r ∷ ps) (inl e) = inl e
HasPeer-append p q (r ∷ ps) (inr h) = inr (HasPeer-append p q ps h)

pub HasPeer-init :
    (p q : Peer) (ps : List Peer) → HasPeer q (ps ++ (p ∷ [])) → HasPeer q ps ⊎ (q ≡ p)
HasPeer-init p q [] (inl e) = inr e
HasPeer-init p q [] (inr h) = elim h [ ]
HasPeer-init p q (r ∷ ps) (inl e) = inl (inl e)
HasPeer-init p q (r ∷ ps) (inr h) = elim (HasPeer-init p q ps h) [
  | inl old ↦ inl (inr old)
  | inr new ↦ inr new
]

pub HasPeer-last : (p : Peer) (ps : List Peer) → HasPeer p (ps ++ (p ∷ []))
HasPeer-last p [] = inl refl
HasPeer-last p (q ∷ ps) = inr (HasPeer-last p ps)

pub HasPeer-erase_from :
    (p q : Peer) (ps : List Peer)
    → (p.pointer == q.pointer) ≡ false
    → HasPeer q ps
    → HasPeer q (erase_from p ps)
unfolding erase_from
HasPeer-erase_from p q [] d h = elim h [ ]
HasPeer-erase_from p q (r ∷ ps) d (inl e) =
    let other : (p.pointer == r.pointer) ≡ false = ap (λ y. p.pointer == y.pointer) (sym e) ∙ d in
    rw other (inl e)
HasPeer-erase_from p q (r ∷ ps) d (inr h) = elim (Bool-cases (p.pointer == r.pointer)) [
  | inl same ↦ rw same (HasPeer-erase_from p q ps d h)
  | inr other ↦ rw other (inr (HasPeer-erase_from p q ps d h))
]

kept :
    (p q r : Peer) (ps : List Peer)
    → (p.pointer == r.pointer) ≡ false
    → HasPeer q (erase_from p (r ∷ ps))
    → (q ≡ r) ⊎ HasPeer q (erase_from p ps)
unfolding erase_from
kept p q r ps apart h = rw apart at h

pub erase_from-HasPeer :
    (p q : Peer) (ps : List Peer)
    → HasPeer q (erase_from p ps)
    → HasPeer q ps × ((p.pointer == q.pointer) ≡ false)
unfolding erase_from
erase_from-HasPeer p q [] h = elim h [ ]
erase_from-HasPeer p q (r ∷ ps) h = elim (Bool-cases (p.pointer == r.pointer)) [
  | inl same ↦ let (old, other) = erase_from-HasPeer p q ps (rw same at h) in (inr old, other)
  | inr apart ↦ elim (kept p q r ps apart h) [
    | inl e ↦ (inl e, ap (λ y. p.pointer == y.pointer) e ∙ apart)
    | inr later ↦ let (old, other) = erase_from-HasPeer p q ps later in (inr old, other)
  ]
]

-- An object is one peer.
pub HasPeer-unique :
    (p q : Peer) (ps : List Peer)
    → Distinct ps
    → HasPeer p ps
    → HasPeer q ps
    → (p.pointer == q.pointer) ≡ true
    → p ≡ q
HasPeer-unique p q [] d h k e = elim h [ ]
HasPeer-unique p q (r ∷ ps) (d, ds) (inl h) (inl k) e = h ∙ sym k
HasPeer-unique p q (r ∷ ps) (d, ds) (inl h) (inr k) e =
    absurd
      (true≢false (sym e ∙ flip p q ∙ ap (λ y. q.pointer == y.pointer) h ∙ HasPeer-ne q r ps k d))
HasPeer-unique p q (r ∷ ps) (d, ds) (inr h) (inl k) e =
    absurd (true≢false (sym e ∙ ap (λ y. p.pointer == y.pointer) k ∙ HasPeer-ne p r ps h d))
HasPeer-unique p q (r ∷ ps) (d, ds) (inr h) (inr k) e = HasPeer-unique p q ps ds h k e

-- Only the information on the server changes.
pub update_tier_info :
    {B : Type 0} (tier : ℤ) (m : Mgr B)
    → (update_tier tier m).1 ≡ record m { srvr_info = (update_tier tier m).1.srvr_info }
unfolding update_tier
update_tier_info tier m = ground arith

pub update_tiers_info :
    {B : Type 0} (ps : List Peer) (m : Mgr B)
    → (update_tiers ps m).1 ≡ record m { srvr_info = (update_tiers ps m).1.srvr_info }
unfolding update_tiers
update_tiers_info [] m = refl
update_tiers_info {B} (p ∷ ps) m =
    let rest = update_tiers_info ps (update_tier p.tier m).1 in
    let one = update_tier_info p.tier m in
    rest
    ∙ ap {B = Mgr B}
        (λ n. record n { srvr_info = (update_tiers ps (update_tier p.tier m).1).1.srvr_info }) one

pub notify_if_info :
    {B : Type 0} (N : Type 0) (b : Bool) (now : ℤ) (m : Mgr B)
    → (notify_if {N = N} b now m).0
      ≡ record m { srvr_info = (notify_if {N = N} b now m).0.srvr_info }
unfolding notify_srvr_info
notify_if_info N true now m = refl
notify_if_info N false now m = refl
