-- ===== src/Tracker/Drained.antt =====
-- What becomes of a tracker (main/p2p/Tracker.cpp) whose servers have all been handed out by
-- `getNextAddr`.
use mathlib.Core.Bool.{true≢false}
use bicast.Base.{
  ℕ, ◌+◌, ◌<◌, ◌^◌, ◌%◌, ◌≢◌, Bool, true, sym, arith, All, zero, suc, ◌≤◌, List, [], ◌∷◌, length,
  false, none, ◌≡◌, refl, ap, ◌∙◌, subst, Option, some,
}
use bicast.Base.Assoc
use bicast.Base.Assoc.{lookup}
use bicast.Base.Sets
use bicast.Base.Int.{ℤ}
use bicast.Inet.SockOrder.{IsSock}
use bicast.Base.Result.{Result, ok, raise, ◌>>=◌, assertion_failed}
use bicast.Inet.{SockAddr}
use bicast.SrvrInfo.{SrvrInfo, SockAddr-discrete}
use bicast.Tracker.{Infos, Tracker, new, is_set, update, make_room, merge, try_add, insert_all}
use bicast.Tracker.Queue.{Inserted, insert_queue-Inserted}
use bicast.Tracker.Stable.{IsQueue-put, IsQueue-all_known}
use bicast.Tracker.Service.{Next, waits, returns, get_next_addr}
use bicast.Tracker.Capacity.{IsTracker, length-put_new, dequeued-Lacks}
use bicast.Tracker.Add.{try_add-abort}
use bicast.Tracker.Calls.{get_next_addr_lem, Chosen}

-- As many calls of `getNextAddr`, none of which may have to wait.
unfoldable pub take_next : ℕ → Tracker → Result (Option Tracker)
take_next zero t = ok (some t)
take_next (suc n) t =
    get_next_addr t >>= λ o. elim o [ waits ↦ ok none | returns a r ↦ take_next n r ]

take_next_all :
    (q : List SockAddr) (t : Tracker)
    → t.srvr_queue ≡ q
    → t.done ≡ false
    → IsTracker t
    → take_next (length q) t ≡ ok (some (record t { srvr_queue = [] }))
unfolding take_next
take_next_all [] t e d w = ap (λ q. ok (some (record t { srvr_queue = q }))) e
take_next_all (a ∷ q) t e d w =
    let (outcome, (_, w2)) = subst (Chosen t) e (get_next_addr_lem t d w) in
    ap (λ o. o >>= step (length q)) outcome
    ∙ take_next_all q (record t { srvr_queue = q }) refl d w2
  where
    step : ℕ → Next → Result (Option Tracker)
    step n o = elim o [ waits ↦ ok none | returns a r ↦ take_next n r ]

-- The addresses of the servers that the entries of a tracker are about.
abbrev pub addrs : Infos → List SockAddr
addrs [] = []
addrs (e ∷ es) = e.1.srvr_addr ∷ addrs es

abbrev pub HasSocks : Infos → Type 0
HasSocks es = All (λ e. (is_set e.1.srvr_addr ≡ true) × IsSock e.1.srvr_addr) es

abbrev find : SockAddr → Infos → Option SrvrInfo
find = lookup SockAddr-discrete

abbrev listed : SockAddr → List SockAddr → Bool
listed = Sets.contains SockAddr-discrete

-- Below the capacity a server that is not known is added, and no other one goes.
abbrev Added : SrvrInfo → Tracker → Tracker → Type 0
Added i t r =
    (try_add i t ≡ ok (true, r))
    × (IsTracker r
        × ((r.srvr_infos ≡ Assoc.put SockAddr-discrete i.srvr_addr i t.srvr_infos)
            × ((r.capacity ≡ t.capacity) × (r.done ≡ t.done))))

try_add_below :
    (i : SrvrInfo) (t : Tracker)
    → is_set i.srvr_addr ≡ true
    → IsSock i.srvr_addr
    → IsTracker t
    → length t.srvr_infos < t.capacity
    → find i.srvr_addr t.srvr_infos ≡ none
    → (r : Tracker) × Added i t r
unfolding try_add merge make_room update
try_add_below i t set h w less new =
    let absent = Assoc.lookup-none-has SockAddr-discrete i.srvr_addr t.srvr_infos new in
    let infos = Assoc.put SockAddr-discrete i.srvr_addr i t.srvr_infos in
    let (q, (outcome, (lacks, qq))) = dequeued-Lacks i.srvr_addr t h w.queue in
    let e : Inserted infos i.srvr_addr q =
      insert_queue-Inserted infos i.srvr_addr q
        (h, Assoc.has-put_self SockAddr-discrete i.srvr_addr i t.srvr_infos)
        (IsQueue-put t.srvr_infos i.srvr_addr i q lacks qq) in
    let all = IsQueue-all_known infos e.queue (e.known, e.sorted) in
    let longer = length-put_new i.srvr_addr i t.srvr_infos absent in
    (
      record t { srvr_infos = infos; srvr_queue = e.queue },
      (
        ground (arith, set, new, less, outcome, e.outcome, all),
        (
          record {
            queue = (e.known, e.sorted);
            bound = omega (arith, longer, less);
            room = w.room;
          },
          (refl, (refl, refl)),
        ),
      ),
    )

-- What the insertion of another tracker's entries leads to.
abbrev Inserts : Infos → Tracker → Tracker → Type 0
Inserts es t r =
    (insert_all es t ≡ ok r)
    × (IsTracker r
        × ((length r.srvr_infos ≡ length t.srvr_infos + length es)
            × ((r.capacity ≡ t.capacity)
                × ((r.done ≡ t.done)
                    × ((a : SockAddr)
                        → listed a (addrs es) ≡ false
                        → find a r.srvr_infos ≡ find a t.srvr_infos)))))

insert_all-Inserts :
    (es : Infos) (t : Tracker)
    → HasSocks es
    → Sets.IsUnique SockAddr-discrete (addrs es)
    → IsTracker t
    → length t.srvr_infos + length es ≤ t.capacity
    → ((a : SockAddr) → listed a (addrs es) ≡ true → find a t.srvr_infos ≡ none)
    → (r : Tracker) × Inserts es t r
unfolding insert_all Sets.contains
insert_all-Inserts [] t h u w fits new =
    (t, (refl, (w, (omega arith, (refl, (refl, λ a _. refl))))))
insert_all-Inserts (e ∷ es) t (h, hs) (once, u) w fits new =
    let b = e.1.srvr_addr in
    let unknown = new b (Sets.contains_head SockAddr-discrete b (addrs es)) in
    let (t2, (added, (w2, (infos, (cap, going))))) =
      try_add_below e.1 t h.0 h.1 w (omega (arith, fits)) unknown in
    let absent = Assoc.lookup-none-has SockAddr-discrete b t.srvr_infos unknown in
    let longer : length t2.srvr_infos ≡ length t.srvr_infos + 1 =
      ap length infos ∙ length-put_new b e.1 t.srvr_infos absent in
    let others = λ (a : SockAddr) (n : a ≢ b).
      ap (find a) infos ∙ Assoc.lookup-put_ne SockAddr-discrete b a e.1 t.srvr_infos n in
    let still = λ (a : SockAddr) (l : listed a (addrs es) ≡ true).
      others a (λ same. true≢false (sym l ∙ ap (λ x. listed x (addrs es)) same ∙ once))
      ∙ new a (ground (arith, l)) in
    let (r, (rest, (w3, (len, (cap2, (going2, kept)))))) =
      insert_all-Inserts es t2 hs u w2 (omega (arith, fits, longer, cap)) still in
    (
      r,
      (
        ground (arith, added, rest),
        (
          w3,
          (
            omega (arith, len, longer),
            (
              cap2 ∙ cap,
              (
                going2 ∙ going,
                λ a l. kept a (ground (arith, l)) ∙ others a (λ same. ground (arith, l, same)),
              ),
            ),
          ),
        ),
      ),
    )

find_nothing : (a : SockAddr) → find a [] ≡ none
unfolding lookup
find_nothing a = refl

new-IsTracker :
    (capacity : ℕ) (delay : ℤ)
    → 0 < capacity
    → capacity < 2 ^ 32
    → (t : Tracker) × ((new capacity delay ≡ ok t)
        × (IsTracker t × ((t.srvr_infos ≡ []) × ((t.capacity ≡ capacity) × (t.done ≡ false)))))
unfolding new
new-IsTracker capacity delay positive small =
    let t : Tracker = record {
      srvr_infos = [];
      srvr_queue = [];
      delay_queue = [];
      capacity = capacity % 2 ^ 32;
      done = false;
      delay = delay;
    } in
    let same : capacity % 2 ^ 32 ≡ capacity = omega (arith, small) in
    (
      t,
      (
        ground (arith, positive),
        (
          record { queue = (tt, tt); bound = omega arith; room = omega (arith, same, positive) },
          (refl, (same, refl)),
        ),
      ),
    )

-- If as many different servers with set, well-formed addresses as a new tracker has capacity are
-- inserted from another tracker, and `getNextAddr` is called once for each server that is then
-- queued, then all of this returns, and `tryAdd` of one more server fails an assertion.
pub drained-try_add :
    (es : Infos) (delay : ℤ) (i : SrvrInfo)
    → 0 < length es
    → length es < 2 ^ 32
    → HasSocks es
    → Sets.IsUnique SockAddr-discrete (addrs es)
    → listed i.srvr_addr (addrs es) ≡ false
    → (r : Tracker) × (((new (length es) delay >>= insert_all es >>= λ t.
            take_next (length t.srvr_queue) t)
          ≡ ok (some r))
        × (try_add i r ≡ raise assertion_failed))
drained-try_add es delay i some_es small h u other =
    let (s, (made, (w, (empty, (cap, going))))) = new-IsTracker (length es) delay some_es small in
    let unknown = λ (a : SockAddr). ap (find a) empty ∙ find_nothing a in
    let (t, (outcome, (w2, (len, (cap2, (going2, kept)))))) =
      insert_all-Inserts es s h u w (omega (arith, ap length empty, cap)) (λ a _. unknown a) in
    let full : t.capacity ≤ length t.srvr_infos = omega (arith, len, cap, cap2) in
    let new_one = kept i.srvr_addr other ∙ unknown i.srvr_addr in
    let taken = take_next_all t.srvr_queue t refl (going2 ∙ going) w2 in
    let r = record t { srvr_queue = [] } in
    (
      r,
      (
        ap (λ o. o >>= insert_all es >>= λ t. take_next (length t.srvr_queue) t) made
            ∙ ap (λ o. o >>= λ t. take_next (length t.srvr_queue) t) outcome
            ∙ taken,
        try_add-abort i r refl full new_one,
      ),
    )
