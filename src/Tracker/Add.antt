-- ===== src/Tracker/Add.antt =====
-- `Tracker::Impl::tryAdd` of main/p2p/Tracker.cpp.
use bicast.Base.{
  ◌≤◌, ◌<◌, Bool, true, false, ◌≡◌, ◌≢◌, refl, subst, ◌∙◌, ap, arith, ◌⊎◌, inl, inr, List, [], ◌∷◌,
  All, some, none, length, ltb, Option-cases, Bool-cases,
}
use bicast.Base.Assoc
use bicast.Base.Assoc.{lookup}
use bicast.Base.Int.{ltb_ℤ}
use bicast.Base.Result.{ok, raise, assertion_failed}
use bicast.Inet.{SockAddr}
use bicast.Inet.SockOrder.{IsSock}
use bicast.SrvrInfo.{SrvrInfo, SockAddr-discrete}
use bicast.Tracker.{Infos, Tracker, last, make_room, renew, is_set, merge, try_add}
use bicast.Tracker.Queue.{IsKnown, count_queue_lem}
use bicast.Tracker.Stable.{IsQueue-put, IsQueue-all_known}
use bicast.Tracker.Capacity.{
  IsTracker, length-put_new, length-put_old, has-erase-false, remove-IsTracker, update-IsTracker,
}

last-IsKnown :
    (infos : Infos) (a : SockAddr) (q : List SockAddr)
    → All (IsKnown infos) (a ∷ q)
    → (w : SockAddr) × ((last (a ∷ q) ≡ some w) × IsKnown infos w)
last-IsKnown infos a [] h = (a, (refl, h.0))
last-IsKnown infos a (b ∷ q) h = last-IsKnown infos b q h.1

-- There is room for one more server, or one that is queued to go.
abbrev pub HasRoom : Tracker → Type 0
HasRoom t = (length t.srvr_infos < t.capacity) ⊎ (t.srvr_queue ≢ [])

-- What `make_room` comes to.
abbrev Roomy : SockAddr → Tracker → Type 0
Roomy a t =
    (r : Tracker) × ((make_room t ≡ ok r)
      × (IsTracker r
          × ((length r.srvr_infos < r.capacity)
              × (Assoc.has SockAddr-discrete a r.srvr_infos ≡ false)
              × (r.capacity ≡ t.capacity))))

make_room-full :
    (a : SockAddr) (t : Tracker) (q : List SockAddr)
    → t.srvr_queue ≡ q
    → IsTracker t
    → q ≢ []
    → ltb (length t.srvr_infos) t.capacity ≡ false
    → Assoc.has SockAddr-discrete a t.srvr_infos ≡ false
    → Roomy a t
unfolding make_room
make_room-full a t [] e w n full h = absurd (n refl)
make_room-full a t (b ∷ q) e w n full h =
    let known : All (IsKnown t.srvr_infos) (b ∷ q) =
      subst (All (IsKnown t.srvr_infos)) e w.queue.0 in
    let (worst, (is_last, k)) = last-IsKnown t.srvr_infos b q known in
    let (r, (outcome, (w2, less, capacity, infos))) = remove-IsTracker worst t w k in
    let l : last t.srvr_queue ≡ some worst = ap last e ∙ is_last in
    (
      r,
      (
        rw (full, l, outcome),
        (
          w2,
          (
            ground (arith, less, capacity),
            ap (Assoc.has SockAddr-discrete a) infos ∙ has-erase-false a worst t.srvr_infos h,
            capacity,
          ),
        ),
      ),
    )

make_room-Roomy :
    (a : SockAddr) (t : Tracker)
    → IsTracker t
    → HasRoom t
    → Assoc.has SockAddr-discrete a t.srvr_infos ≡ false
    → Roomy a t
unfolding make_room
make_room-Roomy a t w room h = elim (Bool-cases (ltb (length t.srvr_infos) t.capacity)) [
  | inl less ↦ (t, (rw less, (w, (ground arith, h, refl))))
  | inr full ↦ make_room-full a t t.srvr_queue refl w (λ e. ground arith) full h
]

renew-IsTracker :
    (i : SrvrInfo) (t : Tracker)
    → IsSock i.srvr_addr
    → IsTracker t
    → Assoc.has SockAddr-discrete i.srvr_addr t.srvr_infos ≡ true
    → (r : Tracker) × ((renew i t ≡ ok r) × (IsTracker r × (r.capacity ≡ t.capacity)))
unfolding renew
renew-IsTracker i t h w k =
    let same_length = length-put_old i.srvr_addr i t.srvr_infos k in
    let fits : length (Assoc.put SockAddr-discrete i.srvr_addr i t.srvr_infos) ≤ t.capacity =
      ground (arith, w.bound, same_length) in
    elim (count_queue_lem t.srvr_infos i.srvr_addr t.srvr_queue (h, k) w.queue) [
      | inl e ↦ let (r, (outcome, w2)) = update-IsTracker i t h w fits in (r, (rw (e, outcome), w2))
      | inr (e, lacks) ↦ (
        record t { srvr_infos = Assoc.put SockAddr-discrete i.srvr_addr i t.srvr_infos },
        (
          rw e,
          (
            record {
              queue = IsQueue-put t.srvr_infos i.srvr_addr i t.srvr_queue lacks w.queue;
              bound = fits;
              room = w.room;
            },
            refl,
          ),
        ),
      )
    ]

-- The information of a server that is not known, or newer than what is.
abbrev pub is_news : SrvrInfo → Tracker → Bool
is_news i t = elim (lookup SockAddr-discrete i.srvr_addr t.srvr_infos) [
  | none ↦ true
  | some old ↦ ltb_ℤ old.valid i.valid
]

merge-IsTracker :
    (i : SrvrInfo) (t : Tracker)
    → IsSock i.srvr_addr
    → IsTracker t
    → HasRoom t
    → (r : Tracker) × ((merge i t ≡ ok (is_news i t, r))
        × (IsTracker r × (r.capacity ≡ t.capacity)))
unfolding merge
merge-IsTracker i t h w room =
    elim (Option-cases (lookup SockAddr-discrete i.srvr_addr t.srvr_infos)) [
      | inl e ↦
          let k = Assoc.lookup-none-has SockAddr-discrete i.srvr_addr t.srvr_infos e in
          let (r, (made, (w2, (less, new, cap)))) = make_room-Roomy i.srvr_addr t w room k in
          let longer = length-put_new i.srvr_addr i r.srvr_infos new in
          let (r2, (outcome, (w3, cap2))) =
            update-IsTracker i r h w2 (ground (arith, less, longer)) in
          (r2, (ground (arith, e, made, outcome), (w3, cap2 ∙ cap)))
      | inr (old, e) ↦
          let k = Assoc.lookup-has SockAddr-discrete i.srvr_addr t.srvr_infos old e in
          elim (Bool-cases (ltb_ℤ old.valid i.valid)) [
            | inl newer ↦
                let (r, (outcome, w2)) = renew-IsTracker i t h w k in
                (r, (ground (arith, e, newer, outcome), w2))
            | inr stale ↦ (t, (ground (arith, e, stale), (w, refl)))
          ]
    ]

-- In a tracker that is well formed (its queue holds servers with well-formed addresses and
-- information, each once and in the order of `QueueComp`, and it knows no more servers than its
-- capacity) and has room for a server or a queued one to replace, `tryAdd` of a server with a set
-- and well-formed address meets no failing assertion, answers whether the information is of an
-- unknown server or newer than what is known, and leaves a well-formed tracker of the same
-- capacity.
pub try_add-IsTracker :
    (i : SrvrInfo) (t : Tracker)
    → is_set i.srvr_addr ≡ true
    → IsSock i.srvr_addr
    → IsTracker t
    → HasRoom t
    → (r : Tracker) × ((try_add i t ≡ ok (is_news i t, r))
        × (IsTracker r × (r.capacity ≡ t.capacity)))
unfolding try_add
try_add-IsTracker i t s h w room =
    let (r, (outcome, (w2, cap))) = merge-IsTracker i t h w room in
    let all = IsQueue-all_known r.srvr_infos r.srvr_queue w2.queue in
    (r, (rw (s, outcome, all), (w2, cap)))

-- At capacity, with no server queued, `tryAdd` of a server that is not known fails an assertion.
pub try_add-abort :
    (i : SrvrInfo) (t : Tracker)
    → t.srvr_queue ≡ []
    → t.capacity ≤ length t.srvr_infos
    → lookup SockAddr-discrete i.srvr_addr t.srvr_infos ≡ none
    → try_add i t ≡ raise assertion_failed
unfolding try_add merge make_room
try_add-abort i t empty full new = elim (Bool-cases (is_set i.srvr_addr)) [
  | inl s ↦ ground (arith, s, empty, full, new)
  | inr s ↦ ground (arith, s)
]
