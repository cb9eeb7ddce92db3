-- ===== src/Peer/Backlog.antt =====
-- `runBacklog` of main/p2p/Peer.cpp: what a peer announces of the products that the remote peer lacks
-- is enough for the remote peer to have them.
use bicast.Base.{
  ℕ, zero, suc, ◌+◌, ◌*◌, ◌%◌, ◌^◌, ◌≤◌, ◌<◌, List, [], ◌∷◌, map, length, ℕ_discrete, All, true,
  some, ◌≡◌, ap, ◌∙◌, arith, decide,
}
use bicast.Base.Result.{ok, ◌>>=◌}
use bicast.Base.Sets.{contains}
use bicast.Proto.{ProdId, DataSegId, ProdInfo, is_set}
use bicast.DataSeg.{DataSeg, num_segs, seg_index}
use bicast.DataSeg.Geometry.{num_segs_lem}
use bicast.Notice.{prod_id_notice, data_seg_id_notice}
use bicast.ProdFile.{SubProdFile, sub_prod_file, is_complete}
use bicast.ProdFile.Pub.{pub_prod_file, answers}
use bicast.ProdFile.Runs.{save_all}
use bicast.ProdFile.Published.{IsId, published_complete}
use bicast.Peer.{seg_notices, backlog_of}
use native.Mathlib.Nat.{mod-eq_of_lt, mul-div_left, mul-mod_left}

module _ (m : ℕ) (m_pos : 0 < m) where
  -- The identifiers of `k` segments, from index `i` on.
  abbrev pub ids_from : ProdId → ℕ → ℕ → List DataSegId
  ids_from id zero i = []
  ids_from id (suc k) i = record { prod_id = id; offset = i * m } ∷ ids_from id k (i + 1)

  seg_notices_lem :
      (id : ProdId) (n fuel k i : ℕ)
      → n + m ≤ 2 ^ 32
      → k ≤ fuel
      → n ≤ (i + k) * m
      → (i + k) * m < n + m
      → seg_notices m id n fuel (i * m) ≡ some (ids_from id k i)
  unfolding seg_notices
  seg_notices_lem id n zero zero i fits h low high =
      let over : n ≤ i * m = omega (arith, low) in ground (arith, over)
  seg_notices_lem id n zero (suc k) i fits h low high = absurd (omega (arith, h))
  seg_notices_lem id n (suc fuel) zero i fits h low high =
      let over : n ≤ i * m = omega (arith, low) in ground (arith, over)
  seg_notices_lem id n (suc fuel) (suc k) i fits h low high =
      let under : i * m < n = omega (arith, high) in
      let next : (i * m + m) % 2 ^ 32 ≡ (i + 1) * m =
        mod-eq_of_lt (omega (arith, under, fits)) ∙ omega arith in
      let rest : seg_notices m id n fuel ((i * m + m) % 2 ^ 32) ≡ some (ids_from id k (i + 1)) =
        ap (seg_notices m id n fuel) next
        ∙ seg_notices_lem id n fuel k (i + 1) fits (omega (arith, h)) (omega (arith, low))
            (omega (arith, high)) in
      ground (arith, under, rest)

  ids_from-IsId :
      (id : ProdId) (n k i : ℕ) → (i + k) * m < n + m → All (IsId m m_pos n) (ids_from id k i)
  ids_from-IsId id n zero i high = tt
  ids_from-IsId id n (suc k) i high = (
    record { low = omega (arith, high); aligned = mul-mod_left i m },
    ids_from-IsId id n k (i + 1) (omega (arith, high)),
  )

  indexes :
      (id : ProdId) (j k i : ℕ)
      → i ≤ j
      → j < i + k
      → contains ℕ_discrete j (map (λ s. seg_index m s.offset) (ids_from id k i)) ≡ true
  unfolding contains seg_index decide
  indexes id j zero i low high = absurd (omega (arith, low, high))
  indexes id j (suc k) i low high = elim (ℕ_discrete j i) [
    | yes same ↦ rw (mul-div_left i m_pos) (ground (arith, same))
    | no apart ↦
        let rest = indexes id j k (i + 1) (omega (arith, low, apart)) (omega (arith, high)) in
        ground (arith, rest)
  ]

  -- If segments have a positive size m, a product has n bytes with n + m at most 2 ^ 32 and is
  -- known to the manager with that size, and the loop of `runBacklog` may take as many rounds
  -- as the product has segments, then the loop ends, and a subscriber that asks the publisher's
  -- repository for each segment that was announced, and saves the answers in a new file of n
  -- bytes, has a file that is complete and has the product's bytes.
  pub backlog_complete :
      (p : List ℕ) (id : ProdId) (info : ProdInfo) (fuel : ℕ)
      → length p + m ≤ 2 ^ 32
      → is_set info ≡ true
      → info.size ≡ length p
      → num_segs m (length p) ≤ fuel
      → (ids : List DataSegId) × ((backlog_of m fuel id info
            ≡ some (prod_id_notice id ∷ map data_seg_id_notice ids))
          × ((segs : List DataSeg) × ((answers m ids (some (pub_prod_file p)) ≡ ok segs)
                × ((g : SubProdFile) × (((sub_prod_file m true (length p) >>= save_all m m_pos segs)
                        ≡ ok g)
                      × ((is_complete g ≡ true) × (g.bytes ≡ p)))))))
  unfolding backlog_of
  backlog_complete p id info fuel fits set sized enough =
      let k = num_segs m (length p) in
      let ids = ids_from id k 0 in
      let (high, low) = num_segs_lem m m_pos (length p) fits in
      let zero_offset : 0 ≡ 0 * m = omega arith in
      let start : seg_notices m id info.size fuel 0 ≡ some ids =
        ap (λ n. seg_notices m id n fuel 0) sized
        ∙ ap (seg_notices m id (length p) fuel) zero_offset
        ∙ seg_notices_lem id (length p) fuel k 0 fits enough (omega (arith, low))
            (omega (arith, high)) in
      (
        ids,
        (
          ground (arith, set, start),
          published_complete m m_pos p ids fits
              (ids_from-IsId id (length p) k 0 (omega (arith, high)))
              (λ j h. indexes id j k 0 (omega arith) (omega (arith, h))),
        ),
      )
