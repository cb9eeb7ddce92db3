-- ===== src/ProdFile/Published.antt =====
-- A product from the publisher's file to a subscriber's (main/repository/ProdFile.cpp and
-- `getDataSeg` of main/repository/Repository.cpp).
use bicast.Base.{
  ℕ, ◌+◌, ◌%◌, ◌^◌, ◌≤◌, ◌<◌, List, [], ◌∷◌, length, drop, take_all, take-take, map, All,
  ℕ_discrete, true, some, ◌≡◌, refl, ap, ◌∙◌, arith,
}
use bicast.Base.Result.{ok, ◌>>=◌}
use bicast.Base.Sets.{contains}
use bicast.Proto.{DataSegId}
use bicast.DataSeg.{DataSeg, get_size, num_segs, seg_index, data_seg}
use bicast.ProdFile.{SubProdFile, sub_prod_file, is_complete}
use bicast.ProdFile.Runs.{IsSegment, index_of, save_all, save_all_complete}
use bicast.ProdFile.Pub.{
  PubProdFile, pub_prod_file, open_pub, vet_pub, data_at, get_data_seg, answers,
}
use native.Mathlib.Nat.{mod-eq_of_lt}

module _ (m : ℕ) (m_pos : 0 < m) where
  -- A segment of a product of `n` bytes can have this identifier.
  pub record IsId (n : ℕ) (id : DataSegId) : Type 0 where
    pub low : id.offset < n
    pub aligned : id.offset % m ≡ 0

  -- The file has the product's bytes.
  pub record Holds (p : List ℕ) (f : PubProdFile) : Type 0 where
    pub sized : f.prod_size ≡ length p
    pub same : f.bytes ≡ p

  pub_prod_file-Holds : (p : List ℕ) → length p < 2 ^ 32 → Holds p (pub_prod_file p)
  unfolding pub_prod_file
  pub_prod_file-Holds p h =
      let e = mod-eq_of_lt h in
      record { sized = e; same = rw e (take_all (length p) p (omega arith)) }

  get_data_seg_lem :
      (p : List ℕ) (f : PubProdFile) (id : DataSegId)
      → Holds p f
      → IsId (length p) id
      → get_data_seg m true id (some f)
        ≡ ok (data_seg m id (length p) (drop id.offset p), some (record f { is_open = true }))
  unfolding get_data_seg data_at vet_pub open_pub
  get_data_seg_lem p f id h w = ground (arith, h.sized, h.same, w.low, w.aligned)

  data_seg-IsSegment :
      (p : List ℕ) (id : DataSegId)
      → IsId (length p) id
      → IsSegment m m_pos p (data_seg m id (length p) (drop id.offset p))
  unfolding data_seg get_size
  data_seg-IsSegment p id w = record {
    same = refl;
    part = take-take _ _;
    low = w.low;
    aligned = w.aligned;
  }

  answers_lem :
      (p : List ℕ) (ids : List DataSegId) (f : PubProdFile)
      → Holds p f
      → All (IsId (length p)) ids
      → (segs : List DataSeg) × ((answers m ids (some f) ≡ ok segs)
          × (All (IsSegment m m_pos p) segs
              × (map (index_of m m_pos) segs ≡ map (λ id. seg_index m id.offset) ids)))
  unfolding answers data_seg
  answers_lem p [] f h w = ([], (refl, (tt, refl)))
  answers_lem p (id ∷ ids) f h (w, ws) =
      let opened = record f { is_open = true } in
      let (segs, (e, (all, same))) =
        answers_lem p ids opened (record { sized = h.sized; same = h.same }) ws in
      let seg = data_seg m id (length p) (drop id.offset p) in
      (
        seg ∷ segs,
        (
          rw (get_data_seg_lem p f id h w, e) refl,
          ((data_seg-IsSegment p id w, all), ap (◌∷◌ (seg_index m id.offset)) same),
        ),
      )

  -- If segments have a positive size m, a publisher's file has n bytes and n + m is at most 2 ^
  -- 32, the files can be created and opened, and segments are requested whose offsets are below
  -- n and multiples of m, in any order and any number of times, so that each of the `numSegs`
  -- indexes occurs, then `getDataSeg` of the product's entry answers every request, and a
  -- subscriber who saves the answers in that order in a new file of n bytes has a file that is
  -- complete and has the bytes of the publisher's.
  pub published_complete :
      (p : List ℕ) (ids : List DataSegId)
      → length p + m ≤ 2 ^ 32
      → All (IsId (length p)) ids
      → ((i : ℕ)
          → i < num_segs m (length p)
          → contains ℕ_discrete i (map (λ id. seg_index m id.offset) ids) ≡ true)
      → (segs : List DataSeg) × ((answers m ids (some (pub_prod_file p)) ≡ ok segs)
          × ((g : SubProdFile) × (((sub_prod_file m true (length p) >>= save_all m m_pos segs)
                  ≡ ok g)
                × ((is_complete g ≡ true) × (g.bytes ≡ p)))))
  published_complete p ids fits w covers =
      let (segs, (e, (all, same))) =
        answers_lem p ids (pub_prod_file p) (pub_prod_file-Holds p (omega arith)) w in
      (
        segs,
        (
          e,
          save_all_complete m m_pos p segs fits all
              (λ i k. ap (contains ℕ_discrete i) same ∙ covers i k),
        ),
      )
