-- ===== src/DataSeg/Geometry.antt =====
-- How segments cut a product (`size`, `numSegs` and `getSegIndex` of main/p2p/DataSeg.cpp).
use bicast.Base.{
  ℕ, zero, suc, ◌+◌, ◌-◌, ◌*◌, ◌%◌, ◌^◌, ◌≤◌, ◌<◌, List, [], ◌∷◌, ◌++◌, map, length, take, drop,
  length-drop, take-append-drop, take_all, drop_all, drop-drop, take-take, leb, ◌≡◌, inl, inr, refl,
  sym, ◌∙◌, arith, if◌then◌else◌, Bool-cases,
}
use mathlib.Core.List.{flatten}
use mathlib.Core.Path.{ap₂}
use bicast.Proto.{ProdId}
use bicast.DataSeg.{DataSeg, size, num_segs, seg_index, data_seg, get_size, payload}
use native.Mathlib.Nat.{div-add-mod, div-eq_of_lt, mul-div_left, mod-lt}

-- The segments that a node makes of a product's data: `n` of them, from index `i` on.
abbrev pub segments_from : ℕ → ProdId → List ℕ → ℕ → ℕ → List DataSeg
segments_from m id bytes zero i = []
segments_from m id bytes (suc n) i =
    data_seg m (record { prod_id = id; offset = i * m }) (length bytes) (drop (i * m) bytes)
    ∷ segments_from m id bytes n (i + 1)

module _ (m : ℕ) (m_pos : 0 < m) where
  -- If segments have a positive size m, and a product's size p has p + m at most 2 ^ 32, then
  -- `numSegs` segments cover the product, and one fewer would not.
  pub num_segs_lem : (p : ℕ) → p + m ≤ 2 ^ 32 → (num_segs m p * m < p + m) × (p ≤ num_segs m p * m)
  unfolding num_segs
  num_segs_lem p h =
      let e : (p + (m - 1)) % 2 ^ 32 ≡ p + (m - 1) = omega arith in
      rw e (
        omega (arith, div-add-mod (p + (m - 1)) m, mod-lt (p + (m - 1)) m_pos),
        omega (arith, div-add-mod (p + (m - 1)) m, mod-lt (p + (m - 1)) m_pos),
      )

  -- If segments have a positive size m, then a product whose size p is below 2 ^ 32 and has p +
  -- m above 2 ^ 32 is counted to have no segment: the sum wraps round.
  pub num_segs_wraps : (p : ℕ) → p < 2 ^ 32 → 2 ^ 32 < p + m → num_segs m p ≡ 0
  unfolding num_segs
  num_segs_wraps p h w = div-eq_of_lt (omega arith)

  pub size_lem : (p o : ℕ) → o ≤ p → p < 2 ^ 32 → size m p o ≡ (if leb (p - o) m then p - o else m)
  unfolding size
  size_lem p o h w = ground arith

  seg_index_lem : (i : ℕ) → seg_index m (i * m) ≡ i
  unfolding seg_index
  seg_index_lem i = mul-div_left i m_pos

  -- The payload of the segment at `i * m`.
  payload_lem :
      (id : ProdId) (bytes : List ℕ) (i : ℕ)
      → i * m ≤ length bytes
      → length bytes < 2 ^ 32
      → payload m
          (data_seg m (record { prod_id = id; offset = i * m }) (length bytes) (drop (i * m) bytes))
        ≡ take m (drop (i * m) bytes)
  unfolding data_seg get_size
  payload_lem id bytes i h w = elim (Bool-cases (leb (length bytes - i * m) m)) [
    | inl short ↦
        rw (take-take _ _, size_lem (length bytes) (i * m) h w, short)
          (take_all _ _ (omega (arith, length-drop (i * m) bytes))
            ∙ sym (take_all m (drop (i * m) bytes) (ground (arith, length-drop (i * m) bytes))))
    | inr long ↦ rw (take-take _ _, size_lem (length bytes) (i * m) h w, long) refl
  ]

  join_from :
      (id : ProdId) (bytes : List ℕ) (n i : ℕ)
      → length bytes < 2 ^ 32
      → length bytes ≤ (i + n) * m
      → (i + n) * m < length bytes + m
      → flatten (map (payload m) (segments_from m id bytes n i)) ≡ drop (i * m) bytes
  unfolding flatten
  join_from id bytes zero i w low high = sym (drop_all (i * m) bytes (omega arith))
  join_from id bytes (suc n) i w low high =
      ap₂ ◌++◌ (payload_lem id bytes i (omega arith) w)
        (join_from id bytes n (i + 1) w (omega arith) (omega arith) ∙ rest)
      ∙ take-append-drop m (drop (i * m) bytes)
    where
      rest : drop ((i + 1) * m) bytes ≡ drop m (drop (i * m) bytes)
      rest = let e : (i + 1) * m ≡ i * m + m = omega arith in rw e (sym (drop-drop m (i * m) bytes))

  -- If segments have a positive size m, and a product of n bytes has n + m at most 2 ^ 32, then
  -- the payloads of the `numSegs` segments that the constructor makes of the product at offsets
  -- 0, m, 2m and so on, joined in order, are the product's data.
  pub join-segments :
      (id : ProdId) (bytes : List ℕ)
      → length bytes + m ≤ 2 ^ 32
      → flatten (map (payload m) (segments_from m id bytes (num_segs m (length bytes)) 0)) ≡ bytes
  join-segments id bytes h =
      join_from id bytes (num_segs m (length bytes)) 0 (omega arith)
        (omega (arith, (num_segs_lem (length bytes) h).1))
        (omega (arith, (num_segs_lem (length bytes) h).0))
      ∙ start
    where
      start : drop (0 * m) bytes ≡ bytes
      start = let e : 0 * m ≡ 0 = omega arith in rw e
