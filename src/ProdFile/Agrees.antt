-- ===== src/ProdFile/Agrees.antt =====
-- What a segment that is stored does to a product's file (main/repository/ProdFile.cpp).
use bicast.Base.{
  ℕ, ◌+◌, ◌-◌, ◌*◌, ◌/◌, ◌%◌, ◌^◌, ◌≤◌, ◌<◌, List, length, get_elem?, set, take, drop, leb, ltb,
  if◌then◌else◌, true, false, some, ◌≡◌, sym, ap, ◌∙◌, arith, inl, inr, Bool-cases, length-set,
  length-take, length-drop, get_elem?-set_ne,
}
use bicast.DataSeg.{DataSeg, size, num_segs, seg_index, payload}
use bicast.DataSeg.Geometry.{size_lem, num_segs_lem}
use bicast.ProdFile.{SubProdFile, overwrite, store_seg}
use bicast.ProdFile.Overwrite.{
  length-overwrite, overwrite_before, overwrite_behind, overwrite_within, get_elem?-take,
  get_elem?-drop, num_true, num_true-le, num_true-set,
}
use native.Mathlib.Nat.{div-add-mod', mod-lt, div-lt_iff_lt-mul, le-div_iff_mul-le, div-le_self}

module _ (m : ℕ) (m_pos : 0 < m) where
  -- The file has the product's size, and the count is that of the segments that are marked.
  pub record IsFile (f : SubProdFile) : Type 0 where
    pub sized : length f.bytes ≡ f.prod_size
    pub marks : length f.have_segs ≡ f.num_segs
    pub counted : f.seg_count ≡ num_true f.have_segs
    pub segs : f.num_segs ≡ num_segs m f.prod_size
    pub fits : f.prod_size + m ≤ 2 ^ 32

  -- Where a segment is marked, the file has the product's bytes.
  abbrev pub Agrees : List ℕ → SubProdFile → Type 0
  Agrees p f =
      (j : ℕ)
      → j < f.prod_size
      → get_elem? f.have_segs (j / m) ≡ some true
      → get_elem? f.bytes j ≡ get_elem? p j

  -- The segment's bytes are the product's.
  abbrev pub IsPart : List ℕ → DataSeg → SubProdFile → Type 0
  IsPart p seg f =
      payload m seg ≡ take (size m f.prod_size seg.seg_id.offset) (drop seg.seg_id.offset p)

  num_segs-lt : (p : ℕ) → p + m ≤ 2 ^ 32 → num_segs m p < 2 ^ 32
  unfolding num_segs
  num_segs-lt p h = omega (arith, div-le_self ((p + (m - 1)) % 2 ^ 32) m)

  pub index-lt :
      (seg : DataSeg) (f : SubProdFile)
      → IsFile f
      → seg.seg_id.offset < f.prod_size
      → seg_index m seg.seg_id.offset < length f.have_segs
  unfolding seg_index
  index-lt seg f w low = omega (
    arith,
    w.marks,
    w.segs,
    (div-lt_iff_lt-mul {k = m} {x = seg.seg_id.offset} {y = num_segs m f.prod_size} m_pos).1
        (omega (arith, (num_segs_lem m m_pos f.prod_size w.fits).1)),
  )

  pub store_seg-IsFile :
      (seg : DataSeg) (f : SubProdFile)
      → IsFile f
      → get_elem? f.have_segs (seg_index m seg.seg_id.offset) ≡ some false
      → IsFile (store_seg m seg f)
  unfolding store_seg
  store_seg-IsFile seg f w e = record {
    sized = length-overwrite seg.seg_id.offset (payload m seg) f.bytes ∙ w.sized;
    marks = length-set f.have_segs (seg_index m seg.seg_id.offset) true ∙ w.marks;
    counted = omega (
      arith,
      num_true-set f.have_segs (seg_index m seg.seg_id.offset) e,
      w.counted,
      num_true-le (set f.have_segs (seg_index m seg.seg_id.offset) true),
      length-set f.have_segs (seg_index m seg.seg_id.offset) true,
      w.marks,
      num_segs-lt f.prod_size w.fits,
      w.segs,
    );
    segs = w.segs;
    fits = w.fits;
  }

  -- The bytes of the segment, in the file.
  within :
      (p : List ℕ) (seg : DataSeg) (f : SubProdFile) (j : ℕ)
      → IsFile f
      → length p ≡ f.prod_size
      → IsPart p seg f
      → seg.seg_id.offset ≤ j
      → j < f.prod_size
      → j < seg.seg_id.offset + m
      → get_elem? (overwrite seg.seg_id.offset (payload m seg) f.bytes) j ≡ get_elem? p j
  within p seg f j w e part low high near =
      let o = seg.seg_id.offset in
      let n = size m f.prod_size o in
      let n_lem : n ≡ (if leb (f.prod_size - o) m then f.prod_size - o else m) =
        size_lem m m_pos f.prod_size o (omega arith) (omega (arith, w.fits)) in
      let len : length (payload m seg) ≡ n =
        ap length part ∙ ground (arith, length-take n (drop o p), length-drop o p, e, n_lem) in
      overwrite_within o (payload m seg) f.bytes (j - o) j (omega arith)
        (ground (arith, len, n_lem)) (ground (arith, len, n_lem, w.sized))
      ∙ ap (λ bs. get_elem? bs (j - o)) part
      ∙ get_elem?-take n (drop o p) (j - o) (ground (arith, n_lem))
      ∙ get_elem?-drop o p (j - o) j (omega arith)

  length-payload-le :
      (p : List ℕ) (seg : DataSeg) (f : SubProdFile) → IsPart p seg f → length (payload m seg) ≤ m
  length-payload-le p seg f part =
      let n = size m f.prod_size seg.seg_id.offset in
      let le : n ≤ m = size-le f.prod_size seg.seg_id.offset in
      let len : length (payload m seg) ≤ n =
        ground (arith, ap length part, length-take n (drop seg.seg_id.offset p)) in
      omega arith
    where
      size-le : (p o : ℕ) → size m p o ≤ m
      size-le p o = unfold size in ground arith

  pub store_seg-Agrees :
      (p : List ℕ) (seg : DataSeg) (f : SubProdFile)
      → IsFile f
      → length p ≡ f.prod_size
      → IsPart p seg f
      → seg.seg_id.offset < f.prod_size
      → seg.seg_id.offset % m ≡ 0
      → Agrees p f
      → Agrees p (store_seg m seg f)
  unfolding store_seg seg_index
  store_seg-Agrees p seg f w e part low aligned agrees j h k =
      let o = seg.seg_id.offset in
      let start : o / m * m ≡ o = omega (arith, div-add-mod' o m, aligned) in
      elim (Bool-cases (ltb (j / m) (o / m))) [
        | inl less ↦
            let before : j < o / m * m =
              (div-lt_iff_lt-mul {k = m} {x = j} {y = o / m} m_pos).0 (ground arith) in
            overwrite_before o (payload m seg) f.bytes j (omega arith)
            ∙ agrees j h (sym (get_elem?-set_ne f.have_segs true (λ q. ground arith)) ∙ k)
        | inr more ↦ elim (Bool-cases (ltb (o / m) (j / m))) [
          | inl greater ↦
              let behind : (o / m + 1) * m ≤ j =
                (le-div_iff_mul-le {k = m} {x = o / m + 1} {y = j} m_pos).0 (ground arith) in
              let len = length-payload-le p seg f part in
              overwrite_behind o (payload m seg) f.bytes j (omega (arith, behind, start, len))
              ∙ agrees j h (sym (get_elem?-set_ne f.have_segs true (λ q. ground arith)) ∙ k)
          | inr equal ↦
              let here : j / m ≡ o / m = ground arith in
              let row : j / m * m ≡ o / m * m = ap (λ q. q * m) here in
              let low_j : o ≤ j = omega (arith, div-add-mod' j m, row, start) in
              let high_j : j < o + m =
                omega (arith, div-add-mod' j m, row, start, mod-lt j m_pos) in
              within p seg f j w e part low_j h high_j
        ]
      ]
