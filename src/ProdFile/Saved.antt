-- ===== src/ProdFile/Saved.antt =====
-- What is saved in a product's file (`SubProdFile` of main/repository/ProdFile.cpp).
use bicast.Base.{
  ℕ, zero, suc, ◌+◌, ◌/◌, ◌%◌, ◌^◌, ◌≤◌, ◌<◌, List, length, get_elem?, replicate, not, Bool, true,
  false, some, ◌≡◌, ◌≢◌, refl, sym, ◌∙◌, arith, length-replicate, get_elem?-set_self,
}
use bicast.Base.Result.{ok}
use bicast.DataSeg.{DataSeg, num_segs, seg_index, get_size}
use bicast.DataSeg.Geometry.{num_segs_lem, num_segs_wraps}
use bicast.ProdFile.{
  SubProdFile, ensure_access, vet, sub_prod_file, have_seg, store_seg, keep_or_store, vet_size,
  save, is_complete,
}
use bicast.ProdFile.Overwrite.{list_ext, get_elem?-some, num_true_all, num_true-replicate}
use native.Mathlib.Nat.{div-lt_iff_lt-mul}
use bicast.ProdFile.Agrees.{IsFile, Agrees, IsPart, index-lt, store_seg-IsFile, store_seg-Agrees}

module _ (m : ℕ) (m_pos : 0 < m) where
  -- What `save` comes to: a file that is right, in which the segment is marked.
  abbrev pub Saves : List ℕ → DataSeg → SubProdFile → Bool → Type 0
  Saves p seg f have =
      (g : SubProdFile) × ((save m true seg f ≡ ok (not have, g))
        × (IsFile m m_pos g
            × (Agrees m m_pos p g
                × (get_elem? g.have_segs (seg_index m seg.seg_id.offset) ≡ some true))))

  save_vetted :
      (p : List ℕ) (seg : DataSeg) (f : SubProdFile) (have : Bool)
      → IsFile m m_pos f
      → length p ≡ f.prod_size
      → seg.prod_size ≡ f.prod_size
      → IsPart m m_pos p seg f
      → seg.seg_id.offset < f.prod_size
      → seg.seg_id.offset % m ≡ 0
      → Agrees m m_pos p f
      → get_elem? f.have_segs (seg_index m seg.seg_id.offset) ≡ some have
      → Saves p seg f have
  unfolding save vet vet_size have_seg ensure_access keep_or_store get_size
  save_vetted p seg f true w e same part low aligned agrees k =
      (f, (ground (arith, k, low, aligned, same), (w, (agrees, k))))
  save_vetted p seg f false w e same part low aligned agrees k =
      let opened : SubProdFile = record f { is_open = true } in
      let wo : IsFile m m_pos opened = record {
        sized = w.sized;
        marks = w.marks;
        counted = w.counted;
        segs = w.segs;
        fits = w.fits;
      } in
      let i = seg_index m seg.seg_id.offset in
      let low_i : i < length f.have_segs = index-lt m m_pos seg f w low in
      (
        store_seg m seg opened,
        (
          ground (arith, k, low, aligned, same),
          (
            store_seg-IsFile m m_pos seg opened wo k,
            (
              store_seg-Agrees m m_pos p seg opened wo e part low aligned agrees,
              marked seg opened low_i,
            ),
          ),
        ),
      )
    where
      marked :
          (seg : DataSeg) (f : SubProdFile)
          → seg_index m seg.seg_id.offset < length f.have_segs
          → get_elem? (store_seg m seg f).have_segs (seg_index m seg.seg_id.offset) ≡ some true
      marked seg f h = unfold store_seg in get_elem?-set_self f.have_segs _ true h

  -- If segments have a positive size, a file that can be opened is well formed and has a
  -- product's bytes wherever a segment is marked, and a segment has the product's size, an
  -- offset below it that is a multiple of the segment size, and the product's bytes there, then
  -- `save` returns, answers true exactly if the segment was not marked, and leaves a file that
  -- is well formed, has the product's bytes wherever a segment is marked, and has this one
  -- marked.
  pub save_lem :
      (p : List ℕ) (seg : DataSeg) (f : SubProdFile)
      → IsFile m m_pos f
      → length p ≡ f.prod_size
      → seg.prod_size ≡ f.prod_size
      → IsPart m m_pos p seg f
      → seg.seg_id.offset < f.prod_size
      → seg.seg_id.offset % m ≡ 0
      → Agrees m m_pos p f
      → (have : Bool) × ((get_elem? f.have_segs (seg_index m seg.seg_id.offset) ≡ some have)
          × Saves p seg f have)
  save_lem p seg f w e same part low aligned agrees =
      let (have, k) = get_elem?-some f.have_segs _ (index-lt m m_pos seg f w low) in
      (have, (k, save_vetted p seg f have w e same part low aligned agrees k))

  -- If segments have a positive size m, the file can be created, and a product of n bytes has n
  -- + m at most 2 ^ 32, then the constructor makes a well-formed file of the product's size
  -- with no segment marked that differs from the product.
  pub sub_prod_file-IsFile :
      (p : List ℕ)
      → length p + m ≤ 2 ^ 32
      → (f : SubProdFile) × ((sub_prod_file m true (length p) ≡ ok f)
          × (IsFile m m_pos f × (Agrees m m_pos p f × (f.prod_size ≡ length p))))
  unfolding sub_prod_file
  sub_prod_file-IsFile p fits =
      let n = num_segs m (length p) in
      let f : SubProdFile = record {
        prod_size = length p;
        num_segs = n;
        is_open = false;
        bytes = replicate (length p) 0;
        have_segs = replicate n false;
        seg_count = 0;
      } in
      (
        f,
        (
          refl,
          (
            record {
              sized = length-replicate (length p) 0;
              marks = length-replicate n false;
              counted = sym (num_true-replicate n);
              segs = refl;
              fits = fits;
            },
            ((λ j h k. absurd (none_true n (j / m) k)), refl),
          ),
        ),
      )
    where
      none_true : (n i : ℕ) → get_elem? (replicate n false) i ≢ some true
      none_true zero i q = cc
      none_true (suc n) zero q = cc
      none_true (suc n) (suc i) q = none_true n i q

  -- If segments have a positive size m, a file is well formed (it has the product's size n, n +
  -- m is at most 2 ^ 32, and the count is that of the marked segments) and has the bytes of a
  -- product of that size wherever a segment is marked, and `isComplete` is true, then the file
  -- is the product.
  pub is_complete_lem :
      (p : List ℕ) (f : SubProdFile)
      → IsFile m m_pos f
      → length p ≡ f.prod_size
      → Agrees m m_pos p f
      → is_complete f ≡ true
      → f.bytes ≡ p
  unfolding is_complete
  is_complete_lem p f w e agrees complete = list_ext f.bytes p (w.sized ∙ sym e) (λ j h.
      agrees j (omega (arith, w.sized)) (
        num_true_all f.have_segs (j / m) (ground (arith, w.counted, w.marks)) (
          omega (
            arith,
            w.marks,
            w.segs,
            (div-lt_iff_lt-mul {k = m} {x = j} {y = num_segs m f.prod_size} m_pos).1
                (omega (arith, w.sized, (num_segs_lem m m_pos f.prod_size w.fits).1)),
          ))))

-- If segments have a positive size m, and a product's size p is below 2 ^ 32 and p + m above it,
-- then the constructor, if the file can be created, makes a file of p zeros that is complete at
-- once.
pub sub_prod_file_wraps :
    (m p : ℕ)
    → 0 < m
    → p < 2 ^ 32
    → 2 ^ 32 < p + m
    → (f : SubProdFile) × ((sub_prod_file m true p ≡ ok f)
        × ((is_complete f ≡ true) × (f.bytes ≡ replicate p 0)))
unfolding sub_prod_file is_complete
sub_prod_file_wraps m p m_pos h w =
    let f : SubProdFile = record {
      prod_size = p;
      num_segs = num_segs m p;
      is_open = false;
      bytes = replicate p 0;
      have_segs = replicate (num_segs m p) false;
      seg_count = 0;
    } in
    (f, (refl, (ground (arith, num_segs_wraps m m_pos p h w), refl)))
