-- ===== src/ProdFile/Runs.antt =====
-- Segments that are saved one after the other, in any order (main/repository/ProdFile.cpp).
use bicast.Base.{
  ℕ, zero, suc, ◌+◌, ◌%◌, ◌^◌, ◌≤◌, ◌<◌, List, [], ◌∷◌, length, get_elem?, set, take, drop, not,
  Bool, true, false, some, map, All, ℕ_discrete, ◌≡◌, refl, sym, ap, ◌∙◌, subst, arith, decide,
}
use bicast.Base.Result.{Result, ok, ◌>>=◌}
use bicast.Base.Sets.{contains}
use bicast.DataSeg.{DataSeg, size, num_segs, seg_index, payload}
use bicast.ProdFile.{
  SubProdFile, ensure_access, vet, vet_size, have_seg, keep_or_store, store_seg, save,
  sub_prod_file, is_complete,
}
use bicast.ProdFile.Overwrite.{num_true}
use bicast.ProdFile.Agrees.{IsFile, Agrees}
use bicast.ProdFile.Saved.{save_lem, sub_prod_file-IsFile, is_complete_lem}

-- A mark that is set stays set.
abbrev Keeps : SubProdFile → SubProdFile → Type 0
Keeps f g =
    (g.prod_size ≡ f.prod_size)
    × ((i : ℕ) → get_elem? f.have_segs i ≡ some true → get_elem? g.have_segs i ≡ some true)

-- All of a list's elements are true.
num_true_full :
    (bs : List Bool)
    → ((i : ℕ) → i < length bs → get_elem? bs i ≡ some true)
    → num_true bs ≡ length bs
num_true_full [] h = refl
num_true_full (true ∷ bs) h = ap suc (num_true_full bs (λ i k. h (suc i) (omega arith)))
num_true_full (false ∷ bs) h = let e = h 0 (omega arith) in cc

set-keeps :
    (bs : List Bool) (i j : ℕ)
    → get_elem? bs j ≡ some true
    → get_elem? (set bs i true) j ≡ some true
set-keeps [] i j h = h
set-keeps (b ∷ bs) zero zero h = refl
set-keeps (b ∷ bs) zero (suc j) h = h
set-keeps (b ∷ bs) (suc i) zero h = h
set-keeps (b ∷ bs) (suc i) (suc j) h = set-keeps bs i j h

module _ (m : ℕ) (m_pos : 0 < m) where
  -- The segment is one of the product's.
  pub record IsSegment (p : List ℕ) (seg : DataSeg) : Type 0 where
    pub same : seg.prod_size ≡ length p
    pub part : payload m seg ≡ take (size m (length p) seg.seg_id.offset) (drop seg.seg_id.offset p)
    pub low : seg.seg_id.offset < length p
    pub aligned : seg.seg_id.offset % m ≡ 0

  abbrev pub index_of : DataSeg → ℕ
  index_of seg = seg_index m seg.seg_id.offset

  -- The calls of `save`.
  unfoldable pub save_all : List DataSeg → SubProdFile → Result SubProdFile
  save_all [] f = ok f
  save_all (seg ∷ segs) f = do r ← save m true seg f; save_all segs r.1

  abbrev Marked : SubProdFile → List DataSeg → Type 0
  Marked g = All (λ seg. get_elem? g.have_segs (index_of seg) ≡ some true)

  save-Keeps :
      (seg : DataSeg) (f g : SubProdFile) (new : Bool) → save m true seg f ≡ ok (new, g) → Keeps f g
  unfolding save vet vet_size have_seg ensure_access keep_or_store store_seg
  save-Keeps seg f g new q = (
    ground (arith, q),
    λ i k. ground (arith, q, k, set-keeps f.have_segs (seg_index m seg.seg_id.offset) i k),
  )

  save_all_lem :
      (p : List ℕ) (segs : List DataSeg) (f : SubProdFile)
      → IsFile m m_pos f
      → length p ≡ f.prod_size
      → Agrees m m_pos p f
      → All (IsSegment p) segs
      → (g : SubProdFile) × ((save_all segs f ≡ ok g)
          × (IsFile m m_pos g × (Agrees m m_pos p g × (Keeps f g × Marked g segs))))
  unfolding save_all
  save_all_lem p [] f w e agrees h = (f, (refl, (w, (agrees, ((refl, λ i k. k), tt)))))
  save_all_lem p (seg ∷ segs) f w e agrees (h, hs) =
      let part =
        subst (λ n. payload m seg ≡ take (size m n seg.seg_id.offset) (drop seg.seg_id.offset p)) e
          h.part in
      let (have, (k, (g, (saved, (wg, (ag, mark)))))) =
        save_lem m m_pos p seg f w e (h.same ∙ e) part (omega (arith, h.low, e)) h.aligned agrees in
      let keeps = save-Keeps seg f g (not have) saved in
      let (g2, (all, (w2, (a2, (keeps2, marks))))) =
        save_all_lem p segs g wg (e ∙ sym keeps.0) ag hs in
      (
        g2,
        (
          ground (arith, saved, all),
          (
            w2,
            (
              a2,
              (
                (keeps2.0 ∙ keeps.0, λ i l. keeps2.1 i (keeps.1 i l)),
                (keeps2.1 (index_of seg) mark, marks),
              ),
            ),
          ),
        ),
      )

  marked :
      (g : SubProdFile) (segs : List DataSeg) (i : ℕ)
      → Marked g segs
      → contains ℕ_discrete i (map index_of segs) ≡ true
      → get_elem? g.have_segs i ≡ some true
  unfolding contains decide
  marked g [] i all h = cc
  marked g (seg ∷ segs) i (mark, all) h = ground (arith, mark, marked g segs i all)

  -- If segments have a positive size m, a product of n bytes has n + m at most 2 ^ 32, the file
  -- can be created and opened, and segments of the product (of its size, at a multiple of the
  -- segment size below it, with its bytes there) are saved in any order and any number of
  -- times, so that each of the `numSegs` indexes occurs, then every call of `save` returns, and
  -- the file is complete and is the product.
  pub save_all_complete :
      (p : List ℕ) (segs : List DataSeg)
      → length p + m ≤ 2 ^ 32
      → All (IsSegment p) segs
      → ((i : ℕ) → i < num_segs m (length p) → contains ℕ_discrete i (map index_of segs) ≡ true)
      → (g : SubProdFile) × (((sub_prod_file m true (length p) >>= save_all segs) ≡ ok g)
          × ((is_complete g ≡ true) × (g.bytes ≡ p)))
  save_all_complete p segs fits h covers =
      let (f, (made, (w, (agrees, e)))) = sub_prod_file-IsFile m m_pos p fits in
      let (g, (all, (wg, (ag, (keeps, marks))))) = save_all_lem p segs f w (sym e) agrees h in
      let full : num_true g.have_segs ≡ length g.have_segs = num_true_full g.have_segs (λ i k.
        marked g segs i marks (
          covers i (
            subst (λ n. i < num_segs m n) (keeps.0 ∙ e)
              (subst (λ n. i < n) (wg.marks ∙ wg.segs) k)))) in
      let complete : is_complete g ≡ true =
        unfold is_complete in ground (arith, wg.counted, wg.marks, full) in
      (
        g,
        (
          ground (arith, made, all),
          (complete, is_complete_lem m m_pos p g wg (sym (keeps.0 ∙ e)) ag complete),
        ),
      )
