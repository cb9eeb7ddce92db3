-- ===== src/DataSeg/Carried.antt =====
-- How a connection carries a data segment (`write` and `read` of main/p2p/DataSeg.cpp).
use bicast.Base.{
  ℕ, ◌^◌, ◌≤◌, ◌<◌, List, [], ◌∷◌, length, take, length-take, take_all, take_left, ltb, ◌≡◌, refl,
  ◌∙◌, subst, arith, none, inl, inr, Bool-cases, Option-cases, zero, suc,
}
use bicast.Xprt.{write_bytes, read_bytes}
use bicast.Xprt.Carries.{Carries, Carries-seq, Carries-map, write32-Carries, write_bytes-Carries}
use bicast.Proto.{DataSegId}
use bicast.Proto.Carried.{write_data_seg_id-Carries}
use bicast.DataSeg.{
  DataSeg, size, get_size, payload, contents, store, write_data_seg, read_data_seg,
}

-- The buffer has the size that is noted; a null pointer has size 0.
abbrev pub IsSized : DataSeg → Type 0
IsSized s = (length (contents s.buf) ≡ s.buf_size) × (s.buf ≡ none → s.buf_size ≡ 0)

module _ (m : ℕ) where
  -- A segment that the constructor makes, or that was read: it holds all of its bytes.
  pub record IsWire (s : DataSeg) : Type 0 where
    pub id : s.seg_id.prod_id < 2 ^ 64
    pub offset : s.seg_id.offset < 2 ^ 32
    pub prod_size : s.prod_size < 2 ^ 32
    pub full : get_size m s ≤ length (contents s.buf)

  length-payload : (s : DataSeg) → IsWire s → length (payload m s) ≡ get_size m s
  length-payload s h = omega (arith, length-take (get_size m s) (contents s.buf), h.full)

  store-contents :
      (d : DataSeg) (id : DataSegId) (p : ℕ) (b : List ℕ)
      → length b ≡ size m p id.offset
      → IsSized d
      → take (size m p id.offset) (contents (store m d id p b).buf) ≡ b
  unfolding store
  store-contents d id p b e sized = elim (Bool-cases (ltb d.buf_size (size m p id.offset))) [
    | inl small ↦ rw small (take_all _ b (omega arith))
    | inr roomy ↦ rw roomy (elim (Option-cases d.buf) [
      | inl null ↦ rw null (nothing b (size m p id.offset) e (ground (arith, sized.1 null)))
      | inr (old, there) ↦ rw there (rw (← e) (take_left b _))
    ])
  ]
    where
      nothing : (b : List ℕ) (n : ℕ) → length b ≡ n → n ≡ 0 → take n [] ≡ b
      nothing [] zero e z = refl
      nothing [] (suc n) e z = refl
      nothing (x ∷ b) n e z = absurd (omega arith)

  store-seg_id :
      (d : DataSeg) (id : DataSegId) (p : ℕ) (b : List ℕ) → (store m d id p b).seg_id ≡ id
  unfolding store
  store-seg_id d id p b = ground arith

  store-prod_size :
      (d : DataSeg) (id : DataSegId) (p : ℕ) (b : List ℕ) → (store m d id p b).prod_size ≡ p
  unfolding store
  store-prod_size d id p b = ground arith

  -- Whatever instance a segment is read into, provided its noted buffer size is right, it then
  -- has the segment's bytes: a buffer that is too small is replaced, and of a larger one the
  -- first bytes are overwritten.
  pub payload-store :
      (d s : DataSeg)
      → IsWire s
      → IsSized d
      → payload m (store m d s.seg_id s.prod_size (payload m s)) ≡ payload m s
  unfolding get_size
  payload-store d s h sized =
      rw
        (
          store-seg_id d s.seg_id s.prod_size (payload m s),
          store-prod_size d s.seg_id s.prod_size (payload m s),
        )
        (store-contents d s.seg_id s.prod_size (payload m s) (length-payload s h) sized)

  -- What the reader makes of it is `store` of the ID, the size and the bytes that were written.
  pub write_data_seg-Carries :
      (d s : DataSeg)
      → IsWire s
      → Carries
          (write_data_seg m s)
          (read_data_seg m d)
          (store m d s.seg_id s.prod_size (payload m s))
  unfolding write_data_seg read_data_seg
  write_data_seg-Carries d s h = Carries-seq _ (write_data_seg_id-Carries s.seg_id h.id h.offset) (
      Carries-seq _ (write32-Carries s.prod_size h.prod_size)
        (Carries-map (store m d s.seg_id s.prod_size) bytes))
    where
      bytes :
          Carries
            (write_bytes (payload m s))
            (read_bytes (size m s.prod_size s.seg_id.offset))
            (payload m s)
      bytes =
          subst (λ n. Carries (write_bytes (payload m s)) (read_bytes n) (payload m s))
            (length-payload s h ∙ unfold get_size in refl) (write_bytes-Carries (payload m s))

  -- A data segment with its numbers in range that holds all of its bytes is carried by a
  -- connection into any instance whose noted buffer size is that of its buffer: the instance
  -- then has the segment's ID, its product's size, and its bytes as the payload; a connection
  -- that is lost before the last byte is reported as lost.
  pub write_data_seg_lem :
      (d s : DataSeg)
      → IsWire s
      → IsSized d
      → (r : DataSeg) × (Carries (write_data_seg m s) (read_data_seg m d) r
          × ((r.seg_id ≡ s.seg_id) × ((r.prod_size ≡ s.prod_size) × (payload m r ≡ payload m s))))
  write_data_seg_lem d s h sized = (
    store m d s.seg_id s.prod_size (payload m s),
    (
      write_data_seg-Carries d s h,
      (
        store-seg_id d s.seg_id s.prod_size (payload m s),
        (store-prod_size d s.seg_id s.prod_size (payload m s), payload-store d s h sized),
      ),
    ),
  )
