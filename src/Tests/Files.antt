-- ===== src/Tests/Files.antt =====
-- Runs of main/repository/ProdFile.cpp: a product of five bytes in segments of two.
use bicast.Base.{
  ℕ, ◌-◌, ◌<◌, ◌^◌, true, false, List, [], ◌∷◌, replicate, some, ◌≡◌, refl, arith, zero, suc, drop,
  map, ℕ_discrete, All, decide,
}
use bicast.Base.Result.{ok, ◌>>=◌}
use bicast.DataSeg.{seg_index, DataSeg, data_seg, num_segs, size, get_size}
use bicast.ProdFile.{SubProdFile, sub_prod_file, is_complete}
use bicast.Base.Sets.{contains}
use bicast.Proto.{DataSegId}
use bicast.ProdFile.Pub.{pub_prod_file, answers}
use bicast.ProdFile.Published.{IsId, published_complete}
use bicast.ProdFile.Runs.{IsSegment, index_of, save_all, save_all_complete}
use bicast.ProdFile.Agrees.{IsFile, Agrees}
use bicast.ProdFile.Saved.{sub_prod_file_wraps}

abbrev bytes : List ℕ
bytes = 10 ∷ 20 ∷ 30 ∷ 40 ∷ 50 ∷ []

two_pos : 0 < 2
two_pos = omega arith

-- The first and the last segment are there.
abbrev file : SubProdFile
file = record {
  prod_size = 5;
  num_segs = 3;
  is_open = true;
  bytes = 10 ∷ 20 ∷ 0 ∷ 0 ∷ 50 ∷ [];
  have_segs = true ∷ false ∷ true ∷ [];
  seg_count = 2;
}

file-IsFile : IsFile 2 two_pos file
unfolding num_segs
file-IsFile = record {
  sized = refl;
  marks = refl;
  counted = refl;
  segs = refl;
  fits = ground arith;
}

file-Agrees : Agrees 2 two_pos bytes file
file-Agrees zero h k = refl
file-Agrees (suc zero) h k = refl
file-Agrees (suc (suc zero)) h k = ground arith
file-Agrees (suc (suc (suc zero))) h k = ground arith
file-Agrees (suc (suc (suc (suc zero)))) h k = refl
file-Agrees (suc (suc (suc (suc (suc j))))) h k = absurd (omega arith)

abbrev segment : DataSeg
segment = data_seg 2 (record { prod_id = 77; offset = 2 }) 5 (30 ∷ 40 ∷ 50 ∷ [])

abbrev full : SubProdFile
full = record file { bytes = bytes; have_segs = true ∷ true ∷ true ∷ []; seg_count = 3 }

full-IsFile : IsFile 2 two_pos full
unfolding num_segs
full-IsFile = record {
  sized = refl;
  marks = refl;
  counted = refl;
  segs = refl;
  fits = ground arith;
}

sub_prod_file_wraps_example :
    (f : SubProdFile) × ((sub_prod_file 1444 true (2 ^ 32 - 1) ≡ ok f)
      × ((is_complete f ≡ true) × (f.bytes ≡ replicate (2 ^ 32 - 1) 0)))
sub_prod_file_wraps_example =
    sub_prod_file_wraps 1444 (2 ^ 32 - 1) (ground arith) (ground arith) (ground arith)

-- The segments in another order, one of them twice.
abbrev part_at : ℕ → DataSeg
part_at o = data_seg 2 (record { prod_id = 77; offset = o }) 5 (drop o bytes)

abbrev parts : List DataSeg
parts = part_at 4 ∷ part_at 0 ∷ part_at 2 ∷ part_at 0 ∷ []

covered : (i : ℕ) → i < num_segs 2 5 → contains ℕ_discrete i (map (index_of 2 two_pos) parts) ≡ true
unfolding num_segs contains ℕ_discrete decide data_seg seg_index
covered zero h = refl
covered (suc zero) h = refl
covered (suc (suc zero)) h = refl
covered (suc (suc (suc i))) h = absurd (omega arith)

parts-IsSegment : All (IsSegment 2 two_pos bytes) parts
unfolding data_seg size get_size
parts-IsSegment = (
  record { same = refl; part = refl; low = ground arith; aligned = refl },
  (
    record { same = refl; part = refl; low = ground arith; aligned = refl },
    (
      record { same = refl; part = refl; low = ground arith; aligned = refl },
      (record { same = refl; part = refl; low = ground arith; aligned = refl }, tt),
    ),
  ),
)

save_all_complete_example :
    (g : SubProdFile) × (((sub_prod_file 2 true 5 >>= save_all 2 two_pos parts) ≡ ok g)
      × ((is_complete g ≡ true) × (g.bytes ≡ bytes)))
save_all_complete_example =
    save_all_complete 2 two_pos bytes parts (ground arith) parts-IsSegment covered

abbrev ids : List DataSegId
ids =
    record { prod_id = 77; offset = 4 }
    ∷ record { prod_id = 77; offset = 0 }
    ∷ record { prod_id = 77; offset = 2 }
    ∷ []

ids-IsId : All (IsId 2 two_pos 5) ids
ids-IsId = (
  record { low = ground arith; aligned = refl },
  (
    record { low = ground arith; aligned = refl },
    (record { low = ground arith; aligned = refl }, tt),
  ),
)

ids_cover :
    (i : ℕ)
    → i < num_segs 2 5
    → contains ℕ_discrete i (map (λ id. seg_index 2 id.offset) ids) ≡ true
unfolding num_segs contains ℕ_discrete decide seg_index
ids_cover zero h = refl
ids_cover (suc zero) h = refl
ids_cover (suc (suc zero)) h = refl
ids_cover (suc (suc (suc i))) h = absurd (omega arith)

published_complete_example :
    (segs : List DataSeg) × ((answers 2 ids (some (pub_prod_file bytes)) ≡ ok segs)
      × ((g : SubProdFile) × (((sub_prod_file 2 true 5 >>= save_all 2 two_pos segs) ≡ ok g)
            × ((is_complete g ≡ true) × (g.bytes ≡ bytes)))))
published_complete_example =
    published_complete 2 two_pos bytes ids (ground arith) ids-IsId ids_cover
