-- ===== src/Tests/Wire.antt =====
-- Runs of main/inet/Xprt.cpp, main/BicastProto.cpp and main/p2p/DataSeg.cpp.
use bicast.Base.{ℕ, List, [], ◌∷◌, ◌≡◌, arith, map}
use mathlib.Core.List.{flatten}
use bicast.Base.Int.{pos}
use bicast.Xprt.Carries.{Carries}
use bicast.Proto.{ProdInfo, write_prod_info, read_prod_info}
use bicast.Proto.Carried.{IsWire, write_prod_info-Carries}
use bicast.DataSeg.{
  DataSeg, data_seg, num_segs, payload, unset, write_data_seg, read_data_seg, get_size, size,
}
use bicast.DataSeg.Geometry.{segments_from, join-segments}
use bicast.DataSeg.Carried
use bicast.DataSeg.Carried.{payload-store, write_data_seg_lem}

abbrev product : ProdInfo
product = record { prod_id = 77; name = 97 ∷ 98 ∷ []; size = 5; creation_time = pos 1234567 }

product-IsWire : IsWire product
product-IsWire = record {
  id = ground arith;
  short = ground arith;
  size = ground arith;
  time = ground arith;
}

write_prod_info-Carries_example : Carries (write_prod_info product) read_prod_info product
write_prod_info-Carries_example = write_prod_info-Carries product product-IsWire

abbrev bytes : List ℕ
bytes = 10 ∷ 20 ∷ 30 ∷ 40 ∷ 50 ∷ []

-- A product of five bytes in segments of two.
join-segments_example :
    flatten (map (payload 2) (segments_from 2 77 bytes (num_segs 2 5) 0)) ≡ bytes
join-segments_example = join-segments 2 (ground arith) 77 bytes (ground arith)

-- The last segment.
abbrev segment : DataSeg
segment = data_seg 2 (record { prod_id = 77; offset = 4 }) 5 (50 ∷ [])

segment-IsWire : Carried.IsWire 2 segment
unfolding data_seg size get_size
segment-IsWire = record {
  id = ground arith;
  offset = ground arith;
  prod_size = ground arith;
  full = ground arith;
}

unset-IsSized : Carried.IsSized unset
unset-IsSized = (ground arith, λ _. ground arith)

write_data_seg_lem_example :
    (r : DataSeg) × (Carries (write_data_seg 2 segment) (read_data_seg 2 unset) r
      × ((r.seg_id ≡ segment.seg_id)
          × ((r.prod_size ≡ segment.prod_size) × (payload 2 r ≡ payload 2 segment))))
write_data_seg_lem_example = write_data_seg_lem 2 unset segment segment-IsWire unset-IsSized
