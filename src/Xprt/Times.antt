-- ===== src/Xprt/Times.antt =====
-- Times through a connection (`write(const SysTimePoint&)` of main/inet/Xprt.cpp).
use bicast.Base.{◌+◌, ◌*◌, ◌/◌, ◌^◌, ◌<◌, ◌≡◌, arith}
use bicast.Base.Int.{ℤ, pos, negsuc, ◌+ℤ◌, ◌*ℤ◌, sub_ℕ}
use bicast.Xprt.{to_uint64, to_int64, time_parts, time_of}

-- A count of nanoseconds, without the part below a microsecond.
abbrev pub whole_usecs : ℤ → ℤ
whole_usecs (pos n) = pos (n / 1000 * 1000)
whole_usecs (negsuc n) = sub_ℕ 0 ((n + 1) / 1000 * 1000)

-- An `int64_t`.
abbrev pub IsInt64 : ℤ → Type 0
IsInt64 (pos n) = n < 2 ^ 63
IsInt64 (negsuc n) = n < 2 ^ 63

pub time_parts_bounds : (t : ℤ) → ((time_parts t).0 < 2 ^ 64) × ((time_parts t).1 < 1000000)
unfolding time_parts
time_parts_bounds (pos n) = ground arith
time_parts_bounds (negsuc n) = ground arith

pub time_of-time_parts :
    (t : ℤ) → IsInt64 t → time_of (time_parts t).0 (time_parts t).1 ≡ whole_usecs t
unfolding time_of time_parts ◌+ℤ◌ ◌*ℤ◌
time_of-time_parts (pos n) h = ground arith
time_of-time_parts (negsuc n) h = ground arith

pub to_int64-to_uint64 : (d : ℤ) → IsInt64 d → to_int64 (to_uint64 d) ≡ d
to_int64-to_uint64 (pos n) h = ground arith
to_int64-to_uint64 (negsuc n) h = ground arith

pub to_uint64-lt : (d : ℤ) → to_uint64 d < 2 ^ 64
to_uint64-lt (pos n) = omega arith
to_uint64-lt (negsuc n) = omega arith
