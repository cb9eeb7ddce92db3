-- ===== src/Xprt/Strings.antt =====
-- Strings through a connection (`write<UINT>(const std::string&)` of main/inet/Xprt.cpp).
use bicast.Base.{ℕ, ◌≤◌, ◌<◌, List, [], ◌∷◌, ◌++◌, length, ◌≡◌, refl, arith, lt→ltb}
use bicast.Base.Result.{invalid_argument}
use bicast.Xprt.{ok, raise, Out, write_bytes, read8, write8, write_string8, read_string8}
use bicast.Xprt.Ints.{write_bytes-append, read_bytes-append}

pub write_string8_lem :
    (s : List ℕ) (o : Out) → length s ≤ 255 → write_string8 s o ≡ write_bytes (length s ∷ s) o
unfolding write_string8 write8
write_string8_lem s o h = ground (arith, write_bytes-append (length s ∷ []) s o)

write_string8_long :
    (s : List ℕ) (o : Out) → 255 < length s → write_string8 s o ≡ raise invalid_argument
unfolding write_string8
write_string8_long s o h = rw (lt→ltb 255 (length s) h)

pub read_string8-append : (s rest : List ℕ) → read_string8 (length s ∷ (s ++ rest)) ≡ ok (s, rest)
unfolding read_string8 read8
read_string8-append s rest = read_bytes-append s rest (length s) refl
