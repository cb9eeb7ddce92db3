-- ===== src/Xprt/Ints.antt =====
-- Unsigned integers through a connection (`hton`, `ntoh`, `write`, `read` of main/inet/Xprt.cpp).
use bicast.Base.{
  ℕ, zero, suc, ◌^◌, ◌<◌, List, [], ◌∷◌, ◌++◌, length, length-append, leb, ◌≡◌, refl, arith,
  Bool-cases, inl, inr,
}
use mathlib.Core.List.{append_assoc}
use bicast.Xprt.{
  ok, Out, ◌then_write◌, write_bytes, hton16, hton32, hton64, read_bytes, read16, read32, read64,
}

-- Two writes in a row are one write of both byte strings, also where the connection is lost.
pub write_bytes-append :
    (xs ys : List ℕ) (o : Out)
    → (write_bytes xs then_write write_bytes ys) o ≡ write_bytes (xs ++ ys) o
unfolding write_bytes
write_bytes-append xs ys o = elim (Bool-cases (leb (length xs) o.room)) [
  | inl fits ↦ rw fits (ground (arith, length-append xs ys, append_assoc o.sent xs ys))
  | inr full ↦ rw full (ground (arith, length-append xs ys))
]

pub read_bytes-append :
    (xs rest : List ℕ) (n : ℕ) → length xs ≡ n → read_bytes n (xs ++ rest) ≡ ok (xs, rest)
unfolding read_bytes
read_bytes-append [] rest zero h = refl
read_bytes-append [] rest (suc n) h = absurd (omega arith)
read_bytes-append (x ∷ xs) rest zero h = absurd (omega arith)
read_bytes-append (x ∷ xs) rest (suc n) h = ground (arith, read_bytes-append xs rest n)

pub read16-hton16 : (v : ℕ) (rest : List ℕ) → v < 2 ^ 16 → read16 (hton16 v ++ rest) ≡ ok (v, rest)
unfolding read16
read16-hton16 v rest h = ground arith

pub read32-hton32 : (v : ℕ) (rest : List ℕ) → v < 2 ^ 32 → read32 (hton32 v ++ rest) ≡ ok (v, rest)
unfolding read32
read32-hton32 v rest h = ground arith

pub read64-hton64 : (v : ℕ) (rest : List ℕ) → v < 2 ^ 64 → read64 (hton64 v ++ rest) ≡ ok (v, rest)
unfolding read64
read64-hton64 v rest h = ground arith
