-- ===== src/Xprt.antt =====
-- main/inet/Xprt.cpp over main/inet/Socket.cpp: how values go through a connection.
-- A connection that is written to accepts `room` more bytes and is then lost; one that is read from
-- is the list of the bytes that still arrive before it is lost. A host is little-endian.
pub mod Ints
pub mod Strings
pub mod Times
pub mod Carries
pub mod Delivers
use bicast.Base.{
  ℕ, zero, suc, ◌+◌, ◌-◌, ◌*◌, ◌/◌, ◌%◌, ◌^◌, List, [], ◌∷◌, ◌++◌, length, leb, ltb, ==_iff,
  if◌then◌else◌, Bool, true, false, arith,
}
use bicast.Base.Result.{Error, invalid_argument}
use bicast.Base.Int.{ℤ, pos, negsuc, ◌+ℤ◌, ◌*ℤ◌}

-- What an operation on a transport ends in: success, a lost connection (`false`), an exception.
pub data Io {ℓ} (A : Type ℓ) : Type ℓ where
  ok : A → Io A
  lost : Io A
  raise : Error → Io A

pub record Out : Type 0 where
  pub sent : List ℕ
  pub room : ℕ

-- An operation that writes: the calls are joined by `&&`.
abbrev pub Write : Type 0
Write = Out → Io Out

abbrev pub and_then : Io Out → Write → Io Out
and_then (ok o) b = b o
and_then lost b = lost
and_then (raise e) b = raise e

infixr 5 ◌then_write◌
abbrev pub ◌then_write◌ : Write → Write → Write
◌then_write◌ a b o = and_then (a o) b

-- An operation that reads.
abbrev pub Read : Type 0 → Type 0
Read A = List ℕ → Io (A × List ℕ)

infixl 5 ◌>>=◌
abbrev pub ◌>>=◌ : {A B : Type 0} → Read A → (A → Read B) → Read B
◌>>=◌ m f i = elim (m i) [ ok (a, i') ↦ f a i' | lost ↦ lost | raise e ↦ raise e ]

abbrev pub pure : {A : Type 0} → A → Read A
pure a i = ok (a, i)

abbrev pub fail : {A : Type 0} → Error → Read A
fail e i = raise e

-- `write(const void*, size_t)`.
unfoldable pub write_bytes : List ℕ → Write
write_bytes bs o =
    if leb (length bs) o.room
    then ok (record { sent = o.sent ++ bs; room = o.room - length bs })
    else lost

-- `hton` of each unsigned type, as the bytes in memory.
abbrev pub hton16 : ℕ → List ℕ
hton16 v = v / 256 % 256 ∷ v % 256 ∷ []

abbrev pub hton32 : ℕ → List ℕ
hton32 v = v / 2 ^ 24 % 256 ∷ v / 2 ^ 16 % 256 ∷ v / 256 % 256 ∷ v % 256 ∷ []

abbrev pub hton64 : ℕ → List ℕ
hton64 v = hton32 (v / 2 ^ 32 % 2 ^ 32) ++ hton32 (v % 2 ^ 32)

unfoldable pub write8 : ℕ → Write
write8 v = write_bytes (v ∷ [])

unfoldable pub write16 : ℕ → Write
write16 v = write_bytes (hton16 v)

unfoldable pub write32 : ℕ → Write
write32 v = write_bytes (hton32 v)

unfoldable pub write64 : ℕ → Write
write64 v = write_bytes (hton64 v)

-- `read(void*, size_t)`: `n` bytes, or a lost connection.
unfoldable pub read_bytes : ℕ → Read (List ℕ)
read_bytes zero i = ok ([], i)
read_bytes (suc n) [] = lost
read_bytes (suc n) (b ∷ i) = (do bs ← read_bytes n; pure (b ∷ bs)) i

unfoldable pub read8 : Read ℕ
read8 (b ∷ i) = ok (b, i)
read8 _ = lost

unfoldable pub read16 : Read ℕ
read16 (a ∷ b ∷ i) = ok (a * 256 + b, i)
read16 _ = lost

abbrev ntoh32 : ℕ → ℕ → ℕ → ℕ → ℕ
ntoh32 a b c d = a * 2 ^ 24 + b * 2 ^ 16 + c * 256 + d

unfoldable pub read32 : Read ℕ
read32 (a ∷ b ∷ c ∷ d ∷ i) = ok (ntoh32 a b c d, i)
read32 _ = lost

unfoldable pub read64 : Read ℕ
read64 (a ∷ b ∷ c ∷ d ∷ e ∷ f ∷ g ∷ h ∷ i) = ok (ntoh32 a b c d * 2 ^ 32 + ntoh32 e f g h, i)
read64 _ = lost

-- `write<uint8_t>(const std::string&)` and its counterpart.
unfoldable pub write_string8 : List ℕ → Write
write_string8 s o =
    if ltb 255 (length s)
    then raise invalid_argument
    else (write8 (length s) then_write write_bytes s) o

unfoldable pub read_string8 : Read (List ℕ)
read_string8 = do size ← read8; read_bytes size

-- A `SysTimePoint` and a `SysDuration` are counts of nanoseconds, an `int64_t`.
abbrev pub to_uint64 : ℤ → ℕ
to_uint64 (pos n) = n % 2 ^ 64
to_uint64 (negsuc n) = (2 ^ 64 - 1 - n % 2 ^ 64) % 2 ^ 64

abbrev pub to_int64 : ℕ → ℤ
to_int64 v = if ltb v (2 ^ 63) then pos v else negsuc (2 ^ 64 - 1 - v)

-- The seconds and the microseconds that `write(const SysTimePoint&)` sends. `to_time_t` and
-- `duration_cast` round towards zero, and a negative remainder borrows a second.
unfoldable pub time_parts : ℤ → ℕ × ℕ
time_parts (pos n) = (to_uint64 (pos (n / 10 ^ 9)), n % 10 ^ 9 / 1000)
time_parts (negsuc n) =
    let secs = (2 ^ 64 - (n + 1) / 10 ^ 9) % 2 ^ 64 in
    let usecs = (n + 1) % 10 ^ 9 / 1000 in
    if ltb 0 usecs then ((secs + 2 ^ 64 - 1) % 2 ^ 64, 1000000 - usecs) else (secs, usecs)

unfoldable pub write_time : ℤ → Write
write_time t = let (secs, usecs) = time_parts t in write64 secs then_write write32 usecs

-- `from_time_t(secs) + microseconds(usecs)`.
unfoldable pub time_of : ℕ → ℕ → ℤ
time_of secs usecs = to_int64 secs *ℤ pos (10 ^ 9) +ℤ pos (usecs * 1000)

unfoldable pub read_time : Read ℤ
read_time = do secs ← read64; usecs ← read32; pure (time_of secs usecs)

unfoldable pub write_duration : ℤ → Write
write_duration d = write64 (to_uint64 d)

unfoldable pub read_duration : Read ℤ
read_duration = do count ← read64; pure (to_int64 count)
