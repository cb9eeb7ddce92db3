-- ===== src/Inet.antt =====
-- main/inet/InetAddr.cpp and main/inet/SockAddr.cpp: Internet addresses and socket addresses.
-- An object is its value: a null `pImpl` is `none`, and that two handles may share one `pImpl` is
-- not seen, since no operation writes to it. A host is little-endian.
pub mod Order
pub mod SockOrder
pub mod Carried
pub mod Kinds
use bicast.Base.{
  ℕ, ◌+◌, ◌*◌, ◌/◌, ◌%◌, ◌^◌, List, [], ◌∷◌, length, ltb, leb, ◌==◌, if◌then◌else◌, not, ◌&&◌, ◌||◌,
  Bool, true, false, Option, none, some,
}
use mathlib.Core.List.{reverse}
use bicast.Base.Result.{Error, Result, invalid_argument, runtime_error, undefined}
use bicast.Proto.{same_bytes}
use bicast.Xprt.{
  Out, Write, ◌then_write◌, Io, Read, ◌>>=◌, pure, fail, write_bytes, read_bytes, write8, read8,
  write16, read16, write32, read32, write_string8, read_string8,
}

-- `InetAddr::Impl`: an `Inet4Addr` with its `s_addr`, an `Inet6Addr` with its 16 bytes, a `NameAddr`
-- with its name. The three constructors are the types `ADDR_IPV4`, `ADDR_IPV6` and `ADDR_NAME`.
pub data Impl : Type 0 where
  inet4 : ℕ → Impl
  inet6 : List ℕ → Impl
  named : List ℕ → Impl

-- `ntohl`: `s_addr` has its first byte in the lowest place.
unfoldable pub ntohl : ℕ → ℕ
ntohl v = v % 256 * 2 ^ 24 + v / 256 % 256 * 2 ^ 16 + v / 2 ^ 16 % 256 * 256 + v / 2 ^ 24

-- The order of `memcmp` on 16 bytes, and of `std::string`.
unfoldable pub lex : List ℕ → List ℕ → Bool
lex [] [] = false
lex [] (y ∷ ys) = true
lex (x ∷ xs) [] = false
lex (x ∷ xs) (y ∷ ys) = ltb x y || (x == y && lex xs ys)

-- `operator<(const Inet4Addr&)` of the three classes, and so on.
unfoldable pub less_inet4 : Impl → ℕ → Bool
less_inet4 (inet4 a) b = ltb (ntohl a) (ntohl b)
less_inet4 (inet6 a) b = false
less_inet4 (named a) b = false

unfoldable pub less_inet6 : Impl → List ℕ → Bool
less_inet6 (inet4 a) b = true
less_inet6 (inet6 a) b = lex a b
less_inet6 (named a) b = false

unfoldable pub less_named : Impl → List ℕ → Bool
less_named (inet4 a) b = true
less_named (inet6 a) b = true
less_named (named a) b = lex a b

unfoldable pub equal_inet4 : Impl → ℕ → Bool
equal_inet4 (inet4 a) b = a == b
equal_inet4 (inet6 a) b = false
equal_inet4 (named a) b = false

unfoldable pub equal_inet6 : Impl → List ℕ → Bool
equal_inet6 (inet4 a) b = false
equal_inet6 (inet6 a) b = same_bytes a b
equal_inet6 (named a) b = false

unfoldable pub equal_named : Impl → List ℕ → Bool
equal_named (inet4 a) b = false
equal_named (inet6 a) b = false
equal_named (named a) b = same_bytes a b

-- `operator<(const InetAddr::Impl&)`: the double dispatch, `!(rhs < *this) && !(rhs == *this)`.
unfoldable pub less_impl : Impl → Impl → Bool
less_impl (inet4 a) rhs = not (less_inet4 rhs a) && not (equal_inet4 rhs a)
less_impl (inet6 a) rhs = not (less_inet6 rhs a) && not (equal_inet6 rhs a)
less_impl (named a) rhs = not (less_named rhs a) && not (equal_named rhs a)

abbrev pub InetAddr : Type 0
InetAddr = Option Impl

-- `InetAddr::operator<`.
unfoldable pub less_inet : InetAddr → InetAddr → Bool
less_inet none none = false
less_inet none (some b) = true
less_inet (some a) none = false
less_inet (some a) (some b) = less_impl a b

-- `SockAddr::Impl`.
pub record Endpoint : Type 0 where
  pub inet_addr : InetAddr
  pub port : ℕ

unfoldable pub less_endpoint : Endpoint → Endpoint → Bool
less_endpoint a b =
    if less_inet a.inet_addr b.inet_addr
    then true
    else if less_inet b.inet_addr a.inet_addr
    then false
    else ltb a.port b.port

abbrev pub SockAddr : Type 0
SockAddr = Option Endpoint

-- `SockAddr::operator<`.
unfoldable pub less : SockAddr → SockAddr → Bool
less none none = false
less none (some b) = true
less (some a) none = false
less (some a) (some b) = less_endpoint a b

-- `SockAddr::operator==`, which reads through both pointers.
unfoldable pub equal : SockAddr → SockAddr → Result Bool
equal (some a) (some b) = Result.ok (not (less_endpoint a b || less_endpoint b a))
equal _ _ = Result.raise undefined

-- `InetAddr::write`. A null pointer is read through.
unfoldable pub write_impl : Impl → Write
write_impl (inet4 a) = write8 0 then_write write32 a
write_impl (inet6 a) = write8 1 then_write write_bytes a
write_impl (named a) = write8 2 then_write write_string8 a

unfoldable pub write_inet : InetAddr → Write
write_inet none o = Io.raise undefined
write_inet (some a) o = write_impl a o

-- The constructors from a transport throw where `read` returns `false`.
unfoldable pub or_throw : {A : Type 0} → Io (A × List ℕ) → Io (A × List ℕ)
or_throw (Io.ok r) = Io.ok r
or_throw Io.lost = Io.raise runtime_error
or_throw (Io.raise e) = Io.raise e

unfoldable pub constructed : {A : Type 0} → Read A → Read A
unfolding or_throw
constructed r i = or_throw (r i)

-- `InetAddr::read`, behind the type of the address.
unfoldable pub read_impl : ℕ → Read InetAddr
read_impl addr_type =
    if addr_type == 0
    then (do a ← constructed read32; pure (some (inet4 a)))
    else if addr_type == 1
    then (do a ← constructed (read_bytes 16); pure (some (inet6 a)))
    else if addr_type == 2
    then (do a ← constructed read_string8; pure (some (named a)))
    else fail runtime_error

unfoldable pub read_inet : Read InetAddr
read_inet = do addr_type ← read8; read_impl addr_type

unfoldable pub write_sock : SockAddr → Write
write_sock none o = Io.raise undefined
write_sock (some a) o = (write_inet a.inet_addr then_write write16 a.port) o

unfoldable pub read_sock : Read SockAddr
read_sock = do
  inet_addr ← read_inet
  port ← read16
  pure (some (record { inet_addr = inet_addr; port = port }))

-- `NameAddr::NameAddr(const std::string&)`; `resolves` is the outcome of `getaddrinfo`.
unfoldable name_addr : (List ℕ → Bool) → List ℕ → Result Impl
name_addr resolves name =
    if ltb 255 (length name)
    then Result.raise invalid_argument
    else if resolves name
    then Result.ok (named name)
    else Result.raise invalid_argument

-- `isAny`, `isMulticast` and `isSsm` of an `Inet4Addr`.
unfoldable pub is_any4 : ℕ → Bool
is_any4 a = a == 0

unfoldable pub is_multicast4 : ℕ → Bool
is_multicast4 a = leb 0xe0000000 (ntohl a) && leb (ntohl a) 0xefffffff

unfoldable pub is_ssm4 : ℕ → Bool
is_ssm4 a = leb 0xe8000100 (ntohl a) && leb (ntohl a) 0xe8ffffff

-- The tests on the 16 bytes `ip` in `Inet6Addr::isSsm`.
unfoldable pub ssm_bytes : List ℕ → Bool
ssm_bytes (a ∷ b ∷ c ∷ d ∷ e ∷ f ∷ g ∷ h ∷ i ∷ j ∷ k ∷ l ∷ m ∷ n ∷ o ∷ p ∷ []) =
    let last4 = m * 2 ^ 24 + n * 2 ^ 16 + o * 256 + p in
    same_bytes (a ∷ b / 16 * 16 ∷ c ∷ d ∷ e ∷ f ∷ g ∷ h ∷ i ∷ j ∷ k ∷ l ∷ [])
      (0xff ∷ 0x30 ∷ 0 ∷ 0 ∷ 0 ∷ 0 ∷ 0 ∷ 0 ∷ 0 ∷ 0 ∷ 0 ∷ 0 ∷ [])
    && (leb last4 0x40000000 || leb 0x80000000 last4)
ssm_bytes _ = false

-- `Inet6Addr::isSsm` on a little-endian host, where `htons(1) != 1`.
unfoldable pub is_ssm6 : List ℕ → Bool
is_ssm6 addr = ssm_bytes (reverse addr)
