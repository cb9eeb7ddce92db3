-- ===== src/Inet/Carried.antt =====
-- How connections carry addresses (`write` and `read` of main/inet/InetAddr.cpp and SockAddr.cpp).
use bicast.Base.{ℕ, ◌^◌, ◌≤◌, ◌<◌, List, [], ◌∷◌, length, some, ◌≡◌, ◌≢◌, ◌↔◌, refl, subst, arith}
use bicast.Xprt.{
  Io, ok, lost, raise, Write, Read, ◌>>=◌, pure, write_bytes, read_bytes, read8, read32,
  read_string8,
}
use bicast.Xprt.Carries.{
  write8-Carries, write16-Carries, write32-Carries, write_bytes-Carries, write_string8-Carries,
}
use bicast.Xprt.Delivers.{Delivers, Carries-Delivers, Delivers-seq, Delivers-map}
use bicast.Inet.{
  Impl, inet4, inet6, named, Endpoint, write_impl, write_inet, constructed, or_throw, read_impl,
  read_inet, write_sock, read_sock,
}

-- An address in machine words and with the sizes of its class.
abbrev pub IsWire : Impl → Type 0
IsWire (inet4 a) = a < 2 ^ 32
IsWire (inet6 a) = length a ≡ 16
IsWire (named a) = length a ≤ 255

constructed-Delivers :
    {A : Type 0} {w : Write} {r : Read A} {a : A} → Delivers w r a → Delivers w (constructed r) a
unfolding constructed
constructed-Delivers d = record {
  bytes = d.bytes;
  sends = d.sends;
  reads = λ rest. rw (d.reads rest) refl;
}

impl-Delivers : (a : Impl) → IsWire a → Delivers (write_impl a) read_inet (some a)
unfolding write_impl read_inet read_impl
impl-Delivers (inet4 a) h = Delivers-seq _ (Carries-Delivers (write8-Carries 0)) (
    Delivers-map (λ x. some (inet4 x))
      (constructed-Delivers (Carries-Delivers (write32-Carries a h))))
impl-Delivers (inet6 a) h = Delivers-seq _ (Carries-Delivers (write8-Carries 1)) (
    Delivers-map (λ x. some (inet6 x))
      (constructed-Delivers (
        subst (λ n. Delivers (write_bytes a) (read_bytes n) a) h
          (Carries-Delivers (write_bytes-Carries a)))))
impl-Delivers (named a) h = Delivers-seq _ (Carries-Delivers (write8-Carries 2)) (
    Delivers-map (λ x. some (named x))
      (constructed-Delivers (Carries-Delivers (write_string8-Carries a h))))

write_inet-Delivers : (a : Impl) → IsWire a → Delivers (write_inet (some a)) read_inet (some a)
unfolding write_inet
write_inet-Delivers a h =
    let d = impl-Delivers a h in record { bytes = d.bytes; sends = d.sends; reads = d.reads }

-- A socket address with an Internet address, in machine words.
pub record IsWireSock (inet : Impl) (port : ℕ) : Type 0 where
  pub inet_wire : IsWire inet
  pub port_wire : port < 2 ^ 16

-- A socket address with a set Internet address of a size that its class allows and a port of 16
-- bits is written as some bytes, all or none of which the connection accepts, and from these,
-- whatever follows them, the same socket address is read.
pub write_sock-Delivers :
    (inet : Impl) (port : ℕ)
    → IsWireSock inet port
    → let a : Endpoint = record { inet_addr = some inet; port = port } in
      Delivers (write_sock (some a)) read_sock (some a)
unfolding write_sock read_sock
write_sock-Delivers inet port h =
    let d = Delivers-seq _ (write_inet-Delivers inet h.inet_wire) (
      Delivers-map (λ p. let e : Endpoint = record { inet_addr = some inet; port = p } in some e)
        (Carries-Delivers (write16-Carries port h.port_wire))) in
    record { bytes = d.bytes; sends = d.sends; reads = d.reads }

constructed-ne-lost : {A : Type 0} (r : Read A) (i : List ℕ) → constructed r i ≢ lost
unfolding constructed
constructed-ne-lost r i = throws (r i)
  where
    throws : {A : Type 0} (o : Io (A × List ℕ)) → or_throw o ≢ lost
    throws (ok a) e = cc
    throws lost e = cc
    throws (raise x) e = cc

map-ne-lost :
    {A B : Type 0} (r : Read A) (g : A → B) (i : List ℕ)
    → r i ≢ lost
    → (r >>= λ a. pure (g a)) i ≢ lost
map-ne-lost r g i h = ground arith

-- A read of an Internet address answers that the connection is lost exactly if no byte arrives:
-- behind the type, a connection that is lost is an exception.
pub read_inet-eq-lost : (i : List ℕ) → (read_inet i ≡ lost) ↔ (i ≡ [])
unfolding read_inet read_impl read8
read_inet-eq-lost [] = (λ e. refl, λ e. refl)
read_inet-eq-lost (t ∷ i) = ground (
  arith,
  map-ne-lost (constructed read32) (λ a. some (inet4 a)) i (constructed-ne-lost read32 i),
  map-ne-lost (constructed (read_bytes 16)) (λ a. some (inet6 a)) i
      (constructed-ne-lost (read_bytes 16) i),
  map-ne-lost (constructed read_string8) (λ a. some (named a)) i
      (constructed-ne-lost read_string8 i),
)
