-- ===== src/Inet/Kinds.antt =====
-- Kinds of addresses (`isMulticast` and `isSsm` of main/inet/InetAddr.cpp).
use bicast.Base.{ℕ, [], ◌∷◌, true, false, ◌≡◌, ◌≢◌, refl, arith, ne→==}
use bicast.Proto.{same_bytes}
use bicast.Inet.{ntohl, is_any4, is_multicast4, is_ssm4, ssm_bytes, is_ssm6}

-- An IPv4 address for source-specific multicast is a multicast address, and is not the wildcard.
is_ssm4-is_multicast4 : (a : ℕ) → is_ssm4 a ≡ true → (is_multicast4 a ≡ true) × (is_any4 a ≡ false)
unfolding is_ssm4 is_multicast4 is_any4 ntohl
is_ssm4-is_multicast4 a h = ground arith

-- On a little-endian host, `isSsm` is false for every IPv6 address whose last byte is not 0xff,
-- whatever its other bytes are, those of source-specific multicast addresses among them.
pub is_ssm6_misses :
    (a b c d e f g h i j k l m n o p : ℕ)
    → p ≢ 0xff
    → is_ssm6 (a ∷ b ∷ c ∷ d ∷ e ∷ f ∷ g ∷ h ∷ i ∷ j ∷ k ∷ l ∷ m ∷ n ∷ o ∷ p ∷ []) ≡ false
unfolding is_ssm6 ssm_bytes same_bytes
is_ssm6_misses a b c d e f g h i j k l m n o p ne = rw (ne→== p 0xff ne) refl
