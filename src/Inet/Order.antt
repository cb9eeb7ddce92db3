-- ===== src/Inet/Order.antt =====
-- The order of Internet addresses (`operator<` of main/inet/InetAddr.cpp).
use bicast.Base.{
  ℕ, ◌^◌, ◌<◌, List, [], ◌∷◌, not, ◌&&◌, Bool, true, false, ◌≡◌, ◌≢◌, refl, sym, ◌∙◌, ◌⊎◌, arith,
}
use bicast.Proto.{same_bytes}
use bicast.Inet.{
  Impl, inet4, inet6, named, ntohl, lex, less_inet4, less_inet6, less_named, equal_inet4,
  equal_inet6, equal_named, less_impl,
}

-- Exactly one of `a < b`, `a = b` and `b < a`, for a test `lt` of the first and the last.
abbrev pub Trichotomy : {A : Type 0} → (A → A → Bool) → A → A → Type 0
Trichotomy lt a b =
    ((lt a b ≡ true) × (lt b a ≡ false) × (a ≢ b))
    ⊎ (((lt a b ≡ false) × (lt b a ≡ false) × (a ≡ b))
        ⊎ ((lt a b ≡ false) × (lt b a ≡ true) × (a ≢ b)))

lex_irrefl : (xs : List ℕ) → lex xs xs ≡ false
unfolding lex
lex_irrefl [] = refl
lex_irrefl (x ∷ xs) = ground (arith, lex_irrefl xs)

lex-Trichotomy : (xs ys : List ℕ) → Trichotomy lex xs ys
unfolding lex
lex-Trichotomy [] [] = ground arith
lex-Trichotomy [] (y ∷ ys) = ground arith
lex-Trichotomy (x ∷ xs) [] = ground arith
lex-Trichotomy (x ∷ xs) (y ∷ ys) = ground (arith, lex-Trichotomy xs ys)

lex_trans : (xs ys zs : List ℕ) → lex xs ys ≡ true → lex ys zs ≡ true → lex xs zs ≡ true
unfolding lex
lex_trans [] [] zs h k = cc
lex_trans [] (y ∷ ys) [] h k = cc
lex_trans [] (y ∷ ys) (z ∷ zs) h k = refl
lex_trans (x ∷ xs) [] zs h k = cc
lex_trans (x ∷ xs) (y ∷ ys) [] h k = cc
lex_trans (x ∷ xs) (y ∷ ys) (z ∷ zs) h k = ground (arith, lex_trans xs ys zs)

same_bytes_refl : (xs : List ℕ) → same_bytes xs xs ≡ true
unfolding same_bytes
same_bytes_refl [] = refl
same_bytes_refl (x ∷ xs) = ground (arith, same_bytes_refl xs)

same_bytes-eq : (xs ys : List ℕ) → same_bytes xs ys ≡ true → xs ≡ ys
unfolding same_bytes
same_bytes-eq [] [] h = refl
same_bytes-eq [] (y ∷ ys) h = cc
same_bytes-eq (x ∷ xs) [] h = cc
same_bytes-eq (x ∷ xs) (y ∷ ys) h = ground (arith, same_bytes-eq xs ys)

ntohl_injective : (a b : ℕ) → a < 2 ^ 32 → b < 2 ^ 32 → ntohl a ≡ ntohl b → a ≡ b
unfolding ntohl
ntohl_injective a b ha hb e = omega arith

-- The double dispatch comes to the order of the bytes.
not-lex : (a b : List ℕ) → (not (lex b a) && not (same_bytes b a)) ≡ lex a b
not-lex a b =
    ground (arith, lex-Trichotomy a b, same_bytes-eq b a, same_bytes_refl a, same_bytes_refl b)

-- An `s_addr` is a `uint32_t`.
abbrev pub IsImpl : Impl → Type 0
IsImpl (inet4 a) = a < 2 ^ 32
IsImpl (inet6 a) = Unit {0}
IsImpl (named a) = Unit {0}

pub less_impl-Trichotomy : (a b : Impl) → IsImpl a → IsImpl b → Trichotomy less_impl a b
unfolding less_impl less_inet4 less_inet6 less_named equal_inet4 equal_inet6 equal_named
less_impl-Trichotomy (inet4 a) (inet4 b) ha hb = ground (arith, ntohl_injective a b ha hb)
less_impl-Trichotomy (inet4 a) (inet6 b) ha hb = ground arith
less_impl-Trichotomy (inet4 a) (named b) ha hb = ground arith
less_impl-Trichotomy (inet6 a) (inet4 b) ha hb = ground arith
less_impl-Trichotomy (inet6 a) (inet6 b) ha hb =
    ground (arith, lex-Trichotomy a b, same_bytes-eq a b, same_bytes-eq b a, same_bytes_refl a)
less_impl-Trichotomy (inet6 a) (named b) ha hb = ground arith
less_impl-Trichotomy (named a) (inet4 b) ha hb = ground arith
less_impl-Trichotomy (named a) (inet6 b) ha hb = ground arith
less_impl-Trichotomy (named a) (named b) ha hb =
    ground (arith, lex-Trichotomy a b, same_bytes-eq a b, same_bytes-eq b a, same_bytes_refl a)

pub less_impl_trans :
    (a b c : Impl)
    → IsImpl a
    → IsImpl b
    → IsImpl c
    → less_impl a b ≡ true
    → less_impl b c ≡ true
    → less_impl a c ≡ true
unfolding less_impl less_inet4 less_inet6 less_named equal_inet4 equal_inet6 equal_named
less_impl_trans (inet4 a) (inet4 b) (inet4 c) ha hb hc h k =
    ground (arith, ntohl_injective a b ha hb, ntohl_injective b c hb hc)
less_impl_trans (inet6 a) (inet6 b) (inet6 c) ha hb hc h k =
    not-lex a c ∙ lex_trans a b c (sym (not-lex a b) ∙ h) (sym (not-lex b c) ∙ k)
less_impl_trans (named a) (named b) (named c) ha hb hc h k =
    not-lex a c ∙ lex_trans a b c (sym (not-lex a b) ∙ h) (sym (not-lex b c) ∙ k)
less_impl_trans a b c ha hb hc h k = ground arith
