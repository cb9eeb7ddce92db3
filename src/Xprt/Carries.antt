-- ===== src/Xprt/Carries.antt =====
-- What it means that a connection carries a value (the `write` and `read` members of the classes
-- that derive from main/inet/XprtAble.h), and how the parts of a value make up the whole.
use bicast.Base.{
  ℕ, zero, suc, ◌-◌, ◌/◌, ◌%◌, ◌≤◌, ◌<◌, ◌^◌, List, [], ◌∷◌, ◌++◌, length, length-append, take, leb,
  true, false, ◌≡◌, refl, ap, ◌∙◌, subst, arith, Bool-cases, ◌⊎◌, inl, inr,
}
use mathlib.Core.List.{append_assoc, append-nil}
use bicast.Base.Int.{ℤ}
use bicast.Xprt.{
  Io, ok, lost, raise, Out, Write, and_then, ◌then_write◌, Read, ◌>>=◌, pure, write_bytes, hton16,
  hton32, hton64, read_bytes, read8, read16, read32, read64, write8, write16, write32, write64,
  write_string8, read_string8, write_time, read_time, time_parts, time_of, write_duration,
  read_duration, to_uint64, to_int64,
}
use bicast.Xprt.Ints.{
  write_bytes-append, read_bytes-append, read16-hton16, read32-hton32, read64-hton64,
}
use bicast.Xprt.Strings.{write_string8_lem, read_string8-append}
use bicast.Xprt.Times.{
  IsInt64, whole_usecs, time_parts_bounds, time_of-time_parts, to_int64-to_uint64, to_uint64-lt,
}

-- `w` sends some bytes, all or none of which the connection accepts; from these bytes, whatever
-- follows them, `r` makes `a`; and from any part of them at the front `r` makes a lost connection.
pub record Carries {A : Type 0} (w : Write) (r : Read A) (a : A) : Type 0 where
  pub bytes : List ℕ
  pub sends : (o : Out) → w o ≡ write_bytes bytes o
  pub reads : (rest : List ℕ) → r (bytes ++ rest) ≡ ok (a, rest)
  cuts : (k : ℕ) → k < length bytes → r (take k bytes) ≡ lost

take_short : (xs ys : List ℕ) (k : ℕ) → k ≤ length xs → take k (xs ++ ys) ≡ take k xs
take_short xs ys zero h = refl
take_short [] ys (suc k) h = absurd (omega arith)
take_short (x ∷ xs) ys (suc k) h = ap (◌∷◌ x) (take_short xs ys k (omega arith))

take_long :
    (xs ys : List ℕ) (k : ℕ) → length xs ≤ k → take k (xs ++ ys) ≡ xs ++ take (k - length xs) ys
take_long [] ys k h = let e : k - 0 ≡ k = omega arith in rw e
take_long (x ∷ xs) ys zero h = absurd (omega arith)
take_long (x ∷ xs) ys (suc k) h =
    let e : suc k - suc (length xs) ≡ k - length xs = omega arith in
    rw e (ap (◌∷◌ x) (take_long xs ys k (omega arith)))

write_none : (o : Out) → ok o ≡ write_bytes [] o
unfolding write_bytes
write_none o = simp append-nil (ground arith)

pub then_write_lem :
    (v w : Write) (xs ys : List ℕ)
    → ((o : Out) → v o ≡ write_bytes xs o)
    → ((o : Out) → w o ≡ write_bytes ys o)
    → (o : Out) → (v then_write w) o ≡ write_bytes (xs ++ ys) o
then_write_lem v w xs ys hv hw o = rw hv (after (write_bytes xs o) ∙ write_bytes-append xs ys o)
  where
    after : (r : Io Out) → and_then r w ≡ and_then r (write_bytes ys)
    after (ok o') = hw o'
    after lost = refl
    after (raise e) = refl

pub Carries-seq :
    {A B : Type 0} {v w : Write} {r : Read A} {a : A} {b : B} (f : A → Read B)
    → Carries v r a
    → Carries w (f a) b
    → Carries (v then_write w) (r >>= f) b
Carries-seq {v = v} {w = w} {r = r} f p q = record {
  bytes = p.bytes ++ q.bytes;
  sends = then_write_lem v w p.bytes q.bytes p.sends q.sends;
  reads = λ rest.
      rw (append_assoc p.bytes q.bytes rest, ◌>>=◌, p.reads (q.bytes ++ rest)) (q.reads rest);
  cuts = λ k h. cut k h (Bool-cases (leb (length p.bytes) k));
}
  where
    cut :
        (k : ℕ)
        → k < length (p.bytes ++ q.bytes)
        → (leb (length p.bytes) k ≡ true) ⊎ (leb (length p.bytes) k ≡ false)
        → (r >>= f) (take k (p.bytes ++ q.bytes)) ≡ lost
    cut k h (inl long) =
        rw
          (
            take_long p.bytes q.bytes k (ground arith),
            ◌>>=◌,
            p.reads (take (k - length p.bytes) q.bytes),
          )
          (q.cuts (k - length p.bytes) (ground (arith, length-append p.bytes q.bytes)))
    cut k h (inr short) =
        rw (take_short p.bytes q.bytes k (ground arith), ◌>>=◌, p.cuts k (ground arith)) refl

-- What reads no further.
pub Carries-then :
    {A B : Type 0} {w : Write} {r : Read A} {a : A} {b : B} (f : A → Read B)
    → Carries w r a
    → ((rest : List ℕ) → f a rest ≡ ok (b, rest))
    → Carries w (r >>= f) b
Carries-then f p h = record {
  bytes = p.bytes;
  sends = p.sends;
  reads = λ rest. rw (◌>>=◌, p.reads rest) (h rest);
  cuts = λ k h. rw (◌>>=◌, p.cuts k h) refl;
}

pub Carries-map :
    {A B : Type 0} {w : Write} {r : Read A} {a : A} (g : A → B)
    → Carries w r a
    → Carries w (r >>= λ x. pure (g x)) (g a)
Carries-map g p = Carries-then (λ x. pure (g x)) p (λ rest. refl)

-- Nothing is sent for a value that is known.
pub Carries-skip :
    {A : Type 0} {w : Write} (a : A) → ((o : Out) → w o ≡ ok o) → Carries w (pure a) a
Carries-skip a skips = record {
  bytes = [];
  sends = λ o. skips o ∙ write_none o;
  reads = λ rest. refl;
  cuts = λ k h. absurd (omega arith);
}

pub write8-Carries : (v : ℕ) → Carries (write8 v) read8 v
unfolding write8 read8
write8-Carries v = record {
  bytes = v ∷ [];
  sends = λ o. refl;
  reads = λ rest. refl;
  cuts = elim [ zero ↦ λ h. refl | suc k ↦ λ h. absurd (omega arith) ];
}

cut32 : (a b c d k : ℕ) → k < 4 → read32 (take k (a ∷ b ∷ c ∷ d ∷ [])) ≡ lost
unfolding read32
cut32 a b c d zero h = refl
cut32 a b c d (suc zero) h = refl
cut32 a b c d (suc (suc zero)) h = refl
cut32 a b c d (suc (suc (suc zero))) h = refl
cut32 a b c d (suc (suc (suc (suc k)))) h = absurd (omega arith)

pub write16-Carries : (v : ℕ) → v < 2 ^ 16 → Carries (write16 v) read16 v
unfolding write16
write16-Carries v h = record {
  bytes = hton16 v;
  sends = λ o. refl;
  reads = λ rest. read16-hton16 v rest h;
  cuts = λ k. cut16 (v / 256 % 256) (v % 256) k;
}
  where
    cut16 : (a b k : ℕ) → k < 2 → read16 (take k (a ∷ b ∷ [])) ≡ lost
    cut16 a b zero h = unfold read16 in refl
    cut16 a b (suc zero) h = unfold read16 in refl
    cut16 a b (suc (suc k)) h = absurd (omega arith)

pub write32-Carries : (v : ℕ) → v < 2 ^ 32 → Carries (write32 v) read32 v
unfolding write32
write32-Carries v h = record {
  bytes = hton32 v;
  sends = λ o. refl;
  reads = λ rest. read32-hton32 v rest h;
  cuts = cut32 _ _ _ _;
}

cut64 :
    (a b c d e f g h k : ℕ) → k < 8 → read64 (take k (a ∷ b ∷ c ∷ d ∷ e ∷ f ∷ g ∷ h ∷ [])) ≡ lost
unfolding read64
cut64 a b c d e f g h zero p = refl
cut64 a b c d e f g h (suc zero) p = refl
cut64 a b c d e f g h (suc (suc zero)) p = refl
cut64 a b c d e f g h (suc (suc (suc zero))) p = refl
cut64 a b c d e f g h (suc (suc (suc (suc zero)))) p = refl
cut64 a b c d e f g h (suc (suc (suc (suc (suc zero))))) p = refl
cut64 a b c d e f g h (suc (suc (suc (suc (suc (suc zero)))))) p = refl
cut64 a b c d e f g h (suc (suc (suc (suc (suc (suc (suc zero))))))) p = refl
cut64 a b c d e f g h (suc (suc (suc (suc (suc (suc (suc (suc k)))))))) p = absurd (omega arith)

pub write64-Carries : (v : ℕ) → v < 2 ^ 64 → Carries (write64 v) read64 v
unfolding write64
write64-Carries v h = record {
  bytes = hton64 v;
  sends = λ o. refl;
  reads = λ rest. read64-hton64 v rest h;
  cuts = cut64 _ _ _ _ _ _ _ _;
}

cut_bytes : (xs : List ℕ) (k : ℕ) → k < length xs → read_bytes (length xs) (take k xs) ≡ lost
unfolding read_bytes
cut_bytes [] k h = elim h [ ]
cut_bytes (x ∷ xs) zero h = refl
cut_bytes (x ∷ xs) (suc k) h = rw (◌>>=◌, cut_bytes xs k (omega arith)) refl

pub write_bytes-Carries : (s : List ℕ) → Carries (write_bytes s) (read_bytes (length s)) s
write_bytes-Carries s = record {
  bytes = s;
  sends = λ o. refl;
  reads = λ rest. read_bytes-append s rest (length s) refl;
  cuts = cut_bytes s;
}

-- A string of up to 255 bytes is carried by a connection whole behind a length of one byte; a
-- connection that is lost before the last byte is reported as lost.
pub write_string8-Carries : (s : List ℕ) → length s ≤ 255 → Carries (write_string8 s) read_string8 s
write_string8-Carries s h = record {
  bytes = length s ∷ s;
  sends = λ o. write_string8_lem s o h;
  reads = λ rest. read_string8-append s rest;
  cuts = cut;
}
  where
    cut : (k : ℕ) → k < suc (length s) → read_string8 (take k (length s ∷ s)) ≡ lost
    cut zero h = unfold read_string8 read8 in refl
    cut (suc k) h = unfold read_string8 read8 in cut_bytes s k (omega arith)

-- A time, an `int64_t` of nanoseconds before or after the epoch, is carried by a connection as
-- the same time without the part below a microsecond, rounded towards the epoch; a connection
-- that is lost before the last byte is reported as lost.
pub write_time-Carries : (t : ℤ) → IsInt64 t → Carries (write_time t) read_time (whole_usecs t)
unfolding write_time read_time
write_time-Carries t h = rw (← time_of-time_parts t h) (
    Carries-seq _ (write64-Carries (time_parts t).0 (time_parts_bounds t).0) (
      Carries-map (time_of (time_parts t).0)
        (write32-Carries (time_parts t).1 (omega (arith, (time_parts_bounds t).1)))))

write_duration-Carries : (d : ℤ) → IsInt64 d → Carries (write_duration d) read_duration d
unfolding write_duration read_duration
write_duration-Carries d h =
    subst (Carries (write64 (to_uint64 d)) (read64 >>= λ c. pure (to_int64 c)))
      (to_int64-to_uint64 d h)
      (Carries-map to_int64 (write64-Carries (to_uint64 d) (to_uint64-lt d)))
