-- ===== src/Xprt/Delivers.antt =====
-- Carrying a value where a connection that is lost midway is not always reported as lost: the
-- constructors of main/inet/InetAddr.cpp throw instead.
use bicast.Base.{ℕ, List, ◌++◌, ◌≡◌, refl}
use mathlib.Core.List.{append_assoc}
use bicast.Xprt.{ok, Out, Write, ◌then_write◌, Read, ◌>>=◌, pure, write_bytes}
use bicast.Xprt.Carries.{Carries, then_write_lem}

-- `w` sends some bytes, all or none of which the connection accepts; from these bytes, whatever
-- follows them, `r` makes `a`.
pub record Delivers {A : Type 0} (w : Write) (r : Read A) (a : A) : Type 0 where
  pub bytes : List ℕ
  pub sends : (o : Out) → w o ≡ write_bytes bytes o
  pub reads : (rest : List ℕ) → r (bytes ++ rest) ≡ ok (a, rest)

pub Carries-Delivers :
    {A : Type 0} {w : Write} {r : Read A} {a : A} → Carries w r a → Delivers w r a
Carries-Delivers c = record { bytes = c.bytes; sends = c.sends; reads = c.reads }

pub Delivers-seq :
    {A B : Type 0} {v w : Write} {r : Read A} {a : A} {b : B} (f : A → Read B)
    → Delivers v r a
    → Delivers w (f a) b
    → Delivers (v then_write w) (r >>= f) b
Delivers-seq {v = v} {w = w} f p q = record {
  bytes = p.bytes ++ q.bytes;
  sends = then_write_lem v w p.bytes q.bytes p.sends q.sends;
  reads = λ rest.
      rw (append_assoc p.bytes q.bytes rest, ◌>>=◌, p.reads (q.bytes ++ rest)) (q.reads rest);
}

-- What reads no further.
pub Delivers-then :
    {A B : Type 0} {w : Write} {r : Read A} {a : A} {b : B} (f : A → Read B)
    → Delivers w r a
    → ((rest : List ℕ) → f a rest ≡ ok (b, rest))
    → Delivers w (r >>= f) b
Delivers-then f p h = record {
  bytes = p.bytes;
  sends = p.sends;
  reads = λ rest. rw (◌>>=◌, p.reads rest) (h rest);
}

pub Delivers-map :
    {A B : Type 0} {w : Write} {r : Read A} {a : A} (g : A → B)
    → Delivers w r a
    → Delivers w (r >>= λ x. pure (g x)) (g a)
Delivers-map g p = Delivers-then (λ x. pure (g x)) p (λ rest. refl)
