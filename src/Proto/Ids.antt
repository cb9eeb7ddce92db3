-- ===== src/Proto/Ids.antt =====
-- Sets of product identifiers (`ProdIdSet` of main/BicastProto.cpp) and the identifiers themselves.
use bicast.Base.{
  suc, ◌+◌, ◌-◌, ◌%◌, ◌^◌, ◌<◌, [], ◌∷◌, ◌++◌, length, false, not, ◌&&◌, ℕ_discrete, ◌≡◌, refl,
  arith, All,
}
use mathlib.Core.List.{append_assoc, append-nil}
use bicast.Base.Sets.{
  contains, insert, erase, IsUnique, contains-erase_self, contains-erase_ne, insert_new,
  erase-IsUnique, contains-append,
}
use bicast.Xprt.Carries.{Carries, Carries-skip, Carries-seq, write32-Carries, write64-Carries}
use bicast.Proto.{
  ProdId, ProdIdSet, subtract, write_prod_id, read_prod_id, write_ids, write_prod_id_set, read_ids,
  read_prod_id_set,
}

-- After a subtraction a set of product IDs holds exactly what it held, less what the other set
-- holds.
pub contains-subtract :
    (ids rhs : ProdIdSet) (id : ProdId)
    → contains ℕ_discrete id (subtract ids rhs)
      ≡ (contains ℕ_discrete id ids && not (contains ℕ_discrete id rhs))
unfolding subtract contains
contains-subtract ids [] id = ground arith
contains-subtract ids (r ∷ rhs) id = ground (
  arith,
  contains-subtract (erase ℕ_discrete r ids) rhs id,
  contains-erase_self ℕ_discrete r ids,
  contains-erase_ne ℕ_discrete r id ids,
)

subtract-IsUnique :
    (ids rhs : ProdIdSet) → IsUnique ℕ_discrete ids → IsUnique ℕ_discrete (subtract ids rhs)
unfolding subtract
subtract-IsUnique ids [] u = u
subtract-IsUnique ids (r ∷ rhs) u =
    subtract-IsUnique (erase ℕ_discrete r ids) rhs (erase-IsUnique ℕ_discrete r ids u)

-- The sets whose elements are `uint64_t`s.
abbrev pub AreIds : ProdIdSet → Type 0
AreIds = All (λ id. id < 2 ^ 64)

-- No element of the list is in the other.
abbrev Apart : ProdIdSet → ProdIdSet → Type 0
Apart ids seen = All (λ id. contains ℕ_discrete id seen ≡ false) ids

Apart-insert :
    (ids seen : ProdIdSet) (id : ProdId)
    → contains ℕ_discrete id ids ≡ false
    → Apart ids seen
    → Apart ids (seen ++ (id ∷ []))
unfolding contains
Apart-insert [] seen id h a = tt
Apart-insert (x ∷ ids) seen id h a =
    ground (arith, contains-append ℕ_discrete x seen (id ∷ []), Apart-insert ids seen id)

pub write_prod_id-Carries : (id : ProdId) → id < 2 ^ 64 → Carries (write_prod_id id) read_prod_id id
unfolding write_prod_id read_prod_id
write_prod_id-Carries id h = write64-Carries id h

ids-Carries :
    (ids seen : ProdIdSet)
    → IsUnique ℕ_discrete ids
    → AreIds ids
    → Apart ids seen
    → length ids < 2 ^ 32
    → Carries (write_ids ids (length ids)) (read_ids (length ids) seen) (seen ++ ids)
unfolding write_ids read_ids
ids-Carries [] seen u w a h = rw append-nil (Carries-skip seen (λ o. refl))
ids-Carries (id ∷ ids) seen u w a h =
    Carries-seq {w = write_ids ids ((suc (length ids) + 2 ^ 32 - 1) % 2 ^ 32)}
      (λ i. read_ids (length ids) (insert ℕ_discrete i seen)) (write_prod_id-Carries id w.0)
      (rw (insert_new ℕ_discrete id seen a.0, less, ← append_assoc seen (id ∷ []) ids)
        (ids-Carries ids (seen ++ (id ∷ [])) u.1 w.1 (Apart-insert ids seen id u.0 a.1)
          (omega arith)))
  where
    less : (suc (length ids) + 2 ^ 32 - 1) % 2 ^ 32 ≡ length ids
    less = omega arith

-- A set of fewer than 2 ^ 32 product IDs of 64 bits, each once, is carried by a connection: what
-- is read is the set, in the order in which the sender iterates, the sender's assertion on the
-- count holds, and a connection that is lost before the last byte is reported as lost.
pub write_prod_id_set-Carries :
    (ids : ProdIdSet)
    → IsUnique ℕ_discrete ids
    → AreIds ids
    → length ids < 2 ^ 32
    → Carries (write_prod_id_set ids) read_prod_id_set ids
unfolding write_prod_id_set read_prod_id_set contains
write_prod_id_set-Carries ids u w h =
    let e : length ids % 2 ^ 32 ≡ length ids = omega arith in
    rw e (Carries-seq _ (write32-Carries (length ids) h) (ids-Carries ids [] u w (apart ids) h))
  where
    apart : (xs : ProdIdSet) → Apart xs []
    apart [] = tt
    apart (x ∷ xs) = (refl, apart xs)
