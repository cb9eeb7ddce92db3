-- ===== src/FileUtil.antt =====
-- `removeFileAndPrune` and `pruneEmptyDirPath` of main/misc/FileUtil.cpp. A directory on the way from the
-- file to the root is the number of its entries beside the one that is just being removed; what the
-- system calls answer is that of POSIX, and a directory that cannot be read is not modelled.
use bicast.Base.{
  ℕ, zero, suc, List, [], ◌∷◌, Bool, true, false, ◌==◌, ◌||◌, if◌then◌else◌, All, ◌≡◌, refl, sym,
  ◌⊎◌, inl, inr, arith,
}
use mathlib.Core.Bool.{true≢false}
use bicast.Base.Int.{ℤ, pos, negsuc}
use bicast.Base.Result.{Result, ok, raise, ◌>>=◌, system_error}

-- `EEXIST` and `ENOTEMPTY`.
abbrev pub eexist : ℕ
eexist = 17

abbrev pub enotempty : ℕ
enotempty = 39

-- What `rmdir` answers: -1, with the reason in `errno`, if the directory is not empty.
unfoldable pub rmdir : ℕ → ℤ
rmdir others = if others == 0 then pos 0 else negsuc 0

-- What `pruneEmptyDirPath` does with the answer: whether it goes on.
unfoldable pub goes_on : ℤ → Result Bool
goes_on (pos status) =
    if status == 0
    then ok true
    else (if (status == eexist) || (status == enotempty) then ok false else raise system_error)
goes_on (negsuc n) = raise system_error

-- The directories below the root, the innermost one first.
unfoldable pub prune_empty_dir_path : List ℕ → Result (Unit {0})
prune_empty_dir_path [] = ok tt
prune_empty_dir_path (others ∷ parents) =
    let rest = prune_empty_dir_path parents in
    goes_on (rmdir others) >>= λ on. if on then rest else ok tt

-- `unlinked` tells whether `unlink` removes the file.
unfoldable pub remove_file_and_prune : Bool → List ℕ → Result (Unit {0})
remove_file_and_prune unlinked dirs =
    if unlinked then prune_empty_dir_path dirs else raise system_error

prune_empty : (dirs : List ℕ) → All (λ n. n ≡ 0) dirs → prune_empty_dir_path dirs ≡ ok tt
unfolding prune_empty_dir_path goes_on rmdir
prune_empty [] h = refl
prune_empty (n ∷ dirs) (z, h) = ground (arith, z, prune_empty dirs h)

-- Either every directory is empty, or the first one that is not ends the call.
prune_cases :
    (dirs : List ℕ)
    → All (λ n. n ≡ 0) dirs
      ⊎ ((¬ All (λ n. n ≡ 0) dirs) × (prune_empty_dir_path dirs ≡ raise system_error))
unfolding prune_empty_dir_path goes_on rmdir
prune_cases [] = inl tt
prune_cases (zero ∷ dirs) = elim (prune_cases dirs) [
  | inl h ↦ inl (refl, h)
  | inr (n, e) ↦ inr ((λ h. n h.1), ground (arith, e))
]
prune_cases (suc k ∷ dirs) = inr ((λ h. absurd (omega (arith, h.0))), ground arith)

-- The file can be removed, and so can every directory on the way.
abbrev pub Removable : Bool → List ℕ → Type 0
Removable unlinked dirs = (unlinked ≡ true) × All (λ n. n ≡ 0) dirs

pub remove_file_and_prune_lem :
    (unlinked : Bool) (dirs : List ℕ)
    → (Removable unlinked dirs × (remove_file_and_prune unlinked dirs ≡ ok tt))
      ⊎ ((¬ Removable unlinked dirs) × (remove_file_and_prune unlinked dirs ≡ raise system_error))
unfolding remove_file_and_prune
remove_file_and_prune_lem false dirs = inr ((λ h. true≢false (sym h.0)), refl)
remove_file_and_prune_lem true dirs = elim (prune_cases dirs) [
  | inl h ↦ inl ((refl, h), prune_empty dirs h)
  | inr (n, e) ↦ inr ((λ h. n h.1), e)
]
