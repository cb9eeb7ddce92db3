-- ===== src/ProdFile/Overwrite.antt =====
-- Lists that are overwritten from an offset on (`memcpy` of main/repository/ProdFile.cpp), and lists
-- of Booleans by how many are true.
use bicast.Base.{
  ℕ, zero, suc, ◌+◌, ◌≤◌, ◌<◌, List, [], ◌∷◌, length, get_elem?, set, take, drop, replicate, Bool,
  true, false, some, ◌≡◌, refl, ap, arith,
}
use bicast.ProdFile.{overwrite}

pub length-overwrite : (o : ℕ) (bs c : List ℕ) → length (overwrite o bs c) ≡ length c
unfolding overwrite
length-overwrite zero [] c = refl
length-overwrite zero (b ∷ bs) [] = refl
length-overwrite zero (b ∷ bs) (x ∷ c) = ap suc (length-overwrite zero bs c)
length-overwrite (suc o) bs [] = refl
length-overwrite (suc o) bs (x ∷ c) = ap suc (length-overwrite o bs c)

pub overwrite_before :
    (o : ℕ) (bs c : List ℕ) (j : ℕ) → j < o → get_elem? (overwrite o bs c) j ≡ get_elem? c j
unfolding overwrite
overwrite_before zero bs c j h = absurd (omega arith)
overwrite_before (suc o) bs [] j h = refl
overwrite_before (suc o) bs (x ∷ c) zero h = refl
overwrite_before (suc o) bs (x ∷ c) (suc j) h = overwrite_before o bs c j (omega arith)

pub overwrite_behind :
    (o : ℕ) (bs c : List ℕ) (j : ℕ)
    → o + length bs ≤ j
    → get_elem? (overwrite o bs c) j ≡ get_elem? c j
unfolding overwrite
overwrite_behind zero [] c j h = refl
overwrite_behind zero (b ∷ bs) [] j h = refl
overwrite_behind zero (b ∷ bs) (x ∷ c) zero h = absurd (omega arith)
overwrite_behind zero (b ∷ bs) (x ∷ c) (suc j) h = overwrite_behind zero bs c j (omega arith)
overwrite_behind (suc o) bs [] j h = refl
overwrite_behind (suc o) bs (x ∷ c) zero h = absurd (omega arith)
overwrite_behind (suc o) bs (x ∷ c) (suc j) h = overwrite_behind o bs c j (omega arith)

pub overwrite_within :
    (o : ℕ) (bs c : List ℕ) (j k : ℕ)
    → k ≡ o + j
    → j < length bs
    → o + length bs ≤ length c
    → get_elem? (overwrite o bs c) k ≡ get_elem? bs j
unfolding overwrite
overwrite_within zero [] c j k e h w = absurd (omega arith)
overwrite_within zero (b ∷ bs) [] j k e h w = absurd (omega arith)
overwrite_within zero (b ∷ bs) (x ∷ c) zero zero e h w = refl
overwrite_within zero (b ∷ bs) (x ∷ c) zero (suc k) e h w = absurd (omega arith)
overwrite_within zero (b ∷ bs) (x ∷ c) (suc j) zero e h w = absurd (omega arith)
overwrite_within zero (b ∷ bs) (x ∷ c) (suc j) (suc k) e h w =
    overwrite_within zero bs c j k (omega arith) (omega arith) (omega arith)
overwrite_within (suc o) bs [] j k e h w = absurd (omega arith)
overwrite_within (suc o) bs (x ∷ c) j zero e h w = absurd (omega arith)
overwrite_within (suc o) bs (x ∷ c) j (suc k) e h w =
    overwrite_within o bs c j k (omega arith) h (omega arith)

pub get_elem?-take :
    (n : ℕ) (xs : List ℕ) (j : ℕ) → j < n → get_elem? (take n xs) j ≡ get_elem? xs j
get_elem?-take zero xs j h = absurd (omega arith)
get_elem?-take (suc n) [] j h = refl
get_elem?-take (suc n) (x ∷ xs) zero h = refl
get_elem?-take (suc n) (x ∷ xs) (suc j) h = get_elem?-take n xs j (omega arith)

pub get_elem?-drop :
    (o : ℕ) (xs : List ℕ) (j k : ℕ) → k ≡ o + j → get_elem? (drop o xs) j ≡ get_elem? xs k
get_elem?-drop zero xs j k e = ap (get_elem? xs) (omega arith)
get_elem?-drop (suc o) [] j k e = refl
get_elem?-drop (suc o) (x ∷ xs) j zero e = absurd (omega arith)
get_elem?-drop (suc o) (x ∷ xs) j (suc k) e = get_elem?-drop o xs j k (omega arith)

-- Lists of one length with the same elements.
pub list_ext :
    (xs ys : List ℕ)
    → length xs ≡ length ys
    → ((j : ℕ) → j < length xs → get_elem? xs j ≡ get_elem? ys j)
    → xs ≡ ys
list_ext [] [] e h = refl
list_ext [] (y ∷ ys) e h = absurd (omega arith)
list_ext (x ∷ xs) [] e h = absurd (omega arith)
list_ext (x ∷ xs) (y ∷ ys) e h =
    let first : some x ≡ some y = h 0 (omega arith) in
    let rest : xs ≡ ys = list_ext xs ys (omega arith) (λ j k. h (suc j) (omega arith)) in
    ground (arith, first, rest)

abbrev pub num_true : List Bool → ℕ
num_true [] = 0
num_true (true ∷ bs) = suc (num_true bs)
num_true (false ∷ bs) = num_true bs

pub num_true-le : (bs : List Bool) → num_true bs ≤ length bs
num_true-le [] = omega arith
num_true-le (true ∷ bs) = omega (arith, num_true-le bs)
num_true-le (false ∷ bs) = omega (arith, num_true-le bs)

pub num_true-set :
    (bs : List Bool) (i : ℕ)
    → get_elem? bs i ≡ some false
    → num_true (set bs i true) ≡ num_true bs + 1
num_true-set [] i h = cc
num_true-set (true ∷ bs) zero h = cc
num_true-set (false ∷ bs) zero h = omega arith
num_true-set (true ∷ bs) (suc i) h = omega (arith, num_true-set bs i h)
num_true-set (false ∷ bs) (suc i) h = num_true-set bs i h

-- If all are counted, each is true.
pub num_true_all :
    (bs : List Bool) (i : ℕ) → num_true bs ≡ length bs → i < length bs → get_elem? bs i ≡ some true
num_true_all [] i e h = absurd (omega arith)
num_true_all (true ∷ bs) zero e h = refl
num_true_all (true ∷ bs) (suc i) e h = num_true_all bs i (omega arith) (omega arith)
num_true_all (false ∷ bs) i e h = absurd (omega (arith, num_true-le bs))

pub num_true-replicate : (n : ℕ) → num_true (replicate n false) ≡ 0
num_true-replicate zero = refl
num_true-replicate (suc n) = num_true-replicate n

pub get_elem?-some :
    (bs : List Bool) (i : ℕ) → i < length bs → (b : Bool) × (get_elem? bs i ≡ some b)
get_elem?-some [] i h = absurd (omega arith)
get_elem?-some (b ∷ bs) zero h = (b, refl)
get_elem?-some (b ∷ bs) (suc i) h = get_elem?-some bs i (omega arith)
