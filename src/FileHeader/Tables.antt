-- ===== src/FileHeader/Tables.antt =====
-- Tables of sector numbers: the entries that `fill` writes and the entries that it leaves.
use pku_os_lab.Common.{
  ℕ, zero, suc, ◌+◌, ◌≤◌, ◌<◌, ◌≡◌, refl, ap, ◌∙◌, true, List, [], ◌∷◌, ◌++◌, ℤ, pos, minus_one,
  length, get_or, arith,
}
use pku_os_lab.FileHeader.Sectors.{has, Distinct, Holds}

-- A table that agrees on the entries of `xs` holds them too.
pub Holds-frame :
    (table table' : List ℤ) (i : ℕ) (xs : List ℕ)
    → ((j : ℕ) → i ≤ j → j < i + length xs → get_or table' j minus_one ≡ get_or table j minus_one)
    → Holds table i xs
    → Holds table' i xs
Holds-frame table table' i [] same h = tt
Holds-frame table table' i (x ∷ xs) same h = (
  same i (omega arith) (omega arith) ∙ h.0,
  Holds-frame table table' (i + 1) xs (λ j lo hi. same j (omega arith) (omega arith)) h.1,
)

pub Holds-append :
    (table : List ℤ) (i k : ℕ) (xs ys : List ℕ)
    → i + length xs ≡ k
    → Holds table i xs
    → Holds table k ys
    → Holds table i (xs ++ ys)
Holds-append table i k [] ys e h g = let e' : k ≡ i = omega arith in rw e' at g
Holds-append table i k (x ∷ xs) ys e h g =
    (h.0, Holds-append table (i + 1) k xs ys (omega arith) h.1 g)

pub Holds-get_or :
    (table : List ℤ) (i k : ℕ) (xs : List ℕ)
    → Holds table i xs
    → k < length xs
    → get_or table (i + k) minus_one ≡ pos (get_or xs k 0)
Holds-get_or table i k [] h lt = absurd (omega arith)
Holds-get_or table i zero (x ∷ xs) h lt = ap (λ k. get_or table k minus_one) (omega arith) ∙ h.0
Holds-get_or table i (suc k) (x ∷ xs) h lt =
    ap (λ k. get_or table k minus_one) (omega arith)
    ∙ Holds-get_or table (i + 1) k xs h.1 (omega arith)

pub has-get_or : (xs : List ℕ) (k : ℕ) → k < length xs → has (get_or xs k 0) xs ≡ true
has-get_or [] k lt = absurd (omega arith)
has-get_or (x ∷ xs) zero lt = ground arith
has-get_or (x ∷ xs) (suc k) lt = ground (arith, has-get_or xs k (omega arith))

-- In a list with no sector twice, equal entries stand at one place.
pub Distinct-get_or :
    (xs : List ℕ) (k m : ℕ)
    → Distinct xs
    → k < length xs
    → m < length xs
    → get_or xs k 0 ≡ get_or xs m 0
    → k ≡ m
Distinct-get_or [] k m d lk lm e = absurd (omega arith)
Distinct-get_or (x ∷ xs) zero zero d lk lm e = refl
Distinct-get_or (x ∷ xs) zero (suc m) d lk lm e =
    absurd (ground (arith, has-get_or xs m (omega arith)))
Distinct-get_or (x ∷ xs) (suc k) zero d lk lm e =
    absurd (ground (arith, has-get_or xs k (omega arith)))
Distinct-get_or (x ∷ xs) (suc k) (suc m) d lk lm e =
    ap suc (Distinct-get_or xs k m d.1 (omega arith) (omega arith) e)
