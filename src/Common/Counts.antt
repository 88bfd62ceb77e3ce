-- ===== src/Common/Counts.antt =====
-- How many of the indices of a range a Boolean function leaves unset.
use Prim.Native.Nat.{ℕ, zero, suc, ◌+◌, ◌≤◌, ◌<◌}
use mathlib.Core.Path.{◌≡◌, refl}
use mathlib.Core.Bool.{Bool, true, false}
use mathlib.Core.Logic.{inl, inr}
use native.Mathlib.Omega.{arith}
use pku_os_lab.Common.Tests.{◌==◌, if◌then◌else◌, Bool-cases}

-- Over the `n` indices from `i` on.
abbrev pub unset : (ℕ → Bool) → ℕ → ℕ → ℕ
unset f zero i = 0
unset f (suc n) i = (if f i then 0 else 1) + unset f n (i + 1)

pub unset-le : (f : ℕ → Bool) (n i : ℕ) → unset f n i ≤ n
unset-le f zero i = omega arith
unset-le f (suc n) i = ground (arith, unset-le f n (i + 1))

pub unset-same :
    (f g : ℕ → Bool) (n i : ℕ)
    → ((j : ℕ) → i ≤ j → j < i + n → g j ≡ f j)
    → unset g n i ≡ unset f n i
unset-same f g zero i h = refl
unset-same f g (suc n) i h =
    ground (arith, h i, unset-same f g n (i + 1) (λ j a b. h j (omega arith) (omega arith)))

-- To set one clear index of the range takes one off the count.
pub unset-set :
    (f g : ℕ → Bool) (k n i : ℕ)
    → ((j : ℕ) → g j ≡ (if k == j then true else f j))
    → f k ≡ false
    → i ≤ k
    → k < i + n
    → unset f n i ≡ suc (unset g n i)
unset-set f g k zero i h e lo hi = absurd (omega arith)
unset-set f g k (suc n) i h e lo hi = elim (Bool-cases (k == i)) [
  | inl here ↦ ground (arith, h i, unset-same f g n (i + 1) (λ j a b. ground (arith, h j)))
  | inr later ↦ ground (arith, h i, unset-set f g k n (i + 1) h e (ground arith) (ground arith))
]

-- To clear one set index of the range adds one to the count.
pub unset-unset :
    (f g : ℕ → Bool) (k n i : ℕ)
    → ((j : ℕ) → g j ≡ (if k == j then false else f j))
    → f k ≡ true
    → i ≤ k
    → k < i + n
    → unset g n i ≡ suc (unset f n i)
unset-unset f g k n i h e lo hi =
    unset-set g f k n i (λ j. ground (arith, h j)) (ground (arith, h k)) lo hi

pub unset-zero :
    (f : ℕ → Bool) (n i : ℕ) → ((j : ℕ) → i ≤ j → j < i + n → f j ≡ true) → unset f n i ≡ 0
unset-zero f zero i h = refl
unset-zero f (suc n) i h =
    ground (arith, h i, unset-zero f n (i + 1) (λ j a b. h j (omega arith) (omega arith)))

pub unset-full :
    (f : ℕ → Bool) (n i : ℕ) → ((j : ℕ) → i ≤ j → j < i + n → f j ≡ false) → unset f n i ≡ n
unset-full f zero i h = refl
unset-full f (suc n) i h =
    ground (arith, h i, unset-full f n (i + 1) (λ j a b. h j (omega arith) (omega arith)))
