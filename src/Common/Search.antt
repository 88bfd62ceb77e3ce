-- ===== src/Common/Search.antt =====
-- The loop `for (i = 0; i < n; i++) if (p(i)) return i; return -1;`.
use Prim.Native.Nat.{ℕ, zero, suc, ◌+◌, ◌≤◌, ◌<◌}
use mathlib.Core.Path.{◌≡◌, refl, ap}
use mathlib.Core.Logic.{inl, inr}
use mathlib.Core.Bool.{Bool, true, false}
use mathlib.Core.Option.{Option, none, some}
use native.Mathlib.Omega.{arith}
use pku_os_lab.Common.Tests.{ltb, ◌==◌, if◌then◌else◌, Bool-cases, clash}

-- With `n` rounds left from `i` on.
unfoldable pub search : (ℕ → Bool) → ℕ → ℕ → Option ℕ
search p zero i = none
search p (suc n) i = let rest = search p n (i + 1) in if p i then some i else rest

-- The first index from `i` on, among `n`, where `p` holds.
pub data First (p : ℕ → Bool) (n i : ℕ) : Option ℕ → Type 0 where
  at :
      (k : ℕ)
      → i ≤ k
      → k < i + n
      → p k ≡ true
      → ((j : ℕ) → i ≤ j → j < k → p j ≡ false)
      → First p n i (some k)
  nowhere : ((j : ℕ) → i ≤ j → j < i + n → p j ≡ false) → First p n i none

not_here :
    (p : ℕ → Bool) (n i : ℕ) (o : Option ℕ)
    → p i ≡ false
    → First p n (i + 1) o
    → First p (suc n) i o
not_here p n i (some _) miss (at k le lt hit before) =
    at k (omega arith) (omega arith) hit (λ j h g. elim (Bool-cases (i == j)) [
      | inl same ↦ ground (arith, miss)
      | inr other ↦ before j (ground arith) g
    ])
not_here p n i none miss (nowhere all) = nowhere (λ j h g. elim (Bool-cases (i == j)) [
  | inl same ↦ ground (arith, miss)
  | inr other ↦ all j (ground arith) (omega arith)
])

pub search-First : (p : ℕ → Bool) (n i : ℕ) → First p n i (search p n i)
unfolding search
search-First p zero i = nowhere (λ j h g. absurd (omega arith))
search-First p (suc n) i = elim (Bool-cases (p i)) [
  | inl hit ↦ rw hit (at i (omega arith) (omega arith) hit (λ j h g. absurd (omega arith)))
  | inr miss ↦ rw miss (not_here p n i _ miss (search-First p n (i + 1)))
]

-- Only the tests on the indices in range matter.
pub search-same :
    (p q : ℕ → Bool) (n i : ℕ)
    → ((j : ℕ) → i ≤ j → j < i + n → p j ≡ q j)
    → search p n i ≡ search q n i
unfolding search
search-same p q zero i same = refl
search-same p q (suc n) i same = rw (
  same i (omega arith) (omega arith),
  search-same p q n (i + 1) (λ j h g. same j (omega arith) (omega arith)),
)

-- An index that is the only one to pass is found.
pub search-only :
    (p : ℕ → Bool) (n k : ℕ)
    → k < n
    → p k ≡ true
    → ((j : ℕ) → j < n → (j == k) ≡ false → p j ≡ false)
    → search p n 0 ≡ some k
search-only p n k lt hit others = found (search p n 0) (search-First p n 0)
  where
    found : (o : Option ℕ) → First p n 0 o → o ≡ some k
    found (some _) (at j le inside now before) = elim (Bool-cases (j == k)) [
      | inl same ↦ ap some (ground arith)
      | inr other ↦ clash now (others j (omega arith) other)
    ]
    found none (nowhere all) = clash hit (all k (omega arith) (omega arith))

pub search-none : (p : ℕ → Bool) (n : ℕ) → ((j : ℕ) → j < n → p j ≡ false) → search p n 0 ≡ none
search-none p n all = absent (search p n 0) (search-First p n 0)
  where
    absent : (o : Option ℕ) → First p n 0 o → o ≡ none
    absent (some _) (at j le inside now before) = clash now (all j (omega arith))
    absent none h = refl

-- An index that passes, and before which none does, is found.
pub search-least :
    (p : ℕ → Bool) (n k : ℕ)
    → k < n
    → p k ≡ true
    → ((j : ℕ) → j < k → p j ≡ false)
    → search p n 0 ≡ some k
search-least p n k lt hit earlier = found (search p n 0) (search-First p n 0)
  where
    found : (o : Option ℕ) → First p n 0 o → o ≡ some k
    found (some _) (at j le inside now before) = elim (Bool-cases (ltb j k)) [
      | inl less ↦ clash now (earlier j (ground arith))
      | inr more ↦ elim (Bool-cases (ltb k j)) [
        | inl less ↦ clash hit (before k (omega arith) (ground arith))
        | inr same ↦ ap some (ground arith)
      ]
    ]
    found none (nowhere all) = clash hit (all k (omega arith) (omega arith))
