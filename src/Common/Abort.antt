-- ===== src/Common/Abort.antt =====
-- A computation that may stop at a failed `ASSERT` (threads/utility.h), which calls `Abort`.
use mathlib.Core.Path.{◌≡◌, refl}
use mathlib.Core.Bool.{Bool, true, false}

pub data Run {ℓ} (A : Type ℓ) : Type ℓ where
  ok : A → Run A
  aborted : Run A

infixl 5 ◌>>◌
module _ {ℓ κ} {A : Type ℓ} {B : Type κ} where
  infixl 5 ◌>>=◌
  abbrev pub ◌>>=◌ : Run A → (A → Run B) → Run B
  aborted >>= next = aborted
  ok a >>= next = next a

  -- A run that returns has returned at its first part too.
  pub >>=-eq-ok :
      (m : Run A) (next : A → Run B) {b : B}
      → (m >>= next) ≡ ok b
      → (a : A) × (m ≡ ok a) × (next a ≡ ok b)
  >>=-eq-ok aborted next h = cc
  >>=-eq-ok (ok a) next h = (a, refl, h)

-- A run of two parts, seen after the first.
pub bind_assoc {ℓ κ μ} :
    {A : Type ℓ} {B : Type κ} {C : Type μ} (m : Run A) (f : A → Run C) (g : A → Run B)
    (next : B → Run C)
    → ((a : A) → f a ≡ (g a >>= next))
    → (m >>= f) ≡ ((m >>= g) >>= next)
bind_assoc aborted f g next h = refl
bind_assoc (ok a) f g next h = h a

abbrev pub ◌>>◌ {ℓ} : {B : Type ℓ} → Run (Unit {0}) → Run B → Run B
m >> k = m >>= λ _. k

abbrev pub assert : Bool → Run (Unit {0})
assert true = ok tt
assert false = aborted

-- What a function returned besides its result, or `default` if it aborted.
abbrev pub result_in {ℓ} : {A : Type ℓ} → A → Run (Bool × A) → A
result_in default (ok (success, a)) = a
result_in default aborted = default
