-- ===== src/FileHeader/Release.antt =====
-- Giving sectors back to the free map: the `ASSERT`, `Clear` loops of `Deallocate`.
use pku_os_lab.Common.{
  ℕ, zero, suc, ◌+◌, ◌<◌, ◌≡◌, refl, ◌∙◌, true, false, List, [], ◌∷◌, if◌then◌else◌, ℤ, pos, ok,
  aborted, length, arith,
}
use pku_os_lab.Common.Counts.{unset-unset}
use pku_os_lab.Bitmap.{BitMap}
use pku_os_lab.Bitmap.Marks.{IsValid, marked, test-ok, test_cases, clear-ok}
use pku_os_lab.Bitmap.Find.{clear_count}
use pku_os_lab.FileHeader.{release, release_all}
use pku_os_lab.FileHeader.Sectors.{has, Distinct, Takes, Holds}

-- `b'` is `b` with the sectors `xs` free again.
pub record Gives (b : BitMap) (xs : List ℕ) (b' : BitMap) : Type 0 where
  pub valid : IsValid b'
  pub same_size : b'.num_bits ≡ b.num_bits
  pub bits : (j : ℕ) → marked b' j ≡ (if has j xs then false else marked b j)
  pub count : clear_count b' ≡ length xs + clear_count b

-- Every sector of `xs` is in use.
abbrev pub InUse : BitMap → List ℕ → Type 0
InUse b xs = (j : ℕ) → has j xs ≡ true → (marked b j ≡ true) × (j < b.num_bits)

pub release-Gives :
    (b : BitMap) (x : ℕ)
    → IsValid b
    → InUse b (x ∷ [])
    → (b' : BitMap) × (release (pos x) b ≡ ok b') × Gives b (x ∷ []) b'
unfolding release
release-Gives b x valid used =
    let (set, lt) = used x (ground arith) in
    let (b', run, up) = clear-ok b x valid lt in
    (
      b',
      rw (test-ok b x lt, set, run),
      record {
        valid = up.valid;
        same_size = up.same_size;
        bits = λ j. ground (arith, up.bits j);
        count = rw up.same_size (
            ground (
              arith,
              unset-unset (marked b) (marked b') x b.num_bits 0 up.bits set (omega arith)
                  (omega arith),
            ));
      },
    )

-- A sector that is not in use stops the loop at its `ASSERT`.
pub release_free : (b : BitMap) (x : ℕ) → marked b x ≡ false → release (pos x) b ≡ aborted
unfolding release
release_free b x free = rw test_cases (ground arith)

pub Gives-cons :
    (b b₁ b₂ : BitMap) (x : ℕ) (xs : List ℕ)
    → Gives b (x ∷ []) b₁
    → Gives b₁ xs b₂
    → Gives b (x ∷ xs) b₂
Gives-cons b b₁ b₂ x xs s t = record {
  valid = t.valid;
  same_size = t.same_size ∙ s.same_size;
  bits = λ j. ground (arith, t.bits j, s.bits j);
  count = omega (arith, s.count, t.count);
}

InUse-after :
    (b b₁ : BitMap) (x : ℕ) (xs : List ℕ)
    → InUse b (x ∷ xs)
    → Distinct (x ∷ xs)
    → Gives b (x ∷ []) b₁
    → InUse b₁ xs
InUse-after b b₁ x xs used d g j h = ground (arith, used j, g.bits j, g.same_size)

pub release_all-Gives :
    (xs : List ℕ) (n i : ℕ) (table : List ℤ) (b : BitMap)
    → IsValid b
    → length xs ≡ n
    → Holds table i xs
    → Distinct xs
    → InUse b xs
    → (b' : BitMap) × (release_all n i table b ≡ ok b') × Gives b xs b'
unfolding release_all
release_all-Gives [] zero i table b valid len holds d used =
    (b, refl, record { valid = valid; same_size = refl; bits = λ j. refl; count = omega arith })
release_all-Gives [] (suc n) i table b valid len holds d used = absurd (omega arith)
release_all-Gives (x ∷ xs) zero i table b valid len holds d used = absurd (omega arith)
release_all-Gives (x ∷ xs) (suc n) i table b valid len holds d used =
    let (b₁, run, g) = release-Gives b x valid (λ j h. used j (ground arith)) in
    let (b₂, run', g') =
      release_all-Gives xs n (i + 1) table b₁ g.valid (omega arith) holds.1 d.1
        (InUse-after b b₁ x xs used d g) in
    (b₂, rw (holds.0, run) run', Gives-cons b b₁ b₂ x xs g g')

-- To give back what was taken restores every bit of the map.
pub Gives-Takes :
    (b b₁ b₂ : BitMap) (xs : List ℕ)
    → Takes b xs b₁
    → Gives b₁ xs b₂
    → (j : ℕ) → marked b₂ j ≡ marked b j
Gives-Takes b b₁ b₂ xs t g j = ground (arith, g.bits j, t.bits j, t.fresh j)

pub Takes-InUse : (b b₁ : BitMap) (xs : List ℕ) → Takes b xs b₁ → InUse b₁ xs
Takes-InUse b b₁ xs t j h = ground (arith, t.bits j, t.fresh j, t.same_size)
