-- ===== src/Bitmap/Find.antt =====
-- What `Find` and `NumClear` of userprog/bitmap.cc return.
use pku_os_lab.Common.{
  ℕ, zero, suc, ◌+◌, ◌<◌, ◌≡◌, refl, true, false, ◌==◌, ℤ, pos, minus_one, Run, ok, arith,
  Bool-cases, inl, inr, ◌∙◌, ap,
}
use pku_os_lab.Common.Counts.{unset, unset-set, unset-zero}
use pku_os_lab.Bitmap.{BitMap, clear, find, find_from, num_clear, num_clear_from}
use pku_os_lab.Bitmap.Marks.{IsValid, marked, Updates, test-ok, mark-ok}

-- The number of clear bits.
abbrev pub clear_count : BitMap → ℕ
clear_count b = unset (marked b) b.num_bits 0

-- What `Find` may do: hand out the first clear bit and set it, or report that none is left.
pub data Found (b : BitMap) : Run (ℤ × BitMap) → Type 0 where
  hit :
      (i : ℕ) (b' : BitMap)
      → i < b.num_bits
      → marked b i ≡ false
      → ((j : ℕ) → j < i → marked b j ≡ true)
      → Updates b b' i true
      → Found b (ok (pos i, b'))
  full : ((j : ℕ) → j < b.num_bits → marked b j ≡ true) → Found b (ok (minus_one, b))

find_from-Found :
    (b : BitMap) (n i : ℕ)
    → IsValid b
    → i + n ≡ b.num_bits
    → ((j : ℕ) → j < i → marked b j ≡ true)
    → Found b (find_from b n i)
unfolding find_from
find_from-Found b zero i valid e below = full (λ j h. below j (omega arith))
find_from-Found b (suc n) i valid e below = elim (Bool-cases (marked b i)) [
  | inl set ↦
      rw (test-ok b i (omega arith), set)
        (find_from-Found b n (i + 1) valid (omega arith) λ j h. elim (Bool-cases (i == j)) [
          | inl same ↦ ground arith
          | inr other ↦ below j (ground arith)
        ])
  | inr clear ↦
      let (b', run, up) = mark-ok b i valid (omega arith) in
      rw (test-ok b i (omega arith), clear, run) (hit i b' (omega arith) clear below up)
]

-- `Find` on a valid map never stops at an `ASSERT`: it returns the first clear bit, set in a map that
-- is otherwise unchanged and valid, or -1 and the unchanged map when every bit is set.
pub find-Found : (b : BitMap) → IsValid b → Found b (find b)
unfolding find
find-Found b valid = find_from-Found b b.num_bits 0 valid (omega arith) (λ j h. elim h [ ])

num_clear_from-unset :
    (b : BitMap) (n i count : ℕ)
    → i + n ≡ b.num_bits
    → num_clear_from b n i count ≡ ok (count + unset (marked b) n i)
unfolding num_clear_from
num_clear_from-unset b zero i count e = ap ok (omega arith)
num_clear_from-unset b (suc n) i count e =
    rw (test-ok b i (omega arith))
      (num_clear_from-unset b n (i + 1) _ (omega arith) ∙ ap ok (ground arith))

-- `NumClear` returns the number of the map's bits that `Test` reports clear.
pub num_clear_lem : (b : BitMap) → num_clear b ≡ ok (clear_count b)
unfolding num_clear
num_clear_lem b = num_clear_from-unset b b.num_bits 0 0 (omega arith) ∙ ap ok (omega arith)

-- To set a clear bit leaves one clear bit fewer.
pub clear_count-Updates :
    (b b' : BitMap) (i : ℕ)
    → Updates b b' i true
    → marked b i ≡ false
    → i < b.num_bits
    → clear_count b ≡ suc (clear_count b')
clear_count-Updates b b' i up free lt =
    rw up.same_size
      (unset-set (marked b) (marked b') i b.num_bits 0 up.bits free (omega arith) (omega arith))

-- A map with a clear bit: `Find` succeeds and leaves one clear bit fewer.
pub find-counts :
    (b : BitMap)
    → IsValid b
    → 0 < clear_count b
    → (i : ℕ) × (b' : BitMap) × (find b ≡ ok (pos i, b'))
      × (i < b.num_bits)
      × (marked b i ≡ false)
      × Updates b b' i true
      × (clear_count b ≡ suc (clear_count b'))
find-counts b valid h = by_outcome (find b) refl (find-Found b valid)
  where
    by_outcome :
        (r : Run (ℤ × BitMap))
        → find b ≡ r
        → Found b r
        → (i : ℕ) × (b' : BitMap) × (find b ≡ ok (pos i, b'))
          × (i < b.num_bits)
          × (marked b i ≡ false)
          × Updates b b' i true
          × (clear_count b ≡ suc (clear_count b'))
    by_outcome r e (hit i b' lt free below up) =
        (i, b', e, lt, free, up, clear_count-Updates b b' i up free lt)
    by_outcome r e (full all) =
        absurd (omega (arith, unset-zero (marked b) b.num_bits 0 (λ j a c. all j (omega arith))))
