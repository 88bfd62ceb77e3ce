-- ===== src/Bitmap/Init.antt =====
-- The constructor of userprog/bitmap.cc, which clears the bits one by one.
use pku_os_lab.Common.{
  ℕ, zero, suc, ◌+◌, ◌^◌, ◌≤◌, ◌<◌, ◌≡◌, refl, ap, false, ◌==◌, ok, length, All, arith, Bool-cases,
  inl, inr, div_round_up,
}
use pku_os_lab.Bitmap.{BitMap, bits_in_word, clear_from, garbage, new_bit_map}
use pku_os_lab.Bitmap.Marks.{IsValid, marked, clear-ok}

length-garbage : (heap : ℕ → ℕ) (n : ℕ) → length (garbage heap n) ≡ n
unfolding garbage
length-garbage heap zero = refl
length-garbage heap (suc n) = ap suc (length-garbage heap n)

garbage-narrow : (heap : ℕ → ℕ) (n : ℕ) → All (λ w. w < 2 ^ 32) (garbage heap n)
unfolding garbage
garbage-narrow heap zero = tt
garbage-narrow heap (suc n) = (omega arith, garbage-narrow heap n)

-- What the constructor's loop returns, when it has `n` indices from `i` on to clear.
record Cleared (b b' : BitMap) (n i : ℕ) : Type 0 where
  valid : IsValid b'
  same_size : b'.num_bits ≡ b.num_bits
  cleared : (j : ℕ) → i ≤ j → j < i + n → marked b' j ≡ false
  kept : (j : ℕ) → j < i → marked b' j ≡ marked b j

clear_from-Cleared :
    (b : BitMap) (n i : ℕ)
    → IsValid b
    → i + n ≡ b.num_bits
    → (b' : BitMap) × (clear_from b n i ≡ ok b') × Cleared b b' n i
unfolding clear_from
clear_from-Cleared b zero i valid e = (
  b,
  refl,
  record {
    valid = valid;
    same_size = refl;
    cleared = λ j lo hi. absurd (omega arith);
    kept = λ j h. refl;
  },
)
clear_from-Cleared b (suc n) i valid e =
    let (b₁, run, up) = clear-ok b i valid (omega arith) in
    let (b₂, run', all) = clear_from-Cleared b₁ n (i + 1) up.valid (omega (arith, up.same_size)) in
    (
      b₂,
      rw run run',
      record {
        valid = all.valid;
        same_size = omega (arith, all.same_size, up.same_size);
        cleared = λ j lo hi. elim (Bool-cases (i == j)) [
          | inl here ↦ ground (arith, all.kept j, up.bits j)
          | inr later ↦ all.cleared j (ground arith) (omega arith)
        ];
        kept = λ j h. ground (arith, all.kept j, up.bits j);
      },
    )

-- Whatever the fresh memory holds, the constructor returns a valid map of `nitems` bits, all clear.
pub new_bit_map_lem :
    (heap : ℕ → ℕ) (nitems : ℕ)
    → (b : BitMap) × (new_bit_map heap nitems ≡ ok b)
      × IsValid b
      × (b.num_bits ≡ nitems)
      × ((j : ℕ) → j < nitems → marked b j ≡ false)
unfolding new_bit_map
new_bit_map_lem heap nitems =
    let (b, run, all) =
      clear_from-Cleared _ nitems 0
        (record {
          sized = refl;
          stored = length-garbage heap (div_round_up nitems bits_in_word);
          narrow = garbage-narrow heap (div_round_up nitems bits_in_word);
        })
        (omega arith) in
    (b, run, all.valid, all.same_size, λ j h. all.cleared j (omega arith) (omega arith))
