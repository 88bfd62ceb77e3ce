-- ===== src/Bitmap/Marks.antt =====
-- What `Mark`, `Clear` and `Test` of userprog/bitmap.cc do to the single bits.
use pku_os_lab.Common.{
  ℕ, ◌/◌, ◌%◌, ◌^◌, ◌<◌, ◌≡◌, refl, Bool, true, false, ltb, ◌==◌, if◌then◌else◌, pos, div_round_up,
  ok, length, All, All-set, All-get_or, length-set, get_or-set_self, get_or-set_ne, set, ◌∙◌, ap, ℤ,
  negsuc, aborted, lt→ltb, ltb→lt, arith, bit_and, bit_or, Bool-cases, inl, inr,
}
use pku_os_lab.Common.Bits.{
  bit, complement, bit-le, bit-or, bit-and, bit-pow_self, bit-pow_ne, bit-complement, and-le, or-lt,
  and-pow, pow-lt,
}
use native.Mathlib.Nat.{one-le-pow}
use pku_os_lab.Bitmap.{
  BitMap, in_range, index, bits_in_word, word, mask, set_bit, clear_bit, test_bit, mark, clear,
  test,
}

-- The words cover the bits, and each is a 32-bit word.
pub record IsValid (b : BitMap) : Type 0 where
  pub sized : b.num_words ≡ div_round_up b.num_bits bits_in_word
  pub stored : length b.words ≡ b.num_words
  pub narrow : All (λ w. w < 2 ^ 32) b.words

-- Bit `i`, read off its word.
abbrev pub bit_at : BitMap → ℕ → ℕ
bit_at b i = bit (word b i) (i % bits_in_word)

test_bit-bit_at : (b : BitMap) (i : ℕ) → test_bit b i ≡ (bit_at b i == 1)
unfolding test_bit
test_bit-bit_at b i =
    ground (arith, and-pow (word b i) (i % 32), bit-le (word b i) (i % 32), one-le-pow (i % 32) 2)

word-set :
    (b : BitMap) (i j v : ℕ)
    → IsValid b
    → i < b.num_bits
    → word (record b { words = set b.words (i / 32) v }) j
      ≡ (if i / 32 == j / 32 then v else word b j)
word-set b i j v valid h = ground (
  arith,
  valid.sized,
  valid.stored,
  get_or-set_self b.words (i / 32) v 0,
  get_or-set_ne b.words (i / 32) (j / 32) v 0,
)

module _ (b : BitMap) (i : ℕ) (valid : IsValid b) (h : i < b.num_bits) where
  bit_at-set_bit : (j : ℕ) → bit_at (set_bit b i) j ≡ (if i == j then 1 else bit_at b j)
  unfolding set_bit
  bit_at-set_bit j = rw (word-set b i j (bit_or (word b i) (mask i)) valid h) (
      ground (
        arith,
        bit-or (word b i) (mask i) (j % 32),
        bit-pow_self (i % 32),
        bit-pow_ne (i % 32) (j % 32),
        bit-le (word b i) (j % 32),
      ))

  bit_at-clear_bit : (j : ℕ) → bit_at (clear_bit b i) j ≡ (if i == j then 0 else bit_at b j)
  unfolding clear_bit
  bit_at-clear_bit j = rw (word-set b i j (bit_and (word b i) (complement 32 (mask i))) valid h) (
      ground (
        arith,
        bit-and (word b i) (complement 32 (mask i)) (j % 32),
        bit-complement 32 (mask i) (j % 32) (pow-lt (i % 32) 32 (omega arith)) (omega arith),
        bit-pow_self (i % 32),
        bit-pow_ne (i % 32) (j % 32),
        bit-le (word b i) (j % 32),
      ))

  narrow_word : word b i < 2 ^ 32
  narrow_word = All-get_or (λ w. w < 2 ^ 32) b.words (i / 32) 0 valid.narrow (omega arith)

  set_bit-IsValid : IsValid (set_bit b i)
  unfolding set_bit
  set_bit-IsValid = record {
    sized = valid.sized;
    stored = length-set _ _ _ ∙ valid.stored;
    narrow =
        All-set (λ w. w < 2 ^ 32) b.words (i / 32) _ valid.narrow
          (or-lt 32 _ _ narrow_word (pow-lt (i % 32) 32 (omega arith)));
  }

  clear_bit-IsValid : IsValid (clear_bit b i)
  unfolding clear_bit
  clear_bit-IsValid = record {
    sized = valid.sized;
    stored = length-set _ _ _ ∙ valid.stored;
    narrow = All-set (λ w. w < 2 ^ 32) b.words (i / 32) _ valid.narrow (and-le 32 _ _ narrow_word);
  }

-- Bit `j` as `Test` reports it.
abbrev pub marked : BitMap → ℕ → Bool
marked b j = bit_at b j == 1

-- `b'` is `b` with bit `i` made `v`.
pub record Updates (b b' : BitMap) (i : ℕ) (v : Bool) : Type 0 where
  pub valid : IsValid b'
  pub same_size : b'.num_bits ≡ b.num_bits
  pub bits : (j : ℕ) → marked b' j ≡ (if i == j then v else marked b j)

-- What `Test`, `Mark` and `Clear` do with the index `which`, out of range and in range.
pub data Access (b : BitMap) (which : ℤ) : Type 0 where
  out_of_range :
      in_range b which ≡ false
      → test b which ≡ aborted
      → mark b which ≡ aborted
      → clear b which ≡ aborted
      → Access b which
  within :
      (b' b'' : BitMap)
      → in_range b which ≡ true
      → test b which ≡ ok (marked b (index which))
      → mark b which ≡ ok b'
      → Updates b b' (index which) true
      → clear b which ≡ ok b''
      → Updates b b'' (index which) false
      → Access b which

pub test-ok : (b : BitMap) (i : ℕ) → i < b.num_bits → test b (pos i) ≡ ok (marked b i)
unfolding test
test-ok b i h = rw (lt→ltb i b.num_bits h) (ap ok (test_bit-bit_at b i))

pub test_cases :
    (b : BitMap) (i : ℕ) → test b (pos i) ≡ (if ltb i b.num_bits then ok (marked b i) else aborted)
unfolding test
test_cases b i = elim (Bool-cases (ltb i b.num_bits)) [
  | inl lt ↦ rw lt (ap ok (test_bit-bit_at b i))
  | inr ge ↦ rw ge
]

set_bit-Updates : (b : BitMap) (i : ℕ) → IsValid b → i < b.num_bits → Updates b (set_bit b i) i true
set_bit-Updates b i valid h = record {
  valid = set_bit-IsValid b i valid h;
  same_size = unfold set_bit in refl;
  bits = λ j. ground (arith, bit_at-set_bit b i valid h j);
}

clear_bit-Updates :
    (b : BitMap) (i : ℕ) → IsValid b → i < b.num_bits → Updates b (clear_bit b i) i false
clear_bit-Updates b i valid h = record {
  valid = clear_bit-IsValid b i valid h;
  same_size = unfold clear_bit in refl;
  bits = λ j. ground (arith, bit_at-clear_bit b i valid h j);
}

pub mark-ok :
    (b : BitMap) (i : ℕ)
    → IsValid b
    → i < b.num_bits
    → (b' : BitMap) × (mark b (pos i) ≡ ok b') × Updates b b' i true
unfolding mark
mark-ok b i valid h = (_, rw (lt→ltb i b.num_bits h) refl, set_bit-Updates b i valid h)

pub clear-ok :
    (b : BitMap) (i : ℕ)
    → IsValid b
    → i < b.num_bits
    → (b' : BitMap) × (clear b (pos i) ≡ ok b') × Updates b b' i false
unfolding clear
clear-ok b i valid h = (_, rw (lt→ltb i b.num_bits h) refl, clear_bit-Updates b i valid h)

-- In a valid map, an index that is negative or at least `numBits` stops `Mark`, `Clear` and `Test` at
-- their `ASSERT`, and an index in range does not: then `Test` reports the bit, and `Mark` and `Clear`
-- return a valid map in which that bit alone is changed, to set and to clear.
pub access_lem : (b : BitMap) (which : ℤ) → IsValid b → Access b which
unfolding mark clear test
access_lem b (negsuc n) valid = out_of_range refl refl refl refl
access_lem b (pos i) valid = elim (Bool-cases (ltb i b.num_bits)) [
  | inr ge ↦ out_of_range ge (rw ge) (rw ge) (rw ge)
  | inl lt ↦
      let (b', marks, set) = mark-ok b i valid (ltb→lt _ _ lt) in
      let (b'', clears, unset) = clear-ok b i valid (ltb→lt _ _ lt) in
      within b' b'' lt (test-ok b i (ltb→lt _ _ lt)) marks set clears unset
]
