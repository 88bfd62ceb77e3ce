-- ===== src/Bitmap.antt =====
-- userprog/bitmap.h and bitmap.cc: `BitMap`, an array of bits packed into 32-bit words.
-- An index is an `int`, so it may be negative; `ASSERT` is `assert` of `Common`.
pub mod Marks
pub mod Find
pub mod Init
mod Tests
use pku_os_lab.Common.{
  ℕ, zero, suc, ◌+◌, ◌/◌, ◌%◌, ◌^◌, bit_and, bit_or, Bool, not, List, [], ◌∷◌, ltb, ◌==◌,
  if◌then◌else◌, ℤ, pos, negsuc, minus_one, div_round_up, Run, ok, ◌>>=◌, ◌>>◌, assert, get_or, set,
}
use pku_os_lab.Common.Bits.{complement}

abbrev pub bits_in_word : ℕ
bits_in_word = 32

pub record BitMap : Type 0 where
  pub num_bits : ℕ
  pub num_words : ℕ
  pub words : List ℕ

-- `which >= 0 && which < numBits`
abbrev pub in_range : BitMap → ℤ → Bool
in_range b (pos i) = ltb i b.num_bits
in_range b (negsuc n) = Bool.false

-- The index once the `ASSERT` has passed.
abbrev pub index : ℤ → ℕ
index (pos i) = i
index (negsuc n) = 0

abbrev pub word : BitMap → ℕ → ℕ
word b i = get_or b.words (i / bits_in_word) 0

-- `1 << (which % BitsInWord)`
abbrev pub mask : ℕ → ℕ
mask i = 2 ^ (i % bits_in_word)

set_bit : BitMap → ℕ → BitMap
set_bit b i = record b { words = set b.words (i / bits_in_word) (bit_or (word b i) (mask i)) }

clear_bit : BitMap → ℕ → BitMap
clear_bit b i = record b {
  words = set b.words (i / bits_in_word) (bit_and (word b i) (complement 32 (mask i)));
}

test_bit : BitMap → ℕ → Bool
test_bit b i = not (bit_and (word b i) (mask i) == 0)

unfoldable pub mark : BitMap → ℤ → Run BitMap
unfolding set_bit
mark b which = assert (in_range b which) >> ok (set_bit b (index which))

unfoldable pub clear : BitMap → ℤ → Run BitMap
unfolding clear_bit
clear b which = assert (in_range b which) >> ok (clear_bit b (index which))

unfoldable pub test : BitMap → ℤ → Run Bool
unfolding test_bit
test b which = assert (in_range b which) >> ok (test_bit b (index which))

-- The loop of the constructor: `n` rounds from index `i`.
clear_from : BitMap → ℕ → ℕ → Run BitMap
clear_from b zero i = ok b
clear_from b (suc n) i = do b' ← clear b (pos i); clear_from b' n (i + 1)

-- What `new unsigned int[numWords]` holds is given by `heap`.
garbage : (ℕ → ℕ) → ℕ → List ℕ
garbage heap zero = []
garbage heap (suc n) = heap n % 2 ^ 32 ∷ garbage heap n

pub new_bit_map : (ℕ → ℕ) → ℕ → Run BitMap
unfolding clear_from garbage
new_bit_map heap nitems =
    clear_from
      (record {
        num_bits = nitems;
        num_words = div_round_up nitems bits_in_word;
        words = garbage heap (div_round_up nitems bits_in_word);
      })
      nitems 0

find_from : BitMap → ℕ → ℕ → Run (ℤ × BitMap)
find_from b zero i = ok (minus_one, b)
find_from b (suc n) i = do
  t ← test b (pos i)
  let rest = find_from b n (i + 1)
  if t then rest else (do b' ← mark b (pos i); ok (pos i, b'))

unfoldable pub find : BitMap → Run (ℤ × BitMap)
unfolding find_from
find b = find_from b b.num_bits 0

num_clear_from : BitMap → ℕ → ℕ → ℕ → Run ℕ
num_clear_from b zero i count = ok count
num_clear_from b (suc n) i count = do
  t ← test b (pos i)
  num_clear_from b n (i + 1) (if t then count else count + 1)

unfoldable pub num_clear : BitMap → Run ℕ
unfolding num_clear_from
num_clear b = num_clear_from b b.num_bits 0 0
