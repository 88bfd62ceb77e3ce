-- ===== src/Bitmap/Tests.antt =====
-- The theorems on userprog/bitmap.cc at concrete maps.
use pku_os_lab.Common.{◌≡◌, refl, [], ◌∷◌, pos, negsuc, ok, aborted, arith}
use pku_os_lab.Bitmap.{BitMap, mark, clear, test, find, new_bit_map}
use pku_os_lab.Bitmap.Marks.{IsValid}

-- 40 bits, of which the first 33 are set.
abbrev crowded : BitMap
crowded = record { num_bits = 40; num_words = 2; words = 0xffffffff ∷ 1 ∷ [] }

crowded-IsValid : IsValid crowded
crowded-IsValid = record { sized = refl; stored = refl; narrow = omega arith }

find_test : find crowded ≡ ok (pos 33, record crowded { words = 0xffffffff ∷ 3 ∷ [] })
unfolding find test mark
find_test = refl

clear_test : clear crowded (pos 31) ≡ ok (record crowded { words = 0x7fffffff ∷ 1 ∷ [] })
unfolding clear
clear_test = refl

bounds_test : (test crowded (pos 40) ≡ aborted) × (mark crowded (negsuc 0) ≡ aborted)
unfolding test mark
bounds_test = (refl, refl)

init_test :
    new_bit_map (λ i. 0xdeadbeef) 33
    ≡ ok (record { num_bits = 33; num_words = 2; words = 0 ∷ 0xdeadbeee ∷ [] })
unfolding new_bit_map clear
init_test = refl
