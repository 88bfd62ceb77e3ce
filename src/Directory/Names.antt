-- ===== src/Directory/Names.antt =====
-- The comparison of names in filesys/directory.cc, which looks at `FileNameMaxLen` characters.
use pku_os_lab.Common.{ℕ, zero, suc, ◌≡◌, refl, true, List, [], ◌∷◌, take, arith}
use pku_os_lab.Directory.{same_start}

pub same_start_refl : (n : ℕ) (a : List ℕ) → same_start n a a ≡ true
unfolding same_start
same_start_refl zero a = refl
same_start_refl (suc n) [] = refl
same_start_refl (suc n) (x ∷ a) = ground (arith, same_start_refl n a)

-- Names that agree are found alike.
pub same_start-like :
    (n : ℕ) (a b c : List ℕ) → same_start n a b ≡ true → same_start n a c ≡ same_start n b c
unfolding same_start
same_start-like zero a b c h = refl
same_start-like (suc n) [] [] c h = refl
same_start-like (suc n) [] (y ∷ b) c h = cc
same_start-like (suc n) (x ∷ a) [] c h = cc
same_start-like (suc n) (x ∷ a) (y ∷ b) [] h = refl
same_start-like (suc n) (x ∷ a) (y ∷ b) (z ∷ c) h =
    ground (arith, same_start-like n a b c (ground arith))

pub same_start-sym : (n : ℕ) (a b : List ℕ) → same_start n a b ≡ same_start n b a
unfolding same_start
same_start-sym zero a b = refl
same_start-sym (suc n) [] [] = refl
same_start-sym (suc n) [] (y ∷ b) = refl
same_start-sym (suc n) (x ∷ a) [] = refl
same_start-sym (suc n) (x ∷ a) (y ∷ b) = ground (arith, same_start-sym n a b)

-- The copy that `strncpy` makes.
pub same_start-take : (n : ℕ) (a c : List ℕ) → same_start n (take n a) c ≡ same_start n a c
unfolding same_start
same_start-take zero a c = refl
same_start-take (suc n) [] c = refl
same_start-take (suc n) (x ∷ a) [] = refl
same_start-take (suc n) (x ∷ a) (z ∷ c) = ground (arith, same_start-take n a c)
