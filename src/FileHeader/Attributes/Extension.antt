-- ===== src/FileHeader/Attributes/Extension.antt =====
-- `getFileExtension` of filesys/filehdr.cc.
use pku_os_lab.Common.{
  ℕ, suc, ◌+◌, ◌<◌, ◌≡◌, refl, ◌∙◌, ap, true, false, List, [], ◌∷◌, ◌++◌, length, drop, arith, ◌==◌,
  none, some, has,
}
use pku_os_lab.FileHeader.Attributes.{strrchr, get_file_extension}

strrchr-absent : (c : ℕ) (text : List ℕ) (i : ℕ) → has c text ≡ false → strrchr c text i ≡ none
unfolding strrchr
strrchr-absent c [] i h = refl
strrchr-absent c (x ∷ text) i h =
    let first : (x == c) ≡ false = ground (arith, h) in
    let rest : strrchr c text (i + 1) ≡ none = strrchr-absent c text (i + 1) (ground (arith, h)) in
    rw (first, rest) refl

strrchr-append :
    (c : ℕ) (a b : List ℕ) (i : ℕ)
    → has c b ≡ false
    → strrchr c (a ++ c ∷ b) i ≡ some (i + length a)
unfolding strrchr
strrchr-append c [] b i h =
    let here : (c == c) ≡ true = ground arith in
    rw (strrchr-absent c b (i + 1) h, here) (ap some (omega arith))
strrchr-append c (x ∷ a) b i h =
    let next : i + 1 + length a ≡ i + length (x ∷ a) = omega arith in
    rw (strrchr-append c a b (i + 1) h) (ap some next)

drop-append : (c : ℕ) (a b : List ℕ) → drop (length a + 1) (a ++ c ∷ b) ≡ b
drop-append c [] b = refl
drop-append c (x ∷ a) b =
    let next : length (x ∷ a) + 1 ≡ suc (length a + 1) = omega arith in
    ap (λ (n : ℕ). drop n (x ∷ (a ++ c ∷ b))) next ∙ drop-append c a b

-- The extension of a name is what follows its last dot, which does not stand first.
pub get_file_extension-append :
    (base ext : List ℕ)
    → 0 < length base
    → has 46 ext ≡ false
    → get_file_extension (base ++ 46 ∷ ext) ≡ ext
unfolding get_file_extension
get_file_extension-append base ext named dotless =
    let found : strrchr 46 (base ++ 46 ∷ ext) 0 ≡ some (length base) =
      strrchr-append 46 base ext 0 dotless ∙ ap some (omega arith) in
    let later : (length base == 0) ≡ false = ground arith in
    rw (found, later) (drop-append 46 base ext)
