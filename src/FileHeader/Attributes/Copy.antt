-- ===== src/FileHeader/Attributes/Copy.antt =====
-- Where the strings that `HeaderCreateInit` of filesys/filehdr.cc copies stand afterwards.
use pku_os_lab.Common.{
  ℕ, ◌+◌, ◌-◌, ◌≤◌, ◌<◌, ◌≡◌, refl, ◌∙◌, true, false, List, [], ◌∷◌, ok, length, get_or, arith, ltb,
  leb, lt→ltb,
}
use pku_os_lab.FileHeader.Attributes.{
  attributes_size, created_at, modified_at, visited_at, length_of_time_header_str, strcpy,
  set_file_type, set_create_time, set_modify_time, set_visit_time, header_create_init,
}

-- The attributes after each of the copies, where all of them fit.
unfoldable pub typed : (ℕ → ℕ) → List ℕ → ℕ → ℕ
typed attributes [] = strcpy attributes 0 (78 ∷ (111 ∷ (110 ∷ (101 ∷ []))))
typed attributes (c ∷ ext) = strcpy attributes 0 (c ∷ ext)

abbrev pub with_created : (ℕ → ℕ) → List ℕ → ℕ → ℕ
with_created attributes t = strcpy attributes created_at t

abbrev pub with_modified : (ℕ → ℕ) → List ℕ → ℕ → ℕ
with_modified attributes t = strcpy attributes modified_at t

abbrev pub with_visited : (ℕ → ℕ) → List ℕ → ℕ → ℕ
with_visited attributes t = strcpy attributes visited_at t

unfoldable pub dated : (ℕ → ℕ) → List ℕ → List ℕ → ℕ → ℕ
dated attributes ext now =
    with_visited (with_modified (with_created (typed attributes ext) now) now) now

set_file_type-typed :
    (attributes : ℕ → ℕ) (ext : List ℕ)
    → length ext < attributes_size
    → set_file_type attributes ext ≡ ok (typed attributes ext)
unfolding set_file_type typed
set_file_type-typed attributes [] lt = refl
set_file_type-typed attributes (c ∷ ext) lt =
    let inside : ltb (0 + length (c ∷ ext)) attributes_size ≡ true =
      lt→ltb (0 + length (c ∷ ext)) attributes_size (omega (arith, lt)) in
    rw inside refl

pub header_create_init-dated :
    (attributes : ℕ → ℕ) (ext now : List ℕ)
    → length ext < attributes_size
    → length now < length_of_time_header_str
    → header_create_init attributes ext now ≡ ok (dated attributes ext now)
unfolding header_create_init set_create_time set_modify_time set_visit_time dated
header_create_init-dated attributes ext now lt fits =
    let a : ltb (created_at + length now) attributes_size ≡ true =
      lt→ltb (created_at + length now) attributes_size (omega (arith, fits)) in
    let b : ltb (modified_at + length now) attributes_size ≡ true =
      lt→ltb (modified_at + length now) attributes_size (omega (arith, fits)) in
    let c : ltb (visited_at + length now) attributes_size ≡ true =
      lt→ltb (visited_at + length now) attributes_size (omega (arith, fits)) in
    rw (set_file_type-typed attributes ext lt, a, b, c) refl

pub strcpy-before :
    (memory : ℕ → ℕ) (to : ℕ) (text : List ℕ) (k : ℕ) → k < to → strcpy memory to text k ≡ memory k
unfolding strcpy
strcpy-before memory to text k lt = let before : ltb k to ≡ true = ground arith in rw before refl

pub strcpy-inside :
    (memory : ℕ → ℕ) (to : ℕ) (text : List ℕ) (k : ℕ)
    → k ≤ length text
    → strcpy memory to text (to + k) ≡ get_or text k 0
unfolding strcpy
strcpy-inside memory to text k le =
    let behind : ltb (to + k) to ≡ false = ground arith in
    let inside : leb (to + k) (to + length text) ≡ true = ground arith in
    let rest : to + k - to ≡ k = omega arith in rw (behind, inside, rest) refl

module _ (attributes : ℕ → ℕ) (ext now : List ℕ)
    (fits : length now < length_of_time_header_str) where
  pub after_visited :
      (k : ℕ) → k ≤ length now → dated attributes ext now (visited_at + k) ≡ get_or now k 0
  unfolding dated
  after_visited k le =
      strcpy-inside (with_modified (with_created (typed attributes ext) now) now) visited_at now k
        le

  pub after_modified :
      (k : ℕ) → k ≤ length now → dated attributes ext now (modified_at + k) ≡ get_or now k 0
  unfolding dated
  after_modified k le =
      strcpy-before (with_modified (with_created (typed attributes ext) now) now) visited_at now
        (modified_at + k) (omega (arith, fits, le))
      ∙ strcpy-inside (with_created (typed attributes ext) now) modified_at now k le

  pub after_created :
      (k : ℕ) → k ≤ length now → dated attributes ext now (created_at + k) ≡ get_or now k 0
  unfolding dated
  after_created k le =
      strcpy-before (with_modified (with_created (typed attributes ext) now) now) visited_at now
        (created_at + k) (omega (arith, fits, le))
      ∙ strcpy-before (with_created (typed attributes ext) now) modified_at now (created_at + k)
          (omega (arith, fits, le))
      ∙ strcpy-inside (typed attributes ext) created_at now k le

  pub after_type : (k : ℕ) → k < created_at → dated attributes ext now k ≡ typed attributes ext k
  unfolding dated
  after_type k lt =
      strcpy-before (with_modified (with_created (typed attributes ext) now) now) visited_at now k
        (omega (arith, lt))
      ∙ strcpy-before (with_created (typed attributes ext) now) modified_at now k
          (omega (arith, lt))
      ∙ strcpy-before (typed attributes ext) created_at now k lt
