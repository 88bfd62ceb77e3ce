-- ===== src/FileSystem/Dates.antt =====
-- The type and the dates that `HeaderCreateInit` of filesys/filehdr.cc leaves in a header, and in its sector.
use pku_os_lab.Common.{
  ℕ, zero, suc, ◌+◌, ◌-◌, ◌≤◌, ◌<◌, ◌≡◌, refl, ◌∙◌, ap, sym, subst, false, List, length-take_append,
  get_or-take_append_before, get_or-take_append_behind, [], ◌∷◌, ◌++◌, length, get_or, take, All,
  arith, ltb, if◌then◌else◌, has, Bool-cases, inl, inr, ok, pos,
}
use mathlib.Core.Path.{fun_ext}
use pku_os_lab.SynchDisk.{Disk, disk_sectors}
use pku_os_lab.FileHeader.{FileHeader}
use pku_os_lab.FileHeader.Attributes.{
  created_at, modified_at, visited_at, length_of_time_header_str, strcpy, attributes_size,
  header_create_init, get_file_extension, max_ext_length,
}
use pku_os_lab.FileHeader.Attributes.Extension.{get_file_extension-append}
use pku_os_lab.FileHeader.Attributes.Copy.{
  typed, dated, header_create_init-dated, strcpy-inside, after_visited, after_modified,
  after_created, after_type,
}
use pku_os_lab.FileSystem.Bytes.{chars_in, chars_in-text}
use pku_os_lab.FileSystem.HeaderSector.{
  IsStorable, fetch_header, write_header, fetch_header-write_header,
}

-- What the fields of the attributes hold as strings, to the end of the attributes at most; `getFileType` is the first.
unfoldable pub get_file_type : (ℕ → ℕ) → List ℕ
get_file_type attributes = chars_in attributes attributes_size 0

unfoldable pub created_time : (ℕ → ℕ) → List ℕ
created_time attributes = chars_in attributes (attributes_size - created_at) created_at

unfoldable pub modified_time : (ℕ → ℕ) → List ℕ
modified_time attributes = chars_in attributes (attributes_size - modified_at) modified_at

unfoldable pub last_visited_time : (ℕ → ℕ) → List ℕ
last_visited_time attributes = chars_in attributes (attributes_size - visited_at) visited_at

abbrev pub IsText : List ℕ → Type 0
IsText text = All (λ (c : ℕ). 0 < c) text

-- The extension, "None" if it is empty.
unfoldable pub type_of : List ℕ → List ℕ
type_of [] = 78 ∷ (111 ∷ (110 ∷ (101 ∷ [])))
type_of (c ∷ ext) = c ∷ ext

-- The type as it is read: five characters or more leave no zero in `fileType`, and the date of creation follows.
unfoldable pub shown_type : List ℕ → List ℕ → List ℕ
shown_type ext now =
    if ltb (length ext) max_ext_length then type_of ext else take max_ext_length ext ++ now

typed-copy :
    (attributes : ℕ → ℕ) (ext : List ℕ) → typed attributes ext ≡ strcpy attributes 0 (type_of ext)
unfolding typed type_of
typed-copy attributes [] = refl
typed-copy attributes (c ∷ ext) = refl

type_of-IsText : (ext : List ℕ) → IsText ext → IsText (type_of ext)
unfolding type_of
type_of-IsText [] h = omega arith
type_of-IsText (c ∷ ext) h = h

length-type_of :
    (ext : List ℕ) → length ext < max_ext_length → length (type_of ext) < max_ext_length
unfolding type_of
length-type_of [] h = omega arith
length-type_of (c ∷ ext) h = h

type_of-long : (ext : List ℕ) → max_ext_length ≤ length ext → type_of ext ≡ ext
unfolding type_of
type_of-long [] h = absurd (omega (arith, h))
type_of-long (c ∷ ext) h = refl

take_append-IsText :
    (n : ℕ) (text more : List ℕ) → IsText text → IsText more → IsText (take n text ++ more)
take_append-IsText zero text more h g = g
take_append-IsText (suc n) [] more h g = g
take_append-IsText (suc n) (c ∷ text) more h g = (h.0, take_append-IsText n text more h.1 g)

-- What the fields hold after `HeaderCreateInit`.
pub record Dated (ext now : List ℕ) (attributes : ℕ → ℕ) : Type 0 where
  pub file_type : get_file_type attributes ≡ shown_type ext now
  pub created : created_time attributes ≡ now
  pub modified : modified_time attributes ≡ now
  pub visited : last_visited_time attributes ≡ now

module _ (attributes : ℕ → ℕ) (ext now : List ℕ) (fits : length now < length_of_time_header_str)
    (text : IsText ext) (date : IsText now) where
  copied_type :
      (k : ℕ)
      → k < created_at
      → k ≤ length (type_of ext)
      → dated attributes ext now k ≡ get_or (type_of ext) k 0
  copied_type k lt le =
      after_type attributes ext now fits k lt
      ∙ ap (λ (f : ℕ → ℕ). f k) (typed-copy attributes ext)
      ∙ ap (strcpy attributes 0 (type_of ext)) (omega arith)
      ∙ strcpy-inside attributes 0 (type_of ext) k le

  type_of-run_on :
      max_ext_length ≤ length ext
      → (k : ℕ) → k ≤ length (take max_ext_length ext ++ now)
      → dated attributes ext now (0 + k) ≡ get_or (take max_ext_length ext ++ now) k 0
  type_of-run_on long k le = elim (Bool-cases (ltb k max_ext_length)) [
    | inl e ↦
        let lt : k < max_ext_length = ground (arith, e) in
        ap (dated attributes ext now) (omega arith)
        ∙ copied_type k lt (rw (type_of-long ext long) (omega (arith, long, lt)))
        ∙ ap (λ (t : List ℕ). get_or t k 0) (type_of-long ext long)
        ∙ sym (get_or-take_append_before max_ext_length ext now k 0 long lt)
    | inr e ↦
        let ge : max_ext_length ≤ k = ground (arith, e) in
        let split : max_ext_length + (k - max_ext_length) ≡ k = omega (arith, ge) in
        ap (dated attributes ext now) (omega (arith, split))
        ∙ after_created attributes ext now fits (k - max_ext_length)
            (omega (arith, le, ge, length-take_append max_ext_length ext now long))
        ∙ sym (get_or-take_append_behind max_ext_length ext now (k - max_ext_length) 0 long)
        ∙ ap (λ (i : ℕ). get_or (take max_ext_length ext ++ now) i 0) split
  ]

  get_file_type-Shown : get_file_type (dated attributes ext now) ≡ shown_type ext now
  unfolding get_file_type shown_type
  get_file_type-Shown = elim (Bool-cases (ltb (length ext) max_ext_length)) [
    | inl e ↦
        let short : length ext < max_ext_length = ground (arith, e) in
        rw e (
          chars_in-text (dated attributes ext now) (type_of ext) attributes_size 0
            (omega (arith, length-type_of ext short)) (type_of-IsText ext text)
            (λ k le.
              ap (dated attributes ext now) (omega arith)
              ∙ copied_type k (omega (arith, le, length-type_of ext short)) le))
    | inr e ↦
        let long : max_ext_length ≤ length ext = ground (arith, e) in
        rw e (
          chars_in-text (dated attributes ext now) (take max_ext_length ext ++ now) attributes_size
            0 (omega (arith, fits, length-take_append max_ext_length ext now long))
            (take_append-IsText max_ext_length ext now text date) (type_of-run_on long))
  ]

  -- Where no character is zero and the time has at most 25 of them, `HeaderCreateInit` leaves the time as each of the
  -- three dates, and `getFileType` gives the extension, "None" if it is empty, as long as it has at most four
  -- characters; of a longer extension it gives the first five, followed by the date of creation.
  dated-Dated : Dated ext now (dated attributes ext now)
  unfolding created_time modified_time last_visited_time
  dated-Dated = record {
    file_type = get_file_type-Shown;
    created =
        chars_in-text (dated attributes ext now) now (attributes_size - created_at) created_at
          (omega (arith, fits)) date (after_created attributes ext now fits);
    modified =
        chars_in-text (dated attributes ext now) now (attributes_size - modified_at) modified_at
          (omega (arith, fits)) date (after_modified attributes ext now fits);
    visited =
        chars_in-text (dated attributes ext now) now (attributes_size - visited_at) visited_at
          (omega (arith, fits)) date (after_visited attributes ext now fits);
  }

-- A header whose numbers fit in an `int` gets its type and dates by `HeaderCreateInit`, for a name with a dot that is
-- not its first character and is followed by no other dot, and is written by `WriteBack` to a sector of the disk: if
-- the extension and its zero fit in the attributes, and no character behind the dot and none of the time, of at most
-- 25, is zero, `FetchFrom` reads the same header from that sector, the three dates are the time, and the type is what
-- follows the dot, "None" if that is nothing, or its first five characters and the date of creation if it has more
-- than four.
pub fetch_header-header_create_init :
    (h : FileHeader) (attributes : ℕ → ℕ) (base ext now : List ℕ) (s : ℕ) (disk : Disk (ℕ → ℕ))
    → IsStorable h
    → s < disk_sectors
    → 0 < length base
    → has 46 ext ≡ false
    → IsText ext
    → IsText now
    → length now < length_of_time_header_str
    → length ext < attributes_size
    → (disk' : Disk (ℕ → ℕ)) × (made attributes' : ℕ → ℕ) × (header_create_init attributes
          (get_file_extension (base ++ 46 ∷ ext))
          now
        ≡ ok made)
      × (write_header (pos s) h made disk ≡ ok disk')
      × (fetch_header (pos s) disk' ≡ ok (h, attributes'))
      × Dated ext now attributes'
fetch_header-header_create_init h attributes base ext now s disk storable lt named dotless text date
      fits room =
    let e = get_file_extension-append base ext named dotless in
    let k = fetch_header-write_header h (dated attributes ext now) s disk storable lt in
    (
      k.disk',
      dated attributes ext now,
      k.attributes',
      rw e (header_create_init-dated attributes ext now room fits),
      k.writes,
      k.reads,
      subst (Dated ext now) (sym (fun_ext k.same)) (dated-Dated attributes ext now fits text date),
    )
