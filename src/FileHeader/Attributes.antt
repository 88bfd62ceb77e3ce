-- ===== src/FileHeader/Attributes.antt =====
-- The type and the dates in the file header of filesys/filehdr.h and filehdr.cc: `getFileExtension`, the functions that
-- set them, and `HeaderCreateInit`. A string is the list of its characters; the attributes are the memory from
-- `fileType` on. What `getCurrentTime` gives is a parameter.
pub mod Extension
pub mod Copy
use pku_os_lab.Common.{
  ℕ, ◌+◌, ◌-◌, List, [], ◌∷◌, length, get_or, drop, ltb, leb, ◌==◌, if◌then◌else◌, Option, none,
  some, Run, ok, aborted, ◌>>=◌,
}

-- `MaxExtLength` and `LengthOfTimeHeaderStr`
abbrev pub max_ext_length : ℕ
max_ext_length = 5

abbrev pub length_of_time_header_str : ℕ
length_of_time_header_str = 26

-- Where the fields stand, from `fileType` on.
abbrev pub created_at : ℕ
created_at = max_ext_length

abbrev pub modified_at : ℕ
modified_at = created_at + length_of_time_header_str

abbrev pub visited_at : ℕ
visited_at = modified_at + length_of_time_header_str

-- The bytes of the attributes.
abbrev pub attributes_size : ℕ
attributes_size = visited_at + length_of_time_header_str

abbrev later_or : Option ℕ → Option ℕ → Option ℕ
later_or (some i) other = some i
later_or none other = other

-- `strrchr`: the index of the last character `c` of the text, whose first one has index `i`.
unfoldable pub strrchr : ℕ → List ℕ → ℕ → Option ℕ
strrchr c [] i = none
strrchr c (x ∷ text) i = later_or (strrchr c text (i + 1)) (if x == c then some i else none)

abbrev pub behind_dot : List ℕ → Option ℕ → List ℕ
behind_dot filename none = []
behind_dot filename (some dot) = if dot == 0 then [] else drop (dot + 1) filename

-- `getFileExtension`
unfoldable pub get_file_extension : List ℕ → List ℕ
get_file_extension filename = behind_dot filename (strrchr 46 filename 0)

-- `strcpy` of `text`, with the zero that ends it, to index `to` of `memory`.
unfoldable pub strcpy : (ℕ → ℕ) → ℕ → List ℕ → ℕ → ℕ
strcpy memory to text k =
    if ltb k to
    then memory k
    else if leb k (to + length text)
    then get_or text (k - to) 0
    else memory k

-- `strcpy` to index `to` of the attributes; a string that leaves them runs over what stands behind, which ends the run.
abbrev pub copy_in : (ℕ → ℕ) → ℕ → List ℕ → Run (ℕ → ℕ)
copy_in attributes to text =
    if ltb (to + length text) attributes_size then ok (strcpy attributes to text) else aborted

-- `setFileType`; "None" is 78, 111, 110, 101.
unfoldable pub set_file_type : (ℕ → ℕ) → List ℕ → Run (ℕ → ℕ)
set_file_type attributes [] = copy_in attributes 0 (78 ∷ (111 ∷ (110 ∷ (101 ∷ []))))
set_file_type attributes (c ∷ ext) = copy_in attributes 0 (c ∷ ext)

unfoldable pub set_create_time : (ℕ → ℕ) → List ℕ → Run (ℕ → ℕ)
set_create_time attributes t = copy_in attributes created_at t

unfoldable pub set_modify_time : (ℕ → ℕ) → List ℕ → Run (ℕ → ℕ)
set_modify_time attributes t = copy_in attributes modified_at t

unfoldable pub set_visit_time : (ℕ → ℕ) → List ℕ → Run (ℕ → ℕ)
set_visit_time attributes t = copy_in attributes visited_at t

-- `HeaderCreateInit`, at the time `now`.
unfoldable pub header_create_init : (ℕ → ℕ) → List ℕ → List ℕ → Run (ℕ → ℕ)
header_create_init attributes ext now = do
  typed ← set_file_type attributes ext
  created ← set_create_time typed now
  modified ← set_modify_time created now
  set_visit_time modified now
