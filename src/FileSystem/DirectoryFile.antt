-- ===== src/FileSystem/DirectoryFile.antt =====
-- `FetchFrom` and `WriteBack` of filesys/directory.cc: the entries of the directory, as the bytes of a file.
use pku_os_lab.Common.{
  ℕ, zero, suc, ◌+◌, ◌-◌, ◌*◌, ◌/◌, ◌%◌, ◌^◌, ◌≤◌, ◌<◌, ◌≡◌, refl, ◌∙◌, ap, Bool, true, false, not,
  ◌&&◌, List, [], ◌∷◌, length, get_or, All, Run, ok, ◌>>=◌, arith, ltb, leb, ◌==◌, if◌then◌else◌,
}
use pku_os_lab.SynchDisk.{Disk, disk_sectors}
use pku_os_lab.Directory.{Directory, DirectoryEntry, blank_entry, file_name_max_len}
use pku_os_lab.Directory.Lookup.{IsValid}
use pku_os_lab.FileHeader.{FileHeader}
use pku_os_lab.FileHeader.Sectors.{has, Distinct}
use pku_os_lab.FileHeader.Direct.RoundTrip.{Describes}
use pku_os_lab.OpenFile.{read_at, write_at}
use pku_os_lab.FileSystem.{entry_size}
use pku_os_lab.FileSystem.Bytes.{word_byte, word_at, word_at-word_byte, chars_in, chars_in-same}
use pku_os_lab.FileSystem.Transfer.{read_at-write_at}

-- `DirectoryEntry` as it lies in memory: byte `r` of an entry; `spare` is what the memory holds where no field stands,
-- and in the character behind the `FileNameMaxLen` that `strncpy` writes.
unfoldable pub entry_byte : (ℕ → ℕ) → DirectoryEntry → ℕ → ℕ
entry_byte spare e r =
    if r == 0
    then (if e.in_use then 1 else 0)
    else if leb 4 r && ltb r 8
    then word_byte e.sector (r - 4)
    else if leb 8 r && ltb r (8 + file_name_max_len)
    then get_or e.name (r - 8) 0
    else spare r

-- The bytes of the entries that start at `table`.
unfoldable pub table_bytes : (ℕ → ℕ → ℕ) → List DirectoryEntry → ℕ → ℕ
table_bytes spare table j =
    entry_byte (spare (j / entry_size)) (get_or table (j / entry_size) blank_entry) (j % entry_size)

unfoldable pub entry_in : (ℕ → ℕ) → ℕ → DirectoryEntry
entry_in buf base = record {
  in_use = not (buf base == 0);
  sector = word_at buf (base + 4);
  name = chars_in buf file_name_max_len (base + 8);
}

-- The `n` entries from number `i` on in the memory `buf`.
unfoldable pub entries_in : (ℕ → ℕ) → ℕ → ℕ → List DirectoryEntry
entries_in buf zero i = []
entries_in buf (suc n) i = entry_in buf (i * entry_size) ∷ entries_in buf n (i + 1)

-- `Directory::FetchFrom`
unfoldable pub fetch_directory :
    FileHeader → Disk (ℕ → ℕ) → (ℕ → ℕ) → (ℕ → ℕ → ℕ) → Directory → Run Directory
fetch_directory hdr disk fresh spare d = do
  (n, into) ← read_at hdr disk fresh (table_bytes spare d.table) 0 (d.table_size * entry_size) 0
  ok (record d { table = entries_in into d.table_size 0 })

-- `Directory::WriteBack`
unfoldable pub write_directory :
    FileHeader → (ℕ → ℕ → ℕ) → (ℕ → ℕ → ℕ) → Directory → Disk (ℕ → ℕ) → Run (Disk (ℕ → ℕ))
write_directory hdr fresh spare d disk = do
  (n, disk') ← write_at hdr fresh (table_bytes spare d.table) 0 (d.table_size * entry_size) 0 disk
  ok disk'

-- An entry that an entry in memory can hold.
pub record IsStorable (e : DirectoryEntry) : Type 0 where
  pub fits_word : e.sector < 2 ^ 32
  pub short : length e.name ≤ file_name_max_len
  pub characters : All (λ (c : ℕ). 0 < c) e.name

-- The tests of `entry_byte` at the bytes of its fields.
module _ (spare : ℕ → ℕ) (e : DirectoryEntry) where
  entry_byte-flag : entry_byte spare e 0 ≡ (if e.in_use then 1 else 0)
  unfolding entry_byte
  entry_byte-flag = refl

  entry_byte-sector : (r : ℕ) → r < 4 → entry_byte spare e (4 + r) ≡ word_byte e.sector r
  unfolding entry_byte
  entry_byte-sector r lt =
      let nonzero : (4 + r == 0) ≡ false = ground arith in
      let above : leb 4 (4 + r) ≡ true = ground arith in
      let below : ltb (4 + r) 8 ≡ true = ground arith in
      let rest : 4 + r - 4 ≡ r = omega arith in rw (nonzero, above, below, rest) refl

  entry_byte-name : (k : ℕ) → k < file_name_max_len → entry_byte spare e (8 + k) ≡ get_or e.name k 0
  unfolding entry_byte
  entry_byte-name k lt =
      let nonzero : (8 + k == 0) ≡ false = ground arith in
      let outside : ltb (8 + k) 8 ≡ false = ground arith in
      let before : leb 4 (8 + k) ≡ true = ground arith in
      let above : leb 8 (8 + k) ≡ true = ground arith in
      let below : ltb (8 + k) (8 + file_name_max_len) ≡ true = ground arith in
      let rest : 8 + k - 8 ≡ k = omega arith in
      rw (nonzero, before, outside, above, below, rest) refl

flag-same : (b : Bool) (x : ℕ) → x ≡ (if b then 1 else 0) → not (x == 0) ≡ b
flag-same true x h = rw h refl
flag-same false x h = rw h refl

entry_in-same :
    (buf spare : ℕ → ℕ) (e : DirectoryEntry) (base : ℕ)
    → IsStorable e
    → ((r : ℕ) → r < entry_size → buf (base + r) ≡ entry_byte spare e r)
    → entry_in buf base ≡ e
unfolding entry_in
entry_in-same buf spare e base storable same =
    let flag : not (buf base == 0) ≡ e.in_use =
      flag-same e.in_use (buf base)
        (ap buf (omega arith) ∙ same 0 (omega arith) ∙ entry_byte-flag spare e) in
    let sector : word_at buf (base + 4) ≡ e.sector =
      word_at-word_byte buf (base + 4) e.sector storable.fits_word (λ r lt.
        ap buf (omega arith) ∙ same (4 + r) (omega arith) ∙ entry_byte-sector spare e r lt) in
    let name : chars_in buf file_name_max_len (base + 8) ≡ e.name =
      chars_in-same buf e.name file_name_max_len (base + 8) storable.short storable.characters
        (λ k lt.
          ap buf (omega arith) ∙ same (8 + k) (omega arith) ∙ entry_byte-name spare e k lt) in
    rw (flag, sector, name) refl

entries_in-same :
    (buf : ℕ → ℕ) (spare : ℕ → ℕ → ℕ) (es : List DirectoryEntry) (i : ℕ)
    → All IsStorable es
    → ((k r : ℕ)
        → k < length es
        → r < entry_size
        → buf ((i + k) * entry_size + r) ≡ entry_byte (spare (i + k)) (get_or es k blank_entry) r)
    → entries_in buf (length es) i ≡ es
unfolding entries_in
entries_in-same buf spare [] i storable same = refl
entries_in-same buf spare (e ∷ es) i storable same =
    let head : entry_in buf (i * entry_size) ≡ e =
      entry_in-same buf (spare (i + 0)) e (i * entry_size) storable.0
        (λ r lt. ap buf (omega arith) ∙ same 0 r (omega arith) lt) in
    let tail : entries_in buf (length es) (i + 1) ≡ es =
      entries_in-same buf spare es (i + 1) storable.1 (λ k r lk lr.
        ap buf (omega arith)
        ∙ same (suc k) r (omega arith) lr
        ∙ ap (λ (m : ℕ). entry_byte (spare m) (get_or es k blank_entry) r) (omega arith)) in
    cc

-- A directory whose table has its declared size, whose sectors fit in 32 bits and whose names have at most
-- `FileNameMaxLen` characters, none of them zero, is written by `WriteBack` to a file that is at least as long, whose
-- sectors are different and on the disk: neither `WriteBack` nor a later `FetchFrom` into a directory of the same size
-- aborts, `FetchFrom` gives back the directory that was written, whatever the bytes between the fields are, and no
-- sector outside the file is changed.
pub fetch_directory-write_directory :
    (hdr : FileHeader) (size : ℕ) (xs : List ℕ) (d d' : Directory) (fresh : ℕ → ℕ → ℕ)
    (spare : ℕ → ℕ → ℕ) (disk : Disk (ℕ → ℕ))
    → Describes hdr size xs
    → All (λ (x : ℕ). x < disk_sectors) xs
    → Distinct xs
    → IsValid d
    → All IsStorable d.table
    → d'.table_size ≡ d.table_size
    → d.table_size * entry_size ≤ size
    → (disk' : Disk (ℕ → ℕ)) × (write_directory hdr fresh spare d disk ≡ ok disk')
      × (fetch_directory hdr disk' (fresh 3) spare d' ≡ ok d)
      × ((s : ℕ) → has s xs ≡ false → disk' s ≡ disk s)
unfolding fetch_directory write_directory table_bytes
fetch_directory-write_directory hdr size xs d d' fresh spare disk desc inside apart valid storable
      same fits =
    let k =
      read_at-write_at hdr size xs desc inside apart fresh (table_bytes spare d.table)
        (table_bytes spare d'.table) (d.table_size * entry_size) disk fits in
    let table : entries_in k.into' d.table_size 0 ≡ d.table = rw⁻¹ valid.full (
      entries_in-same k.into' spare d.table 0 storable (λ i r li lr.
        ap k.into' (omega arith)
        ∙ k.same (i * entry_size + r) (omega (arith, valid.full, li, lr))
        ∙ byte_of_table i r lr)) in
    (
      k.disk',
      rw k.writes refl,
      rw (same, k.reads) (ap (λ es. ok (record d { table = es })) table),
      k.others,
    )
  where
    byte_of_table :
        (i r : ℕ)
        → r < entry_size
        → entry_byte
            (spare ((i * entry_size + r) / entry_size))
            (get_or d.table ((i * entry_size + r) / entry_size) blank_entry)
            ((i * entry_size + r) % entry_size)
          ≡ entry_byte (spare (0 + i)) (get_or d.table i blank_entry) r
    byte_of_table i r lr =
        let which : (i * entry_size + r) / entry_size ≡ i = omega arith in
        let rest : (i * entry_size + r) % entry_size ≡ r = omega arith in
        let none : 0 + i ≡ i = omega arith in rw (which, rest, none) refl
