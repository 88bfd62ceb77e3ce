-- ===== src/FileSystem/HeaderSector.antt =====
-- `FetchFrom` and `WriteBack` of filesys/filehdr.cc: the header of a file, as the bytes of its sector.
use pku_os_lab.Common.{
  ℕ, zero, suc, ◌+◌, ◌-◌, ◌*◌, ◌/◌, ◌%◌, ◌^◌, ◌<◌, ◌≡◌, refl, ◌∙◌, ap, true, false, List, [], ◌∷◌,
  length, get_or, All, Run, ok, ◌>>=◌, arith, ltb, ◌==◌, if◌then◌else◌, ℤ, pos, negsuc, minus_one,
}
use pku_os_lab.SynchDisk.{
  Disk, disk_sectors, read_sector, write_sector, put, read_sector-ok, write_sector-ok, put_self,
  put_other,
}
use pku_os_lab.FileHeader.{FileHeader, num_data_sectors}
use pku_os_lab.FileSystem.Bytes.{word_byte, word_at, word_at-word_byte}

-- The 32-bit pattern of an `int`.
unfoldable pub int_word : ℤ → ℕ
int_word (pos n) = n % 2 ^ 32
int_word (negsuc n) = 2 ^ 32 - 1 - n % 2 ^ 32

-- The `int` of a 32-bit pattern.
unfoldable pub word_int : ℕ → ℤ
word_int w = if ltb w (2 ^ 31) then pos w else negsuc (2 ^ 32 - 1 - w)

-- Where `fileType` stands, behind `numBytes`, `numSectors` and `dataSectors`.
abbrev pub attributes_at : ℕ
attributes_at = 4 + 4 + num_data_sectors * 4

-- `FileHeader` as it lies in memory: byte `r`. `attributes` is what stands from `fileType` on: the type, the three
-- dates and a byte that no field uses.
unfoldable pub header_byte : FileHeader → (ℕ → ℕ) → ℕ → ℕ
header_byte h attributes r =
    if ltb r 4
    then word_byte h.num_bytes r
    else if ltb r 8
    then word_byte h.num_sectors (r - 4)
    else if ltb r attributes_at
    then word_byte (int_word (get_or h.data_sectors ((r - 8) / 4) minus_one)) ((r - 8) % 4)
    else attributes (r - attributes_at)

-- The `n` entries of `dataSectors` from number `i` on in the memory `buf`.
unfoldable pub ints_in : (ℕ → ℕ) → ℕ → ℕ → List ℤ
ints_in buf zero i = []
ints_in buf (suc n) i = word_int (word_at buf (8 + i * 4)) ∷ ints_in buf n (i + 1)

unfoldable pub header_in : (ℕ → ℕ) → FileHeader
header_in buf = record {
  num_bytes = word_at buf 0;
  num_sectors = word_at buf 4;
  data_sectors = ints_in buf num_data_sectors 0;
}

-- `FileHeader::FetchFrom` gives the header and its attributes.
unfoldable pub fetch_header : ℤ → Disk (ℕ → ℕ) → Run (FileHeader × (ℕ → ℕ))
fetch_header sector disk = do
  buf ← read_sector sector disk
  ok (header_in buf, λ k. buf (attributes_at + k))

-- `FileHeader::WriteBack`
unfoldable pub write_header : ℤ → FileHeader → (ℕ → ℕ) → Disk (ℕ → ℕ) → Run (Disk (ℕ → ℕ))
write_header sector h attributes disk = write_sector sector (header_byte h attributes) disk

-- A number that an `int` holds.
unfoldable pub IsInt : ℤ → Type 0
IsInt (pos n) = n < 2 ^ 31
IsInt (negsuc n) = n < 2 ^ 31

-- A header that the fields of one in memory can hold.
pub record IsStorable (h : FileHeader) : Type 0 where
  pub bytes : h.num_bytes < 2 ^ 31
  pub sectors : h.num_sectors < 2 ^ 31
  pub full : length h.data_sectors ≡ num_data_sectors
  pub ints : All IsInt h.data_sectors

word_int-int_word : (z : ℤ) → IsInt z → word_int (int_word z) ≡ z
unfolding word_int int_word IsInt
word_int-int_word (pos n) h =
    let whole : n % 2 ^ 32 ≡ n = omega (arith, h) in
    let low : ltb n (2 ^ 31) ≡ true = ground (arith, h) in rw (whole, low) refl
word_int-int_word (negsuc n) h =
    let whole : n % 2 ^ 32 ≡ n = omega (arith, h) in
    let high : ltb (2 ^ 32 - 1 - n) (2 ^ 31) ≡ false = ground (arith, h) in
    let back : 2 ^ 32 - 1 - (2 ^ 32 - 1 - n) ≡ n = omega (arith, h) in rw (whole, high, back) refl

int_word-lt : (z : ℤ) → int_word z < 2 ^ 32
unfolding int_word
int_word-lt (pos n) = omega arith
int_word-lt (negsuc n) = omega arith

-- The tests of `header_byte` at the bytes of its fields.
module _ (h : FileHeader) (attributes : ℕ → ℕ) where
  header_byte-num_bytes : (r : ℕ) → r < 4 → header_byte h attributes r ≡ word_byte h.num_bytes r
  unfolding header_byte
  header_byte-num_bytes r lt = let first : ltb r 4 ≡ true = ground arith in rw first refl

  header_byte-num_sectors :
      (r : ℕ) → r < 4 → header_byte h attributes (4 + r) ≡ word_byte h.num_sectors r
  unfolding header_byte
  header_byte-num_sectors r lt =
      let behind : ltb (4 + r) 4 ≡ false = ground arith in
      let second : ltb (4 + r) 8 ≡ true = ground arith in
      let rest : 4 + r - 4 ≡ r = omega arith in rw (behind, second, rest) refl

  header_byte-data_sectors :
      (k r : ℕ)
      → k < num_data_sectors
      → r < 4
      → header_byte h attributes (8 + (k * 4 + r))
        ≡ word_byte (int_word (get_or h.data_sectors k minus_one)) r
  unfolding header_byte
  header_byte-data_sectors k r lk lr =
      let behind : ltb (8 + (k * 4 + r)) 4 ≡ false = ground arith in
      let too : ltb (8 + (k * 4 + r)) 8 ≡ false = ground arith in
      let inside : ltb (8 + (k * 4 + r)) attributes_at ≡ true = ground arith in
      let which : (8 + (k * 4 + r) - 8) / 4 ≡ k = omega arith in
      let rest : (8 + (k * 4 + r) - 8) % 4 ≡ r = omega arith in
      rw (behind, too, inside, which, rest) refl

  header_byte-attributes : (k : ℕ) → header_byte h attributes (attributes_at + k) ≡ attributes k
  unfolding header_byte
  header_byte-attributes k =
      let behind : ltb (attributes_at + k) 4 ≡ false = ground arith in
      let too : ltb (attributes_at + k) 8 ≡ false = ground arith in
      let outside : ltb (attributes_at + k) attributes_at ≡ false = ground arith in
      let rest : attributes_at + k - attributes_at ≡ k = omega arith in
      rw (behind, too, outside, rest) refl

ints_in-same :
    (buf : ℕ → ℕ) (zs : List ℤ) (i : ℕ)
    → All IsInt zs
    → ((k r : ℕ)
        → k < length zs
        → r < 4
        → buf (8 + ((i + k) * 4 + r)) ≡ word_byte (int_word (get_or zs k minus_one)) r)
    → ints_in buf (length zs) i ≡ zs
unfolding ints_in
ints_in-same buf [] i ints same = refl
ints_in-same buf (z ∷ zs) i ints same =
    let word : word_at buf (8 + i * 4) ≡ int_word z =
      word_at-word_byte buf (8 + i * 4) (int_word z) (int_word-lt z)
        (λ r lt. ap buf (omega arith) ∙ same 0 r (omega arith) lt) in
    let head : word_int (word_at buf (8 + i * 4)) ≡ z =
      ap word_int word ∙ word_int-int_word z ints.0 in
    let tail : ints_in buf (length zs) (i + 1) ≡ zs =
      ints_in-same buf zs (i + 1) ints.1
        (λ k r lk lr. ap buf (omega arith) ∙ same (suc k) r (omega arith) lr) in
    cc

header_in-header_byte :
    (h : FileHeader) (attributes : ℕ → ℕ) → IsStorable h → header_in (header_byte h attributes) ≡ h
unfolding header_in
header_in-header_byte h attributes storable =
    let buf = header_byte h attributes in
    let bytes : word_at buf 0 ≡ h.num_bytes =
      word_at-word_byte buf 0 h.num_bytes (omega (arith, storable.bytes))
        (λ r lt. ap buf (omega arith) ∙ header_byte-num_bytes h attributes r lt) in
    let sectors : word_at buf 4 ≡ h.num_sectors =
      word_at-word_byte buf 4 h.num_sectors (omega (arith, storable.sectors))
        (header_byte-num_sectors h attributes) in
    let table : ints_in buf num_data_sectors 0 ≡ h.data_sectors = rw⁻¹ storable.full (
      ints_in-same buf h.data_sectors 0 storable.ints (λ k r lk lr.
        ap buf (omega arith)
        ∙ header_byte-data_sectors h attributes k r (omega (arith, storable.full, lk)) lr)) in
    rw (bytes, sectors, table) refl

read_sector-put :
    (disk : Disk (ℕ → ℕ)) (s t : ℕ) (v : ℕ → ℕ)
    → (s == t) ≡ false
    → read_sector (pos t) (put disk s v) ≡ read_sector (pos t) disk
unfolding read_sector
read_sector-put disk s t v apart = rw (put_other disk s t v apart) refl

-- What `WriteBack` of the header `h` with these attributes to sector `s`, and a `FetchFrom` after it, do.
pub record Stored (h : FileHeader) (attributes : ℕ → ℕ) (s : ℕ) (disk : Disk (ℕ → ℕ)) : Type 0 where
  pub disk' : Disk (ℕ → ℕ)
  pub attributes' : ℕ → ℕ
  pub writes : write_header (pos s) h attributes disk ≡ ok disk'
  pub reads : fetch_header (pos s) disk' ≡ ok (h, attributes')
  pub same : (k : ℕ) → attributes' k ≡ attributes k
  pub others : (t : ℕ) → (s == t) ≡ false → fetch_header (pos t) disk' ≡ fetch_header (pos t) disk

-- A header whose numbers fit in an `int`, with as many entries as the array `dataSectors`, is written by `WriteBack` to a
-- sector of the disk and read back by `FetchFrom` whole, negative entries, the type and the dates included; neither
-- aborts, and what `FetchFrom` does with any other sector is as before.
pub fetch_header-write_header :
    (h : FileHeader) (attributes : ℕ → ℕ) (s : ℕ) (disk : Disk (ℕ → ℕ))
    → IsStorable h
    → s < disk_sectors
    → Stored h attributes s disk
unfolding fetch_header write_header
fetch_header-write_header h attributes s disk storable lt =
    let buf = header_byte h attributes in
    record {
      disk' = put disk s buf;
      attributes' = λ k. buf (attributes_at + k);
      writes = write_sector-ok s buf disk lt;
      reads =
          rw
            (
              read_sector-ok s (put disk s buf) lt,
              put_self disk s buf,
              header_in-header_byte h attributes storable,
            )
            refl;
      same = header_byte-attributes h attributes;
      others = λ t apart. rw (read_sector-put disk s t buf apart) refl;
    }
