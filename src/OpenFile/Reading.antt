-- ===== src/OpenFile/Reading.antt =====
-- What `ReadAt` of filesys/openfile.cc reads.
use pku_os_lab.Common.{
  ℕ, zero, suc, ◌+◌, ◌-◌, ◌*◌, ◌/◌, ◌%◌, ◌≤◌, ◌<◌, ◌≡◌, refl, ◌∙◌, ap, true, false, ◌&&◌, ◌||◌,
  List, ltb, leb, ◌==◌, if◌then◌else◌, Run, ok, int_limit, int_sum-ok, All, All-get_or, get_or,
  arith, Bool-cases, inl, inr,
}
use pku_os_lab.SynchDisk.{Disk, read_sector, read_sector-ok, disk_sectors}
use pku_os_lab.FileHeader.{FileHeader, sector_size}
use pku_os_lab.FileHeader.Direct.{byte_to_sector, file_length}
use pku_os_lab.FileHeader.Direct.RoundTrip.{Describes, byte_to_sector-Describes}
use pku_os_lab.OpenFile.{bcopy, read_sectors, clip, read_at}

-- Byte `q` of the file that lies in the sectors `xs`.
abbrev pub byte : Disk (ℕ → ℕ) → List ℕ → ℕ → ℕ
byte disk xs q = disk (get_or xs (q / sector_size) 0) (q % sector_size)

-- What `ReadAt` may return for a request of `num_bytes` bytes from `position` on, of a file of `size`
-- bytes in the sectors `xs`, into the buffer `into` from its index `at` on: 0 and the same buffer, when
-- the request is empty or starts behind the file; otherwise the number of bytes that lie in the file,
-- and the buffer with these bytes and no other change.
pub data Reads (disk : Disk (ℕ → ℕ)) (size : ℕ) (xs : List ℕ) (into : ℕ → ℕ)
    (at num_bytes position : ℕ) : Run (ℕ × (ℕ → ℕ)) → Type 0 where
  nothing :
      (num_bytes == 0 || leb size position) ≡ true
      → Reads disk size xs into at num_bytes position (ok (0, into))
  bytes :
      (n : ℕ) (into' : ℕ → ℕ)
      → 0 < n
      → n ≤ num_bytes
      → position + n ≤ size
      → (n == num_bytes || position + n == size) ≡ true
      → ((j : ℕ) → j < n → into' (at + j) ≡ byte disk xs (position + j))
      → ((j : ℕ) → (ltb j at || leb (at + n) j) ≡ true → into' j ≡ into j)
      → Reads disk size xs into at num_bytes position (ok (n, into'))

-- One sector more in front of `n` others.
widen :
    (first i n j x b₁ b : ℕ)
    → first ≤ i
    → b₁ ≡ (
        if leb ((i - first) * sector_size) j && ltb j ((i - first) * sector_size + sector_size)
        then x
        else b)
    → (if leb ((i + 1 - first) * sector_size) j && ltb j ((i + 1 - first + n) * sector_size)
        then x
        else b₁)
      ≡ (if leb ((i - first) * sector_size) j && ltb j ((i - first + suc n) * sector_size)
          then x
          else b)
widen first i n j x b₁ b le h = ground (arith, h)

module _ (hdr : FileHeader) (disk : Disk (ℕ → ℕ)) (size : ℕ) (xs : List ℕ)
    (d : Describes hdr size xs) (inside : All (λ (x : ℕ). x < disk_sectors) xs) where
  pub sector-read :
      (i : ℕ)
      → i * sector_size < size
      → read_sector (byte_to_sector hdr (i * sector_size)) disk ≡ ok (disk (get_or xs i 0))
  sector-read i lt =
      rw ((byte_to_sector-Describes hdr size (i * sector_size) xs d lt).0, whole i)
        (read_sector-ok (get_or xs i 0) disk
          (All-get_or (λ (x : ℕ). x < disk_sectors) xs i 0 inside (omega arith)))
    where
      whole : (i : ℕ) → i * sector_size / sector_size ≡ i
      whole i = omega arith

  copied-sector :
      (first i j : ℕ) (buf : ℕ → ℕ)
      → first ≤ i
      → bcopy (disk (get_or xs i 0)) 0 buf ((i - first) * sector_size) sector_size j ≡ (
          if leb ((i - first) * sector_size) j && ltb j ((i - first) * sector_size + sector_size)
          then byte disk xs (first * sector_size + j)
          else buf j)
  copied-sector first i j buf le =
      elim (Bool-cases
        (leb ((i - first) * sector_size) j && ltb j ((i - first) * sector_size + sector_size))) [
          | inr out ↦ rw out refl
          | inl within ↦
              let block : (first * sector_size + j) / sector_size ≡ i = ground arith in
              let offset : (first * sector_size + j) % sector_size
                  ≡ 0 + (j - (i - first) * sector_size) =
                ground arith in
              rw (within, block, offset) refl
        ]

  read_sectors-bytes :
      (n i first : ℕ) (buf : ℕ → ℕ)
      → first ≤ i
      → (i + n) * sector_size < size + sector_size
      → (buf' : ℕ → ℕ) × (read_sectors hdr disk first n i buf ≡ ok buf')
        × ((j : ℕ)
            → buf' j ≡ (
                if leb ((i - first) * sector_size) j && ltb j ((i - first + n) * sector_size)
                then byte disk xs (first * sector_size + j)
                else buf j))
  unfolding read_sectors
  read_sectors-bytes zero i first buf le fits = (buf, refl, λ j. ground arith)
  read_sectors-bytes (suc n) i first buf le fits =
      let buf₁ = bcopy (disk (get_or xs i 0)) 0 buf ((i - first) * sector_size) sector_size in
      let (buf', run, get) =
        read_sectors-bytes n (i + 1) first buf₁ (omega arith) (omega (arith, fits)) in
      (
        buf',
        rw (sector-read i (omega (arith, fits))) run,
        λ j. get j ∙ widen first i n j _ _ _ le (copied-sector first i j buf le),
      )

  pub clip-bounds :
      (num_bytes position : ℕ)
      → (num_bytes == 0 || leb size position) ≡ false
      → (0 < clip size position num_bytes (position + num_bytes))
        × (clip size position num_bytes (position + num_bytes) ≤ num_bytes)
        × (position + clip size position num_bytes (position + num_bytes) ≤ size)
        × ((clip size position num_bytes (position + num_bytes) == num_bytes
              || position + clip size position num_bytes (position + num_bytes) == size)
            ≡ true)
  clip-bounds num_bytes position some =
      (ground (arith, some), ground (arith, some), ground (arith, some), ground (arith, some))

  pub file_length-size : file_length hdr ≡ size
  unfolding file_length
  file_length-size = d.bytes

  -- The part of the buffer that the request is about.
  part-bytes :
      (buf fresh into : ℕ → ℕ) (at n position first rounds j : ℕ)
      → ((k : ℕ)
          → buf k ≡ (
              if leb ((first - first) * sector_size) k
                && ltb k ((first - first + rounds) * sector_size)
              then byte disk xs (first * sector_size + k)
              else fresh k))
      → first * sector_size ≤ position
      → position + n ≤ (first + rounds) * sector_size
      → j < n
      → bcopy buf (position - first * sector_size) into at n (at + j) ≡ byte disk xs (position + j)
  part-bytes buf fresh into at n position first rounds j get from covered lt =
      let k = position - first * sector_size + (at + j - at) in
      let within : (leb at (at + j) && ltb (at + j) (at + n)) ≡ true = ground (arith, lt) in
      let in_buffer : (leb ((first - first) * sector_size) k
            && ltb k ((first - first + rounds) * sector_size))
          ≡ true =
        ground (arith, from, covered, lt) in
      let same : first * sector_size + k ≡ position + j = omega (arith, from) in
      rw within (get k ∙ rw in_buffer (ap (byte disk xs) same))

  other-bytes :
      (buf into : ℕ → ℕ) (start at n j : ℕ)
      → (ltb j at || leb (at + n) j) ≡ true
      → bcopy buf start into at n j ≡ into j
  other-bytes buf into start at n j out =
      let without : (leb at j && ltb j (at + n)) ≡ false = ground (arith, out) in rw without refl

  pub rounds-fit :
      (position n : ℕ)
      → 0 < n
      → position + n ≤ size
      → (position / sector_size + (1 + (position + n - 1) / sector_size - position / sector_size))
          * sector_size
        < size + sector_size
  rounds-fit position n more fits = omega (arith, more, fits)

  pub rounds-cover :
      (position n : ℕ)
      → 0 < n
      → position + n
        ≤ (position / sector_size + (1 + (position + n - 1) / sector_size - position / sector_size))
          * sector_size
  rounds-cover position n more = omega (arith, more)

  -- On a header that describes a file of `size` bytes in the sectors `xs`, all of them on the disk, and for a request
  -- whose end an `int` holds, `ReadAt` fails at no `ASSERT`. It returns 0 and leaves the buffer alone when the request
  -- is empty or starts at the end of the file or behind it; otherwise it returns the number of bytes of the request
  -- that lie in the file, has put exactly these bytes of the file, in order, at the place asked for, across the
  -- borders of sectors, and changes nothing else of the buffer.
  pub read_at-Reads :
      (fresh into : ℕ → ℕ) (at num_bytes position : ℕ)
      → position + num_bytes < int_limit
      → Reads disk size xs into at num_bytes position
          (read_at hdr disk fresh into at num_bytes position)
  unfolding read_at
  read_at-Reads fresh into at num_bytes position in_range =
      rw file_length-size (elim (Bool-cases (num_bytes == 0 || leb size position)) [
        | inl none_left ↦ rw none_left (nothing none_left)
        | inr some ↦
            let n = clip size position num_bytes (position + num_bytes) in
            let (more, less, fits, all) = clip-bounds num_bytes position some in
            let first = position / sector_size in
            let rounds = 1 + (position + n - 1) / sector_size - first in
            let (buf, run, get) =
              read_sectors-bytes rounds first first fresh (omega arith)
                (rounds-fit position n more fits) in
            rw (some, int_sum-ok position num_bytes in_range, run)
              (bytes n _ more less fits all
                (λ j lt.
                  part-bytes buf fresh into at n position first rounds j get (omega arith)
                    (rounds-cover position n more) lt)
                (λ j out. other-bytes buf into _ at n j out))
      ])
