-- ===== src/OpenFile/Position.antt =====
-- `Read` and `Write` of filesys/openfile.cc against one another.
use pku_os_lab.Common.{
  ℕ, ◌+◌, ◌/◌, ◌%◌, ◌≤◌, ◌<◌, ◌≡◌, refl, ◌∙◌, ap, true, false, ◌&&◌, ◌||◌, List, length, ltb, leb,
  ◌==◌, if◌then◌else◌, Run, ok, int_limit, All, arith,
}
use pku_os_lab.SynchDisk.{Disk, disk_sectors}
use pku_os_lab.FileHeader.{sector_size}
use pku_os_lab.FileHeader.Sectors.{has, Distinct}
use pku_os_lab.FileHeader.Tables.{has-get_or}
use pku_os_lab.FileHeader.Direct.RoundTrip.{Describes, byte_to_sector-Describes}
use pku_os_lab.OpenFile.{OpenFile, clip, read, write, seek}
use pku_os_lab.OpenFile.Reading.{byte, Reads, read_at-Reads}
use pku_os_lab.OpenFile.Reading as Reading
use pku_os_lab.OpenFile.Writing.{Writes, write_at-Writes}
use pku_os_lab.OpenFile.Writing as Writing

-- How many bytes of a request are transferred.
abbrev pub transferred : ℕ → ℕ → ℕ → ℕ
transferred size num_bytes position =
    if num_bytes == 0 || leb size position
    then 0
    else clip size position num_bytes (position + num_bytes)

-- The bytes that a write stores.
pub record Stores (disk : Disk (ℕ → ℕ)) (size : ℕ) (xs : List ℕ) (from : ℕ → ℕ)
    (at num_bytes position : ℕ) (r : Run (ℕ × Disk (ℕ → ℕ))) : Type 0 where
  pub disk' : Disk (ℕ → ℕ)
  pub runs : r ≡ ok (transferred size num_bytes position, disk')
  pub stored :
      (q : ℕ)
      → q < transferred size num_bytes position
      → byte disk' xs (position + q) ≡ from (at + q)
  pub others : (s : ℕ) → has s xs ≡ false → disk' s ≡ disk s

-- The bytes that a read fetches.
pub record Fetches (disk : Disk (ℕ → ℕ)) (size : ℕ) (xs : List ℕ) (at num_bytes position : ℕ)
    (r : Run (ℕ × (ℕ → ℕ))) : Type 0 where
  pub into' : ℕ → ℕ
  pub runs : r ≡ ok (transferred size num_bytes position, into')
  pub fetched :
      (j : ℕ)
      → j < transferred size num_bytes position
      → into' (at + j) ≡ byte disk xs (position + j)

transferred-all :
    (size n num_bytes position : ℕ)
    → 0 < n
    → n ≤ num_bytes
    → position + n ≤ size
    → (n == num_bytes || position + n == size) ≡ true
    → n ≡ transferred size num_bytes position
transferred-all size n num_bytes position more less fits all = ground (arith, all)

in_request :
    (position n q : ℕ)
    → q < n
    → (leb position (position + q) && ltb (position + q) (position + n)) ≡ true
in_request position n q lt = ground (arith, lt)

transferred-fits :
    (size num_bytes position q : ℕ) → q < transferred size num_bytes position → position + q < size
transferred-fits size num_bytes position q lt = ground (arith, lt)

pub Writes-Stores :
    (disk : Disk (ℕ → ℕ)) (size : ℕ) (xs : List ℕ) (from : ℕ → ℕ) (at num_bytes position : ℕ)
    (r : Run (ℕ × Disk (ℕ → ℕ)))
    → Writes disk size xs from at num_bytes position r
    → Stores disk size xs from at num_bytes position r
Writes-Stores disk size xs from at num_bytes position _ (Writing.nothing none_left) = record {
  disk' = disk;
  runs = rw none_left refl;
  stored = λ q lt. absurd (ground (arith, lt, none_left));
  others = λ s out. refl;
}
Writes-Stores disk size xs from at num_bytes position _
      (Writing.stored n disk' more less fits all bytes others) =
    let same = transferred-all size n num_bytes position more less fits all in
    record {
      disk' = disk';
      runs = ap (λ k. ok (k, disk')) same;
      stored = λ q lt.
          let less' : q < n = rw same lt in
          bytes (position + q) (omega (arith, fits, less'))
          ∙ rw (in_request position n q less') (ap (λ k. from (at + k)) (omega arith));
      others = others;
    }

pub Reads-Fetches :
    (disk : Disk (ℕ → ℕ)) (size : ℕ) (xs : List ℕ) (into : ℕ → ℕ) (at num_bytes position : ℕ)
    (r : Run (ℕ × (ℕ → ℕ)))
    → Reads disk size xs into at num_bytes position r
    → Fetches disk size xs at num_bytes position r
Reads-Fetches disk size xs into at num_bytes position _ (Reading.nothing none_left) = record {
  into' = into;
  runs = rw none_left refl;
  fetched = λ q lt. absurd (ground (arith, lt, none_left));
}
Reads-Fetches disk size xs into at num_bytes position _
      (Reading.bytes n into' more less fits all bytes others) =
    let same = transferred-all size n num_bytes position more less fits all in
    record {
      into' = into';
      runs = ap (λ k. ok (k, into')) same;
      fetched = λ j lt. bytes j (rw same lt);
    }

-- A write and a read of the same place of a file of `size` bytes.
pub record Echoed (yield_thread : Disk (ℕ → ℕ) → Disk (ℕ → ℕ)) (size : ℕ) (f : OpenFile)
    (fresh : ℕ → ℕ → ℕ) (from : ℕ → ℕ) (from_at : ℕ) (into : ℕ → ℕ) (at num_bytes : ℕ)
    (disk : Disk (ℕ → ℕ)) : Type 0 where
  pub written : OpenFile
  pub disk' : Disk (ℕ → ℕ)
  pub into' : ℕ → ℕ
  pub moved : ℕ
  pub moves : moved ≡ transferred size num_bytes f.seek_position
  pub writes : write yield_thread fresh from from_at num_bytes f disk ≡ ok (moved, written, disk')
  pub advanced : written ≡ seek f (f.seek_position + moved)
  pub reads :
      read yield_thread (fresh 3) into at num_bytes (seek written f.seek_position) disk'
      ≡ ok (moved, into', written, yield_thread disk')
  pub echoes : (j : ℕ) → j < moved → into' (at + j) ≡ from (from_at + j)

module _ (yield_thread : Disk (ℕ → ℕ) → Disk (ℕ → ℕ)) (size : ℕ) (xs : List ℕ)
    (others : (disk : Disk (ℕ → ℕ)) (s : ℕ) → has s xs ≡ true → yield_thread disk s ≡ disk s) where
  byte-yield_thread :
      (disk : Disk (ℕ → ℕ)) (q : ℕ)
      → q / sector_size < length xs
      → byte (yield_thread disk) xs q ≡ byte disk xs q
  byte-yield_thread disk q lt =
      ap (λ (sector : ℕ → ℕ). sector (q % sector_size)) (others disk _ (has-get_or xs _ lt))

  module _ (f : OpenFile) (d : Describes f.hdr size xs)
      (inside : All (λ (x : ℕ). x < disk_sectors) xs) (apart : Distinct xs) where
    -- On an open file whose header describes `size` bytes in the sectors `xs`, all on the disk and no two equal, and
    -- while `Yield` lets no other thread change these sectors, for a request whose end an `int` holds: `Write` stores
    -- as many bytes of the request as lie in the file and moves the position by this number, and after `Seek` to the
    -- old position a `Read` of as many bytes fails at no `ASSERT`, returns this number and the bytes written, and
    -- moves the position to the same place.
    pub read-write :
        (fresh : ℕ → ℕ → ℕ) (from : ℕ → ℕ) (from_at : ℕ) (into : ℕ → ℕ) (at num_bytes : ℕ)
        (disk : Disk (ℕ → ℕ))
        → f.seek_position + num_bytes < int_limit
        → Echoed yield_thread size f fresh from from_at into at num_bytes disk
    unfolding read write seek
    read-write fresh from from_at into at num_bytes disk in_range =
        let place = f.seek_position in
        let w = Writes-Stores disk size xs from from_at num_bytes place _ (
          write_at-Writes f.hdr size xs d inside apart fresh from from_at num_bytes place disk
            in_range) in
        let disk₂ = yield_thread w.disk' in
        let r =
          Reads-Fetches disk₂ size xs into at num_bytes place _ (
            read_at-Reads f.hdr disk₂ size xs d inside (fresh 3) into at num_bytes place
              in_range) in
        record {
          written = record f { seek_position = place + transferred size num_bytes place };
          disk' = disk₂;
          into' = r.into';
          moved = transferred size num_bytes place;
          moves = refl;
          writes = rw w.runs refl;
          advanced = refl;
          reads = rw r.runs refl;
          echoes = λ j lt.
              r.fetched j lt
              ∙ byte-yield_thread w.disk' (place + j)
                  (byte_to_sector-Describes f.hdr size (place + j) xs d
                    (transferred-fits size num_bytes place j lt)).1
              ∙ w.stored j lt;
        }
