-- ===== src/OpenFile/Writing.antt =====
-- What `WriteAt` of filesys/openfile.cc writes.
use pku_os_lab.Common.{
  ℕ, ◌+◌, ◌-◌, ◌*◌, ◌/◌, ◌≤◌, ◌<◌, ◌≡◌, true, false, not, ◌&&◌, ◌||◌, List, ltb, leb, ◌==◌,
  if◌then◌else◌, Run, ok, int_limit, int_sum-ok, All, arith, Bool-cases, inl, inr,
}
use pku_os_lab.SynchDisk.{Disk, disk_sectors}
use pku_os_lab.FileHeader.{FileHeader, sector_size}
use pku_os_lab.FileHeader.Sectors.{has, Distinct}
use pku_os_lab.FileHeader.Direct.RoundTrip.{Describes}
use pku_os_lab.OpenFile.{bcopy, clip, write_at}
use pku_os_lab.OpenFile.Reading.{byte, clip-bounds, file_length-size, rounds-fit}
use pku_os_lab.OpenFile.Extent.{Describes-extent}
use pku_os_lab.OpenFile.Blocks.{write_sectors-Written}
use pku_os_lab.OpenFile.Buffer.{read_partial-Filled, kept-byte, whole-buffer, written-byte}

-- What `WriteAt` may return for a request of `num_bytes` bytes at `position` of a file of `size` bytes
-- in the sectors `xs`: 0 and the same disk, or the number of bytes that lie in the file and a disk on
-- which byte `q` of the file is the new one inside of the request and the old one outside of it, and
-- on which no other sector has changed.
pub data Writes (disk : Disk (ℕ → ℕ)) (size : ℕ) (xs : List ℕ) (from : ℕ → ℕ)
    (at num_bytes position : ℕ) : Run (ℕ × Disk (ℕ → ℕ)) → Type 0 where
  nothing :
      (num_bytes == 0 || leb size position) ≡ true
      → Writes disk size xs from at num_bytes position (ok (0, disk))
  stored :
      (n : ℕ) (disk' : Disk (ℕ → ℕ))
      → 0 < n
      → n ≤ num_bytes
      → position + n ≤ size
      → (n == num_bytes || position + n == size) ≡ true
      → ((q : ℕ)
          → q < size
          → byte disk' xs q ≡ (
              if leb position q && ltb q (position + n)
              then from (at + (q - position))
              else byte disk xs q))
      → ((s : ℕ) → has s xs ≡ false → disk' s ≡ disk s)
      → Writes disk size xs from at num_bytes position (ok (n, disk'))

module _ (hdr : FileHeader) (size : ℕ) (xs : List ℕ) (d : Describes hdr size xs)
    (inside : All (λ (x : ℕ). x < disk_sectors) xs) (apart : Distinct xs) where
  -- On a header that describes a file of `size` bytes in the sectors `xs`, all on the disk and no two equal, and for a
  -- request whose end an `int` holds, `WriteAt` fails at no `ASSERT`. It returns 0 and leaves the disk alone when the
  -- request is empty or starts at the end of the file or behind it; otherwise it returns the number of bytes of the
  -- request that lie in the file, after which the bytes of the file there are those of the buffer, every other byte of
  -- the file is the one before, also in the sectors that are written in part, and the sectors of the disk that are not
  -- the file's are unchanged.
  pub write_at-Writes :
      (fresh : ℕ → ℕ → ℕ) (from : ℕ → ℕ) (at num_bytes position : ℕ) (disk : Disk (ℕ → ℕ))
      → position + num_bytes < int_limit
      → Writes disk size xs from at num_bytes position
          (write_at hdr fresh from at num_bytes position disk)
  unfolding write_at
  write_at-Writes fresh from at num_bytes position disk in_range =
      rw (file_length-size hdr disk size xs d inside)
        (elim (Bool-cases (num_bytes == 0 || leb size position)) [
          | inl none_left ↦ rw none_left (nothing none_left)
          | inr more_left ↦
              let extent = Describes-extent hdr size xs d inside apart in
              let n = clip size position num_bytes (position + num_bytes) in
              let (more, less, fits, all) =
                clip-bounds hdr disk size xs d inside num_bytes position more_left in
              let first = position / sector_size in
              let last = (position + n - 1) / sector_size in
              let below : first * sector_size ≤ position = omega arith in
              let above : position + n ≤ last * sector_size + sector_size = omega (arith, more) in
              let ordered : first ≤ last = omega (arith, more) in
              let from_last : last * sector_size < position + n = omega (arith, more) in
              let (buf₁, run₁, f₁) =
                read_partial-Filled hdr size xs d inside disk (fresh 1) (fresh 0)
                  (not (position == first * sector_size)) first 0 (omega (arith, more, fits))
                  (omega (arith, more, fits, extent)) in
              let (buf₂, run₂, f₂) =
                read_partial-Filled hdr size xs d inside disk (fresh 2) buf₁
                  (not (position + n == (last + 1) * sector_size)
                    && (not (first == last) || position == first * sector_size))
                  last ((last - first) * sector_size) (omega (arith, from_last, fits))
                  (omega (arith, from_last, fits, extent)) in
              let buf₃ = bcopy from at buf₂ (position - first * sector_size) n in
              let (disk', run₃, w) =
                write_sectors-Written hdr size xs d inside apart (1 + last - first) first first buf₃
                  disk (rounds-fit hdr disk size xs d inside position n more fits) in
              rw (more_left, int_sum-ok position num_bytes in_range, run₁, run₂, run₃)
                (stored n disk' more less fits all
                  (λ q lt.
                    written-byte hdr size xs d inside disk disk' from buf₃ at position n first last
                      q below above ordered
                      (λ j lj inner.
                        whole-buffer hdr size xs d inside disk from buf₂ at position n first j below
                          (kept-byte hdr size xs d inside disk (fresh 0) buf₁ buf₂ position n first
                            last j below (omega arith) from_last above ordered f₁ f₂ lj inner))
                      w lt)
                  w.others)
        ])
