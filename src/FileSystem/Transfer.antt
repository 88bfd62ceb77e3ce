-- ===== src/FileSystem/Transfer.antt =====
-- A structure that fills a file from its beginning on, written by `WriteAt` and read back by `ReadAt`.
use pku_os_lab.Common.{ℕ, ◌+◌, ◌≤◌, ◌<◌, ◌≡◌, ◌∙◌, ap, sym, false, List, ok, int_limit, All, arith}
use pku_os_lab.SynchDisk.{Disk, disk_sectors}
use pku_os_lab.FileHeader.{FileHeader}
use pku_os_lab.FileHeader.Sectors.{has, Distinct}
use pku_os_lab.FileHeader.Direct.RoundTrip.{Describes}
use pku_os_lab.OpenFile.{read_at, write_at}
use pku_os_lab.OpenFile.Extent.{Describes-extent}
use pku_os_lab.OpenFile.Reading.{read_at-Reads}
use pku_os_lab.OpenFile.Writing.{write_at-Writes}
use pku_os_lab.OpenFile.Position.{transferred, Writes-Stores, Reads-Fetches}

transferred-whole : (size n : ℕ) → n ≤ size → transferred size n 0 ≡ n
transferred-whole size n fits = ground (arith, fits)

-- The `n` bytes `from`, written and read back into `into`.
pub record Kept (hdr : FileHeader) (xs : List ℕ) (fresh : ℕ → ℕ → ℕ) (from into : ℕ → ℕ) (n : ℕ)
    (disk : Disk (ℕ → ℕ)) : Type 0 where
  pub disk' : Disk (ℕ → ℕ)
  pub into' : ℕ → ℕ
  pub writes : write_at hdr fresh from 0 n 0 disk ≡ ok (n, disk')
  pub reads : read_at hdr disk' (fresh 3) into 0 n 0 ≡ ok (n, into')
  pub same : (j : ℕ) → j < n → into' j ≡ from j
  pub others : (s : ℕ) → has s xs ≡ false → disk' s ≡ disk s

module _ (hdr : FileHeader) (size : ℕ) (xs : List ℕ) (d : Describes hdr size xs)
    (inside : All (λ (x : ℕ). x < disk_sectors) xs) (apart : Distinct xs) where
  pub read_at-write_at :
      (fresh : ℕ → ℕ → ℕ) (from into : ℕ → ℕ) (n : ℕ) (disk : Disk (ℕ → ℕ))
      → n ≤ size
      → Kept hdr xs fresh from into n disk
  read_at-write_at fresh from into n disk fits =
      let in_range : 0 + n < int_limit =
        omega (arith, fits, Describes-extent hdr size xs d inside apart) in
      let w =
        Writes-Stores disk size xs from 0 n 0 _
          (write_at-Writes hdr size xs d inside apart fresh from 0 n 0 disk in_range) in
      let r =
        Reads-Fetches w.disk' size xs into 0 n 0 _
          (read_at-Reads hdr w.disk' size xs d inside (fresh 3) into 0 n 0 in_range) in
      let whole = transferred-whole size n fits in
      record {
        disk' = w.disk';
        into' = r.into';
        writes = w.runs ∙ ap (λ (k : ℕ). ok (k, w.disk')) whole;
        reads = r.runs ∙ ap (λ (k : ℕ). ok (k, r.into')) whole;
        same = λ j lt.
            let lt' : j < transferred size n 0 = rw whole lt in
            let zero_more : 0 + j ≡ j = omega arith in
            ap r.into' (sym zero_more) ∙ r.fetched j lt' ∙ w.stored j lt' ∙ ap from zero_more;
        others = w.others;
      }
