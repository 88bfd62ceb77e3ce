-- ===== src/OpenFile/Blocks.antt =====
-- The loop of `WriteAt` in filesys/openfile.cc: the sectors that are written.
use pku_os_lab.Common.{
  ℕ, zero, suc, ◌+◌, ◌-◌, ◌*◌, ◌/◌, ◌<◌, ◌≡◌, refl, ◌∙◌, ap, false, ◌&&◌, List, length, ltb, leb,
  ◌==◌, if◌then◌else◌, ok, All, All-get_or, get_or, arith, Bool-cases, inl, inr,
}
use pku_os_lab.SynchDisk.{
  Disk, put, put_self, put_other, write_sector, write_sector-ok, disk_sectors,
}
use pku_os_lab.FileHeader.{FileHeader, sector_size}
use pku_os_lab.FileHeader.Sectors.{has, Distinct}
use pku_os_lab.FileHeader.Tables.{has-get_or, Distinct-get_or}
use pku_os_lab.FileHeader.Direct.{byte_to_sector}
use pku_os_lab.FileHeader.Direct.RoundTrip.{Describes, byte_to_sector-Describes}
use pku_os_lab.OpenFile.{write_sectors}

-- What `disk'` holds in place of `disk` after the sectors `i` to `i + n - 1` of a file were written.
pub record Written (xs : List ℕ) (first i n : ℕ) (buf : ℕ → ℕ) (disk disk' : Disk (ℕ → ℕ))
    : Type 0 where
  pub blocks :
      (k q : ℕ)
      → k < length xs
      → disk' (get_or xs k 0) q ≡ (
          if leb i k && ltb k (i + n)
          then buf ((k - first) * sector_size + q)
          else disk (get_or xs k 0) q)
  pub others : (s : ℕ) → has s xs ≡ false → disk' s ≡ disk s

module _ (hdr : FileHeader) (size : ℕ) (xs : List ℕ) (d : Describes hdr size xs)
    (inside : All (λ (x : ℕ). x < disk_sectors) xs) (apart : Distinct xs) where
  sector-written :
      (i : ℕ) (v : ℕ → ℕ) (disk : Disk (ℕ → ℕ))
      → i * sector_size < size
      → write_sector (byte_to_sector hdr (i * sector_size)) v disk ≡ ok (put disk (get_or xs i 0) v)
  sector-written i v disk lt =
      rw ((byte_to_sector-Describes hdr size (i * sector_size) xs d lt).0, whole i)
        (write_sector-ok (get_or xs i 0) v disk
          (All-get_or (λ (x : ℕ). x < disk_sectors) xs i 0 inside (omega arith)))
    where
      whole : (i : ℕ) → i * sector_size / sector_size ≡ i
      whole i = omega arith

  put-sector :
      (i k q : ℕ) (v : ℕ → ℕ → ℕ) (disk : Disk (ℕ → ℕ))
      → i < length xs
      → k < length xs
      → put disk (get_or xs i 0) (v i) (get_or xs k 0) q
        ≡ (if k == i then v k q else disk (get_or xs k 0) q)
  put-sector i k q v disk li lk = elim (Bool-cases (k == i)) [
    | inl same ↦
        let e : k ≡ i = ground (arith, same) in
        rw (same, e) (ap (λ (f : ℕ → ℕ). f q) (put_self disk (get_or xs i 0) (v i)))
    | inr other ↦
        let different : (get_or xs i 0 == get_or xs k 0) ≡ false =
          ground (arith, other, Distinct-get_or xs i k apart li lk) in
        rw other
          (ap (λ (f : ℕ → ℕ). f q) (put_other disk (get_or xs i 0) (get_or xs k 0) (v i) different))
  ]

  put-others :
      (i s : ℕ) (v : ℕ → ℕ) (disk : Disk (ℕ → ℕ))
      → i < length xs
      → has s xs ≡ false
      → put disk (get_or xs i 0) v s ≡ disk s
  put-others i s v disk li out =
      put_other disk (get_or xs i 0) s v (elim (Bool-cases (get_or xs i 0 == s)) [
        | inr other ↦ other
        | inl same ↦
            let e : get_or xs i 0 ≡ s = ground (arith, same) in
            absurd (ground (arith, has-get_or xs i li, ap (λ t. has t xs) e, out))
      ])

  one-more :
      (i n k x b₁ b : ℕ)
      → b₁ ≡ (if k == i then x else b)
      → (if leb (i + 1) k && ltb k (i + 1 + n) then x else b₁)
        ≡ (if leb i k && ltb k (i + suc n) then x else b)
  one-more i n k x b₁ b h = ground (arith, h)

  pub write_sectors-Written :
      (n i first : ℕ) (buf : ℕ → ℕ) (disk : Disk (ℕ → ℕ))
      → (i + n) * sector_size < size + sector_size
      → (disk' : Disk (ℕ → ℕ)) × (write_sectors hdr first n i buf disk ≡ ok disk')
        × Written xs first i n buf disk disk'
  unfolding write_sectors
  write_sectors-Written zero i first buf disk fits =
      (disk, refl, record { blocks = λ k q lt. ground arith; others = λ s out. refl })
  write_sectors-Written (suc n) i first buf disk fits =
      let v = λ (k q : ℕ). buf ((k - first) * sector_size + q) in
      let here : i < length xs = ground (arith, d.as_many, fits) in
      let (disk', run, w) =
        write_sectors-Written n (i + 1) first buf (put disk (get_or xs i 0) (v i))
          (omega (arith, fits)) in
      (
        disk',
        rw (sector-written i (v i) disk (omega (arith, fits))) run,
        record {
          blocks =
              λ k q lt. w.blocks k q lt ∙ one-more i n k _ _ _ (put-sector i k q v disk here lt);
          others = λ s out. w.others s out ∙ put-others i s (v i) disk here out;
        },
      )
