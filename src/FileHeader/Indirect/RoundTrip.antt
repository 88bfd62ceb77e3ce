-- ===== src/FileHeader/Indirect/RoundTrip.antt =====
-- `Allocate` and then `Deallocate` of filesys/filehdr.cc, with `INDIRECT_MAP`.
use pku_os_lab.Common.{
  ℕ, ◌+◌, ◌≤◌, ◌<◌, ◌≡◌, refl, true, false, ◌||◌, ◌==◌, Bool-cases, inl, inr, List, [], ◌∷◌, ◌++◌,
  ok, length, arith, le→ltb, div_round_up,
}
use pku_os_lab.Bitmap.{BitMap}
use pku_os_lab.Bitmap.Marks.{IsValid, marked}
use pku_os_lab.Bitmap.Find.{clear_count, num_clear_lem}
use pku_os_lab.SynchDisk.{Disk, disk_sectors}
use pku_os_lab.FileHeader.{FileHeader, sector_size, num_data_sectors}
use pku_os_lab.FileHeader.Sectors.{has, Takes, has-append}
use pku_os_lab.FileHeader.Release.{Gives, Gives-Takes, Takes-InUse}
use pku_os_lab.FileHeader.Indirect.{Table, Stack, allocate, allocate_sectors, deallocate}
use pku_os_lab.FileHeader.Indirect.Tree.{Tree, IsStack, double_limit, table_sectors}
use pku_os_lab.FileHeader.Indirect.Build.{build}
use pku_os_lab.FileHeader.Indirect.Release.{Distinct-apart}
use pku_os_lab.FileHeader.Indirect.Deallocate.{leaks, deallocate-Outcome}

abbrev pub sectors_for : ℕ → ℕ
sectors_for size = div_round_up size sector_size

-- The header of `size` bytes and the disk after a successful `Allocate`.
pub record IsAllocated (h : FileHeader) (disk : Disk Table) (b b' : BitMap) (size : ℕ)
    : Type 0 where
  pub bytes : h.num_bytes ≡ size
  pub number : h.num_sectors ≡ sectors_for size
  pub all : List ℕ
  pub taken : Takes b all b'
  pub tree : Tree h.data_sectors disk h.num_sectors all

-- Of the sectors taken, all but the last are given back.
one_left :
    (b b' b'' : BitMap) (xs : List ℕ) (x : ℕ)
    → Takes b (xs ++ (x ∷ [])) b'
    → Gives b' xs b''
    → (x < b.num_bits) × (marked b x ≡ false) × ((j : ℕ) → marked b'' j ≡ (x == j || marked b j))
one_left b b' b'' xs x t g =
    let last : has x (xs ++ (x ∷ [])) ≡ true = ground (arith, has-append x xs (x ∷ [])) in
    let apart : has x xs ≡ false = Distinct-apart xs (x ∷ []) x t.distinct (ground arith) in
    (
      (t.fresh x last).1,
      (t.fresh x last).0,
      λ j. ground (arith, g.bits j, t.bits j, t.fresh j, has-append j xs (x ∷ []), apart),
    )

-- The free map after a file of `size` bytes was given back, where `b` was the map before it was made.
pub data GivenBack (b b'' : BitMap) (size : ℕ) : Type 0 where
  whole :
      leaks (sectors_for size) ≡ false
      → IsValid b''
      → ((j : ℕ) → marked b'' j ≡ marked b j)
      → GivenBack b b'' size
  but_one :
      (x : ℕ)
      → leaks (sectors_for size) ≡ true
      → x < b.num_bits
      → marked b x ≡ false
      → ((j : ℕ) → marked b'' j ≡ (x == j || marked b j))
      → GivenBack b b'' size

module _ (stack : Stack) (h : FileHeader) (b : BitMap) (disk : Disk Table) (size : ℕ)
    (arrays : IsStack stack) (valid : IsValid b) (small : b.num_bits ≤ disk_sectors)
    (len : length h.data_sectors ≡ num_data_sectors) (fits : sectors_for size < double_limit)
    (enough : sectors_for size + table_sectors (sectors_for size) ≤ clear_count b) where
  pub allocate-IsAllocated :
      (h' : FileHeader) × (b' : BitMap) × (disk' : Disk Table) × (allocate stack h b disk size
        ≡ ok (true, h', b', disk'))
      × IsAllocated h' disk' b b' size
  unfolding allocate
  allocate-IsAllocated =
      let t =
        build stack (sectors_for size) h.data_sectors b disk arrays valid small len enough fits in
      let h' : FileHeader = record {
        num_bytes = size;
        num_sectors = sectors_for size;
        data_sectors = t.table';
      } in
      (
        h',
        t.b',
        t.disk',
        run t.table' t.b' t.disk' t.run,
        record { bytes = refl; number = refl; all = t.all; taken = t.taken; tree = t.tree },
      )
    where
      run :
          (table' : Table) (b' : BitMap) (disk' : Disk Table)
          → allocate_sectors stack (sectors_for size) h.data_sectors b disk ≡ ok (table', b', disk')
          → allocate stack h b disk size
            ≡ ok (
              true,
              record h { num_bytes = size; num_sectors = sectors_for size; data_sectors = table' },
              b',
              disk',
            )
      run table' b' disk' e =
          rw (num_clear_lem b, le→ltb (clear_count b) (sectors_for size) (omega arith), e) refl

  -- With a free sector for each sector of the file and for each table, and a size that the two levels of tables can
  -- name, `Allocate` succeeds, and `Deallocate` then stops at no `ASSERT`. If the number of the file's sectors is neither
  -- `NumDirect` nor `NumDirect + LevelMapNum`, the free map is the one before, bit by bit; if it is one of them, one
  -- sector that was free before stays taken, and every other bit is the one before.
  pub deallocate-allocate_tables :
      (h' : FileHeader) × (b' b'' : BitMap) × (disk' : Disk Table) × (allocate stack h b disk size
        ≡ ok (true, h', b', disk'))
      × (deallocate h' disk' b' ≡ ok b'')
      × GivenBack b b'' size
  deallocate-allocate_tables =
      let (h', b', disk', run, a) = allocate-IsAllocated in
      let o =
        deallocate-Outcome h' disk' b' a.all a.taken.valid (omega (arith, a.taken.same_size))
          a.taken.distinct (Takes-InUse b b' a.all a.taken) a.tree in
      let back : GivenBack b o.run.0 size = elim (Bool-cases (leaks (sectors_for size))) [
        | inr tight ↦
            let g = rw (o.complete (rw a.number tight)) at o.run.2 in
            whole tight g.valid (Gives-Takes b b' o.run.0 a.all a.taken g)
        | inl loose ↦
            let (x, shape) = o.partial (rw a.number loose) in
            let (lt, free, left) = one_left b b' o.run.0 o.freed x (rw shape at a.taken) o.run.2 in
            but_one x loose lt free left
      ] in
      (h', b', o.run.0, disk', run, o.run.1, back)
