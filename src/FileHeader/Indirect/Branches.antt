-- ===== src/FileHeader/Indirect/Branches.antt =====
-- The branches of `ByteToSector` in filesys/filehdr.cc, with `INDIRECT_MAP`.
use pku_os_lab.Common.{
  ℕ, ◌-◌, ◌*◌, ◌/◌, ◌≤◌, ◌<◌, ◌≡◌, refl, ap, ◌∙◌, true, List, [], ◌∷◌, ◌++◌, pos, minus_one, ok,
  length, get_or, arith, Bool-cases, inl, inr, lt→ltb, le→ltb,
}
use mathlib.Core.List.{append_assoc}
use pku_os_lab.SynchDisk.{Disk, disk_sectors, read_sector-ok}
use pku_os_lab.FileHeader.{FileHeader, sector_size, level_map_num}
use pku_os_lab.FileHeader.Sectors.{has, Distinct, has-append, Distinct-append}
use pku_os_lab.FileHeader.Indirect.{
  Table, num_direct, indirect_sector_idx, double_indirect_sector_idx, byte_to_sector,
}
use pku_os_lab.FileHeader.Indirect.Tables.{Groups, flat}
use pku_os_lab.FileHeader.Indirect.Tree.{single_limit}
use pku_os_lab.FileHeader.Indirect.Release.{Distinct-left, Distinct-right, Distinct-apart}
use pku_os_lab.FileHeader.Indirect.Lookup.{entries, has-entries, Distinct-entries, Reached}

module _ (h : FileHeader) (disk : Disk Table) (offset : ℕ) where
  pub in_direct :
      offset < num_direct * sector_size
      → byte_to_sector h disk offset ≡ ok (get_or h.data_sectors (offset / sector_size) minus_one)
  unfolding byte_to_sector
  in_direct lt = rw (lt→ltb offset (num_direct * sector_size) lt) refl

  pub in_single :
      (index : ℕ)
      → num_direct * sector_size ≤ offset
      → offset < single_limit * sector_size
      → get_or h.data_sectors indirect_sector_idx minus_one ≡ pos index
      → index < disk_sectors
      → byte_to_sector h disk offset
        ≡ ok (get_or (disk index) ((offset - num_direct * sector_size) / sector_size) minus_one)
  unfolding byte_to_sector
  in_single index ge lt named inside =
      rw
        (
          le→ltb offset (num_direct * sector_size) ge,
          lt→ltb offset (single_limit * sector_size) lt,
          named,
          read_sector-ok index disk inside,
        )
        refl

  pub in_double :
      (top s : ℕ)
      → single_limit * sector_size ≤ offset
      → get_or h.data_sectors double_indirect_sector_idx minus_one ≡ pos top
      → top < disk_sectors
      → Reached disk (disk top) 0 ((offset - single_limit * sector_size) / sector_size) s
      → byte_to_sector h disk offset ≡ ok (pos s)
  unfolding byte_to_sector
  in_double top s ge named inside r =
      let zeroth : get_or (disk top)
            ((offset - single_limit * sector_size) / sector_size / level_map_num) minus_one
          ≡ pos r.index =
        ap (λ k. get_or (disk top) k minus_one) (omega arith) ∙ r.named in
      rw
        (
          le→ltb offset (num_direct * sector_size) (omega arith),
          le→ltb offset (single_limit * sector_size) ge,
          named,
          read_sector-ok top disk inside,
          zeroth,
          read_sector-ok r.index disk r.in_use,
        )
        (ap ok r.entry)

-- A list with no sector twice, less one of its sectors.
pub Distinct-without :
    (xs : List ℕ) (x : ℕ) (ys : List ℕ) → Distinct (xs ++ (x ∷ ys)) → Distinct (xs ++ ys)
Distinct-without [] x ys d = d.1
Distinct-without (z ∷ xs) x ys d = (
  ground (arith, d.0, has-append z xs (x ∷ ys), has-append z xs ys),
  Distinct-without xs x ys d.1,
)

-- The data sectors alone, of a file with both levels of tables.
pub Distinct-blocks :
    (xs : List ℕ) (index : ℕ) (ss : List ℕ) (top : ℕ) (groups : Groups)
    → Distinct (xs ++ ((index ∷ ss) ++ (top ∷ flat groups)))
    → Distinct (xs ++ (ss ++ entries groups))
Distinct-blocks xs index ss top groups d =
    let e : Distinct ((xs ++ ss) ++ flat groups) =
      Distinct-without (xs ++ ss) top (flat groups)
        (rw append_assoc (Distinct-without xs index (ss ++ (top ∷ flat groups)) d)) in
    rw append_assoc at (
      Distinct-append (xs ++ ss) (entries groups) (Distinct-left (xs ++ ss) (flat groups) e)
        (Distinct-entries groups (Distinct-right (xs ++ ss) (flat groups) e))
        (λ j m. elim (Bool-cases (has j (entries groups))) [
          | inl both ↦ absurd (
              ground
                (arith, Distinct-apart (xs ++ ss) (flat groups) j e (has-entries j groups both)))
          | inr apart ↦ apart
        ]))

-- Where the blocks of the file lie: `blocks` has its data sectors in order.
pub record Located (h : FileHeader) (disk : Disk Table) (all : List ℕ) : Type 0 where
  pub blocks : List ℕ
  pub distinct : Distinct blocks
  pub as_many : length blocks ≡ h.num_sectors
  pub among : (j : ℕ) → has j blocks ≡ true → has j all ≡ true
  pub found :
      (offset : ℕ)
      → offset / sector_size < h.num_sectors
      → byte_to_sector h disk offset ≡ ok (pos (get_or blocks (offset / sector_size) 0))
