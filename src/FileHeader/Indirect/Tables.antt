-- ===== src/FileHeader/Indirect/Tables.antt =====
-- The tables of sectors that `Allocate` of filesys/filehdr.cc builds and writes to the disk.
use Prim.Native.Nat.{min}
use pku_os_lab.Common.{
  ℕ, zero, suc, ◌+◌, ◌-◌, ◌*◌, ◌≤◌, ◌<◌, ◌≡◌, refl, ◌∙◌, true, false, ◌==◌, List, [], ◌∷◌, ◌++◌,
  pos, minus_one, Run, ok, length, get_or, set, length-set, get_or-set_self, get_or-set_ne, arith,
}
use pku_os_lab.Bitmap.{BitMap}
use pku_os_lab.Bitmap.Marks.{IsValid}
use pku_os_lab.Bitmap.Find.{clear_count, find-counts}
use pku_os_lab.SynchDisk.{Disk, disk_sectors, put, write_sector-ok, put_self, put_other}
use pku_os_lab.FileHeader.{level_map_num}
use pku_os_lab.FileHeader.Sectors.{
  has, Takes, Takes-nil, Takes-cons, Takes-append, Holds, fill-Filled, has-append,
}
use pku_os_lab.FileHeader.Indirect.{Table, fill_tables, allocate_table}

-- What one table costs: a sector for itself, taken first, and its entries.
pub record Made (idx count : ℕ) (table : Table) (b : BitMap) (disk : Disk Table)
    (r : Run (Table × BitMap × Disk Table)) : Type 0 where
  pub table' : Table
  pub b' : BitMap
  pub disk' : Disk Table
  pub index : ℕ
  pub entries : List ℕ
  pub run : r ≡ ok (table', b', disk')
  pub taken : Takes b (index ∷ entries) b'
  pub as_many : length entries ≡ count
  pub named : get_or table' idx minus_one ≡ pos index
  pub others : (j : ℕ) → (idx == j) ≡ false → get_or table' j minus_one ≡ get_or table j minus_one
  pub same_length : length table' ≡ length table
  pub stored : Holds (disk' index) 0 entries
  pub spared : (s : ℕ) → (index == s) ≡ false → disk' s ≡ disk s

pub allocate_table-Made :
    (idx count : ℕ) (uninit table : Table) (b : BitMap) (disk : Disk Table)
    → IsValid b
    → b.num_bits ≤ disk_sectors
    → idx < length table
    → count ≤ length uninit
    → count < clear_count b
    → Made idx count table b disk (allocate_table idx count uninit table b disk)
unfolding allocate_table
allocate_table-Made idx count uninit table b disk valid small inside room enough =
    let (t, b₁, run, lt, free, up, one) = find-counts b valid (omega arith) in
    let f = fill-Filled count 0 uninit b₁ up.valid (omega arith) (omega arith) in
    record {
      table' = set table idx (pos t);
      b' = f.b';
      disk' = put disk t f.table';
      index = t;
      entries = f.sectors;
      run = rw (run, f.run, write_sector-ok t f.table' disk (omega arith)) refl;
      taken = Takes-cons b b₁ f.b' t f.sectors up free lt one f.taken;
      as_many = f.as_many;
      named = get_or-set_self table idx (pos t) minus_one inside;
      others = λ j ne. get_or-set_ne table idx j (pos t) minus_one (ground arith);
      same_length = length-set table idx (pos t);
      stored = rw put_self f.holds;
      spared = λ s ne. put_other disk t s f.table' ne;
    }

-- A table of tables: the sector of each table, with the sectors that it lists.
abbrev pub Groups : Type 0
Groups = List (ℕ × List ℕ)

abbrev pub flat : Groups → List ℕ
flat [] = []
flat ((t, ss) ∷ gs) = t ∷ (ss ++ flat gs)

abbrev pub heads : Groups → List ℕ
heads [] = []
heads ((t, ss) ∷ gs) = t ∷ heads gs

-- Table `j` and those behind it are on the disk, and share out what is left of `left` sectors.
abbrev pub Stored : Disk Table → ℕ → ℕ → Groups → Type 0
Stored disk left j [] = Unit
Stored disk left j ((t, ss) ∷ gs) =
    Holds (disk t) 0 ss
    × (length ss ≡ min level_map_num (left - j * level_map_num))
    × Stored disk left (j + 1) gs

pub Stored-frame :
    (disk disk' : Disk Table) (left j : ℕ) (gs : Groups)
    → ((s : ℕ) → has s (flat gs) ≡ true → disk' s ≡ disk s)
    → Stored disk left j gs
    → Stored disk' left j gs
Stored-frame disk disk' left j [] same h = tt
Stored-frame disk disk' left j ((t, ss) ∷ gs) same h = (
  rw (same t (ground arith)) h.0,
  h.1,
  Stored-frame disk disk' left (j + 1) gs
      (λ s m. same s (ground (arith, has-append s ss (flat gs)))) h.2,
)

-- The sectors that `n` tables from number `j` on take, with their own.
abbrev pub spent : ℕ → ℕ → ℕ → ℕ
spent left zero j = 0
spent left (suc n) j = suc (min level_map_num (left - j * level_map_num)) + spent left n (j + 1)

pub record AllMade (left n j : ℕ) (double : Table) (b : BitMap) (disk : Disk Table)
    (r : Run (Table × BitMap × Disk Table)) : Type 0 where
  pub table' : Table
  pub b' : BitMap
  pub disk' : Disk Table
  pub groups : Groups
  pub run : r ≡ ok (table', b', disk')
  pub taken : Takes b (flat groups) b'
  pub as_many : length groups ≡ n
  pub holds : Holds table' j (heads groups)
  pub others : (k : ℕ) → k < j → get_or table' k minus_one ≡ get_or double k minus_one
  pub stored : Stored disk' left j groups
  pub spared : (s : ℕ) → has s (flat groups) ≡ false → disk' s ≡ disk s

module _ (nested : ℕ → Table) (left : ℕ) (roomy : (j : ℕ) → length (nested j) ≡ level_map_num) where
  pub fill_tables-AllMade :
      (n j : ℕ) (double : Table) (b : BitMap) (disk : Disk Table)
      → IsValid b
      → b.num_bits ≤ disk_sectors
      → j + n ≤ length double
      → spent left n j ≤ clear_count b
      → AllMade left n j double b disk (fill_tables nested left n j double b disk)
  unfolding fill_tables
  fill_tables-AllMade zero j double b disk valid small room enough = record {
    table' = double;
    b' = b;
    disk' = disk;
    groups = [];
    run = refl;
    taken = Takes-nil b valid;
    as_many = refl;
    holds = tt;
    others = λ k h. refl;
    stored = tt;
    spared = λ s h. refl;
  }
  fill_tables-AllMade (suc n) j double b disk valid small room enough =
      let (t, b₁, run, lt, free, up, one) = find-counts b valid (omega arith) in
      let f =
        fill-Filled (min level_map_num (left - j * level_map_num)) 0 (nested j) b₁ up.valid
          (omega (arith, roomy j)) (omega arith) in
      let disk₁ : Disk Table = put disk t f.table' in
      let double₁ : Table = set double j (pos t) in
      let rest =
        fill_tables-AllMade n (j + 1) double₁ f.b' disk₁ f.taken.valid
          (omega (arith, f.taken.same_size, up.same_size))
          (omega (arith, length-set double j (pos t))) (omega (arith, f.taken.count, f.as_many)) in
      let taken : Takes b (t ∷ (f.sectors ++ flat rest.groups)) rest.b' =
        Takes-cons b b₁ rest.b' t (f.sectors ++ flat rest.groups) up free lt one
          (Takes-append b₁ f.b' rest.b' f.sectors (flat rest.groups) f.taken rest.taken) in
      let apart : has t (flat rest.groups) ≡ false =
        ground (arith, taken.distinct.0, has-append t f.sectors (flat rest.groups)) in
      record {
        table' = rest.table';
        b' = rest.b';
        disk' = rest.disk';
        groups = (t, f.sectors) ∷ rest.groups;
        run = rw (run, f.run, write_sector-ok t f.table' disk (omega arith)) rest.run;
        taken = taken;
        as_many = omega (arith, rest.as_many);
        holds = (
          rest.others j (omega arith) ∙ get_or-set_self double j (pos t) minus_one (omega arith),
          rest.holds,
        );
        others = λ k h.
            rest.others k (omega arith) ∙ get_or-set_ne double j k (pos t) minus_one (omega arith);
        stored = (rw (rest.spared t apart, put_self) f.holds, f.as_many, rest.stored);
        spared = λ s h.
            rest.spared s (ground (arith, has-append s f.sectors (flat rest.groups)))
            ∙ put_other disk t s f.table' (ground arith);
      }
