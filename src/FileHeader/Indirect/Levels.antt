-- ===== src/FileHeader/Indirect/Levels.antt =====
-- The loops of `Deallocate` in filesys/filehdr.cc with `INDIRECT_MAP`, one level of tables at a time.
use Prim.Native.Nat.{min}
use pku_os_lab.Common.{
  ℕ, ◌-◌, ◌≤◌, ◌<◌, ◌≡◌, ◌∙◌, inl, List, [], ◌∷◌, ◌++◌, pos, minus_one, ok, length, get_or, arith,
  div_round_up, lt→ltb, le→ltb,
}
use pku_os_lab.Bitmap.{BitMap}
use pku_os_lab.Bitmap.Marks.{IsValid}
use pku_os_lab.SynchDisk.{Disk, disk_sectors, read_sector-ok}
use pku_os_lab.FileHeader.{FileHeader, level_map_num, release}
use pku_os_lab.FileHeader.Sectors.{Distinct, Holds, has-append, length-append}
use pku_os_lab.FileHeader.Release.{Gives, InUse, release-Gives, release_all-Gives}
use pku_os_lab.FileHeader.Indirect.{
  Table, num_direct, indirect_sector_idx, double_indirect_sector_idx, release_tables,
  release_single, release_double, deallocate,
}
use pku_os_lab.FileHeader.Indirect.Tables.{Groups, flat, heads, Stored}
use pku_os_lab.FileHeader.Indirect.Tree.{single_limit, double_limit}
use pku_os_lab.FileHeader.Indirect.Release.{
  Gives-same, Gives-append, InUse-rest, Distinct-left, Distinct-right, Distinct-apart, Freed,
  release_table, Cover-groups, release_tables-Freed,
}

module _ (h : FileHeader) (disk : Disk Table) where
  -- A file with at most `NumDirect + LevelMapNum` sectors has nothing behind the table of tables.
  pub double_skipped : (b : BitMap) → h.num_sectors ≤ single_limit → release_double h disk b ≡ ok b
  unfolding release_double
  double_skipped b le = rw (le→ltb single_limit h.num_sectors le)

  double_runs :
      (b b₁ b₂ : BitMap) (top : ℕ)
      → single_limit < h.num_sectors
      → get_or h.data_sectors double_indirect_sector_idx minus_one ≡ pos top
      → top < disk_sectors
      → release_tables h.num_sectors level_map_num 0 single_limit (disk top) disk b ≡ ok b₁
      → release (pos top) b₁ ≡ ok b₂
      → release_double h disk b ≡ ok b₂
  unfolding release_double
  double_runs b b₁ b₂ top gt named inside run run' =
      rw (lt→ltb single_limit h.num_sectors gt, named, read_sector-ok top disk inside, run) run'

  pub double-Freed :
      (b : BitMap) (top : ℕ) (groups : Groups)
      → IsValid b
      → b.num_bits ≤ disk_sectors
      → single_limit < h.num_sectors
      → h.num_sectors < double_limit
      → get_or h.data_sectors double_indirect_sector_idx minus_one ≡ pos top
      → Holds (disk top) 0 (heads groups)
      → length groups ≡ div_round_up (h.num_sectors - num_direct - level_map_num) level_map_num
      → Stored disk (h.num_sectors - num_direct - level_map_num) 0 groups
      → Distinct (top ∷ flat groups)
      → InUse b (top ∷ flat groups)
      → Freed b (top ∷ flat groups) (release_double h disk b)
  double-Freed b top groups valid small gt lt named holds many stored d used =
      let left : ℕ = h.num_sectors - num_direct - level_map_num in
      let (b₁, run, g) =
        release_tables-Freed groups left h.num_sectors level_map_num 0 single_limit (disk top) disk
          b valid small (omega arith) (omega arith) (ground (arith, many))
          (Cover-groups left 0 groups (ground (arith, many)) (inl (ground (arith, many)))) holds
          stored d.1 (λ j m. used j (ground arith)) in
      let (b₂, run', g') =
        release-Gives b₁ top g.valid
          (InUse-rest b b₁ (flat groups) (top ∷ []) (λ j m. ground (arith, used j, d.0)) g) in
      (
        b₂,
        double_runs b b₁ b₂ top gt named (omega (arith, (used top (ground arith)).1)) run run',
        Gives-same b b₂ (flat groups ++ (top ∷ [])) (top ∷ flat groups)
            (λ j. ground (arith, has-append j (flat groups) (top ∷ [])))
            (omega (arith, length-append (flat groups) (top ∷ [])))
            (Gives-append b b₁ b₂ (flat groups) (top ∷ []) g g'),
      )

  pub single_skipped : (b : BitMap) → h.num_sectors ≤ num_direct → release_single h disk b ≡ ok b
  unfolding release_single
  single_skipped b le = rw (le→ltb num_direct h.num_sectors le)

  -- The table of the single level and what lies behind it, which frees the sectors `rest`.
  single-Freed :
      (b : BitMap) (index : ℕ) (ss rest : List ℕ)
      → IsValid b
      → b.num_bits ≤ disk_sectors
      → num_direct < h.num_sectors
      → get_or h.data_sectors indirect_sector_idx minus_one ≡ pos index
      → length ss ≡ min (h.num_sectors - num_direct) level_map_num
      → Holds (disk index) 0 ss
      → Distinct (index ∷ ss)
      → InUse b (index ∷ ss)
      → ((b' : BitMap) → Gives b (index ∷ ss) b' → Freed b' rest (release_double h disk b'))
      → Freed b ((index ∷ ss) ++ rest) (release_single h disk b)
  unfolding release_single
  single-Freed b index ss rest valid small gt named len holds d used behind =
      let (b₁, b₂, run, run', g) = release_table b disk index ss valid holds d used in
      let (b₃, run'', g') = behind b₂ g in
      (
        b₃,
        (let count : min (h.num_sectors - num_direct) level_map_num ≡ length ss =
              omega (arith, len) in
            rw
              (
                lt→ltb num_direct h.num_sectors gt,
                named,
                read_sector-ok index disk (omega (arith, (used index (ground arith)).1)),
                count,
                run,
                run',
              )
              run''),
        Gives-append b b₂ b₃ (index ∷ ss) rest g g',
      )

  -- The direct sectors `xs` and what lies behind them.
  pub direct-Freed :
      (b : BitMap) (xs rest : List ℕ)
      → IsValid b
      → length xs ≡ min h.num_sectors num_direct
      → Holds h.data_sectors 0 xs
      → Distinct (xs ++ rest)
      → InUse b (xs ++ rest)
      → ((b' : BitMap)
          → IsValid b'
          → b'.num_bits ≡ b.num_bits
          → InUse b' rest
          → Freed b' rest (release_single h disk b'))
      → Freed b (xs ++ rest) (deallocate h disk b)
  unfolding deallocate
  direct-Freed b xs rest valid len holds d used behind =
      let (b₁, run, g) =
        release_all-Gives xs (min h.num_sectors num_direct) 0 h.data_sectors b valid len holds
          (Distinct-left xs rest d) (λ j m. used j (ground (arith, has-append j xs rest))) in
      let (b₂, run', g') = behind b₁ g.valid g.same_size (
        InUse-rest b b₁ xs rest
          (λ j m. ground (arith, used j, has-append j xs rest, Distinct-apart xs rest j d m)) g) in
      (b₂, rw run run', Gives-append b b₁ b₂ xs rest g g')

  -- The direct sectors, the table of the single level with its entries, and what lies behind.
  pub levels-Freed :
      (b : BitMap) (xs : List ℕ) (index : ℕ) (ss rest : List ℕ)
      → IsValid b
      → b.num_bits ≤ disk_sectors
      → num_direct < h.num_sectors
      → length xs ≡ num_direct
      → Holds h.data_sectors 0 xs
      → get_or h.data_sectors indirect_sector_idx minus_one ≡ pos index
      → length ss ≡ min (h.num_sectors - num_direct) level_map_num
      → Holds (disk index) 0 ss
      → Distinct (xs ++ ((index ∷ ss) ++ rest))
      → InUse b (xs ++ ((index ∷ ss) ++ rest))
      → ((b' : BitMap)
          → IsValid b'
          → b'.num_bits ≡ b.num_bits
          → InUse b' rest
          → Freed b' rest (release_double h disk b'))
      → Freed b (xs ++ ((index ∷ ss) ++ rest)) (deallocate h disk b)
  levels-Freed b xs index ss rest valid small gt len holds named many stored d used behind =
      direct-Freed b xs ((index ∷ ss) ++ rest) valid (omega (arith, len)) holds d used
        λ b₁ valid₁ same₁ used₁.
          single-Freed b₁ index ss rest valid₁ (omega (arith, same₁)) gt named many stored
            (Distinct-left (index ∷ ss) rest (Distinct-right xs ((index ∷ ss) ++ rest) d))
            (λ j m. used₁ j (ground (arith, has-append j ss rest)))
            λ b₂ g. behind b₂ g.valid (g.same_size ∙ same₁) (
              InUse-rest b₁ b₂ (index ∷ ss) rest
                (λ j m. ground (
                  arith,
                  used₁ j,
                  has-append j ss rest,
                  Distinct-apart (index ∷ ss) rest j (Distinct-right xs ((index ∷ ss) ++ rest) d) m,
                ))
                g)
