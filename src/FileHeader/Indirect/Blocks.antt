-- ===== src/FileHeader/Indirect/Blocks.antt =====
-- Every byte of an allocated file has a sector of its own block: filesys/filehdr.cc, `INDIRECT_MAP`.
use pku_os_lab.Common.{
  ℕ, ◌+◌, ◌-◌, ◌*◌, ◌/◌, ◌≤◌, ◌<◌, ◌≡◌, ◌↔◌, ap, ◌∙◌, sym, true, false, ◌||◌, List, [], ◌∷◌, ◌++◌,
  pos, minus_one, ok, length, get_or, ltb, arith, Bool-cases, inl, inr, get_or-append_left,
  get_or-append_right,
}
use mathlib.Core.List.{append-nil}
use pku_os_lab.Bitmap.{BitMap}
use pku_os_lab.Bitmap.Marks.{IsValid, marked}
use pku_os_lab.Bitmap.Find.{clear_count}
use pku_os_lab.SynchDisk.{Disk, disk_sectors}
use pku_os_lab.FileHeader.{FileHeader, sector_size, level_map_num, num_data_sectors}
use pku_os_lab.FileHeader.Sectors.{has, Distinct, Holds, has-append, length-append}
use pku_os_lab.FileHeader.Tables.{Holds-get_or, has-get_or, Distinct-get_or}
use pku_os_lab.FileHeader.Indirect.{
  Table, Stack, num_direct, indirect_sector_idx, double_indirect_sector_idx, byte_to_sector,
  allocate,
}
use pku_os_lab.FileHeader.Indirect.Tables.{Groups, flat, heads, Stored}
use pku_os_lab.FileHeader.Indirect.Tree.{
  Tree, direct, single, double, IsStack, single_limit, double_limit, table_sectors,
}
use pku_os_lab.FileHeader.Indirect.Release.{Cover, Cover-groups}
use pku_os_lab.FileHeader.Indirect.RoundTrip.{sectors_for, allocate-IsAllocated}
use pku_os_lab.FileHeader.Indirect.Lookup.{entries, has-entries, length-entries, reach}
use pku_os_lab.FileHeader.Indirect.Branches.{
  in_direct, in_single, in_double, Distinct-without, Distinct-blocks, Located,
}

module _ (h : FileHeader) (disk : Disk Table) (all : List ℕ) (d : Distinct all)
    (used : (t : ℕ) → has t all ≡ true → t < disk_sectors) where
  direct_part :
      (xs rest : List ℕ) (offset : ℕ)
      → Holds h.data_sectors 0 xs
      → offset / sector_size < length xs
      → length xs ≤ num_direct
      → byte_to_sector h disk offset ≡ ok (pos (get_or (xs ++ rest) (offset / sector_size) 0))
  direct_part xs rest offset holds lt few =
      in_direct h disk offset (omega arith)
      ∙ ap ok (
          ap (λ k. get_or h.data_sectors k minus_one) (omega arith)
          ∙ Holds-get_or h.data_sectors 0 (offset / sector_size) xs holds lt
          ∙ ap pos (sym (get_or-append_left xs rest (offset / sector_size) 0 lt)))

  single_part :
      (xs ss rest : List ℕ) (index offset : ℕ)
      → length xs ≡ num_direct
      → Holds (disk index) 0 ss
      → get_or h.data_sectors indirect_sector_idx minus_one ≡ pos index
      → index < disk_sectors
      → num_direct ≤ offset / sector_size
      → offset / sector_size < num_direct + length ss
      → length ss ≤ level_map_num
      → byte_to_sector h disk offset
        ≡ ok (pos (get_or (xs ++ (ss ++ rest)) (offset / sector_size) 0))
  single_part xs ss rest index offset len stored named inside ge lt few =
      let k : ℕ = offset / sector_size - num_direct in
      in_single h disk offset index (omega arith) (omega arith) named inside
      ∙ ap ok (
          ap (λ m. get_or (disk index) m minus_one) (omega arith)
          ∙ Holds-get_or (disk index) 0 k ss stored (omega arith)
          ∙ ap pos (
              sym (get_or-append_left ss rest k 0 (omega arith))
              ∙ sym (get_or-append_right xs (ss ++ rest) k 0)
              ∙ ap (λ m. get_or (xs ++ (ss ++ rest)) m 0) (omega (arith, len))))

  double_part :
      (xs ss : List ℕ) (top offset : ℕ) (groups : Groups)
      → length xs ≡ num_direct
      → length ss ≡ level_map_num
      → get_or h.data_sectors double_indirect_sector_idx minus_one ≡ pos top
      → top < disk_sectors
      → Holds (disk top) 0 (heads groups)
      → Stored disk (h.num_sectors - num_direct - level_map_num) 0 groups
      → Cover (h.num_sectors - num_direct - level_map_num) 0 groups
      → ((t : ℕ) → has t (flat groups) ≡ true → t < disk_sectors)
      → single_limit ≤ offset / sector_size
      → offset / sector_size < h.num_sectors
      → byte_to_sector h disk offset
        ≡ ok (pos (get_or (xs ++ (ss ++ entries groups)) (offset / sector_size) 0))
  double_part xs ss top offset groups len full named inside listed stored cover small ge lt =
      let m : ℕ = (offset - single_limit * sector_size) / sector_size in
      let left : ℕ = h.num_sectors - num_direct - level_map_num in
      in_double h disk offset top (get_or (entries groups) m 0) (omega arith) named inside
        (reach disk left 0 m (disk top) groups stored cover listed small (omega arith))
      ∙ ap (λ k. ok (pos k))
          (sym (get_or-append_right ss (entries groups) m 0)
            ∙ sym (get_or-append_right xs (ss ++ entries groups) (length ss + m) 0)
            ∙ ap (λ k. get_or (xs ++ (ss ++ entries groups)) k 0) (omega (arith, len, full)))

  locate : Tree h.data_sectors disk h.num_sectors all → Located h disk all
  locate (direct lt len holds) = record {
    blocks = all;
    distinct = d;
    as_many = len;
    among = λ j m. m;
    found = λ offset inside.
        rw append-nil at
          (direct_part all [] offset holds (omega (arith, len)) (omega (arith, len)));
  }
  locate (single xs index ss ge lt shape len holds named many stored) =
      let d' : Distinct (xs ++ (index ∷ ss)) = rw shape at d in
      let index_used : index < disk_sectors =
        used index (rw shape (ground (arith, has-append index xs (index ∷ ss)))) in
      record {
        blocks = xs ++ (ss ++ []);
        distinct = rw append-nil (Distinct-without xs index ss d');
        as_many = rw append-nil (omega (arith, length-append xs ss, len, many));
        among = λ j m. rw shape (
            ground (
              arith,
              has-append j xs (index ∷ ss),
              has-append j xs (ss ++ []),
              has-append j ss [],
            ));
        found = λ offset inside. elim (Bool-cases (ltb (offset / sector_size) num_direct)) [
          | inl low ↦
              direct_part xs (ss ++ []) offset holds (ground (arith, len)) (omega (arith, len))
          | inr high ↦
              single_part xs ss [] index offset len stored named index_used (ground arith)
                (omega (arith, many)) (omega (arith, many))
        ];
      }
  locate
        (double xs index ss top groups ge lt shape len holds named many stored topmost listed
          counted kept) =
      let d' : Distinct (xs ++ ((index ∷ ss) ++ (top ∷ flat groups))) = rw shape at d in
      let part : (j : ℕ) → has j ((index ∷ ss) ++ (top ∷ flat groups)) ≡ true → has j all ≡ true =
        λ j m. rw shape (ground (arith, has-append j xs ((index ∷ ss) ++ (top ∷ flat groups)))) in
      let behind : (j : ℕ) → has j (top ∷ flat groups) ≡ true → has j all ≡ true =
        λ j m. part j (ground (arith, has-append j ss (top ∷ flat groups))) in
      let left : ℕ = h.num_sectors - num_direct - level_map_num in
      let cover : Cover left 0 groups =
        Cover-groups left 0 groups (ground (arith, counted)) (ground (arith, counted)) in
      record {
        blocks = xs ++ (ss ++ entries groups);
        distinct = Distinct-blocks xs index ss top groups d';
        as_many = omega (
          arith,
          length-append xs (ss ++ entries groups),
          length-append ss (entries groups),
          length-entries disk left 0 groups kept cover,
          len,
          many,
        );
        among = λ j m. elim (Bool-cases (has j (entries groups))) [
          | inl deep ↦ behind j (ground (arith, has-entries j groups deep))
          | inr shallow ↦ rw shape (
              ground (
                arith,
                has-append j xs ((index ∷ ss) ++ (top ∷ flat groups)),
                has-append j ss (top ∷ flat groups),
                has-append j xs (ss ++ entries groups),
                has-append j ss (entries groups),
              ))
        ];
        found = λ offset inside. elim (Bool-cases (ltb (offset / sector_size) num_direct)) [
          | inl low ↦
              direct_part xs (ss ++ entries groups) offset holds (ground (arith, len))
                (omega (arith, len))
          | inr high ↦ elim (Bool-cases (ltb (offset / sector_size) single_limit)) [
            | inl middle ↦
                single_part xs ss (entries groups) index offset len stored named
                  (used index (part index (ground arith))) (ground arith) (ground (arith, many))
                  (omega (arith, many))
            | inr deep ↦
                double_part xs ss top offset groups len many topmost
                  (used top (behind top (ground arith))) listed kept cover
                  (λ t m. used t (behind t (ground arith))) (ground arith) inside
          ]
        ];
      }

module _ (stack : Stack) (h : FileHeader) (b : BitMap) (disk : Disk Table) (size : ℕ)
    (arrays : IsStack stack) (valid : IsValid b) (small : b.num_bits ≤ disk_sectors)
    (len : length h.data_sectors ≡ num_data_sectors) (fits : sectors_for size < double_limit)
    (enough : sectors_for size + table_sectors (sectors_for size) ≤ clear_count b) where
  -- With a free sector for each sector of the file and for each table, and a size that the two levels
  -- of tables can name: in the file that `Allocate` makes, `ByteToSector` finds for every byte a sector
  -- that was free before and is taken now, and finds one sector for two bytes exactly when they lie in
  -- one block of `SectorSize` bytes.
  pub byte_to_sector-allocate_tables :
      (h' : FileHeader) × (b' : BitMap) × (disk' : Disk Table) × (allocate stack h b disk size
        ≡ ok (true, h', b', disk'))
      × ((o p : ℕ)
          → o < size
          → p < size
          → (s t : ℕ) × (byte_to_sector h' disk' o ≡ ok (pos s))
            × (byte_to_sector h' disk' p ≡ ok (pos t))
            × (marked b s ≡ false)
            × (marked b' s ≡ true)
            × ((s ≡ t) ↔ (o / sector_size ≡ p / sector_size)))
  byte_to_sector-allocate_tables =
      let (h', b', disk', run, a) =
        allocate-IsAllocated stack h b disk size arrays valid small len fits enough in
      let l =
        locate h' disk' a.all a.taken.distinct (λ t m. omega (arith, (a.taken.fresh t m).1))
          a.tree in
      (
        h',
        b',
        disk',
        run,
        λ o p lo lp.
            let inside : o / sector_size < h'.num_sectors = ground (arith, a.number) in
            let inside' : p / sector_size < h'.num_sectors = ground (arith, a.number) in
            let member = has-get_or l.blocks (o / sector_size) (omega (arith, l.as_many)) in
            let taken = l.among _ member in
            (
              get_or l.blocks (o / sector_size) 0,
              get_or l.blocks (p / sector_size) 0,
              l.found o inside,
              l.found p inside',
              (a.taken.fresh _ taken).0,
              a.taken.bits _ ∙ ap (λ c. c || marked b (get_or l.blocks (o / sector_size) 0)) taken,
              (
                Distinct-get_or l.blocks (o / sector_size) (p / sector_size) l.distinct
                    (omega (arith, l.as_many)) (omega (arith, l.as_many)),
                ap (λ k. get_or l.blocks k 0),
              ),
            ),
      )
