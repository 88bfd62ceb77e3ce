-- ===== src/FileSystem/SubDirectory/Lookup.antt =====
-- What `Open` of filesys/filesys.cc finds along the directories of a path.
use pku_os_lab.Common.{
  ℕ, zero, suc, ◌+◌, ◌-◌, ◌≤◌, ◌<◌, ◌≡◌, refl, ◌∙◌, ap, false, List, [], ◌∷◌, length, get_or, All,
  Option, none, some, ℤ, pos, negsuc, minus_one, Run, ok, aborted, ◌>>=◌, arith, ◌==◌, ltb,
  Bool-cases, inl, inr, bind_assoc,
}
use pku_os_lab.SynchDisk.{Disk, disk_sectors, read_sector}
use pku_os_lab.Directory.{Directory, DirectoryEntry, find_sector}
use pku_os_lab.Directory.Lookup.{find_sector_cases}
use pku_os_lab.Directory.Removal.{new_directory-empty}
use pku_os_lab.FileHeader.{FileHeader}
use pku_os_lab.FileSystem.{directory_sector, num_dir_entries}
use pku_os_lab.FileSystem.Path.{FilePath, max_dir_depth, path_parser}
use pku_os_lab.FileSystem.Path.Split.{IsName, path_of, starts_at_dot}
use pku_os_lab.FileSystem.Path.Parse.{Parsed, too_deep, parsed, path_parser-Parsed}
use pku_os_lab.FileSystem.SubDirectory.{
  open_dir, dir_name_at, walk_dirs, find_dir_sector, directory_at, find_dir, open_found, open_path,
}

-- The directory that is reached from the root along `dirs`, the innermost first: its sector, or that there is none.
pub data Along (contents : ℕ → Directory) : List (List ℕ) → ℤ → Type 0 where
  root : Along contents [] (pos directory_sector)
  down :
      (dir : List ℕ) (dirs : List (List ℕ)) (s : ℕ)
      → Along contents dirs (pos s)
      → s < disk_sectors
      → Along contents (dir ∷ dirs) (find_sector (contents s) dir)
  lost :
      (dir : List ℕ) (dirs : List (List ℕ)) (k : ℕ)
      → Along contents dirs (negsuc k)
      → Along contents (dir ∷ dirs) (negsuc k)

-- On the way from the root along `dirs` there is a directory whose header's sector is not on the disk.
pub data Off (contents : ℕ → Directory) : List (List ℕ) → Type 0 where
  here :
      (dir : List ℕ) (dirs : List (List ℕ)) (s : ℕ)
      → Along contents dirs (pos s)
      → disk_sectors ≤ s
      → Off contents (dir ∷ dirs)
  behind : (dir : List ℕ) (dirs : List (List ℕ)) → Off contents dirs → Off contents (dir ∷ dirs)

-- Where the way leads, or that it ends at an `ASSERT`.
pub data Walked (contents : ℕ → Directory) (dirs : List (List ℕ)) : Run ℤ → Type 0 where
  arrived : (z : ℤ) → Along contents dirs z → Walked contents dirs (ok z)
  stuck : Off contents dirs → Walked contents dirs aborted

-- One round of the loop.
abbrev entered : Disk FileHeader → (ℕ → Directory) → List (Option (List ℕ)) → ℕ → ℤ → Run ℤ
entered headers contents table i (negsuc k) = ok (negsuc k)
entered headers contents table i (pos s) = do
  directory ← open_dir headers contents s
  dir ← dir_name_at table i
  ok (find_sector directory dir)

module _ (headers : Disk FileHeader) (contents : ℕ → Directory)
    (table : List (Option (List ℕ))) where
  walk_dirs-last :
      (n i : ℕ) (z : ℤ)
      → walk_dirs headers contents table (suc n) i z
        ≡ (walk_dirs headers contents table n i z >>= entered headers contents table (i + n))
  unfolding walk_dirs
  walk_dirs-last zero i (negsuc k) = refl
  walk_dirs-last zero i (pos s) = let here : i + 0 ≡ i = omega arith in rw here refl
  walk_dirs-last (suc n) i (negsuc k) = refl
  walk_dirs-last (suc n) i (pos s) =
      let next : i + suc n ≡ i + 1 + n = omega arith in
      rw next (
        bind_assoc (open_dir headers contents s) _ _ (entered headers contents table (i + 1 + n))
          (λ directory.
            bind_assoc (dir_name_at table i) _ _ (entered headers contents table (i + 1 + n))
              (λ dir. walk_dirs-last n (i + 1) (find_sector directory dir))))

  entered-Walked :
      (dir : List ℕ) (dirs : List (List ℕ)) (r : Run ℤ)
      → get_or table (length dirs) none ≡ some dir
      → Walked contents dirs r
      → Walked contents (dir ∷ dirs) (r >>= entered headers contents table (length dirs))
  unfolding read_sector
  entered-Walked dir dirs _ e (stuck off) = stuck (behind dir dirs off)
  entered-Walked dir dirs _ e (arrived (negsuc k) along) =
      arrived (negsuc k) (lost dir dirs k along)
  entered-Walked dir dirs _ e (arrived (pos s) along) = elim (Bool-cases (ltb s disk_sectors)) [
    | inl inside ↦
        rw (inside, e)
          (arrived (find_sector (contents s) dir) (down dir dirs s along (ground (arith, inside))))
    | inr outside ↦ rw outside (stuck (here dir dirs s along (ground (arith, outside))))
  ]

  pub walk_dirs-Walked :
      (dirs : List (List ℕ))
      → ((i : ℕ)
          → i < length dirs
          → get_or table i none ≡ some (get_or dirs (length dirs - 1 - i) []))
      → Walked contents dirs
          (walk_dirs headers contents table (length dirs) 0 (pos directory_sector))
  unfolding walk_dirs
  walk_dirs-Walked [] entries = arrived (pos directory_sector) root
  walk_dirs-Walked (dir ∷ dirs) entries =
      let before = walk_dirs-Walked dirs (λ i lt.
        let next : suc (length dirs) - 1 - i ≡ suc (length dirs - 1 - i) = omega arith in
        entries i (omega arith) ∙ ap (λ (j : ℕ). some (get_or (dir ∷ dirs) j [])) next) in
      let first : suc (length dirs) - 1 - length dirs ≡ 0 = omega arith in
      let last =
        entries (length dirs) (omega arith)
        ∙ ap (λ (j : ℕ). some (get_or (dir ∷ dirs) j [])) first in
      let none_before : 0 + length dirs ≡ length dirs = omega arith in
      rw (walk_dirs-last (length dirs) 0 (pos directory_sector), none_before)
        (entered-Walked dir dirs
          (walk_dirs headers contents table (length dirs) 0 (pos directory_sector)) last before)

-- What `Open` may return for the file `base` in `dirs`.
pub data Opened (contents : ℕ → Directory) (headers : Disk FileHeader) (dirs : List (List ℕ))
    (base : List ℕ) : Run (Option (ℕ × FileHeader)) → Type 0 where
  no_directory_sector : Off contents dirs → Opened contents headers dirs base aborted
  last_sector :
      (s : ℕ)
      → Along contents dirs (pos s)
      → disk_sectors ≤ s
      → Opened contents headers dirs base aborted
  no_directory :
      (k : ℕ) → Along contents dirs (negsuc k) → Opened contents headers dirs base (ok none)
  no_file :
      (s : ℕ)
      → Along contents dirs (pos s)
      → s < disk_sectors
      → find_sector (contents s) base ≡ minus_one
      → Opened contents headers dirs base (ok none)
  opened :
      (s t : ℕ)
      → Along contents dirs (pos s)
      → s < disk_sectors
      → find_sector (contents s) base ≡ pos t
      → t < disk_sectors
      → Opened contents headers dirs base (ok (some (t, headers t)))
  no_sector :
      (s t : ℕ)
      → Along contents dirs (pos s)
      → s < disk_sectors
      → find_sector (contents s) base ≡ pos t
      → disk_sectors ≤ t
      → Opened contents headers dirs base aborted

-- A path of directories that are not too many is taken apart.
pub Parsed-fits :
    (dirs : List (List ℕ)) (base : List ℕ) (r : Run FilePath)
    → length dirs ≤ max_dir_depth
    → Parsed dirs base r
    → (f : FilePath) × (r ≡ ok f)
      × (f.dir_depth ≡ length dirs)
      × (f.base ≡ base)
      × ((i : ℕ)
          → i < length dirs
          → get_or f.dir_array i none ≡ some (get_or dirs (length dirs - 1 - i) []))
Parsed-fits dirs base r fits (too_deep deep) = absurd (omega (arith, deep, fits))
Parsed-fits dirs base r fits (parsed f le depth named entries) = (f, refl, depth, named, entries)

module _ (contents : ℕ → Directory) (headers : Disk FileHeader) (dirs : List (List ℕ))
    (base : List ℕ) where
  -- The directory that `FindDir` gives at `s`.
  there-Opened :
      (s : ℕ)
      → s < disk_sectors
      → Along contents dirs (pos s)
      → Opened contents headers dirs base (open_found headers (find_sector (contents s) base))
  unfolding open_found read_sector
  there-Opened s lt along = elim (find_sector_cases (contents s) base) [
    | inl none_found ↦ rw none_found (no_file s along lt none_found)
    | inr (t, found) ↦ elim (Bool-cases (ltb t disk_sectors)) [
      | inl inside ↦ rw (found, inside) (opened s t along lt found (ground (arith, inside)))
      | inr outside ↦ rw (found, outside) (no_sector s t along lt found (ground (arith, outside)))
    ]
  ]

  reached-Opened :
      (heap : ℕ → DirectoryEntry) (r : Run ℤ)
      → Walked contents dirs r
      → Opened contents headers dirs base (
          (r >>= λ z. directory_at heap headers contents z) >>= λ directory.
          open_found headers (find_sector directory base))
  unfolding directory_at read_sector open_found
  reached-Opened heap _ (stuck off) = no_directory_sector off
  reached-Opened heap _ (arrived (negsuc k) along) =
      rw ((new_directory-empty heap num_dir_entries).1 base) (no_directory k along)
  reached-Opened heap _ (arrived (pos s) along) = elim (Bool-cases (s == directory_sector)) [
    | inl is_root ↦ rw is_root (there-Opened s (ground (arith, is_root)) along)
    | inr below ↦ elim (Bool-cases (ltb s disk_sectors)) [
      | inl inside ↦ rw (below, inside) (there-Opened s (ground (arith, inside)) along)
      | inr outside ↦ rw (below, outside) (last_sector s along (ground (arith, outside)))
    ]
  ]

  parsed-Opened :
      (heap : ℕ → DirectoryEntry) (path : List ℕ)
      → 0 < length dirs
      → length dirs ≤ max_dir_depth
      → Parsed dirs base (path_parser path)
      → Opened contents headers dirs base (open_path heap contents headers path)
  unfolding open_path find_dir find_dir_sector
  parsed-Opened heap path some_dirs fits p =
      let (f, run, depth, named, entries) = Parsed-fits dirs base (path_parser path) fits p in
      let walked = walk_dirs-Walked headers contents f.dir_array dirs entries in
      let below : (length dirs == 0) ≡ false = ground arith in
      rw (run, depth, below, named) (reached-Opened heap _ walked)

  -- `contents` is what `FetchFrom` reads from the directories' files. For a path with at least one and at most
  -- `MAX_DIR_DEPTH` directories, with one slash between two names, no slash in a name and no empty name, and with "."
  -- not as the outermost directory, `Open` follows the directories from the root on, each found by its name in the one
  -- before: it opens the file with the header that the last of them gives for the file's name, it returns NULL if a
  -- directory or the file is not found, and it aborts only if the sector of the file or of a directory on the way is
  -- not on the disk. A slash at the beginning of the path changes nothing.
  pub open_path-Opened :
      (heap : ℕ → DirectoryEntry)
      → All IsName dirs
      → IsName base
      → starts_at_dot dirs ≡ false
      → 0 < length dirs
      → length dirs ≤ max_dir_depth
      → Opened contents headers dirs base (open_path heap contents headers (path_of dirs base))
        × Opened contents headers dirs base
            (open_path heap contents headers (47 ∷ path_of dirs base))
  open_path-Opened heap hs h start some_dirs fits =
      let (relative, absolute) = path_parser-Parsed dirs base hs h start in
      (
        parsed-Opened heap (path_of dirs base) some_dirs fits relative,
        parsed-Opened heap (47 ∷ path_of dirs base) some_dirs fits absolute,
      )
