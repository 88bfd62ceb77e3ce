-- ===== src/FileSystem/SubDirectory/Routes.antt =====
-- The ways along the directories of filesys/filesys.cc with `MULTI_LEVEL_DIR`, with the sectors of their headers.
use pku_os_lab.Common.{
  ℕ, ◌≤◌, ◌<◌, ◌≡◌, refl, ap, false, List, [], ◌∷◌, length, All, ℤ, pos, negsuc, Run, ok, arith,
}
use pku_os_lab.SynchDisk.{Disk, disk_sectors}
use pku_os_lab.FileHeader.{FileHeader}
use pku_os_lab.Directory.{Directory, find_sector}
use pku_os_lab.FileSystem.{directory_sector}
use pku_os_lab.FileSystem.Path.{FilePath, max_dir_depth, path_parser}
use pku_os_lab.FileSystem.Path.Split.{IsName, path_of, starts_at_dot}
use pku_os_lab.FileSystem.Path.Parse.{path_parser-Parsed}
use pku_os_lab.FileSystem.SubDirectory.{find_dir_sector}
use pku_os_lab.FileSystem.SubDirectory.Lookup.{Along, Off, Walked, walk_dirs-Walked, Parsed-fits}

-- From the root along `dirs`, the innermost first, through the directories with their headers at `sectors`.
pub data Route (contents : ℕ → Directory) : List (List ℕ) → List ℕ → Type 0 where
  start : Route contents [] (directory_sector ∷ [])
  further :
      (dir : List ℕ) (dirs : List (List ℕ)) (s t : ℕ) (ss : List ℕ)
      → Route contents dirs (s ∷ ss)
      → find_sector (contents s) dir ≡ pos t
      → Route contents (dir ∷ dirs) (t ∷ (s ∷ ss))

Route-Along :
    (contents : ℕ → Directory) (dirs : List (List ℕ)) (s : ℕ) (ss : List ℕ) (z : ℤ)
    → Route contents dirs (s ∷ ss)
    → Along contents dirs z
    → z ≡ pos s
Route-Along contents _ _ _ _ start Along.root = refl
Route-Along contents _ _ _ _ (further dir dirs s t ss r found) (Along.down _ _ s' along lt) =
    let back : pos s' ≡ pos s = Route-Along contents dirs s ss (pos s') r along in
    let same : s' ≡ s = cc in rw same found
Route-Along contents _ _ _ _ (further dir dirs s t ss r found) (Along.lost _ _ k along) =
    let back : negsuc k ≡ pos s = Route-Along contents dirs s ss (negsuc k) r along in absurd cc

-- Where the sectors of a way are on the disk, the walk along it does not stop.
Route-on_disk :
    (contents : ℕ → Directory) (dirs : List (List ℕ)) (s : ℕ) (ss : List ℕ)
    → Route contents dirs (s ∷ ss)
    → All (λ (u : ℕ). u < disk_sectors) (s ∷ ss)
    → Off contents dirs
    → ⊥
Route-on_disk contents _ _ _ start on off = elim off [ ]
Route-on_disk contents _ _ _ (further dir dirs s t ss r found) on (Off.here _ _ s' along outside) =
    let back : pos s' ≡ pos s = Route-Along contents dirs s ss (pos s') r along in
    let same : s' ≡ s = cc in
    let inside : s < disk_sectors = on.1.0 in omega (arith, same, inside, outside)
Route-on_disk contents _ _ _ (further dir dirs s t ss r found) on (Off.behind _ _ off) =
    Route-on_disk contents dirs s ss r on.1 off

Route-Walked :
    (contents : ℕ → Directory) (dirs : List (List ℕ)) (s : ℕ) (ss : List ℕ) (r : Run ℤ)
    → Route contents dirs (s ∷ ss)
    → All (λ (u : ℕ). u < disk_sectors) (s ∷ ss)
    → Walked contents dirs r
    → r ≡ ok (pos s)
Route-Walked contents dirs s ss _ route on (Walked.arrived z along) =
    ap ok (Route-Along contents dirs s ss z route along)
Route-Walked contents dirs s ss _ route on (Walked.stuck off) =
    absurd (Route-on_disk contents dirs s ss route on off)

-- What `Create` and `Open` look for is found at the end of a way.
pub find_dir_sector-Route :
    (headers : Disk FileHeader) (contents : ℕ → Directory) (dirs : List (List ℕ)) (base : List ℕ)
    (d : ℕ) (ss : List ℕ)
    → All IsName dirs
    → IsName base
    → starts_at_dot dirs ≡ false
    → length dirs ≤ max_dir_depth
    → Route contents dirs (d ∷ ss)
    → All (λ (u : ℕ). u < disk_sectors) (d ∷ ss)
    → (f : FilePath) × (path_parser (path_of dirs base) ≡ ok f)
      × (f.dir_depth ≡ length dirs)
      × (f.base ≡ base)
      × (find_dir_sector headers contents (path_of dirs base) ≡ ok (pos d))
unfolding find_dir_sector
find_dir_sector-Route headers contents dirs base d ss hs h start_ok fits route on =
    let (f, run, depth, named, entries) =
      Parsed-fits dirs base (path_parser (path_of dirs base)) fits
        (path_parser-Parsed dirs base hs h start_ok).0 in
    let walked = walk_dirs-Walked headers contents f.dir_array dirs entries in
    (f, run, depth, named, rw (run, depth) (Route-Walked contents dirs d ss _ route on walked))

-- A way is still there where every directory on it gives what it gave.
pub Route-kept :
    (contents contents' : ℕ → Directory) (dirs : List (List ℕ)) (ss : List ℕ)
    → Route contents dirs ss
    → All
        (λ (u : ℕ).
          (other : List ℕ) (t : ℕ)
          → find_sector (contents u) other ≡ pos t
          → find_sector (contents' u) other ≡ pos t)
        ss
    → Route contents' dirs ss
Route-kept contents contents' _ _ start all = start
Route-kept contents contents' _ _ (further dir dirs s t ss r found) all =
    further dir dirs s t ss (Route-kept contents contents' dirs (s ∷ ss) r all.1)
      (all.1.0 dir t found)
