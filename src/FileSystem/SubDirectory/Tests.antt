-- ===== src/FileSystem/SubDirectory/Tests.antt =====
-- The theorems on filesys/filesys.cc with `MULTI_LEVEL_DIR`, at a directory in the root.
use pku_os_lab.Common.{
  ℕ, zero, suc, ◌≡◌, refl, true, false, List, [], ◌∷◌, ok, arith, ◌==◌, if◌then◌else◌, clash,
}
use pku_os_lab.Common.Search.{search}
use pku_os_lab.Bitmap.{find, num_clear, test, mark}
use pku_os_lab.SynchDisk.{write_sector, put}
use pku_os_lab.Directory.{Directory, blank_entry, find_sector, find_index, add, same_start}
use pku_os_lab.FileHeader.{FileHeader, fill}
use pku_os_lab.FileHeader.Release.{InUse}
use pku_os_lab.FileHeader.Direct.{allocate, file_length}
use pku_os_lab.FileSystem.{
  FileSystem, create, create_at, create_added, finish_create, directory_file_size,
}
use pku_os_lab.FileSystem.Consistent.{IsConsistent}
use pku_os_lab.FileSystem.RoundTrip.{create-IsConsistent}
use pku_os_lab.FileSystem.Tests.{map_with, blank, one_file, empty_with, empty_with-IsConsistent}
use pku_os_lab.FileSystem.Path.{is_dot}
use pku_os_lab.FileSystem.Path.Split.{path_of}
use pku_os_lab.FileSystem.SubDirectory.{Tree, open_path, create_path, remove_path, remove_dir}
use pku_os_lab.FileSystem.SubDirectory.Lookup.{Opened, open_path-Opened}
use pku_os_lab.FileSystem.SubDirectory.Routes.{Route, start, further}
use pku_os_lab.FileSystem.SubDirectory.Creation.{Made, create_path-Made}
use pku_os_lab.FileSystem.SubDirectory.Unlinking.{RemovedFrom, remove_path-RemovedFrom}

-- A directory with the one name `name` for sector `s`.
abbrev one_name : List ℕ → ℕ → Directory
one_name name s = record {
  table_size = 1;
  table = record { in_use = true; sector = s; name = name } ∷ [];
}

-- The root holds "a", whose header is at 5, and "a" holds "b", whose header is at 9.
abbrev contents : ℕ → Directory
contents s = if s == 5 then one_name (98 ∷ []) 9 else one_name (97 ∷ []) 5

abbrev header : FileHeader
header = record { num_bytes = 0; num_sectors = 0; data_sectors = [] }

open_path-Opened_example :
    Opened contents
      (λ s. header)
      ((97 ∷ []) ∷ [])
      (98 ∷ [])
      (open_path (λ i. blank_entry) contents (λ s. header) (path_of ((97 ∷ []) ∷ []) (98 ∷ [])))
    × Opened contents
        (λ s. header)
        ((97 ∷ []) ∷ [])
        (98 ∷ [])
        (open_path
          (λ i. blank_entry)
          contents
          (λ s. header)
          (47 ∷ path_of ((97 ∷ []) ∷ []) (98 ∷ [])))
unfolding is_dot
open_path-Opened_example =
    open_path-Opened contents (λ s. header) ((97 ∷ []) ∷ []) (98 ∷ []) (λ i. blank_entry)
      (record { present = omega arith; plain = refl }, tt)
      (record { present = omega arith; plain = refl }) refl (omega arith) (omega arith)

-- A directory at 5, which will hold the file "a" of 200 bytes with its header at 2.
abbrev kept : List ℕ
kept = 0 ∷ (1 ∷ (5 ∷ []))

kept-InUse : InUse (map_with 0x23) kept
kept-InUse zero m = (refl, omega arith)
kept-InUse (suc zero) m = (refl, omega arith)
kept-InUse (suc (suc zero)) m = clash m refl
kept-InUse (suc (suc (suc zero))) m = clash m refl
kept-InUse (suc (suc (suc (suc zero)))) m = clash m refl
kept-InUse (suc (suc (suc (suc (suc zero))))) m = (refl, omega arith)
kept-InUse (suc (suc (suc (suc (suc (suc j)))))) m = absurd (ground (arith, m))

abbrev after : FileSystem
after = record one_file { free_map = map_with 0x3f }

create-after : create (empty_with 0x23) blank (97 ∷ []) 200 ≡ ok (true, after)
unfolding create create_at create_added finish_create find num_clear test mark find_sector
    find_index add same_start search write_sector put fill allocate
create-after = refl

after-IsConsistent : IsConsistent kept after
after-IsConsistent =
    create-IsConsistent kept (empty_with 0x23) after blank (97 ∷ []) 200
      (empty_with-IsConsistent 0x23 kept (omega arith) kept-InUse) refl create-after

-- The root holds "d", whose header is at 5.
abbrev tree : Tree
tree = record {
  headers = after.headers;
  free_map = after.free_map;
  contents = λ u. if u == 5 then after.directory else one_name (100 ∷ []) 5;
}

tree-Route : Route tree.contents ((100 ∷ []) ∷ []) (5 ∷ (1 ∷ []))
unfolding find_sector find_index same_start search
tree-Route = further (100 ∷ []) [] 1 5 [] start refl

-- A directory "b" in "d".
create_path-Made_example :
    Made
      (λ i. blank_entry)
      (one_name [] 0)
      tree
      blank
      ((100 ∷ []) ∷ [])
      (98 ∷ [])
      true
      directory_file_size
      5
      (1 ∷ [])
      kept
      (create_path
        (λ i. blank_entry)
        (λ i j. 0)
        (one_name [] 0)
        tree
        blank
        (path_of ((100 ∷ []) ∷ []) (98 ∷ []))
        true
        0)
unfolding is_dot file_length
create_path-Made_example =
    create_path-Made (λ i. blank_entry) (λ i j. 0) (one_name [] 0) tree blank ((100 ∷ []) ∷ [])
      (98 ∷ []) true 0 5 (1 ∷ []) kept (record { present = omega arith; plain = refl }, tt)
      (record { present = omega arith; plain = refl }) refl (omega arith) tree-Route
      (refl, (refl, tt)) (omega arith, (omega arith, tt)) (omega arith) after-IsConsistent refl

-- The file "a" in "d".
remove_path-RemovedFrom_example :
    RemovedFrom
      (λ z. false)
      tree
      (97 ∷ [])
      5
      kept
      (remove_path
        (λ i. blank_entry)
        (λ i j. 0)
        (λ z. false)
        tree
        (path_of ((100 ∷ []) ∷ []) (97 ∷ [])))
    × RemovedFrom
        (λ z. false)
        tree
        (97 ∷ [])
        5
        kept
        (remove_dir (λ i. blank_entry) (λ i j. 0) tree (path_of ((100 ∷ []) ∷ []) (97 ∷ [])))
unfolding is_dot file_length
remove_path-RemovedFrom_example =
    remove_path-RemovedFrom (λ i. blank_entry) (λ i j. 0) (λ z. false) tree ((100 ∷ []) ∷ [])
      (97 ∷ []) 5 (1 ∷ []) kept (record { present = omega arith; plain = refl }, tt)
      (record { present = omega arith; plain = refl }) refl (omega arith) tree-Route
      (omega arith, (omega arith, tt)) (omega arith) after-IsConsistent
