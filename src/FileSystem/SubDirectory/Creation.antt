-- ===== src/FileSystem/SubDirectory/Creation.antt =====
-- `Create` of filesys/filesys.cc with `MULTI_LEVEL_DIR`.
use pku_os_lab.Common.{
  ◌<◌, ◌*◌, sym, subst, ℕ, ◌≤◌, ◌≡◌, refl, Bool, true, false, List, [], ◌∷◌, length, All, ℤ, pos,
  negsuc, minus_one, Run, ok, aborted, ◌>>=◌, arith, ◌==◌, if◌then◌else◌, inl, inr,
}
use pku_os_lab.SynchDisk.{disk_sectors, read_sector-ok}
use pku_os_lab.FileHeader.Direct.{file_length}
use pku_os_lab.Bitmap.{BitMap, find}
use pku_os_lab.Bitmap.Marks.{marked}
use pku_os_lab.Directory.{Directory, DirectoryEntry, find_sector}
use pku_os_lab.Directory.Lookup.{find_sector_cases}
use pku_os_lab.FileHeader.{FileHeader, num_data_sectors}
use pku_os_lab.FileSystem.{FileSystem, create, create_at, directory_file_size, entry_size}
use pku_os_lab.FileSystem.Consistent.{IsConsistent}
use pku_os_lab.FileSystem.Path.{max_dir_depth}
use pku_os_lab.FileSystem.Path.Split.{IsName, path_of, starts_at_dot}
use pku_os_lab.FileSystem.SubDirectory.{Tree, at_directory, finish_path, create_in, create_path}
use pku_os_lab.FileSystem.SubDirectory.Routes.{Route, find_dir_sector-Route}
use pku_os_lab.FileSystem.SubDirectory.Reached.{Reached, created-Reached, written}
use pku_os_lab.FileSystem.SubDirectory.Stored.{stored_directory-whole, create_at-table_size}

pub chosen_base :
    (dirs : List (List ℕ)) (base : List ℕ)
    → (if length dirs == 0 then path_of dirs base else base) ≡ base
chosen_base [] base = refl
chosen_base (dir ∷ dirs) base =
    let below : (length (dir ∷ dirs) == 0) ≡ false = ground arith in rw below refl

-- What `Create` may do: what it does with one directory, that of the new name, seen in the tree.
pub data Made (heap : ℕ → DirectoryEntry) (stale : Directory) (t : Tree) (header : FileHeader)
    (dirs : List (List ℕ)) (base : List ℕ) (is_dir : Bool) (size d : ℕ) (ss kept : List ℕ)
    : Run (Bool × Tree) → Type 0 where
  refused :
      (fs : FileSystem)
      → create (at_directory t d) header base size ≡ ok (false, fs)
      → Made heap stale t header dirs base is_dir size d ss kept (ok (false, t))
  stopped :
      create (at_directory t d) header base size ≡ aborted
      → Made heap stale t header dirs base is_dir size d ss kept aborted
  made :
      (t' : Tree)
      → Reached heap stale t t' dirs base is_dir size d ss kept
      → Made heap stale t header dirs base is_dir size d ss kept (ok (true, t'))

module _ (heap : ℕ → DirectoryEntry) (spare : ℕ → ℕ → ℕ) (stale : Directory) (t : Tree)
    (header : FileHeader) (dirs : List (List ℕ)) (base : List ℕ) (is_dir : Bool) (size d : ℕ)
    (ss kept : List ℕ) (route : Route t.contents dirs (d ∷ ss))
    (used : All (λ (u : ℕ). marked t.free_map u ≡ true) (d ∷ ss))
    (on_disk : All (λ (u : ℕ). u < disk_sectors) (d ∷ ss))
    (long : (t.contents d).table_size * entry_size ≤ file_length (t.headers d))
    (c : IsConsistent kept (at_directory t d))
    (len : length header.data_sectors ≡ num_data_sectors) where
  create_at-Made :
      (r : ℤ × BitMap) (m : Run (Bool × FileSystem))
      → create_at (at_directory t d) header base size r ≡ m
      → create (at_directory t d) header base size ≡ m
      → Made heap stale t header dirs base is_dir size d ss kept
          (m >>= λ k. ok (finish_path heap spare stale t is_dir d r.0 k))
  unfolding create_at
  create_at-Made r aborted makes creates = stopped creates
  create_at-Made r (ok (false, fs)) makes creates = refused fs creates
  create_at-Made (negsuc k, map) (ok (true, fs)) makes creates = absurd cc
  create_at-Made (pos s, map) (ok (true, fs)) makes creates =
      let same = create_at-table_size (at_directory t d) fs header base size s map makes in
      let whole =
        stored_directory-whole spare (t.headers d) (t.contents d) fs.directory
          (subst (λ (k : ℕ). k * entry_size ≤ file_length (t.headers d)) (sym same) long) in
      rw whole (
        made (written heap stale t is_dir d s fs) (
          created-Reached heap stale t _ header base is_dir size d kept c len
            (record {
              sector = s;
              map = map;
              fs = fs;
              makes = makes;
              creates = creates;
              leaves = refl;
            })
            dirs ss route used))

  find-Made :
      find_sector (t.contents d) base ≡ minus_one
      → (f : Run (ℤ × BitMap)) → find t.free_map ≡ f
      → Made heap stale t header dirs base is_dir size d ss kept (
          f >>= λ r.
          (create_at (at_directory t d) header base size r >>= λ k.
          ok (finish_path heap spare stale t is_dir d r.0 k)))
  unfolding create
  find-Made absent aborted e = stopped (rw (absent, e) refl)
  find-Made absent (ok r) e =
      create_at-Made r (create_at (at_directory t d) header base size r) refl (rw (absent, e) refl)

  create_in-Made :
      Made heap stale t header dirs base is_dir size d ss kept
        (create_in heap spare stale t header base is_dir size (pos d))
  unfolding create_in create
  create_in-Made =
      rw (read_sector-ok d t.headers on_disk.0) elim (find_sector_cases (t.contents d) base) [
        | inr (s, there) ↦ rw there (refused (at_directory t d) (rw there refl))
        | inl absent ↦ rw absent (find-Made absent (find t.free_map) refl)
      ]

-- The directories `dirs`, at most `MAX_DIR_DEPTH`, lead from the root to one with its header at `d`, the sectors of the
-- headers on the way are on the disk and in use, the header at `d` is that of a file long enough for the directory, the
-- names are not empty and hold no slash, "." is not the outermost, and the file system with the directory at `d` is
-- consistent. Then `Create` of the path returns FALSE and changes nothing, or stops
-- at an `ASSERT`, where `Create` in that directory alone does so. Otherwise it returns TRUE: the file system with that
-- directory is consistent, a sector that was free and is in use holds a header of the size, of a directory's size for a
-- directory, the directories lead to it by the new name, a new directory is empty, and every other way along
-- directories whose sectors are in use is still there.
pub create_path-Made :
    (heap : ℕ → DirectoryEntry) (spare : ℕ → ℕ → ℕ) (stale : Directory) (t : Tree)
    (header : FileHeader) (dirs : List (List ℕ)) (base : List ℕ) (is_dir : Bool) (size d : ℕ)
    (ss kept : List ℕ)
    → All IsName dirs
    → IsName base
    → starts_at_dot dirs ≡ false
    → length dirs ≤ max_dir_depth
    → Route t.contents dirs (d ∷ ss)
    → All (λ (u : ℕ). marked t.free_map u ≡ true) (d ∷ ss)
    → All (λ (u : ℕ). u < disk_sectors) (d ∷ ss)
    → (t.contents d).table_size * entry_size ≤ file_length (t.headers d)
    → IsConsistent kept (at_directory t d)
    → length header.data_sectors ≡ num_data_sectors
    → Made heap stale t header dirs base is_dir
        (if is_dir then directory_file_size else size)
        d
        ss
        kept
        (create_path heap spare stale t header (path_of dirs base) is_dir size)
unfolding create_path
create_path-Made heap spare stale t header dirs base is_dir size d ss kept hs h start fits route
      used on_disk long c len =
    let (f, parses, depth, named, finds) =
      find_dir_sector-Route t.headers t.contents dirs base d ss hs h start fits route on_disk in
    rw (finds, parses, depth, named, chosen_base dirs base)
      (create_in-Made heap spare stale t header dirs base is_dir
        (if is_dir then directory_file_size else size) d ss kept route used on_disk long c len)
