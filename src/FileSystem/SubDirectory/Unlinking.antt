-- ===== src/FileSystem/SubDirectory/Unlinking.antt =====
-- `Remove` and `RemoveDir` of filesys/filesys.cc with `MULTI_LEVEL_DIR`.
use pku_os_lab.Common.{
  ◌*◌, ℕ, ◌≤◌, ◌<◌, ◌≡◌, refl, ◌∙◌, sym, ap, subst, Bool, true, false, List, ◌∷◌, length, All, ℤ,
  pos, minus_one, Run, ok, ◌>>=◌, >>=-eq-ok, result_in, arith, ◌==◌, if◌then◌else◌, Bool-cases, inl,
  inr, has,
}
use pku_os_lab.Bitmap.{clear}
use pku_os_lab.Bitmap.Marks.{marked}
use pku_os_lab.SynchDisk.{Disk, disk_sectors, read_sector, put_self, put_other, read_sector-ok}
use pku_os_lab.Directory.{Directory, DirectoryEntry, find_sector, remove}
use pku_os_lab.Directory.Lookup.{find_sector_cases}
use pku_os_lab.FileHeader.Direct.{deallocate, file_length}
use pku_os_lab.FileHeader.{FileHeader}
use pku_os_lab.FileSystem.{FileSystem, remove_at, remove_file, directory_sector, entry_size}
use pku_os_lab.FileSystem.Consistent.{IsConsistent}
use pku_os_lab.FileSystem.Deletion.{Deleted, not_found, deleted, remove_file-Deleted}
use pku_os_lab.FileSystem.Path.{max_dir_depth}
use pku_os_lab.FileSystem.Path.Split.{IsName, path_of, starts_at_dot}
use pku_os_lab.FileSystem.SubDirectory.{
  Tree, at_directory, remove_found, remove_path, remove_dir, find_dir, directory_at,
}
use pku_os_lab.FileSystem.SubDirectory.Routes.{Route, find_dir_sector-Route}
use pku_os_lab.FileSystem.SubDirectory.Creation.{chosen_base}
use pku_os_lab.FileSystem.SubDirectory.Stored.{stored_directory-whole, remove-table_size}

-- What taking the file `base` at sector `s` out of the directory at `d` leaves: the root is what that directory is
-- without the file, and every other directory is as before.
pub data Unlinked (t : Tree) (base : List ℕ) (d s : ℕ) (kept : List ℕ)
    : Run (Bool × Tree) → Type 0 where
  unlinked :
      (t' : Tree) (fs : FileSystem)
      → remove_file (at_directory t d) base ≡ ok (true, fs)
      → IsConsistent kept fs
      → t'.headers ≡ fs.headers
      → t'.free_map ≡ fs.free_map
      → marked t'.free_map s ≡ false
      → t'.contents directory_sector ≡ fs.directory
      → ((u : ℕ) → (directory_sector == u) ≡ false → t'.contents u ≡ t.contents u)
      → Unlinked t base d s kept (ok (true, t'))

module _ (t : Tree) (base : List ℕ) (d s : ℕ) (kept : List ℕ)
    (c : IsConsistent kept (at_directory t d)) (there : find_sector (t.contents d) base ≡ pos s)
    (spare : ℕ → ℕ → ℕ)
    (long : (t.contents d).table_size * entry_size ≤ file_length (t.headers directory_sector)) where
  remove_found-Unlinked :
      (r : Run (Bool × FileSystem))
      → remove_file (at_directory t d) base ≡ r
      → Deleted kept (at_directory t d) base r
      → Unlinked t base d s kept (remove_found spare t (t.contents d) base (pos s))
  unfolding remove_found remove_file remove_at
  remove_found-Unlinked _ e (not_found absent) = absurd (clash_pos (sym there ∙ absent))
    where
      clash_pos : pos s ≡ minus_one → ⊥
      clash_pos h = cc
  remove_found-Unlinked _ e (deleted fs s' xs found describes consistent bits finds same) =
      let at_s : remove_at (at_directory t d) base (pos s) ≡ ok (true, fs) =
        subst (λ z. remove_at (at_directory t d) base z ≡ ok (true, fs)) there e in
      let (header, reads, rest) = >>=-eq-ok (read_sector (pos s) t.headers) _ at_s in
      let (map₁, frees, rest') = >>=-eq-ok (deallocate header t.free_map) _ rest in
      let (map₂, clears, leaves) = >>=-eq-ok (clear map₁ (pos s)) _ rest' in
      let fs_is = ap (result_in (at_directory t d)) leaves in
      let same_s : pos s' ≡ pos s = sym found ∙ there in
      let whole =
        stored_directory-whole spare (t.headers directory_sector) (t.contents directory_sector)
          (remove (t.contents d) base).1
          (subst (λ (k : ℕ). k * entry_size ≤ file_length (t.headers directory_sector))
            (sym (remove-table_size (t.contents d) base)) long) in
      rw (reads, frees, clears, whole)
        (unlinked _ fs e consistent (sym same) (ap (λ (x : FileSystem). x.free_map) fs_is)
          (ap (λ (x : FileSystem). marked x.free_map s) fs_is ∙ bits s ∙ cleared_bit s' s xs same_s)
          (put_self t.contents directory_sector _ ∙ ap (λ (x : FileSystem). x.directory) fs_is)
          (λ u other. put_other t.contents directory_sector u _ other))
    where
      cleared_bit :
          (s' s : ℕ) (xs : List ℕ)
          → pos s' ≡ pos s
          → (if has s (s' ∷ xs) then false else marked t.free_map s) ≡ false
      cleared_bit s' s xs same =
          let eq : s' ≡ s = cc in
          let here : has s (s' ∷ xs) ≡ true = ground (arith, eq) in rw here refl

-- What `Remove` may do with the file `base` of the directory at `d`.
pub data RemovedFrom (is_dir_file : ℤ → Bool) (t : Tree) (base : List ℕ) (d : ℕ) (kept : List ℕ)
    : Run (Bool × Tree) → Type 0 where
  absent :
      find_sector (t.contents d) base ≡ minus_one
      → RemovedFrom is_dir_file t base d kept (ok (false, t))
  rejected :
      (s : ℕ)
      → find_sector (t.contents d) base ≡ pos s
      → is_dir_file (pos s) ≡ true
      → RemovedFrom is_dir_file t base d kept (ok (false, t))
  taken_out :
      (s : ℕ) (r : Run (Bool × Tree))
      → find_sector (t.contents d) base ≡ pos s
      → is_dir_file (pos s) ≡ false
      → Unlinked t base d s kept r
      → RemovedFrom is_dir_file t base d kept r

module _ (is_dir_file : ℤ → Bool) (t : Tree) (base : List ℕ) (d : ℕ) (kept : List ℕ)
    (c : IsConsistent kept (at_directory t d)) (s : ℕ)
    (there : find_sector (t.contents d) base ≡ pos s) (spare : ℕ → ℕ → ℕ)
    (long : (t.contents d).table_size * entry_size ≤ file_length (t.headers directory_sector)) where
  found-Unlinked : Unlinked t base d s kept (remove_found spare t (t.contents d) base (pos s))
  found-Unlinked =
      remove_found-Unlinked t base d s kept c there spare long _ refl
        (remove_file-Deleted kept (at_directory t d) base c)

  on_disk : s < disk_sectors
  on_disk = omega (arith, ((c.is_file base s there).in_use s (ground arith)).1, c.map_size)

  checked-RemovedFrom : RemovedFrom is_dir_file t base d kept (
      read_sector (pos s) t.headers >>= λ header.
      (if is_dir_file (pos s)
        then ok (false, t)
        else remove_found spare t (t.contents d) base (pos s)))
  checked-RemovedFrom = elim (Bool-cases (is_dir_file (pos s))) [
    | inl dir ↦ rw (read_sector-ok s t.headers on_disk, dir) (rejected s there dir)
    | inr file ↦
        rw (read_sector-ok s t.headers on_disk, file) (taken_out s _ there file found-Unlinked)
  ]

directory_at-ok :
    (heap : ℕ → DirectoryEntry) (headers : Disk FileHeader) (contents : ℕ → Directory) (d : ℕ)
    → d < disk_sectors
    → directory_at heap headers contents (pos d) ≡ ok (contents d)
unfolding directory_at
directory_at-ok heap headers contents d lt =
    rw (read_sector-ok d headers lt) (elim (Bool-cases (d == directory_sector)) [
      | inl is_root ↦ rw is_root refl
      | inr below ↦ rw below refl
    ])

-- The directories `dirs`, at most `MAX_DIR_DEPTH`, lead from the root to one with its header at `d`, the sectors of the
-- headers on the way are on the disk, the root's file is long enough for the directory at `d`, the names are not empty
-- and hold no slash, "." is not the outermost, and the file system with the directory at `d` is consistent. Then
-- neither `Remove` nor `RemoveDir` of the path aborts. Each returns FALSE and changes nothing if the name is not in
-- that directory, and `Remove` also if it is that of a directory. Otherwise the headers and the free map are what
-- `Remove` in that directory alone makes of them, and so the file's sector is free, but the directory without the name
-- becomes the root, and every other directory, that at `d` too if it is not the root, is as it was.
pub remove_path-RemovedFrom :
    (heap : ℕ → DirectoryEntry) (spare : ℕ → ℕ → ℕ) (is_dir_file : ℤ → Bool) (t : Tree)
    (dirs : List (List ℕ)) (base : List ℕ) (d : ℕ) (ss kept : List ℕ)
    → All IsName dirs
    → IsName base
    → starts_at_dot dirs ≡ false
    → length dirs ≤ max_dir_depth
    → Route t.contents dirs (d ∷ ss)
    → All (λ (u : ℕ). u < disk_sectors) (d ∷ ss)
    → (t.contents d).table_size * entry_size ≤ file_length (t.headers directory_sector)
    → IsConsistent kept (at_directory t d)
    → RemovedFrom is_dir_file t base d kept
        (remove_path heap spare is_dir_file t (path_of dirs base))
      × RemovedFrom (λ z. false) t base d kept (remove_dir heap spare t (path_of dirs base))
unfolding remove_path remove_dir find_dir
remove_path-RemovedFrom heap spare is_dir_file t dirs base d ss kept hs h start fits route on_disk
      long c =
    let (f, parses, depth, named, finds) =
      find_dir_sector-Route t.headers t.contents dirs base d ss hs h start fits route on_disk in
    let opens = directory_at-ok heap t.headers t.contents d on_disk.0 in
    elim (find_sector_cases (t.contents d) base) [
      | inl gone ↦ (
        rw (finds, opens, parses, depth, named, chosen_base dirs base, gone) (absent gone),
        rw (finds, opens, parses, depth, named, chosen_base dirs base, gone) (absent gone),
      )
      | inr (s, there) ↦ (
        rw (finds, opens, parses, depth, named, chosen_base dirs base, there)
            (checked-RemovedFrom is_dir_file t base d kept c s there spare long),
        rw (finds, opens, parses, depth, named, chosen_base dirs base, there)
            (taken_out s _ there refl
              (found-Unlinked is_dir_file t base d kept c s there spare long)),
      )
    ]
