-- ===== src/FileSystem/SubDirectory/Stored.antt =====
-- `WriteBack` of filesys/directory.cc to a file that is long enough, from `Create`, `Remove` and `RemoveDir` of filesys/filesys.cc.
use pku_os_lab.Common.{
  not, ℕ, ◌*◌, ◌≤◌, ◌≡◌, refl, ◌∙◌, ap, sym, Bool, true, false, List, Option, none, some, pos, ok,
  >>=-eq-ok, result_in, arith, leb,
}
use pku_os_lab.Bitmap.{BitMap}
use pku_os_lab.SynchDisk.{write_sector}
use pku_os_lab.Directory.{
  Directory, entry, find_index, add, add_unless, fill_entry, free_entry, remove,
}
use pku_os_lab.Common.Search.{search}
use pku_os_lab.FileHeader.{FileHeader}
use pku_os_lab.FileHeader.Direct.{allocate, file_length}
use pku_os_lab.FileSystem.{FileSystem, create_at, create_added, finish_create, entry_size}
use pku_os_lab.FileSystem.SubDirectory.{stored_directory}

pub stored_directory-whole :
    (spare : ℕ → ℕ → ℕ) (hdr : FileHeader) (old new : Directory)
    → new.table_size * entry_size ≤ file_length hdr
    → stored_directory spare hdr old new ≡ new
unfolding stored_directory
stored_directory-whole spare hdr old new fits =
    let whole : leb (new.table_size * entry_size) (file_length hdr) ≡ true = ground (arith, fits) in
    rw whole refl

fill_entry-table_size :
    (d : Directory) (o : Option ℕ) (name : List ℕ) (s : ℕ)
    → (fill_entry d o name s).1.table_size ≡ d.table_size
fill_entry-table_size d none name s = refl
fill_entry-table_size d (some i) name s = refl

add_unless-table_size :
    (d : Directory) (o : Option ℕ) (name : List ℕ) (s : ℕ)
    → (add_unless d o name s).1.table_size ≡ d.table_size
add_unless-table_size d (some i) name s = refl
add_unless-table_size d none name s =
    fill_entry-table_size d (search (λ i. not (entry d i).in_use) d.table_size 0) name s

add-table_size :
    (d : Directory) (name : List ℕ) (s : ℕ) → (add d name s).1.table_size ≡ d.table_size
unfolding add
add-table_size d name s = add_unless-table_size d (find_index d name) name s

free_entry-table_size :
    (d : Directory) (o : Option ℕ) → (free_entry d o).1.table_size ≡ d.table_size
free_entry-table_size d none = refl
free_entry-table_size d (some i) = refl

pub remove-table_size :
    (d : Directory) (name : List ℕ) → (remove d name).1.table_size ≡ d.table_size
unfolding remove
remove-table_size d name = free_entry-table_size d (find_index d name)

pub finish_create-directory :
    (fs : FileSystem) (s : ℕ) (d : Directory) (r : Bool × FileHeader × BitMap) (fs' : FileSystem)
    → finish_create fs s d r ≡ ok (true, fs')
    → fs'.directory ≡ d
unfolding finish_create
finish_create-directory fs s d (false, header, map) fs' e = absurd cc
finish_create-directory fs s d (true, header, map) fs' e =
    let (disk, written, same) = >>=-eq-ok (write_sector (pos s) header fs.headers) _ e in
    sym (ap (λ r. (result_in fs r).directory) same)

create_added-directory :
    (fs fs' : FileSystem) (header : FileHeader) (size s : ℕ) (map : BitMap) (r : Bool × Directory)
    → create_added fs header size s map r ≡ ok (true, fs')
    → fs'.directory ≡ r.1
unfolding create_added
create_added-directory fs fs' header size s map (false, d) e = absurd cc
create_added-directory fs fs' header size s map (true, d) e =
    let (r, allocated, finished) = >>=-eq-ok (allocate header map size) (finish_create fs s d) e in
    finish_create-directory fs s d r fs' finished

-- The directory with the new name is as long as it was.
pub create_at-table_size :
    (fs fs' : FileSystem) (header : FileHeader) (name : List ℕ) (size s : ℕ) (map : BitMap)
    → create_at fs header name size (pos s, map) ≡ ok (true, fs')
    → fs'.directory.table_size ≡ fs.directory.table_size
unfolding create_at
create_at-table_size fs fs' header name size s map e =
    ap (λ (d : Directory). d.table_size)
      (create_added-directory fs fs' header size s map (add fs.directory name s) e)
    ∙ add-table_size fs.directory name s
