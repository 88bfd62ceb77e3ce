-- ===== src/FileSystem/SubDirectory/Reached.antt =====
-- `Create` of filesys/filesys.cc with `MULTI_LEVEL_DIR`, where it returned TRUE: what is found along the directories.
use pku_os_lab.Common.{
  ℕ, ◌≡◌, refl, ◌∙◌, sym, ap, subst, Bool, true, false, List, ◌∷◌, length, All, pos, ok, >>=-eq-ok,
  arith, ◌==◌, if◌then◌else◌, Bool-cases, inl, inr, All-map, has, ◌||◌,
}
use pku_os_lab.Bitmap.{BitMap}
use pku_os_lab.Bitmap.Marks.{marked}
use pku_os_lab.SynchDisk.{put, put_self, put_other}
use pku_os_lab.Directory.{
  Directory, DirectoryEntry, find_sector, new_directory, same_name, file_name_max_len,
}
use pku_os_lab.Directory.Lookup
use pku_os_lab.Directory.Lookup.{find_sector_cases, find_sector-like}
use pku_os_lab.Directory.Names.{same_start_refl}
use pku_os_lab.Directory.Update
use pku_os_lab.Directory.Update.{add-Added}
use pku_os_lab.FileHeader.{FileHeader, num_data_sectors}
use pku_os_lab.FileHeader.Direct.{allocate}
use pku_os_lab.FileHeader.Direct.RoundTrip.{Describes}
use pku_os_lab.FileSystem.{
  FileSystem, create, create_at, create_added, finish_create, num_dir_entries,
}
use pku_os_lab.FileSystem.Consistent.{IsConsistent}
use pku_os_lab.FileSystem.RoundTrip.{Added, done}
use pku_os_lab.FileSystem.SubDirectory.{Tree, at_directory, with_file_at}
use pku_os_lab.FileSystem.SubDirectory.Stored.{finish_create-directory}
use pku_os_lab.FileSystem.SubDirectory.Routes.{Route, further, Route-kept}

-- The tree where the new file has the header at `sector` and the directory at `d` is that of `fs`.
abbrev pub written : (ℕ → DirectoryEntry) → Directory → Tree → Bool → ℕ → ℕ → FileSystem → Tree
written heap stale t is_dir d sector fs = record {
  headers = fs.headers;
  free_map = fs.free_map;
  contents = put (with_file_at heap stale t.contents is_dir (pos sector)) d fs.directory;
}

module _ (fs fs' : FileSystem) (header : FileHeader) (name : List ℕ) (size s : ℕ)
    (map : BitMap) where
  create_added-finds :
      (r : Bool × Directory)
      → Update.Added fs.directory name s r
      → create_added fs header size s map r ≡ ok (true, fs')
      → find_sector fs'.directory name ≡ pos s
  unfolding create_added
  create_added-finds _ (Update.taken i lt m) e = absurd cc
  create_added-finds _ (Update.no_space all) e = absurd cc
  create_added-finds _ (Update.added d k lt clear valid none_found finds) e =
      let (r, allocated, finished) =
        >>=-eq-ok (allocate header map size) (finish_create fs s d) e in
      rw (finish_create-directory fs s d r fs' finished)
        (finds name ∙ rw (same_start_refl _ name) refl)

  -- The sector that `Find` gave is the one of the new name.
  create_at-finds :
      Lookup.IsValid fs.directory
      → create_at fs header name size (pos s, map) ≡ ok (true, fs')
      → find_sector fs'.directory name ≡ pos s
  unfolding create_at
  create_at-finds valid e = create_added-finds _ (add-Added fs.directory name s valid) e

-- What a `Create` in the directory at `d` that returned TRUE has done.
pub record MadeIn (heap : ℕ → DirectoryEntry) (stale : Directory) (t t' : Tree)
    (header : FileHeader) (base : List ℕ) (is_dir : Bool) (size d : ℕ) : Type 0 where
  pub sector : ℕ
  pub map : BitMap
  pub fs : FileSystem
  pub makes : create_at (at_directory t d) header base size (pos sector, map) ≡ ok (true, fs)
  pub creates : create (at_directory t d) header base size ≡ ok (true, fs)
  pub leaves : t' ≡ written heap stale t is_dir d sector fs

-- What `Create` of the path of `base` in `dirs` has done if it returned TRUE, where `d` and `ss` are the sectors of the
-- directories.
pub record Reached (heap : ℕ → DirectoryEntry) (stale : Directory) (t t' : Tree)
    (dirs : List (List ℕ)) (base : List ℕ) (is_dir : Bool) (size d : ℕ) (ss kept : List ℕ)
    : Type 0 where
  pub sector : ℕ
  pub fresh : marked t.free_map sector ≡ false
  pub taken : marked t'.free_map sector ≡ true
  pub reached : Route t'.contents (base ∷ dirs) (sector ∷ (d ∷ ss))
  pub holds : t'.contents sector ≡ (if is_dir then new_directory heap num_dir_entries else stale)
  pub describes : (xs : List ℕ) × Describes (t'.headers sector) size xs
  pub consistent : IsConsistent kept (at_directory t' d)
  pub ways :
      (others : List (List ℕ)) (us : List ℕ)
      → Route t.contents others us
      → All (λ (u : ℕ). marked t.free_map u ≡ true) us
      → Route t'.contents others us

module _ (heap : ℕ → DirectoryEntry) (stale : Directory) (t t' : Tree) (header : FileHeader)
    (base : List ℕ) (is_dir : Bool) (size d : ℕ) (kept : List ℕ)
    (c : IsConsistent kept (at_directory t d)) (len : length header.data_sectors ≡ num_data_sectors)
    (m : MadeIn heap stale t t' header base is_dir size d) where
  abbrev changes : Added kept (at_directory t d) base size m.fs
  changes = done kept (at_directory t d) m.fs header base size c len m.creates

  same_sector : changes.sector ≡ m.sector
  same_sector =
      let a : find_sector m.fs.directory base ≡ pos changes.sector =
        changes.finds base ∙ rw (same_start_refl file_name_max_len base) refl in
      let b : find_sector m.fs.directory base ≡ pos m.sector =
        create_at-finds (at_directory t d) m.fs header base size m.sector m.map c.directory_valid
          m.makes in
      cc

  contents_at : (u : ℕ) → (d == u) ≡ true → t'.contents u ≡ m.fs.directory
  unfolding put
  contents_at u e = ap (λ (x : Tree). x.contents u) m.leaves ∙ rw e refl

  contents_other :
      (u : ℕ) → (d == u) ≡ false → (m.sector == u) ≡ false → t'.contents u ≡ t.contents u
  unfolding put
  contents_other u e f = ap (λ (x : Tree). x.contents u) m.leaves ∙ rw (e, f) refl

  fresh_sector : marked t.free_map m.sector ≡ false
  fresh_sector =
      subst (λ s. marked t.free_map s ≡ false) same_sector
        (changes.taken.fresh changes.sector (ground arith)).0

  taken_sector : marked t'.free_map m.sector ≡ true
  taken_sector =
      let one_of : (has m.sector (changes.sector ∷ changes.sectors) || marked t.free_map m.sector)
          ≡ true =
        ground (arith, same_sector) in
      ap (λ (x : Tree). marked x.free_map m.sector) m.leaves ∙ changes.taken.bits m.sector ∙ one_of

  header_there : Describes (t'.headers m.sector) size changes.sectors
  header_there =
      subst (λ (x : Tree). Describes (x.headers m.sector) size changes.sectors) (sym m.leaves)
        (subst (λ (s : ℕ). Describes (m.fs.headers s) size changes.sectors) same_sector
          changes.describes)

  same_view : at_directory t' d ≡ m.fs
  same_view =
      ap (λ (x : Tree). at_directory x d) m.leaves
      ∙ ap (λ (e : Directory). record m.fs { directory = e })
          (put_self (put t.contents m.sector _) d m.fs.directory)

  way_kept :
      (u : ℕ)
      → marked t.free_map u ≡ true
      → (other : List ℕ) (s : ℕ) → find_sector (t.contents u) other ≡ pos s
      → find_sector (t'.contents u) other ≡ pos s
  way_kept u used other s found = elim (Bool-cases (d == u)) [
    | inl here ↦
        let found' : find_sector (t.contents d) other ≡ pos s =
          ap (λ (v : ℕ). find_sector (t.contents v) other) (ground (arith, here)) ∙ found in
        ap (λ (e : Directory). find_sector e other) (contents_at u here)
        ∙ changes.finds other
        ∙ elim (Bool-cases (same_name base other)) [
          | inl same ↦ absurd (taken_name same found')
          | inr differ ↦ rw differ found'
        ]
    | inr elsewhere ↦
        ap (λ (e : Directory). find_sector e other)
          (contents_other u elsewhere (ground (arith, used, fresh_sector)))
        ∙ found
  ]
    where
      taken_name : same_name base other ≡ true → find_sector (t.contents d) other ≡ pos s → ⊥
      taken_name same found' =
          let like = find_sector-like (t.contents d) base other same in
          let absent = changes.absent in cc

  pub created-Reached :
      (dirs : List (List ℕ)) (ss : List ℕ)
      → Route t.contents dirs (d ∷ ss)
      → All (λ (u : ℕ). marked t.free_map u ≡ true) (d ∷ ss)
      → Reached heap stale t t' dirs base is_dir size d ss kept
  created-Reached dirs ss route used =
      let apart : (d == m.sector) ≡ false = ground (arith, used.0, fresh_sector) in
      let same_d : (d == d) ≡ true = ground arith in
      record {
        sector = m.sector;
        fresh = fresh_sector;
        taken = taken_sector;
        reached =
            further base dirs d m.sector ss
              (Route-kept t.contents t'.contents dirs (d ∷ ss) route
                (All-map _ _ way_kept (d ∷ ss) used))
              (ap (λ (e : Directory). find_sector e base) (contents_at d same_d)
                ∙ create_at-finds (at_directory t d) m.fs header base size m.sector m.map
                    c.directory_valid m.makes);
        holds =
            ap (λ (x : Tree). x.contents m.sector) m.leaves
            ∙ (put_other (put t.contents m.sector _) d m.sector m.fs.directory apart
                ∙ put_self t.contents m.sector _);
        describes = (changes.sectors, header_there);
        consistent = subst (IsConsistent kept) (sym same_view) changes.consistent;
        ways = λ others us way all.
            Route-kept t.contents t'.contents others us way (All-map _ _ way_kept us all);
      }
