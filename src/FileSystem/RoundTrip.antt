-- ===== src/FileSystem/RoundTrip.antt =====
-- `Create`, `Open` and `Remove` of filesys/filesys.cc against one another.
use pku_os_lab.Common.{
  ℕ, ◌<◌, ◌≡◌, refl, ◌∙◌, sym, ap, subst, true, false, Bool, some, List, ◌∷◌, ◌==◌, pos, minus_one,
  arith, Bool-cases, inl, inr, if◌then◌else◌, Run, ok, aborted, length,
}
use pku_os_lab.Bitmap.Marks.{marked}
use pku_os_lab.Directory.{same_name, find_sector, file_name_max_len}
use pku_os_lab.Directory.Names.{same_start_refl}
use pku_os_lab.Directory.Lookup.{find_sector_cases, find_sector-like}
use pku_os_lab.SynchDisk.{read_sector-ok}
use pku_os_lab.FileHeader.{FileHeader, num_data_sectors}
use pku_os_lab.FileHeader.Sectors.{has, Takes}
use pku_os_lab.FileHeader.Direct.RoundTrip.{Describes, Describes-unique}
use pku_os_lab.FileSystem.{FileSystem, create, open_file, open_at, remove_file}
use pku_os_lab.FileSystem.Consistent.{IsConsistent}
use pku_os_lab.FileSystem.Create.{
  Created, exists, no_sector, no_entry, no_room, not_nameable, created, create-Created,
}
use pku_os_lab.FileSystem.Deletion.{Deleted, not_found, deleted, remove_file-Deleted}

-- What a `Create` that returned TRUE has done.
pub record Added (kept : List ℕ) (fs : FileSystem) (name : List ℕ) (size : ℕ) (fs' : FileSystem)
    : Type 0 where
  pub sector : ℕ
  pub sectors : List ℕ
  pub consistent : IsConsistent kept fs'
  pub absent : find_sector fs.directory name ≡ minus_one
  pub taken : Takes fs.free_map (sector ∷ sectors) fs'.free_map
  pub describes : Describes (fs'.headers sector) size sectors
  pub finds :
      (other : List ℕ)
      → find_sector fs'.directory other
        ≡ (if same_name name other then pos sector else find_sector fs.directory other)
  pub headers : (t : ℕ) → (sector == t) ≡ false → fs'.headers t ≡ fs.headers t

abbrev Success : List ℕ → FileSystem → List ℕ → ℕ → Run (Bool × FileSystem) → Type 0
Success kept fs name size (ok (true, fs')) = Added kept fs name size fs'
Success kept fs name size (ok (false, fs')) = Unit
Success kept fs name size aborted = Unit

Created-Success :
    (kept : List ℕ) (fs : FileSystem) (name : List ℕ) (size : ℕ) (r : Run (Bool × FileSystem))
    → Created kept fs name size r
    → Success kept fs name size r
Created-Success kept fs name size _ (exists s there) = tt
Created-Success kept fs name size _ (no_sector gone none_left) = tt
Created-Success kept fs name size _ (no_entry gone more all) = tt
Created-Success kept fs name size _ (no_room can more short) = tt
Created-Success kept fs name size _ (not_nameable can enough large) = tt
Created-Success kept fs name size _
      (created fs' s xs can enough small consistent taken describes finds headers) =
    record {
      sector = s;
      sectors = xs;
      consistent = consistent;
      absent = can.absent;
      taken = taken;
      describes = describes;
      finds = finds;
      headers = headers;
    }

-- The free map, what `Find` gives and the headers of files are those of `fs`.
pub record Restored (kept : List ℕ) (fs : FileSystem) (r : Run (Bool × FileSystem)) : Type 0 where
  pub fs' : FileSystem
  pub runs : r ≡ ok (true, fs')
  pub consistent : IsConsistent kept fs'
  pub same_map : (j : ℕ) → marked fs'.free_map j ≡ marked fs.free_map j
  pub same_names : (name : List ℕ) → find_sector fs'.directory name ≡ find_sector fs.directory name
  pub same_headers : (t : ℕ) → marked fs.free_map t ≡ true → fs'.headers t ≡ fs.headers t

module _ (kept : List ℕ) (fs fs' : FileSystem) (header : FileHeader) (name : List ℕ) (size : ℕ)
    (c : IsConsistent kept fs) (len : length header.data_sectors ≡ num_data_sectors)
    (run : create fs header name size ≡ ok (true, fs')) where
  pub done : Added kept fs name size fs'
  done =
      subst (Success kept fs name size) run
        (Created-Success kept fs name size _ (create-Created kept fs header name size c len))

  pub create-IsConsistent : IsConsistent kept fs'
  create-IsConsistent = done.consistent

  finds_new : find_sector fs'.directory name ≡ pos done.sector
  finds_new = done.finds name ∙ rw (same_start_refl file_name_max_len name) refl

  -- A file that was there is at another sector.
  another :
      (other : List ℕ) (t : ℕ)
      → find_sector fs.directory other ≡ pos t
      → (t < 1024) × ((done.sector == t) ≡ false)
  another other t old =
      let used = (c.is_file other t old).in_use t (ground arith) in
      let new = done.taken.fresh done.sector (ground arith) in
      (omega (arith, used.1, c.map_size), ground (arith, used.0, new.0))

  opens : (fs' : FileSystem) (s : ℕ) → s < 1024 → open_at fs' (pos s) ≡ ok (some (s, fs'.headers s))
  unfolding open_at
  opens fs' s lt = rw (read_sector-ok s fs'.headers lt) refl

  opens_old :
      (other : List ℕ) → same_name name other ≡ false → open_file fs' other ≡ open_file fs other
  unfolding open_file open_at
  opens_old other differ =
      let same : find_sector fs'.directory other ≡ find_sector fs.directory other =
        done.finds other ∙ rw differ refl in
      elim (find_sector_cases fs.directory other) [
        | inl absent ↦ rw (same, absent) refl
        | inr (t, old) ↦
            let (lt, differs) = another other t old in
            rw (same, old)
              (opens fs' t lt
                ∙ ap (λ h. ok (some (t, h))) (done.headers t differs)
                ∙ sym (opens fs t lt))
      ]

  -- In a consistent file system, where `Create` has returned TRUE: `Open` of the name gives the header at a
  -- sector that was free, of a file with the size that was asked for, in sectors that were free as well,
  -- all different, and these alone are now taken. `Open` of any other name gives what it gave before.
  pub open_file-create :
      (s : ℕ) × (xs : List ℕ) × (open_file fs' name ≡ ok (some (s, fs'.headers s)))
      × Describes (fs'.headers s) size xs
      × Takes fs.free_map (s ∷ xs) fs'.free_map
      × ((other : List ℕ) → same_name name other ≡ false → open_file fs' other ≡ open_file fs other)
  unfolding open_file
  open_file-create = (
    done.sector,
    done.sectors,
    rw finds_new (
        opens fs' done.sector
          (omega (arith, (done.taken.fresh done.sector (ground arith)).1, c.map_size))),
    done.describes,
    done.taken,
    opens_old,
  )

  same_names_again :
      (other : List ℕ)
      → (if same_name name other then minus_one else find_sector fs'.directory other)
        ≡ find_sector fs.directory other
  same_names_again other = elim (Bool-cases (same_name name other)) [
    | inl same ↦ rw same (sym done.absent ∙ find_sector-like fs.directory name other same)
    | inr differ ↦ rw differ (done.finds other ∙ rw differ refl)
  ]

  same_bit_again :
      (j : ℕ)
      → (if has j (done.sector ∷ done.sectors) then false else marked fs'.free_map j)
        ≡ marked fs.free_map j
  same_bit_again j = elim (Bool-cases (has j (done.sector ∷ done.sectors))) [
    | inl new ↦ rw new (sym (done.taken.fresh j new).0)
    | inr old ↦ rw old (done.taken.bits j ∙ rw old refl)
  ]

  undone-Restored : (r : Run (Bool × FileSystem)) → Deleted kept fs' name r → Restored kept fs r
  undone-Restored _ (not_found gone) = absurd (no_sector (sym finds_new ∙ gone))
    where
      no_sector : {t : ℕ} → pos t ≡ minus_one → ⊥
      no_sector e = cc
  undone-Restored _ (deleted fs'' t ys there describes consistent bits finds headers) =
      let at : t ≡ done.sector = pos-injective (sym there ∙ finds_new) in
      let own : ys ≡ done.sectors =
        Describes-unique (fs'.headers t) _ size ys done.sectors describes (rw at done.describes) in
      record {
        fs' = fs'';
        runs = refl;
        consistent = consistent;
        same_map = λ j. bits j ∙ rw (at, own) (same_bit_again j);
        same_names = λ other. finds other ∙ same_names_again other;
        same_headers = λ u used.
            ap (λ f. f u) headers
            ∙ done.headers u (ground (arith, used, done.taken.fresh done.sector));
      }
    where
      pos-injective : {x y : ℕ} → pos x ≡ pos y → x ≡ y
      pos-injective e = cc

  -- In a consistent file system, where `Create` has returned TRUE: `Remove` of the name fails at no `ASSERT` and
  -- returns TRUE. The file system is then consistent, the free map is the one before `Create`, bit by bit, `Find`
  -- gives for every name what it gave before, and a sector that was in use holds the same header.
  pub remove_file-create : Restored kept fs (remove_file fs' name)
  remove_file-create = undone-Restored _ (remove_file-Deleted kept fs' name done.consistent)
