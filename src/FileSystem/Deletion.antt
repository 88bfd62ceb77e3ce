-- ===== src/FileSystem/Deletion.antt =====
-- `FileSystem::Remove` of filesys/filesys.cc.
use pku_os_lab.Common.{
  ℕ, ◌≡◌, refl, ◌∙◌, true, false, Bool, List, ◌∷◌, pos, minus_one, arith, Bool-cases, inl, inr,
  clash, if◌then◌else◌, Run, ok,
}
use pku_os_lab.Bitmap.{BitMap}
use pku_os_lab.Bitmap.Marks
use pku_os_lab.Bitmap.Marks.{marked, Updates, clear-ok}
use pku_os_lab.Directory.{Directory, same_name, find_sector}
use pku_os_lab.Directory.Lookup.{IsValid, find_sector_cases}
use pku_os_lab.Directory.Removal.{Removed, missing, removed, remove-Removed}
use pku_os_lab.SynchDisk.{read_sector-ok}
use pku_os_lab.FileHeader.Sectors.{has}
use pku_os_lab.FileHeader.Release.{Gives, InUse}
use pku_os_lab.FileHeader.Direct.RoundTrip.{Describes, deallocate-Gives}
use pku_os_lab.FileSystem.{FileSystem, remove_at, remove_file}
use pku_os_lab.FileSystem.Consistent.{IsFile, IsConsistent}

-- What `Remove` may do.
pub data Deleted (kept : List ℕ) (fs : FileSystem) (name : List ℕ)
    : Run (Bool × FileSystem) → Type 0 where
  not_found : find_sector fs.directory name ≡ minus_one → Deleted kept fs name (ok (false, fs))
  deleted :
      (fs' : FileSystem) (s : ℕ) (xs : List ℕ)
      → find_sector fs.directory name ≡ pos s
      → Describes (fs.headers s) (fs.headers s).num_bytes xs
      → IsConsistent kept fs'
      → ((j : ℕ) → marked fs'.free_map j ≡ (if has j (s ∷ xs) then false else marked fs.free_map j))
      → ((other : List ℕ)
          → find_sector fs'.directory other
            ≡ (if same_name name other then minus_one else find_sector fs.directory other))
      → fs'.headers ≡ fs.headers
      → Deleted kept fs name (ok (true, fs'))

module _ (kept : List ℕ) (fs : FileSystem) (name : List ℕ) (s : ℕ) (c : IsConsistent kept fs)
    (there : find_sector fs.directory name ≡ pos s) where
  file : IsFile kept fs.headers fs.free_map s (c.owned s)
  file = c.is_file name s there

  module _ (b : BitMap) (d : Directory) (valid : Marks.IsValid b)
      (same_size : b.num_bits ≡ fs.free_map.num_bits)
      (bits : (j : ℕ)
        → marked b j ≡ (if has j (s ∷ c.owned s) then false else marked fs.free_map j))
      (d_valid : IsValid d)
      (finds : (other : List ℕ)
        → find_sector d other
          ≡ (if same_name name other then minus_one else find_sector fs.directory other)) where
    abbrev without_file : FileSystem
    without_file = record fs { free_map = b; directory = d }

    -- What a name still finds is another file that was there.
    remains :
        (other : List ℕ) (t : ℕ)
        → find_sector d other ≡ pos t
        → (same_name name other ≡ false) × (find_sector fs.directory other ≡ pos t)
    remains other t e = elim (Bool-cases (same_name name other)) [
      | inl same ↦ absurd (no_sector (rw (finds other, same) at e))
      | inr differ ↦ (differ, rw (finds other, differ) at e)
    ]
      where
        no_sector : minus_one ≡ pos t → ⊥
        no_sector e = cc

    -- What is apart from the file stays in use.
    still_used :
        (ys : List ℕ)
        → ((j : ℕ) → has j ys ≡ true → has j (s ∷ c.owned s) ≡ false)
        → InUse fs.free_map ys
        → InUse b ys
    still_used ys apart used j m = ground (arith, apart j m, used j m, bits j, same_size)

    without_file-IsConsistent : IsConsistent kept without_file
    without_file-IsConsistent = record {
      map_valid = valid;
      map_size = same_size ∙ c.map_size;
      directory_valid = d_valid;
      kept_in_use =
          still_used kept
            (λ j m. elim (Bool-cases (has j (s ∷ c.owned s))) [
              | inl both ↦ clash m (file.not_kept j both)
              | inr apart ↦ apart
            ])
            c.kept_in_use;
      owned = c.owned;
      is_file = λ other t e.
          let (differ, old) = remains other t e in
          let f = c.is_file other t old in
          record {
            describes = f.describes;
            distinct = f.distinct;
            in_use =
                still_used (t ∷ c.owned t)
                  (λ j m. elim (Bool-cases (has j (s ∷ c.owned s))) [
                    | inl both ↦ clash m (c.apart name other s t there old differ j both)
                    | inr apart ↦ apart
                  ])
                  f.in_use;
            not_kept = f.not_kept;
          };
      apart = λ one two t u e f. c.apart one two t u (remains one t e).1 (remains two u f).1;
    }

  -- The map after `Deallocate` and `Clear`.
  cleared_map :
      (b b' : BitMap)
      → Gives fs.free_map (c.owned s) b
      → Updates b b' s false
      → (j : ℕ) → marked b' j ≡ (if has j (s ∷ c.owned s) then false else marked fs.free_map j)
  cleared_map b b' g up j = ground (arith, g.bits j, up.bits j)

  clears-Deleted :
      (b b' : BitMap) (r : Bool × Directory)
      → Gives fs.free_map (c.owned s) b
      → Updates b b' s false
      → Removed fs.directory name r
      → Deleted kept fs name (ok (true, record fs { free_map = b'; directory = r.1 }))
  clears-Deleted b b' _ g up (missing gone) = absurd (no_sector gone)
    where
      no_sector : find_sector fs.directory name ≡ minus_one → ⊥
      no_sector e = cc
  clears-Deleted b b' _ g up (removed d valid finds) =
      let bits = cleared_map b b' g up in
      deleted (without_file b' d up.valid (up.same_size ∙ g.same_size) bits valid finds) s
        (c.owned s) there file.describes
        (without_file-IsConsistent b' d up.valid (up.same_size ∙ g.same_size) bits valid finds) bits
        finds refl

  there-Deleted : Deleted kept fs name (remove_at fs name (pos s))
  unfolding remove_at
  there-Deleted =
      let lt = (file.in_use s (ground arith)).1 in
      let (b, run, g) =
        deallocate-Gives (fs.headers s) fs.free_map _ (c.owned s) c.map_valid file.describes
          file.distinct.1 (λ j m. file.in_use j (ground arith)) in
      let (b', clears, up) = clear-ok b s g.valid (omega (arith, lt, g.same_size)) in
      rw (read_sector-ok s fs.headers (omega (arith, lt, c.map_size)), run, clears)
        (clears-Deleted b b' _ g up (remove-Removed fs.directory name c.directory_valid))

absent-Deleted :
    (kept : List ℕ) (fs : FileSystem) (name : List ℕ)
    → find_sector fs.directory name ≡ minus_one
    → Deleted kept fs name (remove_at fs name minus_one)
unfolding remove_at
absent-Deleted kept fs name gone = not_found gone

-- In a consistent file system `Remove` fails at no `ASSERT`. It returns FALSE and changes nothing if `Find` does
-- not find the name. Otherwise it returns TRUE, the sector of the file's header and the sectors that the header
-- lists are free and the rest of the map is unchanged, `Find` finds the name no more and gives what it gave for
-- all others, no header on the disk is changed, and the file system is consistent.
pub remove_file-Deleted :
    (kept : List ℕ) (fs : FileSystem) (name : List ℕ)
    → IsConsistent kept fs
    → Deleted kept fs name (remove_file fs name)
unfolding remove_file
remove_file-Deleted kept fs name c = elim (find_sector_cases fs.directory name) [
  | inl gone ↦ rw gone (absent-Deleted kept fs name gone)
  | inr (s, there) ↦ rw there (there-Deleted kept fs name s c there)
]
