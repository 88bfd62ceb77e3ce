-- ===== src/Directory/Removal.antt =====
-- `Remove` and the constructor of filesys/directory.cc.
use pku_os_lab.Common.{
  ℕ, zero, suc, ◌+◌, ◌<◌, ◌≡◌, ◌≢◌, refl, ◌∙◌, sym, ap, Bool, true, false, ◌&&◌, List, Option, none,
  some, ◌==◌, minus_one, length, get_or, arith, Bool-cases, inl, inr, clash, subst, if◌then◌else◌,
  length-set,
}
use pku_os_lab.Common.Search.{First, at, nowhere, search-First}
use pku_os_lab.Directory.{
  DirectoryEntry, Directory, same_name, entry, matches, file_name_max_len, find_index, find_sector,
  free_entry, remove, new_directory, cleared, blank_entry,
}
use pku_os_lab.Directory.Names.{same_start-like}
use pku_os_lab.Directory.Lookup.{
  IsValid, with_entry, entry-with, find_sector-same, find_sector-none, matches-both,
}

-- What `Remove` may do.
pub data Removed (d : Directory) (name : List ℕ) : Bool × Directory → Type 0 where
  missing : find_sector d name ≡ minus_one → Removed d name (false, d)
  removed :
      (d' : Directory)
      → IsValid d'
      → ((other : List ℕ)
          → find_sector d' other
            ≡ (if same_name name other then minus_one else find_sector d other))
      → Removed d name (true, d')

-- An entry that matches a name matches what the name does.
matches-like :
    (e : DirectoryEntry) (name other : List ℕ)
    → matches e name ≡ true
    → matches e other ≡ same_name name other
matches-like e name other h =
    ground (arith, same_start-like file_name_max_len e.name name other (ground arith))

module _ (d : Directory) (name : List ℕ) (k : ℕ) (valid : IsValid d) (lt : k < d.table_size)
    (hit : matches (entry d k) name ≡ true) where
  abbrev dropped : DirectoryEntry
  dropped = record (entry d k) { in_use = false }

  abbrev smaller : Directory
  smaller = with_entry d k dropped

  at_k : (i : ℕ) → (k == i) ≡ true → entry smaller i ≡ dropped
  at_k i same = entry-with d k i dropped valid lt ∙ rw same refl

  at_other : (i : ℕ) → (k == i) ≡ false → entry smaller i ≡ entry d i
  at_other i other = entry-with d k i dropped valid lt ∙ rw other refl

  smaller_unique :
      (i j : ℕ)
      → i < d.table_size
      → j < d.table_size
      → (entry smaller i).in_use ≡ true
      → matches (entry smaller j) (entry smaller i).name ≡ true
      → i ≡ j
  smaller_unique i j hi hj u m = elim (Bool-cases (k == i)) [
    | inl si ↦ clash (subst (λ e. e.in_use ≡ true) (at_k i si) u) refl
    | inr si ↦
        let u' = subst (λ e. e.in_use ≡ true) (at_other i si) u in
        let m' = subst (λ e. matches (entry smaller j) e.name ≡ true) (at_other i si) m in
        elim (Bool-cases (k == j)) [
          | inl sj ↦ clash (subst (λ e. matches e (entry d i).name ≡ true) (at_k j sj) m') refl
          | inr sj ↦
              valid.unique i j hi hj u'
                (subst (λ e. matches e (entry d i).name ≡ true) (at_other j sj) m')
        ]
  ]

  -- Another entry does not match what the removed one matches.
  only_match :
      (i : ℕ) (other : List ℕ)
      → i < d.table_size
      → (k == i) ≡ false
      → same_name name other ≡ true
      → matches (entry d i) other ≡ false
  only_match i other h differ same = elim (Bool-cases (matches (entry d i) other)) [
    | inr miss ↦ miss
    | inl now ↦ absurd (
        apart k i differ (
          valid.unique k i lt h (ground (arith, hit)) (
            matches-both (entry d i) (entry d k) other now
              (matches-like (entry d k) name other hit ∙ same))))
  ]
    where
      apart : (a b : ℕ) → (a == b) ≡ false → a ≢ b
      apart a b h e = ground arith

  unmatched :
      (other : List ℕ) (i : ℕ)
      → same_name name other ≡ true
      → i < d.table_size
      → matches (entry smaller i) other ≡ false
  unmatched other i same h = elim (Bool-cases (k == i)) [
    | inl si ↦ ap (λ e. matches e other) (at_k i si)
    | inr si ↦ ap (λ e. matches e other) (at_other i si) ∙ only_match i other h si same
  ]

  k-unmatched :
      (other : List ℕ) (i : ℕ)
      → same_name name other ≡ false
      → (k == i) ≡ true
      → matches (entry d i) other ≡ false
  k-unmatched other i differ si =
      subst (λ (j : ℕ). matches (entry d j) other ≡ false) (ground arith)
        (matches-like (entry d k) name other hit ∙ differ)

  smaller-find :
      (other : List ℕ)
      → find_sector smaller other
        ≡ (if same_name name other then minus_one else find_sector d other)
  smaller-find other = elim (Bool-cases (same_name name other)) [
    | inl same ↦ rw same (find_sector-none smaller other (λ i h. unmatched other i same h))
    | inr differ ↦ rw differ (
        find_sector-same d smaller other refl
          (λ i h. elim (Bool-cases (k == i)) [
            | inl si ↦ ap (λ e. matches e other) (at_k i si) ∙ sym (k-unmatched other i differ si)
            | inr si ↦ ap (λ e. matches e other) (at_other i si)
          ])
          (λ i h. elim (Bool-cases (k == i)) [
            | inl si ↦ clash h (k-unmatched other i differ si)
            | inr si ↦ ap (λ e. e.sector) (at_other i si)
          ]))
  ]

free_entry-Removed :
    (d : Directory) (name : List ℕ) (o : Option ℕ)
    → IsValid d
    → First (λ i. matches (entry d i) name) d.table_size 0 o
    → Removed d name (free_entry d o)
free_entry-Removed d name none valid (nowhere all) =
    missing (find_sector-none d name (λ i h. all i (omega arith) (omega arith)))
free_entry-Removed d name (some _) valid (at k le lt hit before) =
    removed (smaller d name k valid (omega arith) hit)
      (record {
        full = length-set _ _ _ ∙ valid.full;
        unique = smaller_unique d name k valid (omega arith) hit;
      })
      (smaller-find d name k valid (omega arith) hit)

-- In such a directory `Remove` refuses a name that `Find` does not find and leaves the directory alone.
-- Otherwise the directory keeps its form, and `Find` then finds no name with the same first
-- `FileNameMaxLen` characters, and gives what it gave before for all others.
pub remove-Removed : (d : Directory) (name : List ℕ) → IsValid d → Removed d name (remove d name)
unfolding remove find_index
remove-Removed d name valid =
    free_entry-Removed d name _ valid (search-First (λ i. matches (entry d i) name) d.table_size 0)

cleared-free :
    (heap : ℕ → DirectoryEntry) (n i j : ℕ)
    → (length (cleared heap n i) ≡ n) × ((get_or (cleared heap n i) j blank_entry).in_use ≡ false)
unfolding cleared
cleared-free heap zero i j = (refl, refl)
cleared-free heap (suc n) i zero = (ap suc (cleared-free heap n (i + 1) 0).0, refl)
cleared-free heap (suc n) i (suc j) =
    (ap suc (cleared-free heap n (i + 1) j).0, (cleared-free heap n (i + 1) j).1)

-- Whatever the fresh memory holds, a new directory has its declared size, no two entries of it have one
-- name, and `Find` finds no name in it.
pub new_directory-empty :
    (heap : ℕ → DirectoryEntry) (size : ℕ)
    → IsValid (new_directory heap size)
      × ((name : List ℕ) → find_sector (new_directory heap size) name ≡ minus_one)
unfolding new_directory
new_directory-empty heap size = (
  record {
    full = (cleared-free heap size 0 0).0;
    unique = λ i j hi hj u m. clash u (cleared-free heap size 0 i).1;
  },
  λ name. find_sector-none _ name (λ i h.
      ap (λ b. b && same_name (get_or (cleared heap size 0) i blank_entry).name name)
        (cleared-free heap size 0 i).1),
)
