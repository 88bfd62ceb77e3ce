-- ===== src/Directory/Lookup.antt =====
-- The directory of filesys/directory.cc as a map from names to sectors.
use pku_os_lab.Common.{
  ◌⊎◌, ℕ, ◌<◌, ◌≡◌, ◌≢◌, refl, ap, ◌∙◌, ◌&&◌, true, false, List, Option, none, some, ◌==◌, pos,
  minus_one, length, set, arith, Bool-cases, inl, inr, get_or-set_self, get_or-set_ne,
  if◌then◌else◌,
}
use pku_os_lab.Common.Search.{
  First, at, nowhere, search-First, search-same, search-only, search-none,
}
use pku_os_lab.Directory.{
  DirectoryEntry, Directory, same_name, entry, matches, file_name_max_len, find_index, find_sector,
  sector_of, blank_entry,
}
use pku_os_lab.Directory.Names.{same_start-like, same_start-sym}

-- The table has its declared size, and no two entries in use have one name.
pub record IsValid (d : Directory) : Type 0 where
  pub full : length d.table ≡ d.table_size
  pub unique :
      (i j : ℕ)
      → i < d.table_size
      → j < d.table_size
      → (entry d i).in_use ≡ true
      → matches (entry d j) (entry d i).name ≡ true
      → i ≡ j

-- `d` with the entry `e` at `i`.
abbrev pub with_entry : Directory → ℕ → DirectoryEntry → Directory
with_entry d i e = record d { table = set d.table i e }

pub entry-with :
    (d : Directory) (i j : ℕ) (e : DirectoryEntry)
    → IsValid d
    → i < d.table_size
    → entry (with_entry d i e) j ≡ (if i == j then e else entry d j)
entry-with d i j e valid lt = ground (
  arith,
  valid.full,
  get_or-set_self d.table i e blank_entry,
  get_or-set_ne d.table i j e blank_entry,
)

pub matches-both :
    (e f : DirectoryEntry) (name : List ℕ)
    → matches e name ≡ true
    → matches f name ≡ true
    → matches e f.name ≡ true
matches-both e f name h g = ground (
  arith,
  same_start-like file_name_max_len e.name name f.name (ground arith),
  same_start-sym file_name_max_len name f.name,
)

clash_index : (j k : ℕ) → (j == k) ≡ false → k ≢ j
clash_index j k h e = ground arith

module _ (d : Directory) (k : ℕ) (valid : IsValid d) (lt : k < d.table_size) where
  -- The only entry of its name is the one found.
  pub find_index-entry :
      (name : List ℕ) → matches (entry d k) name ≡ true → find_index d name ≡ some k
  unfolding find_index
  find_index-entry name hit =
      search-only (λ i. matches (entry d i) name) d.table_size k lt hit
        (λ j h other. elim (Bool-cases (matches (entry d j) name)) [
          | inr miss ↦ miss
          | inl also ↦ absurd (
              clash_index j k other (
                valid.unique k j lt h (ground (arith, hit))
                  (matches-both (entry d j) (entry d k) name also hit)))
        ])

  pub find_sector-entry :
      (name : List ℕ)
      → matches (entry d k) name ≡ true
      → find_sector d name ≡ pos (entry d k).sector
  unfolding find_sector
  find_sector-entry name hit = ap (sector_of d) (find_index-entry name hit)

-- A directory whose entries match `name` as those of `d` do, with the same sectors where they match.
pub find_sector-same :
    (d d' : Directory) (name : List ℕ)
    → d'.table_size ≡ d.table_size
    → ((i : ℕ) → i < d.table_size → matches (entry d' i) name ≡ matches (entry d i) name)
    → ((i : ℕ) → matches (entry d i) name ≡ true → (entry d' i).sector ≡ (entry d i).sector)
    → find_sector d' name ≡ find_sector d name
unfolding find_sector find_index
find_sector-same d d' name size alike sectors = rw size (
    rw
      (search-same (λ i. matches (entry d' i) name) (λ i. matches (entry d i) name) d.table_size 0
        (λ i h g. alike i (omega arith)))
      (same_found _ (search-First (λ i. matches (entry d i) name) d.table_size 0)))
  where
    same_found :
        (o : Option ℕ)
        → First (λ i. matches (entry d i) name) d.table_size 0 o
        → sector_of d' o ≡ sector_of d o
    same_found (some _) (at k le lt hit before) = ap pos (sectors k hit)
    same_found none (nowhere all) = refl

pub find_sector-none :
    (d : Directory) (name : List ℕ)
    → ((i : ℕ) → i < d.table_size → matches (entry d i) name ≡ false)
    → find_sector d name ≡ minus_one
unfolding find_sector find_index
find_sector-none d name all = rw (search-none (λ i. matches (entry d i) name) d.table_size all) refl

pub find_sector_cases :
    (d : Directory) (name : List ℕ)
    → (find_sector d name ≡ minus_one) ⊎ ((s : ℕ) × (find_sector d name ≡ pos s))
unfolding find_sector
find_sector_cases d name = by_index (find_index d name)
  where
    by_index : (o : Option ℕ) → (sector_of d o ≡ minus_one) ⊎ ((s : ℕ) × (sector_of d o ≡ pos s))
    by_index none = inl refl
    by_index (some i) = inr (_, refl)

-- Names that agree in the characters that are compared are found alike.
pub find_sector-like :
    (d : Directory) (name other : List ℕ)
    → same_name name other ≡ true
    → find_sector d name ≡ find_sector d other
unfolding find_sector find_index
find_sector-like d name other same = ap (sector_of d) (
    search-same (λ i. matches (entry d i) name) (λ i. matches (entry d i) other) d.table_size 0
      (λ i lo hi. ap (λ b. (entry d i).in_use && b) (alike (entry d i).name)))
  where
    alike : (c : List ℕ) → same_name c name ≡ same_name c other
    alike c =
        same_start-sym file_name_max_len c name
        ∙ same_start-like file_name_max_len name other c same
        ∙ same_start-sym file_name_max_len other c
