-- ===== src/Directory/Update.antt =====
-- `Add` and `Remove` of filesys/directory.cc.
use pku_os_lab.Common.{
  ℕ, ◌<◌, ◌≡◌, refl, ◌∙◌, sym, ap, Bool, true, false, not, ◌&&◌, List, Option, none, some, ◌==◌,
  pos, minus_one, take, arith, Bool-cases, inl, inr, clash, subst, if◌then◌else◌, length-set,
}
use pku_os_lab.Common.Search.{First, at, nowhere, search-First}
use pku_os_lab.Directory.{
  DirectoryEntry, Directory, same_name, entry, matches, file_name_max_len, find_index, find_sector,
  fill_entry, add_unless, add,
}
use pku_os_lab.Directory.Names.{same_start-sym, same_start-take}
use pku_os_lab.Directory.Lookup.{
  IsValid, with_entry, entry-with, find_sector-entry, find_sector-same, find_sector-none,
}

-- What `Add` may do.
pub data Added (d : Directory) (name : List ℕ) (sector : ℕ) : Bool × Directory → Type 0 where
  taken :
      (i : ℕ) → i < d.table_size → matches (entry d i) name ≡ true → Added d name sector (false, d)
  no_space :
      ((i : ℕ) → i < d.table_size → (entry d i).in_use ≡ true) → Added d name sector (false, d)
  added :
      (d' : Directory) (k : ℕ)
      → k < d.table_size
      → (entry d k).in_use ≡ false
      → IsValid d'
      → find_sector d name ≡ minus_one
      → ((other : List ℕ)
          → find_sector d' other
            ≡ (if same_name name other then pos sector else find_sector d other))
      → Added d name sector (true, d')

-- The new entry.
abbrev named : List ℕ → ℕ → DirectoryEntry
named name sector = record { in_use = true; sector = sector; name = take file_name_max_len name }

named-matches :
    (name other : List ℕ) (sector : ℕ) → matches (named name sector) other ≡ same_name name other
named-matches name other sector = same_start-take file_name_max_len name other

matches-take :
    (e : DirectoryEntry) (name : List ℕ) → matches e (take file_name_max_len name) ≡ matches e name
matches-take e name =
    ap (λ b. e.in_use && b)
      (same_start-sym file_name_max_len e.name (take file_name_max_len name)
        ∙ same_start-take file_name_max_len name e.name
        ∙ same_start-sym file_name_max_len name e.name)

matches-swap :
    (e : DirectoryEntry) (name : List ℕ)
    → e.in_use ≡ true
    → same_name name e.name ≡ true
    → matches e name ≡ true
matches-swap e name u h = ground (arith, same_start-sym file_name_max_len name e.name)

module _ (d : Directory) (name : List ℕ) (sector k : ℕ) (valid : IsValid d) (lt : k < d.table_size)
    (free : (entry d k).in_use ≡ false)
    (absent : (i : ℕ) → i < d.table_size → matches (entry d i) name ≡ false) where
  abbrev bigger : Directory
  bigger = with_entry d k (named name sector)

  at_new : (i : ℕ) → (k == i) ≡ true → entry bigger i ≡ named name sector
  at_new i same = entry-with d k i (named name sector) valid lt ∙ rw same refl

  at_old : (i : ℕ) → (k == i) ≡ false → entry bigger i ≡ entry d i
  at_old i other = entry-with d k i (named name sector) valid lt ∙ rw other refl

  free-matches : (i : ℕ) (other : List ℕ) → (k == i) ≡ true → matches (entry d i) other ≡ false
  free-matches i other same =
      subst (λ (j : ℕ). matches (entry d j) other ≡ false) (ground arith)
        (ap (λ b. b && same_name (entry d k).name other) free)

  bigger_unique :
      (i j : ℕ)
      → i < d.table_size
      → j < d.table_size
      → (entry bigger i).in_use ≡ true
      → matches (entry bigger j) (entry bigger i).name ≡ true
      → i ≡ j
  bigger_unique i j hi hj u m = elim (Bool-cases (k == i)) [
    | inl si ↦ elim (Bool-cases (k == j)) [
      | inl sj ↦ ground arith
      | inr sj ↦
          clash
            (sym (matches-take (entry d j) name)
              ∙ subst (λ e. matches e (take file_name_max_len name) ≡ true) (at_old j sj)
                  (subst (λ e. matches (entry bigger j) e.name ≡ true) (at_new i si) m))
            (absent j hj)
    ]
    | inr si ↦
        let u' = subst (λ e. e.in_use ≡ true) (at_old i si) u in
        let m' = subst (λ e. matches (entry bigger j) e.name ≡ true) (at_old i si) m in
        elim (Bool-cases (k == j)) [
          | inl sj ↦
              clash
                (matches-swap (entry d i) name u' (
                  sym (named-matches name (entry d i).name sector)
                  ∙ subst (λ e. matches e (entry d i).name ≡ true) (at_new j sj) m'))
                (absent i hi)
          | inr sj ↦
              valid.unique i j hi hj u'
                (subst (λ e. matches e (entry d i).name ≡ true) (at_old j sj) m')
        ]
  ]

  bigger-IsValid : IsValid bigger
  bigger-IsValid = record { full = length-set _ _ _ ∙ valid.full; unique = bigger_unique }

  bigger-find :
      (other : List ℕ)
      → find_sector bigger other
        ≡ (if same_name name other then pos sector else find_sector d other)
  bigger-find other = elim (Bool-cases (same_name name other)) [
    | inl same ↦
        let new = at_new k (ground arith) in
        rw same (
          find_sector-entry bigger k bigger-IsValid lt other
            (ap (λ e. matches e other) new ∙ named-matches name other sector ∙ same)
          ∙ ap (λ e. pos e.sector) new)
    | inr differ ↦ rw differ (
        find_sector-same d bigger other refl
          (λ i h. elim (Bool-cases (k == i)) [
            | inl si ↦
                ap (λ e. matches e other) (at_new i si)
                ∙ named-matches name other sector
                ∙ differ
                ∙ sym (free-matches i other si)
            | inr si ↦ ap (λ e. matches e other) (at_old i si)
          ])
          (λ i h. elim (Bool-cases (k == i)) [
            | inl si ↦ clash h (free-matches i other si)
            | inr si ↦ ap (λ e. e.sector) (at_old i si)
          ]))
  ]

fill_entry-Added :
    (d : Directory) (name : List ℕ) (sector : ℕ) (o : Option ℕ)
    → IsValid d
    → ((i : ℕ) → i < d.table_size → matches (entry d i) name ≡ false)
    → First (λ i. not (entry d i).in_use) d.table_size 0 o
    → Added d name sector (fill_entry d o name sector)
fill_entry-Added d name sector none valid absent (nowhere all) =
    no_space (λ i h. ground (arith, all i (omega arith) (omega arith)))
fill_entry-Added d name sector (some _) valid absent (at k le lt hit before) =
    let free : (entry d k).in_use ≡ false = ground (arith, hit) in
    added (bigger d name sector k valid (omega arith) free absent) k (omega arith) free
      (bigger-IsValid d name sector k valid (omega arith) free absent)
      (find_sector-none d name absent) (bigger-find d name sector k valid (omega arith) free absent)

add_unless-Added :
    (d : Directory) (name : List ℕ) (sector : ℕ) (o : Option ℕ)
    → IsValid d
    → First (λ i. matches (entry d i) name) d.table_size 0 o
    → Added d name sector (add_unless d o name sector)
add_unless-Added d name sector (some _) valid (at k le lt hit before) = taken k (omega arith) hit
add_unless-Added d name sector none valid (nowhere all) =
    fill_entry-Added d name sector _ valid (λ i h. all i (omega arith) (omega arith))
      (search-First (λ i. not (entry d i).in_use) d.table_size 0)

-- In a directory of its declared size where no two entries in use have one name, `Add` refuses a name
-- that is there and refuses when every entry is in use; both leave the directory alone. Otherwise the
-- directory keeps that form, and `Find` then gives the new sector for the new name and for every other
-- one with the same first `FileNameMaxLen` characters, and what it gave before for all others.
pub add-Added :
    (d : Directory) (name : List ℕ) (sector : ℕ)
    → IsValid d
    → Added d name sector (add d name sector)
unfolding add find_index
add-Added d name sector valid =
    add_unless-Added d name sector _ valid
      (search-First (λ i. matches (entry d i) name) d.table_size 0)
