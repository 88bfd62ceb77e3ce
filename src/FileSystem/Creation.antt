-- ===== src/FileSystem/Creation.antt =====
-- `FileSystem::Create` of filesys/filesys.cc: a file is added to a consistent file system.
use pku_os_lab.Common.{
  ◌⊎◌, ℕ, ◌≡◌, refl, ◌∙◌, sym, subst, true, false, List, ◌∷◌, ◌==◌, pos, arith, Bool-cases, inl,
  inr, clash, if◌then◌else◌,
}
use pku_os_lab.Bitmap.{BitMap}
use pku_os_lab.Directory.{Directory, same_name, find_sector, file_name_max_len}
use pku_os_lab.Directory.Names.{same_start-like}
use pku_os_lab.Directory.Lookup.{IsValid}
use pku_os_lab.SynchDisk.{put, put_self, put_other}
use pku_os_lab.FileHeader.{FileHeader}
use pku_os_lab.FileHeader.Sectors.{has, Takes}
use pku_os_lab.FileHeader.Direct.RoundTrip.{Describes}
use pku_os_lab.FileSystem.{FileSystem}
use pku_os_lab.FileSystem.Consistent.{IsFile, IsConsistent}

pos-injective : (s t : ℕ) → pos s ≡ pos t → s ≡ t
pos-injective s t e = cc

same_number : (s : ℕ) → (s == s) ≡ true
same_number s = ground arith

module _ (kept : List ℕ) (fs : FileSystem) (name : List ℕ) (size s : ℕ) (xs : List ℕ)
    (h : FileHeader) (b : BitMap) (d : Directory) (c : IsConsistent kept fs)
    (taken : Takes fs.free_map (s ∷ xs) b) (describes : Describes h size xs) (valid : IsValid d)
    (finds : (other : List ℕ)
      → find_sector d other
        ≡ (if same_name name other then pos s else find_sector fs.directory other)) where
  abbrev pub with_file : FileSystem
  with_file = record { headers = put fs.headers s h; free_map = b; directory = d }

  abbrev owner : ℕ → List ℕ
  owner t = if s == t then xs else c.owned t

  new_file : IsFile kept with_file.headers b s xs
  new_file = record {
    describes =
        rw (put_self fs.headers s h)
          (subst (λ n. Describes h n xs) (sym describes.bytes) describes);
    distinct = taken.distinct;
    in_use = λ j m. ground (arith, taken.bits j, taken.fresh j, taken.same_size);
    not_kept = λ j m. elim (Bool-cases (has j kept)) [
      | inl both ↦ absurd (ground (arith, taken.fresh j m, c.kept_in_use j both))
      | inr apart ↦ apart
    ];
  }

  -- A file that was there is not at the new sector.
  differs : (t : ℕ) (ys : List ℕ) → IsFile kept fs.headers fs.free_map t ys → (s == t) ≡ false
  differs t ys f = ground (arith, taken.fresh s, f.in_use t)

  old_file :
      (t : ℕ) (ys : List ℕ)
      → IsFile kept fs.headers fs.free_map t ys
      → IsFile kept with_file.headers b t ys
  old_file t ys f = record {
    describes = rw (put_other fs.headers s t h (differs t ys f)) f.describes;
    distinct = f.distinct;
    in_use = λ j m. ground (arith, f.in_use j m, taken.bits j, taken.same_size);
    not_kept = f.not_kept;
  }

  new_apart :
      (t : ℕ) (ys : List ℕ)
      → IsFile kept fs.headers fs.free_map t ys
      → (j : ℕ) → has j (s ∷ xs) ≡ true
      → has j (t ∷ ys) ≡ false
  new_apart t ys f j m = elim (Bool-cases (has j (t ∷ ys))) [
    | inl both ↦ absurd (ground (arith, taken.fresh j m, f.in_use j both))
    | inr apart ↦ apart
  ]

  old_apart :
      (t : ℕ) (ys : List ℕ)
      → IsFile kept fs.headers fs.free_map t ys
      → (j : ℕ) → has j (t ∷ ys) ≡ true
      → has j (s ∷ xs) ≡ false
  old_apart t ys f j m = elim (Bool-cases (has j (s ∷ xs))) [
    | inl both ↦ clash m (new_apart t ys f j both)
    | inr apart ↦ apart
  ]

  -- The file that a name now finds.
  found_file :
      (other : List ℕ) (t : ℕ)
      → find_sector d other ≡ pos t
      → ((same_name name other ≡ true) × (t ≡ s) × (owner t ≡ xs))
        ⊎ ((same_name name other ≡ false)
            × (find_sector fs.directory other ≡ pos t)
            × (owner t ≡ c.owned t))
  found_file other t e = elim (Bool-cases (same_name name other)) [
    | inl same ↦
        let at : t ≡ s = sym (pos-injective s t (rw (finds other, same) at e)) in
        inl (same, at, rw (at, same_number s) refl)
    | inr differ ↦
        let old : find_sector fs.directory other ≡ pos t = rw (finds other, differ) at e in
        inr (differ, old, rw (differs t _ (c.is_file other t old)) refl)
  ]

  pub with_file-IsConsistent : IsConsistent kept with_file
  with_file-IsConsistent = record {
    map_valid = taken.valid;
    map_size = taken.same_size ∙ c.map_size;
    directory_valid = valid;
    kept_in_use = λ j m. ground (arith, c.kept_in_use j m, taken.bits j, taken.same_size);
    owned = owner;
    is_file = λ other t e. elim (found_file other t e) [
      | inl (same, at, own) ↦ rw (own, at) new_file
      | inr (differ, old, own) ↦ rw own (old_file t _ (c.is_file other t old))
    ];
    apart = λ one two t u e f differ j m. elim (found_file one t e) [
      | inl (same, at, own) ↦ elim (found_file two u f) [
        | inl (same', at', own') ↦
            absurd (ground (arith, same_start-like file_name_max_len name one two same))
        | inr (differ', old', own') ↦
            rw own' (new_apart u _ (c.is_file two u old') j (rw (own, at) at m))
      ]
      | inr (differ'', old, own) ↦ elim (found_file two u f) [
        | inl (same', at', own') ↦
            rw (own', at') (old_apart t _ (c.is_file one t old) j (rw own at m))
        | inr (differ', old', own') ↦ rw own' (c.apart one two t u old old' differ j (rw own at m))
      ]
    ];
  }
