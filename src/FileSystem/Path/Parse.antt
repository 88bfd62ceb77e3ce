-- ===== src/FileSystem/Path/Parse.antt =====
-- `pathParser` of filesys/filehdr.cc, at the paths that name a file by its directories.
use pku_os_lab.Common.{
  ℕ, suc, ◌-◌, ◌≤◌, ◌<◌, ◌≡◌, refl, ◌∙◌, ap, false, List, [], ◌∷◌, length, get_or, set, All, Option,
  none, some, Run, ok, aborted, arith, leb, ◌==◌, Bool-cases, inl, inr, get_or-append_left,
  length-set, get_or-set_self, get_or-set_ne,
}
use pku_os_lab.FileSystem.Path.{
  FilePath, max_dir_depth, dirname, is_dot, fill_dirs, skip_first, unset_dirs, path_parser,
}
use pku_os_lab.FileSystem.Path.Split.{
  IsName, path_of, starts_at_dot, length-path_of, basename-path_of, dirname-path_of, is_dot-path_of,
  count_slashes-path_of, dirname-name,
}

-- `table` with the directories in their places, the outermost first.
abbrev placed_dirs : List (List ℕ) → List (Option (List ℕ)) → List (Option (List ℕ))
placed_dirs [] table = table
placed_dirs (dir ∷ dirs) table = placed_dirs dirs (set table (length dirs) (some dir))

starts_at_dot-outer :
    (dir : List ℕ) (dirs : List (List ℕ))
    → starts_at_dot (dir ∷ dirs) ≡ false
    → starts_at_dot dirs ≡ false
starts_at_dot-outer dir [] h = refl
starts_at_dot-outer dir (outer ∷ dirs) h = h

fill_dirs-path_of :
    (dirs : List (List ℕ)) (base : List ℕ) (table : List (Option (List ℕ)))
    → All IsName dirs
    → IsName base
    → starts_at_dot dirs ≡ false
    → fill_dirs (length dirs) (dirname (path_of dirs base)) table ≡ ok (placed_dirs dirs table)
unfolding fill_dirs is_dot
fill_dirs-path_of [] base table hs h start = rw (dirname-name base h) refl
fill_dirs-path_of (dir ∷ dirs) base table hs h start =
    let rest : fill_dirs (length dirs) (dirname (path_of dirs dir))
          (set table (length dirs) (some dir))
        ≡ ok (placed_dirs (dir ∷ dirs) table) =
      fill_dirs-path_of dirs dir (set table (length dirs) (some dir)) hs.1 hs.0
        (starts_at_dot-outer dir dirs start) in
    rw
      (
        dirname-path_of dir dirs base hs.0 h,
        is_dot-path_of dir dirs hs.0 hs.1 start,
        basename-path_of dirs dir hs.0,
      )
      rest

placed_dirs-later :
    (dirs : List (List ℕ)) (table : List (Option (List ℕ))) (i : ℕ)
    → length dirs ≤ i
    → get_or (placed_dirs dirs table) i none ≡ get_or table i none
placed_dirs-later [] table i h = refl
placed_dirs-later (dir ∷ dirs) table i h =
    placed_dirs-later dirs (set table (length dirs) (some dir)) i (omega (arith, h))
    ∙ get_or-set_ne table (length dirs) i (some dir) none (λ e. absurd (omega (arith, h, e)))

placed_dirs-entry :
    (dirs : List (List ℕ)) (table : List (Option (List ℕ))) (i : ℕ)
    → length dirs ≤ length table
    → i < length dirs
    → get_or (placed_dirs dirs table) i none ≡ some (get_or dirs (length dirs - 1 - i) [])
placed_dirs-entry [] table i fits lt = absurd (omega (arith, lt))
placed_dirs-entry (dir ∷ dirs) table i fits lt = elim (Bool-cases (i == length dirs)) [
  | inl e ↦
      let same : i ≡ length dirs = ground (arith, e) in
      let first : suc (length dirs) - 1 - i ≡ 0 = omega (arith, same) in
      rw first (
        placed_dirs-later dirs (set table (length dirs) (some dir)) i (omega (arith, same))
        ∙ ap (λ (j : ℕ). get_or (set table (length dirs) (some dir)) j none) same
        ∙ get_or-set_self table (length dirs) (some dir) none (omega (arith, fits)))
  | inr e ↦
      let before : i < length dirs = ground (arith, e, lt) in
      let next : suc (length dirs) - 1 - i ≡ suc (length dirs - 1 - i) = omega (arith, before) in
      rw next (
        placed_dirs-entry dirs (set table (length dirs) (some dir)) i
          (omega (arith, fits, length-set table (length dirs) (some dir))) before)
]

skip_first-kept : (path : List ℕ) → (get_or path 0 47 == 47) ≡ false → skip_first path ≡ path
unfolding skip_first
skip_first-kept [] h = refl
skip_first-kept (c ∷ path) h = rw h refl

first-name : (name : List ℕ) → IsName name → (get_or name 0 47 == 47) ≡ false
first-name [] h = absurd (omega (arith, h.present))
first-name (c ∷ name) h = ground (arith, h.plain)

first-path_of :
    (dirs : List (List ℕ)) (base : List ℕ)
    → All IsName dirs
    → IsName base
    → (get_or (path_of dirs base) 0 47 == 47) ≡ false
first-path_of [] base hs h = first-name base h
first-path_of (dir ∷ dirs) base hs h =
    rw (get_or-append_left (path_of dirs dir) (47 ∷ base) 0 47 (length-path_of dirs dir hs.0))
      (first-path_of dirs dir hs.1 hs.0)

-- What `pathParser` may return for the file `base` in `dirs`, the innermost first.
pub data Parsed (dirs : List (List ℕ)) (base : List ℕ) : Run FilePath → Type 0 where
  too_deep : max_dir_depth < length dirs → Parsed dirs base aborted
  parsed :
      (f : FilePath)
      → length dirs ≤ max_dir_depth
      → f.dir_depth ≡ length dirs
      → f.base ≡ base
      → ((i : ℕ)
          → i < length dirs
          → get_or f.dir_array i none ≡ some (get_or dirs (length dirs - 1 - i) []))
      → Parsed dirs base (ok f)

module _ (dirs : List (List ℕ)) (base : List ℕ) (hs : All IsName dirs) (h : IsName base)
    (start : starts_at_dot dirs ≡ false) where
  rest-Parsed :
      (path : List ℕ) → skip_first path ≡ path_of dirs base → Parsed dirs base (path_parser path)
  unfolding path_parser
  rest-Parsed path e = elim (Bool-cases (leb (length dirs) max_dir_depth)) [
    | inl le ↦
        let fits : length dirs ≤ max_dir_depth = ground (arith, le) in
        rw
          (
            e,
            count_slashes-path_of dirs base hs h,
            le,
            fill_dirs-path_of dirs base unset_dirs hs h start,
          )
          (parsed _ fits refl (basename-path_of dirs base h)
            (λ i lt. placed_dirs-entry dirs unset_dirs i fits lt))
    | inr gt ↦ rw (e, count_slashes-path_of dirs base hs h, gt) (too_deep (ground (arith, gt)))
  ]

  -- A path that names the file by its directories, at most `MAX_DIR_DEPTH` of them, with one slash between two names, no
  -- slash in a name and no empty name, and with "." not as the outermost directory, is taken apart into the file's name
  -- and the directories from the outermost one on, with or without a slash at its beginning; with more directories the
  -- `ASSERT_MSG` stops Nachos.
  pub path_parser-Parsed :
      Parsed dirs base (path_parser (path_of dirs base))
      × Parsed dirs base (path_parser (47 ∷ path_of dirs base))
  unfolding skip_first
  path_parser-Parsed = (
    rest-Parsed (path_of dirs base)
        (skip_first-kept (path_of dirs base) (first-path_of dirs base hs h)),
    rest-Parsed (47 ∷ path_of dirs base) refl,
  )
