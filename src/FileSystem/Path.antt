-- ===== src/FileSystem/Path.antt =====
-- `pathParser` of filesys/filehdr.cc, which is built with `MULTI_LEVEL_DIR`. A path is the list of its characters; 47 is
-- the slash and 46 the dot.
pub mod Split
pub mod Parse
mod Tests
use pku_os_lab.Common.{
  ℕ, zero, suc, ◌+◌, Bool, false, List, [], ◌∷◌, Option, none, some, Run, ok, aborted, ◌>>=◌, ◌>>◌,
  assert, leb, ◌==◌, if◌then◌else◌, set,
}

-- `MAX_DIR_DEPTH`
abbrev pub max_dir_depth : ℕ
max_dir_depth = 5

-- `FilePath`; an entry of `dirArray` that was not set is `none`.
pub record FilePath : Type 0 where
  pub dir_array : List (Option (List ℕ))
  pub dir_depth : ℕ
  pub base : List ℕ

abbrev unless_slash : ℕ → List ℕ → List ℕ
unless_slash c [] = if c == 47 then [] else (c ∷ [])
unless_slash c (x ∷ rest) = c ∷ x ∷ rest

-- The path without the slashes at its end.
unfoldable pub without_end : List ℕ → List ℕ
without_end [] = []
without_end (c ∷ path) = unless_slash c (without_end path)

abbrev in_front : ℕ → List ℕ → Option (List ℕ × List ℕ) → Option (List ℕ × List ℕ)
in_front c path (some (a, b)) = some (c ∷ a, b)
in_front c path none = if c == 47 then some ([], path) else none

-- What stands before and what stands behind the last slash.
unfoldable pub split_last : List ℕ → Option (List ℕ × List ℕ)
split_last [] = none
split_last (c ∷ path) = in_front c path (split_last path)

-- What `basename` and `dirname` of the C library give where there is nothing but slashes, or nothing.
abbrev pub no_name : List ℕ → List ℕ
no_name [] = 46 ∷ []
no_name (c ∷ path) = 47 ∷ []

abbrev name_in : List ℕ → Option (List ℕ × List ℕ) → List ℕ
name_in path none = path
name_in path (some (a, b)) = b

abbrev or_root : List ℕ → List ℕ
or_root [] = 47 ∷ []
or_root (c ∷ path) = c ∷ path

abbrev directory_in : Option (List ℕ × List ℕ) → List ℕ
directory_in none = 46 ∷ []
directory_in (some (a, b)) = or_root (without_end a)

abbrev basename_of : List ℕ → List ℕ → List ℕ
basename_of path [] = no_name path
basename_of path (c ∷ short) = name_in (c ∷ short) (split_last (c ∷ short))

abbrev dirname_of : List ℕ → List ℕ → List ℕ
dirname_of path [] = no_name path
dirname_of path (c ∷ short) = directory_in (split_last (c ∷ short))

unfoldable pub basename : List ℕ → List ℕ
basename path = basename_of path (without_end path)

unfoldable pub dirname : List ℕ → List ℕ
dirname path = dirname_of path (without_end path)

-- `!strcmp(path, ".")`
unfoldable pub is_dot : List ℕ → Bool
is_dot [] = false
is_dot (c ∷ []) = c == 46
is_dot (c ∷ x ∷ path) = false

-- The loop over `path[depth]`, which moves on by one character in each round: at a slash `depth` is counted up, and
-- elsewhere `path`.
unfoldable pub count_slashes : List ℕ → ℕ → ℕ
count_slashes [] depth = depth
count_slashes (c ∷ path) depth = count_slashes path (if c == 47 then depth + 1 else depth)

-- `while (strcmp(currentDir, "."))`: an entry more than there are slashes would be written before the array.
unfoldable pub fill_dirs : ℕ → List ℕ → List (Option (List ℕ)) → Run (List (Option (List ℕ)))
fill_dirs zero current_dir dirs = if is_dot current_dir then ok dirs else aborted
fill_dirs (suc depth) current_dir dirs =
    let rest =
      fill_dirs depth (dirname current_dir) (set dirs depth (some (basename current_dir))) in
    if is_dot current_dir then ok dirs else rest

-- `if (path[0] == '/') path = &path[1];`
unfoldable pub skip_first : List ℕ → List ℕ
skip_first [] = []
skip_first (c ∷ path) = if c == 47 then path else (c ∷ path)

abbrev pub unset_dirs : List (Option (List ℕ))
unset_dirs = none ∷ none ∷ none ∷ none ∷ none ∷ []

-- `pathParser`
unfoldable pub path_parser : List ℕ → Run FilePath
path_parser name = do
  let path = skip_first name
  let depth = count_slashes path 0
  assert (leb depth max_dir_depth)
  dirs ← fill_dirs depth (dirname path) unset_dirs
  ok (record { dir_array = dirs; dir_depth = depth; base = basename path })
