-- ===== src/FileSystem/Path/Tests.antt =====
-- The theorem on `pathParser` of filesys/filehdr.cc, at a concrete path, and paths that it does not reach.
use pku_os_lab.Common.{ℕ, ◌≡◌, refl, List, [], ◌∷◌, none, some, ok, aborted, arith}
use pku_os_lab.FileSystem.Path.{
  basename, dirname, without_end, split_last, is_dot, count_slashes, fill_dirs, skip_first,
  path_parser,
}
use pku_os_lab.FileSystem.Path.Split.{path_of}
use pku_os_lab.FileSystem.Path.Parse.{Parsed, path_parser-Parsed}

-- The directory "b" in the directory "a".
abbrev dirs : List (List ℕ)
dirs = (98 ∷ []) ∷ ((97 ∷ []) ∷ [])

-- "a/b/c" and "/a/b/c"
path_parser-Parsed_example :
    Parsed dirs (99 ∷ []) (path_parser (path_of dirs (99 ∷ [])))
    × Parsed dirs (99 ∷ []) (path_parser (47 ∷ path_of dirs (99 ∷ [])))
unfolding is_dot
path_parser-Parsed_example =
    path_parser-Parsed dirs (99 ∷ [])
      (
        record { present = omega arith; plain = refl },
        (record { present = omega arith; plain = refl }, tt),
      )
      (record { present = omega arith; plain = refl }) refl

-- "a//b": the depth is 2, and the first entry was not set.
path_parser-double_slash :
    path_parser (97 ∷ (47 ∷ (47 ∷ (98 ∷ []))))
    ≡ ok (record {
      dir_array = none ∷ (some (97 ∷ []) ∷ (none ∷ (none ∷ (none ∷ []))));
      dir_depth = 2;
      base = 98 ∷ [];
    })
unfolding path_parser basename dirname without_end split_last is_dot count_slashes fill_dirs
    skip_first
path_parser-double_slash = refl

-- "//a": an entry before the array is written.
path_parser-root : path_parser (47 ∷ (47 ∷ (97 ∷ []))) ≡ aborted
unfolding path_parser basename dirname without_end split_last is_dot count_slashes fill_dirs
    skip_first
path_parser-root = refl
