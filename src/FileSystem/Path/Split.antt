-- ===== src/FileSystem/Path/Split.antt =====
-- `dirname`, `basename` and the count of the slashes in `pathParser` of filesys/filehdr.cc, at the paths that name a file
-- by its directories.
use pku_os_lab.Common.{
  ℕ, ◌+◌, ◌≤◌, ◌<◌, ◌≡◌, refl, ◌∙◌, ap, Bool, false, List, [], ◌∷◌, ◌++◌, length, has, All, none,
  some, arith, ◌==◌, if◌then◌else◌, length-append,
}
use pku_os_lab.FileSystem.Path.{
  unless_slash, or_root, basename_of, dirname_of, name_in, directory_in, without_end, split_last,
  basename, dirname, is_dot, count_slashes,
}

-- The name of a file or of a directory.
pub record IsName (name : List ℕ) : Type 0 where
  pub present : 0 < length name
  pub plain : has 47 name ≡ false

-- The path of the file `base` in the directories `dirs`, the innermost first.
abbrev pub path_of : List (List ℕ) → List ℕ → List ℕ
path_of [] base = base
path_of (dir ∷ dirs) base = path_of dirs dir ++ 47 ∷ base

-- The outermost directory is not ".".
abbrev pub starts_at_dot : List (List ℕ) → Bool
starts_at_dot [] = false
starts_at_dot (dir ∷ []) = is_dot dir
starts_at_dot (dir ∷ outer ∷ dirs) = starts_at_dot (outer ∷ dirs)

unless_slash-cons : (c : ℕ) (rest : List ℕ) → 0 < length rest → unless_slash c rest ≡ c ∷ rest
unless_slash-cons c [] h = absurd (omega (arith, h))
unless_slash-cons c (x ∷ rest) h = refl

without_end-cons :
    (c : ℕ) (path : List ℕ)
    → 0 < length (without_end path)
    → without_end (c ∷ path) ≡ c ∷ without_end path
unfolding without_end
without_end-cons c path h = unless_slash-cons c (without_end path) h

without_end-name : (name : List ℕ) → has 47 name ≡ false → without_end name ≡ name
unfolding without_end
without_end-name [] h = refl
without_end-name (c ∷ []) h = let here : (c == 47) ≡ false = ground (arith, h) in rw here refl
without_end-name (c ∷ x ∷ name) h =
    let rest : without_end (x ∷ name) ≡ x ∷ name =
      without_end-name (x ∷ name) (ground (arith, h)) in
    without_end-cons c (x ∷ name) (rw rest (omega arith)) ∙ ap (λ (t : List ℕ). c ∷ t) rest

without_end-append : (a name : List ℕ) → IsName name → without_end (a ++ 47 ∷ name) ≡ a ++ 47 ∷ name
without_end-append [] name h =
    let rest : without_end name ≡ name = without_end-name name h.plain in
    without_end-cons 47 name (rw rest h.present) ∙ ap (λ (t : List ℕ). 47 ∷ t) rest
without_end-append (c ∷ a) name h =
    let rest = without_end-append a name h in
    without_end-cons c (a ++ 47 ∷ name) (rw rest (omega (arith, length-append a (47 ∷ name))))
    ∙ ap (λ (t : List ℕ). c ∷ t) rest

split_last-name : (name : List ℕ) → has 47 name ≡ false → split_last name ≡ none
unfolding split_last
split_last-name [] h = refl
split_last-name (c ∷ name) h =
    let here : (c == 47) ≡ false = ground (arith, h) in
    let rest : split_last name ≡ none = split_last-name name (ground (arith, h)) in
    rw (rest, here) refl

split_last-append :
    (a name : List ℕ) → has 47 name ≡ false → split_last (a ++ 47 ∷ name) ≡ some (a, name)
unfolding split_last
split_last-append [] name h = rw (split_last-name name h) refl
split_last-append (c ∷ a) name h = rw (split_last-append a name h) refl

basename_of-some :
    (path short : List ℕ)
    → 0 < length short
    → basename_of path short ≡ name_in short (split_last short)
basename_of-some path [] h = absurd (omega (arith, h))
basename_of-some path (c ∷ short) h = refl

dirname_of-some :
    (path short : List ℕ)
    → 0 < length short
    → dirname_of path short ≡ directory_in (split_last short)
dirname_of-some path [] h = absurd (omega (arith, h))
dirname_of-some path (c ∷ short) h = refl

or_root-some : (path : List ℕ) → 0 < length path → or_root path ≡ path
or_root-some [] h = absurd (omega (arith, h))
or_root-some (c ∷ path) h = refl

module _ (name : List ℕ) (h : IsName name) where
  basename-name : basename name ≡ name
  unfolding basename
  basename-name =
      rw
        (
          without_end-name name h.plain,
          basename_of-some name name h.present,
          split_last-name name h.plain,
        )
        refl

  pub dirname-name : dirname name ≡ 46 ∷ []
  unfolding dirname
  dirname-name =
      rw
        (
          without_end-name name h.plain,
          dirname_of-some name name h.present,
          split_last-name name h.plain,
        )
        refl

  basename-append : (a : List ℕ) → basename (a ++ 47 ∷ name) ≡ name
  unfolding basename
  basename-append a =
      rw
        (
          without_end-append a name h,
          basename_of-some (a ++ 47 ∷ name) (a ++ 47 ∷ name)
              (omega (arith, length-append a (47 ∷ name))),
          split_last-append a name h.plain,
        )
        refl

  dirname-append : (a : List ℕ) → 0 < length a → without_end a ≡ a → dirname (a ++ 47 ∷ name) ≡ a
  unfolding dirname
  dirname-append a some_a kept =
      rw
        (
          without_end-append a name h,
          dirname_of-some (a ++ 47 ∷ name) (a ++ 47 ∷ name)
              (omega (arith, length-append a (47 ∷ name))),
          split_last-append a name h.plain,
          kept,
          or_root-some a some_a,
        )
        refl

pub length-path_of :
    (dirs : List (List ℕ)) (base : List ℕ) → IsName base → 0 < length (path_of dirs base)
length-path_of [] base h = h.present
length-path_of (dir ∷ dirs) base h = omega (arith, length-append (path_of dirs dir) (47 ∷ base))

without_end-path_of :
    (dirs : List (List ℕ)) (base : List ℕ)
    → IsName base
    → without_end (path_of dirs base) ≡ path_of dirs base
without_end-path_of [] base h = without_end-name base h.plain
without_end-path_of (dir ∷ dirs) base h = without_end-append (path_of dirs dir) base h

pub basename-path_of :
    (dirs : List (List ℕ)) (base : List ℕ) → IsName base → basename (path_of dirs base) ≡ base
basename-path_of [] base h = basename-name base h
basename-path_of (dir ∷ dirs) base h = basename-append base h (path_of dirs dir)

pub dirname-path_of :
    (dir : List ℕ) (dirs : List (List ℕ)) (base : List ℕ)
    → IsName dir
    → IsName base
    → dirname (path_of (dir ∷ dirs) base) ≡ path_of dirs dir
dirname-path_of dir dirs base g h =
    dirname-append base h (path_of dirs dir) (length-path_of dirs dir g)
      (without_end-path_of dirs dir g)

is_dot-long : (path : List ℕ) → 2 ≤ length path → is_dot path ≡ false
unfolding is_dot
is_dot-long [] h = refl
is_dot-long (c ∷ []) h = absurd (omega (arith, h))
is_dot-long (c ∷ x ∷ path) h = refl

pub is_dot-path_of :
    (dir : List ℕ) (dirs : List (List ℕ))
    → IsName dir
    → All IsName dirs
    → starts_at_dot (dir ∷ dirs) ≡ false
    → is_dot (path_of dirs dir) ≡ false
is_dot-path_of dir [] h hs start = start
is_dot-path_of dir (outer ∷ dirs) h hs start =
    is_dot-long (path_of (outer ∷ dirs) dir)
      (omega (arith, h.present, length-append (path_of dirs outer) (47 ∷ dir)))

count_slashes-name : (name : List ℕ) (n : ℕ) → has 47 name ≡ false → count_slashes name n ≡ n
unfolding count_slashes
count_slashes-name [] n h = refl
count_slashes-name (c ∷ name) n h =
    let here : (c == 47) ≡ false = ground (arith, h) in
    rw here (count_slashes-name name n (ground (arith, h)))

count_slashes-append :
    (a b : List ℕ) (n : ℕ) → count_slashes (a ++ b) n ≡ count_slashes b (count_slashes a n)
unfolding count_slashes
count_slashes-append [] b n = refl
count_slashes-append (c ∷ a) b n = count_slashes-append a b (if c == 47 then n + 1 else n)

pub count_slashes-path_of :
    (dirs : List (List ℕ)) (base : List ℕ)
    → All IsName dirs
    → IsName base
    → count_slashes (path_of dirs base) 0 ≡ length dirs
unfolding count_slashes
count_slashes-path_of [] base hs h = count_slashes-name base 0 h.plain
count_slashes-path_of (dir ∷ dirs) base hs h =
    count_slashes-append (path_of dirs dir) (47 ∷ base) 0
    ∙ count_slashes-name base _ h.plain
    ∙ ap (λ (n : ℕ). n + 1) (count_slashes-path_of dirs dir hs.1 hs.0)
    ∙ omega arith
