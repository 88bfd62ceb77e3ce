-- ===== src/Threads/Lists/Sequence.antt =====
-- The list of threads/list.cc as a sequence of items with their keys.
use pku_os_lab.Common.{
  ℕ, ◌≤◌, ◌<◌, ◌≡◌, refl, ◌∙◌, ap, List, [], ◌∷◌, ◌++◌, Option, none, some, ltb, arith,
  if◌then◌else◌, Run, ok, Bool-cases, inl, inr, All,
}
use pku_os_lab.Threads.Lists.{
  Cells, ListState, new_list, append, prepend, sorted_insert, sorted_remove,
}
use pku_os_lab.Threads.Lists.Chain.{Node, Holds, content, contents, Represents}
use pku_os_lab.Threads.Lists.Ends.{append-Holds, prepend-Holds}
use pku_os_lab.Threads.Lists.Remove.{sorted_remove-Holds, sorted_remove-empty}
use pku_os_lab.Threads.Lists.Sorted.{insert}
use pku_os_lab.Threads.Lists.Insert.{sorted_insert-Holds}

contents-append :
    (ns : List Node) (n : Node) → contents (ns ++ (n ∷ [])) ≡ contents ns ++ (content n ∷ [])
contents-append [] n = refl
contents-append (m ∷ ns) n = ap (λ xs. content m ∷ xs) (contents-append ns n)

-- A new list is empty.
pub new_list-Represents : (cells : Cells) (fresh : ℕ) → Represents (new_list cells fresh) []
unfolding new_list
new_list-Represents cells fresh = record {
  nodes = [];
  holds = record { starts = refl; ends = refl; counts = refl; linked = tt; apart = tt };
  is = refl;
}

-- `Append`, on a list that holds `xs`, follows no dangling pointer, and the list then holds `xs` and,
-- behind it, the item with key 0.
pub append-Represents :
    (l : ListState) (xs : List (ℕ × ℕ)) (item : ℕ)
    → Represents l xs
    → (l' : ListState) × (append l item ≡ ok l') × Represents l' (xs ++ ((item, 0) ∷ []))
append-Represents l xs item r =
    let (l', run, h) = append-Holds l r.nodes item r.holds in
    (
      l',
      run,
      record {
        nodes = _;
        holds = h;
        is = contents-append r.nodes _ ∙ ap (λ ys. ys ++ ((item, 0) ∷ [])) r.is;
      },
    )

-- `Prepend` likewise puts the item with key 0 before `xs`.
pub prepend-Represents :
    (l : ListState) (xs : List (ℕ × ℕ)) (item : ℕ)
    → Represents l xs
    → (l' : ListState) × (prepend l item ≡ ok l') × Represents l' ((item, 0) ∷ xs)
prepend-Represents l xs item r =
    let (l', run, h) = prepend-Holds l r.nodes item r.holds in
    (l', run, record { nodes = _; holds = h; is = ap (λ ys. (item, 0) ∷ ys) r.is })

-- What `SortedRemove` may do with a list that holds `xs`.
pub data Removed (l : ListState) : List (ℕ × ℕ) → Run (Option (ℕ × ℕ) × ListState) → Type 0 where
  nothing : Removed l [] (ok (none, l))
  first :
      (x : ℕ × ℕ) (xs : List (ℕ × ℕ)) (l' : ListState)
      → Represents l' xs
      → Removed l (x ∷ xs) (ok (some x, l'))

sorted_remove-nodes :
    (l : ListState) (ns : List Node) → Holds l ns → Removed l (contents ns) (sorted_remove l)
sorted_remove-nodes l [] h = rw (sorted_remove-empty l h.starts) nothing
sorted_remove-nodes l (m ∷ ns) h =
    let (l', run, h') = sorted_remove-Holds l m ns h in
    rw run (first (content m) (contents ns) l' (record { nodes = ns; holds = h'; is = refl }))

-- `SortedRemove`, on a list that holds `xs`, follows no dangling pointer: it returns NULL and leaves an
-- empty list alone, and otherwise returns the first item and key and leaves a list of the others.
pub sorted_remove-Removed :
    (l : ListState) (xs : List (ℕ × ℕ)) → Represents l xs → Removed l xs (sorted_remove l)
sorted_remove-Removed l xs r = rw⁻¹ r.is (sorted_remove-nodes l r.nodes r.holds)

-- The insertion on sequences.
abbrev pub insert_sorted : ℕ × ℕ → List (ℕ × ℕ) → List (ℕ × ℕ)
insert_sorted x [] = x ∷ []
insert_sorted x (y ∷ ys) = if ltb x.1 y.1 then x ∷ (y ∷ ys) else y ∷ insert_sorted x ys

contents-insert :
    (n : Node) (ns : List Node) → contents (insert n ns) ≡ insert_sorted (content n) (contents ns)
contents-insert n [] = refl
contents-insert n (m ∷ ns) = elim (Bool-cases (ltb n.key m.key)) [
  | inl earlier ↦ rw earlier refl
  | inr later ↦ rw later (ap (λ xs. content m ∷ xs) (contents-insert n ns))
]

-- In increasing order of the keys.
abbrev pub Increasing : List (ℕ × ℕ) → Type 0
Increasing [] = Unit
Increasing (x ∷ xs) = All (λ (y : ℕ × ℕ). x.1 ≤ y.1) xs × Increasing xs

-- `x` stands in `ys` behind all items of `xs` with a key not larger, and before the others.
pub record Placed (x : ℕ × ℕ) (xs ys : List (ℕ × ℕ)) : Type 0 where
  pub before : List (ℕ × ℕ)
  pub after : List (ℕ × ℕ)
  pub was : xs ≡ before ++ after
  pub now : ys ≡ before ++ (x ∷ after)
  pub not_larger : All (λ (y : ℕ × ℕ). y.1 ≤ x.1) before
  pub larger : All (λ (y : ℕ × ℕ). x.1 < y.1) after

All-larger :
    (k j : ℕ) (ys : List (ℕ × ℕ))
    → k < j
    → All (λ (y : ℕ × ℕ). j ≤ y.1) ys
    → All (λ (y : ℕ × ℕ). k < y.1) ys
All-larger k j [] lt h = tt
All-larger k j (y ∷ ys) lt h = (omega (arith, h.0), All-larger k j ys lt h.1)

insert_sorted-Placed :
    (x : ℕ × ℕ) (xs : List (ℕ × ℕ)) → Increasing xs → Placed x xs (insert_sorted x xs)
insert_sorted-Placed x [] h = record {
  before = [];
  after = [];
  was = refl;
  now = refl;
  not_larger = tt;
  larger = tt;
}
insert_sorted-Placed x (y ∷ ys) h = elim (Bool-cases (ltb x.1 y.1)) [
  | inl earlier ↦ rw earlier (record {
    before = [];
    after = y ∷ ys;
    was = refl;
    now = refl;
    not_larger = tt;
    larger = (ground arith, All-larger x.1 y.1 ys (ground arith) h.0);
  })
  | inr later ↦
      let p = insert_sorted-Placed x ys h.1 in
      rw later (record {
        before = y ∷ p.before;
        after = p.after;
        was = ap (λ zs. y ∷ zs) p.was;
        now = ap (λ zs. y ∷ zs) p.now;
        not_larger = (ground arith, p.not_larger);
        larger = p.larger;
      })
]

All-insert :
    (k : ℕ) (x : ℕ × ℕ) (ys : List (ℕ × ℕ))
    → k ≤ x.1
    → All (λ (y : ℕ × ℕ). k ≤ y.1) ys
    → All (λ (y : ℕ × ℕ). k ≤ y.1) (insert_sorted x ys)
All-insert k x [] le h = (le, tt)
All-insert k x (y ∷ ys) le h = elim (Bool-cases (ltb x.1 y.1)) [
  | inl earlier ↦ rw earlier (le, h)
  | inr later ↦ rw later (h.0, All-insert k x ys le h.1)
]

All-below :
    (k j : ℕ) (ys : List (ℕ × ℕ))
    → k ≤ j
    → All (λ (y : ℕ × ℕ). j ≤ y.1) ys
    → All (λ (y : ℕ × ℕ). k ≤ y.1) ys
All-below k j [] le h = tt
All-below k j (y ∷ ys) le h = (omega (arith, h.0), All-below k j ys le h.1)

insert_sorted-Increasing :
    (x : ℕ × ℕ) (xs : List (ℕ × ℕ)) → Increasing xs → Increasing (insert_sorted x xs)
insert_sorted-Increasing x [] h = (tt, tt)
insert_sorted-Increasing x (y ∷ ys) h = elim (Bool-cases (ltb x.1 y.1)) [
  | inl earlier ↦ rw earlier ((ground arith, All-below x.1 y.1 ys (ground arith) h.0), h)
  | inr later ↦ rw later (All-insert y.1 x ys (ground arith) h.0, insert_sorted-Increasing x ys h.1)
]

-- `SortedInsert`, on a list that holds `xs` in increasing order, follows no dangling pointer, and its
-- loop ends within the length of the list. The list then holds `xs` with the new item behind all items
-- whose key is not larger and before all others, and is in increasing order again.
pub sorted_insert-Placed :
    (l : ListState) (xs : List (ℕ × ℕ)) (item key : ℕ)
    → Represents l xs
    → Increasing xs
    → (l' : ListState) × (ys : List (ℕ × ℕ)) × (sorted_insert l item key ≡ ok l')
      × Represents l' ys
      × Increasing ys
      × Placed (item, key) xs ys
sorted_insert-Placed l xs item key r increasing =
    let (l', run, h) = sorted_insert-Holds l r.nodes item key r.holds in
    (
      l',
      insert_sorted (item, key) xs,
      run,
      record {
        nodes = _;
        holds = h;
        is = contents-insert _ r.nodes ∙ ap (insert_sorted (item, key)) r.is;
      },
      insert_sorted-Increasing (item, key) xs increasing,
      insert_sorted-Placed (item, key) xs increasing,
    )
