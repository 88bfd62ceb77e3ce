-- ===== src/Threads/Lists/Remove.antt =====
-- `SortedRemove` and `Remove` of threads/list.cc, at the level of the elements.
use pku_os_lab.Common.{
  ℕ, ◌-◌, ◌≡◌, refl, ◌∙◌, ap, Bool, true, false, List, [], ◌∷◌, none, some, arith, if◌then◌else◌,
  ok,
}
use pku_os_lab.Threads.Lists.{ListState, put_cell, sorted_remove, same_address}
use pku_os_lab.Threads.Lists.Chain.{
  Node, start, last_of, element, stands_at, Apart, Holds, content, Linked-put,
}
use pku_os_lab.Threads.Lists.Ends.{other_address}

last_of-stands :
    (m : Node) (ns : List Node)
    → (p : ℕ) × (last_of (m ∷ ns) ≡ some p) × (stands_at p (m ∷ ns) ≡ true)
last_of-stands m [] = (m.addr, refl, ground arith)
last_of-stands m (k ∷ ks) =
    let (p, is, within) = last_of-stands k ks in (p, is, ground (arith, within))

-- Whether a list has one element only.
abbrev alone : List Node → Bool
alone [] = true
alone (n ∷ ns) = false

first-last :
    (fresh : ℕ) (m : Node) (ns : List Node)
    → Apart fresh (m ∷ ns)
    → same_address (some m.addr) (last_of (m ∷ ns)) ≡ alone ns
first-last fresh m [] h = ground arith
first-last fresh m (k ∷ ks) h =
    let (p, is, within) = last_of-stands k ks in
    rw is (ground (arith, other_address m.addr p (k ∷ ks) h.1.0 within))

-- The list without its first element.
abbrev removed : ListState → Node → List Node → ListState
removed l m ns = record l {
  first = if alone ns then none else start ns;
  last = if alone ns then none else l.last;
  num_in_list = l.num_in_list - 1;
  cells = put_cell l.cells m.addr none;
}

sorted_remove-runs :
    (l : ListState) (m : Node) (ns : List Node)
    → l.first ≡ some m.addr
    → l.cells m.addr ≡ some (element m (start ns))
    → same_address l.first l.last ≡ alone ns
    → sorted_remove l ≡ ok (some (content m), removed l m ns)
unfolding sorted_remove
sorted_remove-runs l m ns starts cell one = rw (one, starts, cell) refl

removed-Holds :
    (l : ListState) (m : Node) (ns : List Node) → Holds l (m ∷ ns) → Holds (removed l m ns) ns
removed-Holds l m [] h = record {
  starts = refl;
  ends = refl;
  counts = omega (arith, h.counts);
  linked = tt;
  apart = tt;
}
removed-Holds l m (k ∷ ks) h = record {
  starts = refl;
  ends = h.ends;
  counts = omega (arith, h.counts);
  linked = Linked-put l.cells m.addr none (k ∷ ks) h.apart.1.0 h.linked.1;
  apart = h.apart.1.1;
}

pub sorted_remove-Holds :
    (l : ListState) (m : Node) (ns : List Node)
    → Holds l (m ∷ ns)
    → (l' : ListState) × (sorted_remove l ≡ ok (some (content m), l')) × Holds l' ns
sorted_remove-Holds l m ns h = (
  removed l m ns,
  sorted_remove-runs l m ns h.starts h.linked.0 (
      ap (λ o. same_address o l.last) h.starts
      ∙ ap (same_address (some m.addr)) h.ends
      ∙ first-last l.fresh m ns h.apart),
  removed-Holds l m ns h,
)

pub sorted_remove-empty : (l : ListState) → l.first ≡ none → sorted_remove l ≡ ok (none, l)
unfolding sorted_remove
sorted_remove-empty l h = rw h refl
