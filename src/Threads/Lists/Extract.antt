-- ===== src/Threads/Lists/Extract.antt =====
-- `Remove(item)` of threads/list.cc as an operation on the sequence of items.
use pku_os_lab.Common.{
  ℕ, suc, ◌≡◌, refl, ◌∙◌, sym, ap, Bool, true, false, ◌||◌, List, [], ◌∷◌, Option, some, length,
  ◌==◌, arith, if◌then◌else◌, Run, ok, aborted, ◌>>=◌, Bool-cases, inl, inr,
}
use pku_os_lab.Threads.Lists.{
  Cells, ListState, deref, stored, unlink, after_unlink, after_first, remove_first, remove_item,
}
use pku_os_lab.Threads.Lists.Chain.{
  Node, start, element, stands_at, Apart, Holds, content, contents, Represents,
}
use pku_os_lab.Threads.Lists.Remove.{sorted_remove-Holds}
use pku_os_lab.Threads.Lists.Unlink.{
  holds_item, drop_item, Unlinked, nowhere, unlinked, unlink-Unlinked,
}

-- The first pair of the item is left out.
abbrev pub without : ℕ → List (ℕ × ℕ) → List (ℕ × ℕ)
without item [] = []
without item (x ∷ xs) = if item == x.0 then xs else x ∷ without item xs

abbrev pub contains : ℕ → List (ℕ × ℕ) → Bool
contains item [] = false
contains item (x ∷ xs) = item == x.0 || contains item xs

-- What `Remove(item)` may do with a list that holds `xs`.
pub data Extracted (l : ListState) (xs : List (ℕ × ℕ)) (item : ℕ) : Run ListState → Type 0 where
  extracted :
      (l' : ListState)
      → contains item xs ≡ true
      → Represents l' (without item xs)
      → Extracted l xs item (ok l')
  not_there : contains item xs ≡ false → Extracted l xs item aborted

contents-drop_item :
    (item : ℕ) (ns : List Node) → contents (drop_item item ns) ≡ without item (contents ns)
contents-drop_item item [] = refl
contents-drop_item item (n ∷ ns) = elim (Bool-cases (item == n.item)) [
  | inl same ↦ rw same refl
  | inr other ↦ rw other (ap (λ xs. content n ∷ xs) (contents-drop_item item ns))
]

holds_item-contents : (item : ℕ) (ns : List Node) → holds_item item ns ≡ contains item (contents ns)
holds_item-contents item [] = refl
holds_item-contents item (n ∷ ns) = ap (λ b. item == n.item || b) (holds_item-contents item ns)

stands_at-drop_item :
    (a item : ℕ) (ns : List Node) → stands_at a ns ≡ false → stands_at a (drop_item item ns) ≡ false
stands_at-drop_item a item [] out = refl
stands_at-drop_item a item (n ∷ ns) out = elim (Bool-cases (item == n.item)) [
  | inl same ↦ rw same (ground (arith, out))
  | inr other ↦ rw other (ground (arith, out, stands_at-drop_item a item ns))
]

Apart-drop_item :
    (fresh item : ℕ) (ns : List Node) → Apart fresh ns → Apart fresh (drop_item item ns)
Apart-drop_item fresh item [] h = tt
Apart-drop_item fresh item (n ∷ ns) h = elim (Bool-cases (item == n.item)) [
  | inl same ↦ rw same h.1.1
  | inr other ↦
      rw other
        (h.0, (stands_at-drop_item n.addr item ns h.1.0, Apart-drop_item fresh item ns h.1.1))
]

length-drop_item :
    (item : ℕ) (ns : List Node)
    → holds_item item ns ≡ true
    → suc (length (drop_item item ns)) ≡ length ns
length-drop_item item [] there = absurd cc
length-drop_item item (n ∷ ns) there = elim (Bool-cases (item == n.item)) [
  | inl same ↦ rw same refl
  | inr other ↦ rw other (ap suc (length-drop_item item ns (ground (arith, there, other))))
]

-- What follows the loop.
after_unlink-Extracted :
    (l : ListState) (item : ℕ) (m : Node) (ns : List Node) (r : Run (Option (Cells × Bool × ℕ)))
    → Holds l (m ∷ ns)
    → (item == m.item) ≡ false
    → Unlinked l.cells m ns item r
    → Extracted l (contents (m ∷ ns)) item (r >>= λ o. after_unlink l o)
after_unlink-Extracted l item m ns _ h other (nowhere none_there) =
    not_there (rw other (sym (holds_item-contents item ns) ∙ none_there))
after_unlink-Extracted l item m ns _ h other (unlinked cells at_end prev there linked frame ends) =
    extracted _ (rw other (sym (holds_item-contents item ns) ∙ there)) (record {
      nodes = m ∷ drop_item item ns;
      holds = record {
        starts = h.starts;
        ends = rw h.ends ends;
        counts = omega (arith, h.counts, length-drop_item item ns there);
        linked = linked;
        apart = (
          h.apart.0,
          (
            stands_at-drop_item m.addr item ns h.apart.1.0,
            Apart-drop_item l.fresh item ns h.apart.1.1,
          ),
        );
      };
      is = rw other (ap (λ xs. content m ∷ xs) (contents-drop_item item ns));
    })

remove_item-runs :
    (l : ListState) (item : ℕ) (m : Node) (next : Option ℕ)
    → l.first ≡ some m.addr
    → l.cells m.addr ≡ some (element m next)
    → remove_item l item ≡ (
        if item == m.item
        then (remove_first l >>= λ r. after_first item r)
        else (unlink l.num_in_list l.cells m.addr next item >>= λ o. after_unlink l o))
unfolding remove_item
remove_item-runs l item m next starts cell =
    ap
      (λ p. (do
        f ← deref p
        e ← stored (l.cells f)
        if item == e.item
            then (do r ← remove_first l; after_first item r)
            else (do o ← unlink l.num_in_list l.cells f e.next item; after_unlink l o)))
      starts
    ∙ ap
        (λ c. (do
          e ← stored c
          if item == e.item
              then (do r ← remove_first l; after_first item r)
              else (do o ← unlink l.num_in_list l.cells m.addr e.next item; after_unlink l o)))
        cell

first-Extracted :
    (l : ListState) (item : ℕ) (m : Node) (ns : List Node)
    → Holds l (m ∷ ns)
    → (item == m.item) ≡ true
    → Extracted l (contents (m ∷ ns)) item (remove_first l >>= λ r. after_first item r)
unfolding remove_first
first-Extracted l item m ns h same =
    let (l', run, h') = sorted_remove-Holds l m ns h in
    rw (run, same)
      (extracted l' (rw same refl) (record { nodes = ns; holds = h'; is = rw same refl }))

nodes-Extracted :
    (l : ListState) (item : ℕ) (ns : List Node)
    → Holds l ns
    → Extracted l (contents ns) item (remove_item l item)
unfolding remove_item
nodes-Extracted l item [] h = rw h.starts (not_there refl)
nodes-Extracted l item (m ∷ ns) h =
    rw (remove_item-runs l item m (start ns) h.starts h.linked.0)
      (elim (Bool-cases (item == m.item)) [
        | inl same ↦ rw same (first-Extracted l item m ns h same)
        | inr other ↦ rw other (
            after_unlink-Extracted l item m ns _ h other (
              unlink-Unlinked l.num_in_list l.cells l.fresh item m ns (omega (arith, h.counts))
                h.linked h.apart))
      ])

-- `Remove(item)`, on a list that holds `xs`: if the item is there, it follows no dangling pointer, fails at no
-- `ASSERT`, its loop ends within the length of the list, and the list then holds `xs` without the first
-- occurrence of the item. If it is not there, it stops at its `ASSERT`, or, when the list is empty, at NULL.
pub remove_item-Extracted :
    (l : ListState) (xs : List (ℕ × ℕ)) (item : ℕ)
    → Represents l xs
    → Extracted l xs item (remove_item l item)
remove_item-Extracted l xs item r = rw⁻¹ r.is (nodes-Extracted l item r.nodes r.holds)
