-- ===== src/Threads/Lists/Insert.antt =====
-- `SortedInsert` of threads/list.cc as a whole.
use pku_os_lab.Common.{
  ℕ, suc, ◌+◌, ◌<◌, ◌≡◌, refl, ◌∙◌, sym, ap, Bool, false, ◌||◌, List, [], ◌∷◌, Option, some, length,
  ◌==◌, ltb, arith, if◌then◌else◌, Run, ok, aborted, ◌>>=◌, Bool-cases, inl, inr,
}
use pku_os_lab.Threads.Lists.{
  Cells, ListState, deref, stored, is_null, new_element, only, put_first, walk, after_walk,
  sorted_insert,
}
use pku_os_lab.Threads.Lists.Chain.{Node, element, stands_at, Apart, Holds}
use pku_os_lab.Threads.Lists.Queue.{IsReady, node, new_element-IsReady, only-Holds, put_first-Holds}
use pku_os_lab.Threads.Lists.Ends.{put_last-Holds}
use pku_os_lab.Threads.Lists.Sorted.{insert, Walked, inserted, at_end, walk-Walked}

stands_at-insert :
    (a : ℕ) (n : Node) (ns : List Node)
    → stands_at a (insert n ns) ≡ (a == n.addr || stands_at a ns)
stands_at-insert a n [] = refl
stands_at-insert a n (m ∷ ns) = elim (Bool-cases (ltb n.key m.key)) [
  | inl earlier ↦ rw earlier refl
  | inr later ↦ rw (later, stands_at-insert a n ns) (ground arith)
]

length-insert : (n : Node) (ns : List Node) → length (insert n ns) ≡ suc (length ns)
length-insert n [] = refl
length-insert n (m ∷ ns) = elim (Bool-cases (ltb n.key m.key)) [
  | inl earlier ↦ rw earlier refl
  | inr later ↦ rw later (ap suc (length-insert n ns))
]

Apart-insert :
    (fresh : ℕ) (n : Node) (ns : List Node)
    → Apart fresh ns
    → n.addr < fresh
    → stands_at n.addr ns ≡ false
    → Apart fresh (insert n ns)
Apart-insert fresh n [] h below out = (below, (refl, tt))
Apart-insert fresh n (m ∷ ns) h below out = elim (Bool-cases (ltb n.key m.key)) [
  | inl earlier ↦ rw earlier (below, (out, h))
  | inr later ↦ rw later (
    h.0,
    (
      stands_at-insert m.addr n ns ∙ ground (arith, h.1.0, out),
      Apart-insert fresh n ns h.1.1 below (ground (arith, out)),
    ),
  )
]

-- What follows the loop.
after_walk-Holds :
    (l : ListState) (n m : Node) (ns : List Node) (r : Run (Bool × Cells))
    → IsReady l n (m ∷ ns)
    → ltb n.key m.key ≡ false
    → Walked l.cells n m ns r
    → (l' : ListState) × ((r >>= λ o. after_walk l n.addr o) ≡ ok l') × Holds l' (insert n (m ∷ ns))
after_walk-Holds l n m ns aborted r later h = elim h [ ]
after_walk-Holds l n m ns (ok _) r later (inserted cells' linked frame ends) = (
  record l { num_in_list = l.num_in_list + 1; cells = cells' },
  refl,
  record {
    starts = rw later r.starts;
    ends = rw later (r.ends ∙ sym ends);
    counts = rw later (omega (arith, r.counts, length-insert n ns));
    linked = rw later linked;
    apart = Apart-insert l.fresh n (m ∷ ns) r.apart r.below r.outside;
  },
)
after_walk-Holds l n m ns (ok _) r later (at_end is) =
    let (l', run, h) = put_last-Holds l n m ns r in (l', run, rw (later, is) h)

sorted_insert-runs :
    (l : ListState) (item key : ℕ) (m : Node) (next : Option ℕ)
    → l.first ≡ some m.addr
    → (new_element l item key).cells m.addr ≡ some (element m next)
    → sorted_insert l item key ≡ (
        if ltb key m.key
        then put_first (new_element l item key) l.fresh
        else (walk l.num_in_list (new_element l item key).cells m.addr l.fresh key >>= λ o.
            after_walk (new_element l item key) l.fresh o))
unfolding sorted_insert
sorted_insert-runs l item key m next starts cell =
    ap
      (λ o. if is_null o then ok (only (new_element l item key) l.fresh) else (do
        f ← deref o
        e ← stored ((new_element l item key).cells f)
        if ltb key e.key then put_first (new_element l item key) l.fresh else (do
          r ← walk l.num_in_list (new_element l item key).cells f l.fresh key
          after_walk (new_element l item key) l.fresh r)))
      starts
    ∙ ap
        (λ c. (do
          e ← stored c
          if ltb key e.key then put_first (new_element l item key) l.fresh else (do
            r ← walk l.num_in_list (new_element l item key).cells m.addr l.fresh key
            after_walk (new_element l item key) l.fresh r)))
        cell

pub sorted_insert-Holds :
    (l : ListState) (ns : List Node) (item key : ℕ)
    → Holds l ns
    → (l' : ListState) × (sorted_insert l item key ≡ ok l')
      × Holds l' (insert (node l.fresh item key) ns)
unfolding sorted_insert
sorted_insert-Holds l [] item key h = (
  _,
  rw h.starts refl,
  only-Holds (new_element l item key) _ (new_element-IsReady l [] item key h),
)
sorted_insert-Holds l (m ∷ ns) item key h =
    let n = node l.fresh item key in
    let r = new_element-IsReady l (m ∷ ns) item key h in
    let l' = new_element l item key in
    elim (Bool-cases (ltb key m.key)) [
      | inl earlier ↦
          let (l'', run, h') = put_first-Holds l' n m ns r in
          (
            l'',
            sorted_insert-runs l item key m _ h.starts r.linked.0 ∙ rw earlier run,
            rw earlier h',
          )
      | inr later ↦
          let (l'', run, h') = after_walk-Holds l' n m ns _ r later (
            walk-Walked l.num_in_list l'.cells (l.fresh + 1) n m ns (omega (arith, h.counts))
              r.linked r.apart r.alone r.outside) in
          (l'', sorted_insert-runs l item key m _ h.starts r.linked.0 ∙ rw later run, h')
    ]
