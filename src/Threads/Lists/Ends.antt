-- ===== src/Threads/Lists/Ends.antt =====
-- `Append` and `Prepend` of threads/list.cc, and the writing behind the last element.
use pku_os_lab.Common.{
  ℕ, ◌+◌, ◌<◌, ◌≡◌, refl, ◌∙◌, sym, ap, subst, true, false, ◌||◌, List, [], ◌∷◌, ◌++◌, none, some,
  ◌==◌, arith, if◌then◌else◌, ok, ◌>>=◌, Bool-cases, inl, inr, clash, length-append,
}
use pku_os_lab.Threads.Lists.{
  Cells, ListState, put_cell, set_next, deref, new_element, only, put_last, put_first, is_null,
  append, prepend,
}
use pku_os_lab.Threads.Lists.Chain.{Node, last_of, element, Linked, stands_at, Apart, Holds}
use pku_os_lab.Threads.Lists.Queue.{
  IsReady, node, new_element-IsReady, only-Holds, put_first-Holds, set_next-stored, put_self,
}

pub other_address :
    (a p : ℕ) (ns : List Node) → stands_at a ns ≡ false → stands_at p ns ≡ true → (p == a) ≡ false
other_address a p ns out within = elim (Bool-cases (p == a)) [
  | inl same ↦ clash within (subst (λ (q : ℕ). stands_at q ns ≡ false) (ground arith) out)
  | inr other ↦ other
]

-- The last element of the chain, and the chain with `n` behind it.
record LastCell (cells : Cells) (m : Node) (ns : List Node) (n : Node) : Type 0 where
  p : ℕ
  q : Node
  is : last_of (m ∷ ns) ≡ some p
  cell : cells p ≡ some (element q none)
  within : stands_at p (m ∷ ns) ≡ true
  linked : Linked (put_cell cells p (some (element q (some n.addr)))) ((m ∷ ns) ++ (n ∷ []))

last_cell :
    (cells : Cells) (fresh : ℕ) (m : Node) (ns : List Node) (n : Node)
    → Linked cells (m ∷ ns)
    → Apart fresh (m ∷ ns)
    → cells n.addr ≡ some (element n none)
    → stands_at n.addr (m ∷ ns) ≡ false
    → LastCell cells m ns n
last_cell cells fresh m [] n h apart alone out = record {
  p = m.addr;
  q = m;
  is = refl;
  cell = h.0;
  within = ground arith;
  linked = (put_self cells m.addr _, (ground (arith, alone), tt));
}
last_cell cells fresh m (k ∷ ks) n h apart alone out =
    let r = last_cell cells fresh k ks n h.1 apart.1.1 alone (ground arith) in
    record {
      p = r.p;
      q = r.q;
      is = r.is;
      cell = r.cell;
      within = ground (arith, r.within);
      linked =
          (ground (arith, other_address m.addr r.p (k ∷ ks) apart.1.0 r.within, h.0), r.linked);
    }

-- The list after `put_last`, where the last element `q` stands at `p`.
abbrev extended : ListState → Node → ℕ → Node → ListState
extended l n p q = record l {
  last = some n.addr;
  num_in_list = l.num_in_list + 1;
  cells = put_cell l.cells p (some (element q (some n.addr)));
}

put_last-runs :
    (l : ListState) (n : Node) (p : ℕ) (q : Node)
    → l.last ≡ some p
    → l.cells p ≡ some (element q none)
    → put_last l n.addr ≡ ok (extended l n p q)
put_last-runs l n p q ends cell =
    ap
      (λ o. deref o >>= λ p. set_next l.cells p (some n.addr) >>= λ cells.
        ok (record l { last = some n.addr; num_in_list = l.num_in_list + 1; cells = cells }))
      ends
    ∙ ap
        (λ r. r >>= λ cells.
          ok (record l { last = some n.addr; num_in_list = l.num_in_list + 1; cells = cells }))
        (set_next-stored l.cells p _ (some n.addr) cell)

last_of-append : (m n : Node) (ns : List Node) → last_of ((m ∷ ns) ++ (n ∷ [])) ≡ some n.addr
last_of-append m n [] = refl
last_of-append m n (k ∷ ks) = last_of-append k n ks

stands_at-append :
    (a : ℕ) (n : Node) (ns : List Node)
    → stands_at a (ns ++ (n ∷ [])) ≡ (stands_at a ns || (a == n.addr))
stands_at-append a n [] = ground arith
stands_at-append a n (m ∷ ns) = rw (stands_at-append a n ns) (ground arith)

Apart-append :
    (fresh : ℕ) (n : Node) (ns : List Node)
    → Apart fresh ns
    → n.addr < fresh
    → stands_at n.addr ns ≡ false
    → Apart fresh (ns ++ (n ∷ []))
Apart-append fresh n [] h below out = (below, (refl, tt))
Apart-append fresh n (m ∷ ns) h below out = (
  h.0,
  (
    stands_at-append m.addr n ns ∙ ground (arith, h.1.0),
    Apart-append fresh n ns h.1.1 below (ground arith),
  ),
)

pub put_last-Holds :
    (l : ListState) (n m : Node) (ns : List Node)
    → IsReady l n (m ∷ ns)
    → (l' : ListState) × (put_last l n.addr ≡ ok l') × Holds l' ((m ∷ ns) ++ (n ∷ []))
put_last-Holds l n m ns r =
    let c = last_cell l.cells l.fresh m ns n r.linked r.apart r.alone r.outside in
    (
      extended l n c.p c.q,
      put_last-runs l n c.p c.q (r.ends ∙ c.is) c.cell,
      record {
        starts = r.starts;
        ends = sym (last_of-append m n ns);
        counts = omega (arith, r.counts, length-append (m ∷ ns) (n ∷ []));
        linked = c.linked;
        apart = Apart-append l.fresh n (m ∷ ns) r.apart r.below r.outside;
      },
    )

-- `Append` at the level of the elements.
pub append-Holds :
    (l : ListState) (ns : List Node) (item : ℕ)
    → Holds l ns
    → (l' : ListState) × (append l item ≡ ok l') × Holds l' (ns ++ (node l.fresh item 0 ∷ []))
unfolding append
append-Holds l [] item h =
    let r = new_element-IsReady l [] item 0 h in
    (
      _,
      ap
          (λ o.
            if is_null o
            then ok (only (new_element l item 0) l.fresh)
            else put_last (new_element l item 0) l.fresh)
          h.starts,
      only-Holds (new_element l item 0) _ r,
    )
append-Holds l (m ∷ ns) item h =
    let r = new_element-IsReady l (m ∷ ns) item 0 h in
    let (l', run, h') = put_last-Holds (new_element l item 0) _ m ns r in
    (
      l',
      ap
            (λ o.
              if is_null o
              then ok (only (new_element l item 0) l.fresh)
              else put_last (new_element l item 0) l.fresh)
            h.starts
          ∙ run,
      h',
    )

pub prepend-Holds :
    (l : ListState) (ns : List Node) (item : ℕ)
    → Holds l ns
    → (l' : ListState) × (prepend l item ≡ ok l') × Holds l' (node l.fresh item 0 ∷ ns)
unfolding prepend
prepend-Holds l [] item h =
    let r = new_element-IsReady l [] item 0 h in
    (
      _,
      ap
          (λ o.
            if is_null o
            then ok (only (new_element l item 0) l.fresh)
            else put_first (new_element l item 0) l.fresh)
          h.starts,
      only-Holds (new_element l item 0) _ r,
    )
prepend-Holds l (m ∷ ns) item h =
    let r = new_element-IsReady l (m ∷ ns) item 0 h in
    let (l', run, h') = put_first-Holds (new_element l item 0) _ m ns r in
    (
      l',
      ap
            (λ o.
              if is_null o
              then ok (only (new_element l item 0) l.fresh)
              else put_first (new_element l item 0) l.fresh)
            h.starts
          ∙ run,
      h',
    )
