-- ===== src/Threads/Lists/Queue.antt =====
-- The operations of threads/list.cc at the two ends of a list.
use pku_os_lab.Common.{
  ℕ, ◌+◌, ◌<◌, ◌≡◌, refl, ◌∙◌, ap, false, List, [], ◌∷◌, Option, none, some, length, arith, ok,
  ◌>>=◌,
}
use pku_os_lab.Threads.Lists.{
  ListElement, Cells, ListState, put_cell, set_next, new_element, only, put_first,
}
use pku_os_lab.Threads.Lists.Chain.{
  Node, start, last_of, element, Linked, stands_at, Apart, Holds, Linked-put, stands_at-fresh,
  Apart-more,
}

-- The element `n` is allocated and on no list, and the list holds `ns`.
pub record IsReady (l : ListState) (n : Node) (ns : List Node) : Type 0 where
  pub starts : l.first ≡ start ns
  pub ends : l.last ≡ last_of ns
  pub counts : l.num_in_list ≡ length ns
  pub linked : Linked l.cells ns
  pub alone : l.cells n.addr ≡ some (element n none)
  pub outside : stands_at n.addr ns ≡ false
  pub below : n.addr < l.fresh
  pub apart : Apart l.fresh ns

abbrev pub node : ℕ → ℕ → ℕ → Node
node a item key = record { addr = a; item = item; key = key }

pub new_element-IsReady :
    (l : ListState) (ns : List Node) (item key : ℕ)
    → Holds l ns
    → IsReady (new_element l item key) (node l.fresh item key) ns
new_element-IsReady l ns item key h = record {
  starts = h.starts;
  ends = h.ends;
  counts = h.counts;
  linked = Linked-put l.cells l.fresh _ ns (stands_at-fresh l.fresh ns h.apart) h.linked;
  alone = ground arith;
  outside = stands_at-fresh l.fresh ns h.apart;
  below = omega arith;
  apart = Apart-more l.fresh ns h.apart;
}

pub only-Holds : (l : ListState) (n : Node) → IsReady l n [] → Holds (only l n.addr) (n ∷ [])
only-Holds l n r = record {
  starts = refl;
  ends = refl;
  counts = omega (arith, r.counts);
  linked = (r.alone, tt);
  apart = (r.below, (refl, tt));
}

pub set_next-stored :
    (cells : Cells) (a : ℕ) (e : ListElement) (next : Option ℕ)
    → cells a ≡ some e
    → set_next cells a next ≡ ok (put_cell cells a (some (record e { next = next })))
set_next-stored cells a e next h = rw h refl

pub put_self : (cells : Cells) (a : ℕ) (e : Option ListElement) → put_cell cells a e a ≡ e
put_self cells a e = ground arith

-- The list after `put_first`.
abbrev fronted : ListState → Node → ListState
fronted l n = record l {
  first = some n.addr;
  num_in_list = l.num_in_list + 1;
  cells = put_cell l.cells n.addr (some (element n l.first));
}

put_first-runs :
    (l : ListState) (n : Node)
    → l.cells n.addr ≡ some (element n none)
    → put_first l n.addr ≡ ok (fronted l n)
put_first-runs l n alone =
    ap
      (λ r. r >>= λ cells.
        ok (record l { first = some n.addr; num_in_list = l.num_in_list + 1; cells = cells }))
      (set_next-stored l.cells n.addr _ l.first alone)

pub put_first-Holds :
    (l : ListState) (n m : Node) (ns : List Node)
    → IsReady l n (m ∷ ns)
    → (l' : ListState) × (put_first l n.addr ≡ ok l') × Holds l' (n ∷ (m ∷ ns))
put_first-Holds l n m ns r = (
  fronted l n,
  put_first-runs l n r.alone,
  record {
    starts = refl;
    ends = r.ends;
    counts = omega (arith, r.counts);
    linked = (
      put_self l.cells n.addr _ ∙ ap (λ o. some (element n o)) r.starts,
      Linked-put l.cells n.addr _ (m ∷ ns) r.outside r.linked,
    );
    apart = (r.below, (r.outside, r.apart));
  },
)
