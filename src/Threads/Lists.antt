-- ===== src/Threads/Lists.antt =====
-- threads/list.h and list.cc: `List`, a singly linked list, with the store that its elements stand in.
-- An address is a number and NULL is `none`; `new` takes the next address, and an element that was
-- deleted is `none`, so that a use of it aborts. An item is a number that stands for a pointer.
pub mod Chain
pub mod Queue
pub mod Ends
pub mod Remove
pub mod Sorted
pub mod Insert
pub mod Unlink
pub mod Sequence
pub mod Extract
pub mod Example
mod Tests
use pku_os_lab.Common.{
  ℕ, zero, suc, ◌+◌, ◌-◌, Bool, true, false, Option, none, some, ltb, ◌==◌, if◌then◌else◌, Run, ok,
  aborted, ◌>>=◌, ◌>>◌, assert,
}

pub record ListElement : Type 0 where
  pub item : ℕ
  pub key : ℕ
  pub next : Option ℕ

abbrev pub Cells : Type 0
Cells = ℕ → Option ListElement

pub record ListState : Type 0 where
  pub first : Option ℕ
  pub last : Option ℕ
  pub num_in_list : ℕ
  pub cells : Cells
  pub fresh : ℕ

abbrev pub put_cell : Cells → ℕ → Option ListElement → Cells
put_cell cells a e b = if a == b then e else cells b

-- The pointer `p`, where the code follows it.
abbrev pub deref : Option ℕ → Run ℕ
deref none = aborted
deref (some a) = ok a

abbrev pub stored : Option ListElement → Run ListElement
stored none = aborted
stored (some e) = ok e

-- `p->next = next`
abbrev pub set_next : Cells → ℕ → Option ℕ → Run Cells
set_next cells a next = do
  e ← stored (cells a)
  ok (put_cell cells a (some (record e { next = next })))

-- `List::List`, in a store whose addresses from `fresh` on are unused
pub new_list : Cells → ℕ → ListState
new_list cells fresh = record {
  first = none;
  last = none;
  num_in_list = 0;
  cells = cells;
  fresh = fresh;
}

-- `first == NULL`
abbrev pub is_null : Option ℕ → Bool
is_null none = true
is_null (some a) = false

pub is_empty : ListState → Bool
is_empty l = is_null l.first

-- `new ListElement(item, key)`; the element is at the address that was `fresh`.
abbrev pub new_element : ListState → ℕ → ℕ → ListState
new_element l item key = record l {
  cells = put_cell l.cells l.fresh (some (record { item = item; key = key; next = none }));
  fresh = l.fresh + 1;
}

-- The list of the element at `a` alone.
abbrev pub only : ListState → ℕ → ListState
only l a = record l { first = some a; last = some a; num_in_list = l.num_in_list + 1 }

-- `last->next = element; last = element;`
abbrev pub put_last : ListState → ℕ → Run ListState
put_last l a = do
  p ← deref l.last
  cells ← set_next l.cells p (some a)
  ok (record l { last = some a; num_in_list = l.num_in_list + 1; cells = cells })

-- `element->next = first; first = element;`
abbrev pub put_first : ListState → ℕ → Run ListState
put_first l a = do
  cells ← set_next l.cells a l.first
  ok (record l { first = some a; num_in_list = l.num_in_list + 1; cells = cells })

pub append : ListState → ℕ → Run ListState
append l item =
    let l' = new_element l item 0 in
    if is_null l.first then ok (only l' l.fresh) else put_last l' l.fresh

pub prepend : ListState → ℕ → Run ListState
prepend l item =
    let l' = new_element l item 0 in
    if is_null l.first then ok (only l' l.fresh) else put_first l' l.fresh

-- What the loop of `SortedInsert` does at the element before `q`: `rest` is the loop from `q` on.
abbrev pub place : Cells → ℕ → Option ℕ → ℕ → ℕ → (ℕ → Run (Bool × Cells)) → Run (Bool × Cells)
place cells ptr none element key rest = ok (false, cells)
place cells ptr (some q) element key rest = do
  after ← stored (cells q)
  if ltb key after.key
      then (do
        cells₁ ← set_next cells element (some q)
        cells₂ ← set_next cells₁ ptr (some element)
        ok (true, cells₂))
      else rest q

-- `for (ptr = first; ptr->next != NULL; ptr = ptr->next)` of `SortedInsert`, with fuel: whether it
-- returned from the middle of the list, and the store.
unfoldable pub walk : ℕ → Cells → ℕ → ℕ → ℕ → Run (Bool × Cells)
walk zero cells ptr element key = aborted
walk (suc n) cells ptr element key = do
  e ← stored (cells ptr)
  place cells ptr e.next element key (λ q. walk n cells q element key)

abbrev pub after_walk : ListState → ℕ → Bool × Cells → Run ListState
after_walk l element (true, cells) =
    ok (record l { num_in_list = l.num_in_list + 1; cells = cells })
after_walk l element (false, cells) = put_last (record l { cells = cells }) element

pub sorted_insert : ListState → ℕ → ℕ → Run ListState
sorted_insert l item key =
    let l' = new_element l item key in
    if is_null l.first then ok (only l' l.fresh) else (do
      f ← deref l.first
      e ← stored (l'.cells f)
      if ltb key e.key
          then put_first l' l.fresh
          else (do r ← walk l.num_in_list l'.cells f l.fresh key; after_walk l' l.fresh r))

-- `first == last`
abbrev pub same_address : Option ℕ → Option ℕ → Bool
same_address none none = true
same_address none (some b) = false
same_address (some a) none = false
same_address (some a) (some b) = a == b

-- `SortedRemove`: the item and its key, or NULL.
pub sorted_remove : ListState → Run (Option (ℕ × ℕ) × ListState)
sorted_remove l = if is_null l.first then ok (none, l) else (do
  f ← deref l.first
  e ← stored (l.cells f)
  let gone = put_cell l.cells f none
  let one = same_address l.first l.last
  ok (
    some (e.item, e.key),
    record l {
      first = if one then none else e.next;
      last = if one then none else l.last;
      num_in_list = l.num_in_list - 1;
      cells = gone;
    },
  ))

-- The item that `Remove()` returns.
abbrev pub item_of : Option (ℕ × ℕ) → Option ℕ
item_of none = none
item_of (some (item, key)) = some item

-- `Remove()`
unfoldable pub remove_first : ListState → Run (Option ℕ × ListState)
remove_first l = do (r, l') ← sorted_remove l; ok (item_of r, l')

-- `prev->next = ptr->next; ... delete ptr;`: the store, whether `prev` is now the last element, and `prev`.
abbrev pub unlink_at : Cells → ℕ → ℕ → Option ℕ → Run (Option (Cells × Bool × ℕ))
unlink_at cells prev ptr next = do
  cells' ← set_next cells prev next
  ok (some (put_cell cells' ptr none, is_null next, prev))

-- The loop of `Remove(item)`, with fuel; nothing when it has reached the end.
unfoldable pub unlink : ℕ → Cells → ℕ → Option ℕ → ℕ → Run (Option (Cells × Bool × ℕ))
unlink zero cells prev ptr item = aborted
unlink (suc n) cells prev none item = ok none
unlink (suc n) cells prev (some ptr) item = do
  e ← stored (cells ptr)
  let rest = unlink n cells ptr e.next item
  if item == e.item then unlink_at cells prev ptr e.next else rest

-- `ASSERT(ptr != NULL)`
abbrev pub after_unlink : ListState → Option (Cells × Bool × ℕ) → Run ListState
after_unlink l none = aborted
after_unlink l (some (cells, at_end, prev)) = ok (record l {
  last = if at_end then some prev else l.last;
  cells = cells;
  num_in_list = l.num_in_list - 1;
})

-- `ASSERT(item == removed)`
abbrev pub after_first : ℕ → Option ℕ × ListState → Run ListState
after_first item (none, l) = aborted
after_first item (some removed, l) = assert (item == removed) >> ok l

-- `Remove(item)`
unfoldable pub remove_item : ListState → ℕ → Run ListState
remove_item l item = do
  f ← deref l.first
  e ← stored (l.cells f)
  if item == e.item
      then (do r ← remove_first l; after_first item r)
      else (do o ← unlink l.num_in_list l.cells f e.next item; after_unlink l o)
