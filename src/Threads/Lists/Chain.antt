-- ===== src/Threads/Lists/Chain.antt =====
-- The sequence that a list of threads/list.cc holds.
use pku_os_lab.Common.{
  ℕ, ◌+◌, ◌<◌, ◌≡◌, refl, Bool, false, ◌||◌, List, [], ◌∷◌, Option, none, some, length, ◌==◌, arith,
}
use pku_os_lab.Threads.Lists.{ListElement, Cells, ListState, put_cell}

-- An element of the chain: where it stands, its item and its key.
pub record Node : Type 0 where
  pub addr : ℕ
  pub item : ℕ
  pub key : ℕ

-- The address of the first element, and of the last.
abbrev pub start : List Node → Option ℕ
start [] = none
start (n ∷ ns) = some n.addr

abbrev pub last_of : List Node → Option ℕ
last_of [] = none
last_of (n ∷ []) = some n.addr
last_of (n ∷ (m ∷ ns)) = last_of (m ∷ ns)

abbrev pub element : Node → Option ℕ → ListElement
element n next = record { item = n.item; key = n.key; next = next }

-- Each element stands at its address and points to the next one.
abbrev pub Linked : Cells → List Node → Type 0
Linked cells [] = Unit
Linked cells (n ∷ ns) = (cells n.addr ≡ some (element n (start ns))) × Linked cells ns

abbrev pub stands_at : ℕ → List Node → Bool
stands_at a [] = false
stands_at a (n ∷ ns) = a == n.addr || stands_at a ns

-- The addresses are different and below `fresh`.
abbrev pub Apart : ℕ → List Node → Type 0
Apart fresh [] = Unit
Apart fresh (n ∷ ns) = (n.addr < fresh) × ((stands_at n.addr ns ≡ false) × Apart fresh ns)

-- The list holds the elements `ns`, in this order.
pub record Holds (l : ListState) (ns : List Node) : Type 0 where
  pub starts : l.first ≡ start ns
  pub ends : l.last ≡ last_of ns
  pub counts : l.num_in_list ≡ length ns
  pub linked : Linked l.cells ns
  pub apart : Apart l.fresh ns

-- The pairs of an item and its key.
abbrev pub content : Node → ℕ × ℕ
content n = (n.item, n.key)

abbrev pub contents : List Node → List (ℕ × ℕ)
contents [] = []
contents (n ∷ ns) = content n ∷ contents ns

-- The list holds the sequence `xs`.
pub record Represents (l : ListState) (xs : List (ℕ × ℕ)) : Type 0 where
  pub nodes : List Node
  pub holds : Holds l nodes
  pub is : contents nodes ≡ xs

-- A write to a cell where no element of the chain stands.
pub Linked-put :
    (cells : Cells) (a : ℕ) (e : Option ListElement) (ns : List Node)
    → stands_at a ns ≡ false
    → Linked cells ns
    → Linked (put_cell cells a e) ns
Linked-put cells a e [] out h = tt
Linked-put cells a e (n ∷ ns) out h =
    (ground (arith, h.0), Linked-put cells a e ns (ground arith) h.1)

-- An address from `fresh` on is free.
pub stands_at-fresh : (fresh : ℕ) (ns : List Node) → Apart fresh ns → stands_at fresh ns ≡ false
stands_at-fresh fresh [] h = refl
stands_at-fresh fresh (n ∷ ns) h = ground (arith, h.0, stands_at-fresh fresh ns h.1.1)

pub Apart-more : (fresh : ℕ) (ns : List Node) → Apart fresh ns → Apart (fresh + 1) ns
Apart-more fresh [] h = tt
Apart-more fresh (n ∷ ns) h = (omega (arith, h.0), (h.1.0, Apart-more fresh ns h.1.1))
