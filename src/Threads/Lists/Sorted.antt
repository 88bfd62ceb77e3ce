-- ===== src/Threads/Lists/Sorted.antt =====
-- `SortedInsert` of threads/list.cc at the level of the elements.
use pku_os_lab.Common.{
  ℕ, zero, suc, ◌<◌, ◌≡◌, refl, ◌∙◌, ap, Bool, true, false, List, [], ◌∷◌, ◌++◌, Option, none, some,
  length, ◌==◌, ltb, arith, if◌then◌else◌, Run, ok, aborted, Bool-cases, inl, inr,
}
use pku_os_lab.Threads.Lists.{Cells, put_cell, place, walk}
use pku_os_lab.Threads.Lists.Chain.{Node, last_of, element, Linked, stands_at, Apart, Linked-put}
use pku_os_lab.Threads.Lists.Queue.{put_self}

-- `n` goes before the first element with a larger key.
abbrev pub insert : Node → List Node → List Node
insert n [] = n ∷ []
insert n (m ∷ ns) = if ltb n.key m.key then n ∷ (m ∷ ns) else m ∷ insert n ns

-- What the loop does from the element `m` on, which does not come after `n`.
pub data Walked (cells : Cells) (n m : Node) (ns : List Node) : Run (Bool × Cells) → Type 0 where
  inserted :
      (cells' : Cells)
      → Linked cells' (m ∷ insert n ns)
      → ((b : ℕ) → stands_at b (m ∷ ns) ≡ false → (n.addr == b) ≡ false → cells' b ≡ cells b)
      → last_of (m ∷ insert n ns) ≡ last_of (m ∷ ns)
      → Walked cells n m ns (ok (true, cells'))
  at_end : insert n ns ≡ ns ++ (n ∷ []) → Walked cells n m ns (ok (false, cells))

-- The step over `m`.
Walked-step :
    (cells : Cells) (fresh : ℕ) (n m k : Node) (ns : List Node) (r : Run (Bool × Cells))
    → Linked cells (m ∷ (k ∷ ns))
    → Apart fresh (m ∷ (k ∷ ns))
    → stands_at n.addr (m ∷ (k ∷ ns)) ≡ false
    → ltb n.key k.key ≡ false
    → Walked cells n k ns r
    → Walked cells n m (k ∷ ns) r
Walked-step cells fresh n m k ns (ok _) linked apart out later
      (inserted cells' linked' frame ends) =
    inserted cells'
      (rw later (frame m.addr apart.1.0 (ground (arith, out)) ∙ linked.0), rw later linked')
      (λ b o e. frame b (ground arith) e) (rw later ends)
Walked-step cells fresh n m k ns (ok _) linked apart out later (at_end is) =
    at_end (rw later (ap (λ xs. k ∷ xs) is))
Walked-step cells fresh n m k ns aborted linked apart out later h = elim h [ ]

-- The step that puts `n` between `m` and `k`.
between :
    (cells : Cells) (fresh : ℕ) (n m k : Node) (ns : List Node)
    → Linked cells (m ∷ (k ∷ ns))
    → Apart fresh (m ∷ (k ∷ ns))
    → cells n.addr ≡ some (element n none)
    → stands_at n.addr (m ∷ (k ∷ ns)) ≡ false
    → ltb n.key k.key ≡ true
    → Walked cells n m (k ∷ ns) (
        ok (
          true,
          put_cell
              (put_cell cells n.addr (some (element n (some k.addr))))
              m.addr
              (some (element m (some n.addr))),
        ))
between cells fresh n m k ns linked apart alone out earlier =
    let first = put_cell cells n.addr (some (element n (some k.addr))) in
    inserted _
      (rw earlier (
        put_self first m.addr _,
        (
          ground (arith, out),
          Linked-put first m.addr _ (k ∷ ns) apart.1.0
              (Linked-put cells n.addr _ (k ∷ ns) (ground (arith, out)) linked.1),
        ),
      ))
      (λ b o e. ground (arith, o, e)) (rw earlier refl)

place-runs :
    (cells : Cells) (n m k : Node) (ns : List Node) (next : Option ℕ)
    (rest : ℕ → Run (Bool × Cells))
    → cells k.addr ≡ some (element k next)
    → cells n.addr ≡ some (element n none)
    → cells m.addr ≡ some (element m (some k.addr))
    → (n.addr == m.addr) ≡ false
    → place cells m.addr (some k.addr) n.addr n.key rest ≡ (
        if ltb n.key k.key
        then ok (
          true,
          put_cell
              (put_cell cells n.addr (some (element n (some k.addr))))
              m.addr
              (some (element m (some n.addr))),
        )
        else rest k.addr)
place-runs cells n m k ns next rest ck cn cm other = rw (ck, cn, other, cm) refl

pub walk-Walked :
    (fuel : ℕ) (cells : Cells) (fresh : ℕ) (n m : Node) (ns : List Node)
    → length ns < fuel
    → Linked cells (m ∷ ns)
    → Apart fresh (m ∷ ns)
    → cells n.addr ≡ some (element n none)
    → stands_at n.addr (m ∷ ns) ≡ false
    → Walked cells n m ns (walk fuel cells m.addr n.addr n.key)
unfolding walk
walk-Walked zero cells fresh n m ns lt linked apart alone out = absurd (omega arith)
walk-Walked (suc fuel) cells fresh n m [] lt linked apart alone out = rw linked.0 (at_end refl)
walk-Walked (suc fuel) cells fresh n m (k ∷ ks) lt linked apart alone out =
    rw
      (
        linked.0,
        place-runs cells n m k ks _ (λ q. walk fuel cells q n.addr n.key) linked.1.0 alone linked.0
            (ground (arith, out)),
      )
      (elim (Bool-cases (ltb n.key k.key)) [
        | inl earlier ↦ rw earlier (between cells fresh n m k ks linked apart alone out earlier)
        | inr later ↦ rw later (
            Walked-step cells fresh n m k ks _ linked apart out later (
              walk-Walked fuel cells fresh n k ks (omega (arith, lt)) linked.1 apart.1.1 alone
                (ground (arith, out))))
      ])
