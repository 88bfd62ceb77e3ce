-- ===== src/Threads/Lists/Unlink.antt =====
-- The loop of `Remove(item)` of threads/list.cc, at the level of the elements.
use pku_os_lab.Common.{
  ℕ, zero, suc, ◌<◌, ◌≡◌, refl, ◌∙◌, Bool, true, false, ◌||◌, List, [], ◌∷◌, Option, none, some,
  length, ◌==◌, arith, if◌then◌else◌, Run, ok, Bool-cases, inl, inr,
}
use pku_os_lab.Threads.Lists.{Cells, put_cell, is_null, unlink_at, unlink}
use pku_os_lab.Threads.Lists.Chain.{
  Node, start, last_of, element, Linked, stands_at, Apart, Linked-put,
}
use pku_os_lab.Threads.Lists.Queue.{put_self}

abbrev pub holds_item : ℕ → List Node → Bool
holds_item item [] = false
holds_item item (n ∷ ns) = item == n.item || holds_item item ns

-- The chain without the first element that has the item.
abbrev pub drop_item : ℕ → List Node → List Node
drop_item item [] = []
drop_item item (n ∷ ns) = if item == n.item then ns else n ∷ drop_item item ns

-- What the loop does behind the element `m`.
pub data Unlinked (cells : Cells) (m : Node) (ns : List Node) (item : ℕ)
    : Run (Option (Cells × Bool × ℕ)) → Type 0 where
  nowhere : holds_item item ns ≡ false → Unlinked cells m ns item (ok none)
  unlinked :
      (cells' : Cells) (at_end : Bool) (prev : ℕ)
      → holds_item item ns ≡ true
      → Linked cells' (m ∷ drop_item item ns)
      → ((b : ℕ) → stands_at b (m ∷ ns) ≡ false → cells' b ≡ cells b)
      → (if at_end then some prev else last_of (m ∷ ns)) ≡ last_of (m ∷ drop_item item ns)
      → Unlinked cells m ns item (ok (some (cells', at_end, prev)))

-- The step over `k`.
unlink_step :
    (cells : Cells) (fresh item : ℕ) (m k : Node) (ns : List Node)
    (r : Run (Option (Cells × Bool × ℕ)))
    → Linked cells (m ∷ (k ∷ ns))
    → Apart fresh (m ∷ (k ∷ ns))
    → (item == k.item) ≡ false
    → Unlinked cells k ns item r
    → Unlinked cells m (k ∷ ns) item r
unlink_step cells fresh item m k ns _ linked apart other (nowhere none_there) =
    nowhere (rw other none_there)
unlink_step cells fresh item m k ns _ linked apart other
      (unlinked cells' at_end prev there linked' frame ends) =
    unlinked cells' at_end prev (rw other there)
      (rw other (frame m.addr apart.1.0 ∙ linked.0, linked')) (λ b o. frame b (ground arith))
      (rw other ends)

-- The step that takes `k` out.
take_out :
    (cells : Cells) (fresh item : ℕ) (m k : Node) (ns : List Node)
    → Linked cells (m ∷ (k ∷ ns))
    → Apart fresh (m ∷ (k ∷ ns))
    → (item == k.item) ≡ true
    → Unlinked cells m (k ∷ ns) item (unlink_at cells m.addr k.addr (start ns))
take_out cells fresh item m k ns linked apart same =
    let first = put_cell cells m.addr (some (element m (start ns))) in
    rw linked.0 (
      unlinked _ _ _ (rw same refl)
        (rw same (
          ground (arith, apart.1.0, put_self cells m.addr (some (element m (start ns)))),
          Linked-put first k.addr none ns apart.1.1.1.0
              (Linked-put cells m.addr _ ns (ground (arith, apart.1.0)) linked.1.1),
        ))
        (λ b o. ground (arith, o)) (rw same (last_after ns)))
  where
    last_after :
        (ks : List Node)
        → (if is_null (start ks) then some m.addr else last_of (m ∷ (k ∷ ks))) ≡ last_of (m ∷ ks)
    last_after [] = refl
    last_after (j ∷ js) = refl

pub unlink-Unlinked :
    (fuel : ℕ) (cells : Cells) (fresh item : ℕ) (m : Node) (ns : List Node)
    → length ns < fuel
    → Linked cells (m ∷ ns)
    → Apart fresh (m ∷ ns)
    → Unlinked cells m ns item (unlink fuel cells m.addr (start ns) item)
unfolding unlink
unlink-Unlinked zero cells fresh item m ns lt linked apart = absurd (omega arith)
unlink-Unlinked (suc fuel) cells fresh item m [] lt linked apart = nowhere refl
unlink-Unlinked (suc fuel) cells fresh item m (k ∷ ks) lt linked apart =
    rw linked.1.0 (elim (Bool-cases (item == k.item)) [
      | inl same ↦ rw same (take_out cells fresh item m k ks linked apart same)
      | inr other ↦ rw other (
          unlink_step cells fresh item m k ks _ linked apart other
            (unlink-Unlinked fuel cells fresh item k ks (omega (arith, lt)) linked.1 apart.1.1))
    ])
