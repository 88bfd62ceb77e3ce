-- ===== src/Interrupt/Loop.antt =====
-- `CheckIfDue` of machine/interrupt.cc, and the loop that calls it.
use pku_os_lab.Common.{
  ℕ, zero, suc, ◌+◌, ◌≤◌, ◌<◌, ◌≡◌, refl, ◌∙◌, Bool, true, false, not, List, [], ◌∷◌, Option, ltb,
  if◌then◌else◌, Run, ok, ◌>>=◌, ◌>>◌, assert, All, arith, Bool-cases, inl, inr,
}
use pku_os_lab.Threads.Lists.{ListState}
use pku_os_lab.Threads.Lists.Sequence.{
  Removed, nothing, first, sorted_remove-Removed, sorted_insert-Placed,
}
use pku_os_lab.Interrupt.{
  Interrupts, system_mode, is_idle, put_back, fire, reached, found, check_if_due, check_all,
}
use pku_os_lab.Interrupt.Due.{due, Holds, Handled, returns, due-Placed, due-later, All-later}

-- What `CheckIfDue(FALSE)` may do with the pending interrupts `xs`, unless the machine is idle.
pub data Checked (i : Interrupts) (xs : List (ℕ × ℕ)) : Run (Bool × Interrupts) → Type 0 where
  waits :
      (i' : Interrupts) (ys : List (ℕ × ℕ))
      → Holds i' ys
      → i'.total_ticks ≡ i.total_ticks
      → due i.total_ticks ys ≡ 0
      → Checked i xs (ok (false, i'))
  fires :
      (i' : Interrupts) (ys : List (ℕ × ℕ))
      → Holds i' ys
      → i'.total_ticks ≡ i.total_ticks
      → i'.status ≡ i.status
      → suc (due i.total_ticks ys) ≡ due i.total_ticks xs
      → Checked i xs (ok (true, i'))

-- The state that the handler finds.
abbrev called : Interrupts → ListState → Interrupts
called i list = record i { pending = list; in_handler = true; status = system_mode }

-- What the loop leaves.
pub record Drained (i : Interrupts) (r : Run Interrupts) : Type 0 where
  pub i' : Interrupts
  pub ys : List (ℕ × ℕ)
  pub runs : r ≡ ok i'
  pub holds : Holds i' ys
  pub same_time : i'.total_ticks ≡ i.total_ticks
  pub none_due : All (λ (y : ℕ × ℕ). i.total_ticks < y.1) ys

module _ (call : ℕ → ℕ → Interrupts → Run Interrupts) (yield_thread : Interrupts → Run Interrupts)
    (handlers : (h a : ℕ) (i : Interrupts) (xs : List (ℕ × ℕ))
      → Holds i xs
      → i.in_handler ≡ true
      → Handled i xs (call h a i)) where
  -- The handler has returned.
  fired-Checked :
      (i : Interrupts) (list : ListState) (item due_time : ℕ) (xs : List (ℕ × ℕ))
      (r : Run Interrupts)
      → due_time ≤ i.total_ticks
      → Handled (called i list) xs r
      → Checked i
          ((item, due_time) ∷ xs)
          (do i' ← r; ok (true, record i' { status = i.status; in_handler = false }))
  fired-Checked i list item due_time xs _ le (returns i' ys h same later) =
      fires _ ys (record { represents = h.represents; increasing = h.increasing; off = h.off }) same
        refl (ground (arith, le, later))

  removed-Checked :
      (i : Interrupts) (xs : List (ℕ × ℕ)) (r : Run (Option (ℕ × ℕ) × ListState))
      → Holds i xs
      → is_idle i.status ≡ false
      → Removed i.pending xs r
      → Checked i xs
          (do (o, list) ← r; found call yield_thread false o (record i { pending = list }))
  unfolding found put_back reached fire
  removed-Checked i _ _ h busy nothing =
      waits _ [] (record { represents = h.represents; increasing = tt; off = h.off }) refl refl
  removed-Checked i _ _ h busy (first x xs l' rep) =
      let h' : Holds (record i { pending = l' }) xs = record {
        represents = rep;
        increasing = h.increasing.1;
        off = h.off;
      } in
      elim (Bool-cases (ltb i.total_ticks x.1)) [
        | inl early ↦
            let (l'', ys, run, rep', inc, placed) =
              sorted_insert-Placed l' xs x.0 x.1 rep h.increasing.1 in
            let none_due : due i.total_ticks xs ≡ 0 =
              due-later i.total_ticks x.1 xs (ground (arith, early)) h.increasing.0 in
            rw (early, run)
              (waits _ ys (record { represents = rep'; increasing = inc; off = h.off }) refl
                (due-Placed i.total_ticks x xs ys placed ∙ ground (arith, early, none_due)))
        | inr late ↦
            rw (late, busy)
              (fired-Checked i l' x.0 x.1 xs _ (ground (arith, late)) (
                handlers _ _ (called i l') xs
                  (record { represents = rep; increasing = h.increasing.1; off = h.off }) refl))
      ]

  asserted :
      (i : Interrupts) (xs : List (ℕ × ℕ)) (level : Bool) (r : Run (Bool × Interrupts))
      → level ≡ false
      → Checked i xs r
      → Checked i xs (assert (not level) >> r)
  asserted i xs true r off c = absurd (cc)
  asserted i xs false r off c = c

  check_if_due-Checked :
      (i : Interrupts) (xs : List (ℕ × ℕ))
      → Holds i xs
      → is_idle i.status ≡ false
      → Checked i xs (check_if_due call yield_thread i false)
  unfolding check_if_due
  check_if_due-Checked i xs h busy =
      asserted i xs i.level _ h.off
        (removed-Checked i xs _ h busy (sorted_remove-Removed i.pending xs h.represents))

  -- One round, and the rounds after it.
  round-Drained :
      (fuel : ℕ) (i : Interrupts) (xs : List (ℕ × ℕ)) (r : Run (Bool × Interrupts))
      → is_idle i.status ≡ false
      → due i.total_ticks xs < suc fuel
      → Checked i xs r
      → ((i' : Interrupts) (ys : List (ℕ × ℕ))
          → Holds i' ys
          → is_idle i'.status ≡ false
          → due i'.total_ticks ys < fuel
          → Drained i' (check_all call yield_thread fuel i'))
      → Drained i (do (fired, i') ← r; if fired then check_all call yield_thread fuel i' else ok i')
  round-Drained fuel i xs _ busy enough (waits i' ys h same none_left) more = record {
    i' = i';
    ys = ys;
    runs = refl;
    holds = h;
    same_time = same;
    none_due = All-later i.total_ticks ys none_left;
  }
  round-Drained fuel i xs _ busy enough (fires i' ys h same status fewer) more =
      let d = more i' ys h (rw status busy) (rw same (omega (arith, enough, fewer))) in
      record {
        i' = d.i';
        ys = d.ys;
        runs = d.runs;
        holds = d.holds;
        same_time = d.same_time ∙ same;
        none_due = rw same at d.none_due;
      }

  check_all-rounds :
      (fuel : ℕ) (i : Interrupts) (xs : List (ℕ × ℕ))
      → Holds i xs
      → is_idle i.status ≡ false
      → due i.total_ticks xs < fuel
      → Drained i (check_all call yield_thread fuel i)
  unfolding check_all
  check_all-rounds zero i xs h busy enough = absurd (omega (arith, enough))
  check_all-rounds (suc fuel) i xs h busy enough =
      round-Drained fuel i xs _ busy enough (check_if_due-Checked i xs h busy)
        (check_all-rounds fuel)

  -- With interrupts off, the pending interrupts in order of time and a machine that is not idle, and with
  -- handlers that, called with `inHandler` set, keep interrupts off and the pending interrupts in order, do not
  -- change the time and schedule for later times only, the loop
  -- `while (CheckIfDue(FALSE))` ends within one round more than there are interrupts due. It follows no
  -- dangling pointer, the pending interrupts are then in order again, none of them is due, and the time is
  -- the one before.
  pub check_all-Drained :
      (i : Interrupts) (xs : List (ℕ × ℕ))
      → Holds i xs
      → is_idle i.status ≡ false
      → Drained i (check_all call yield_thread (due i.total_ticks xs + 1) i)
  check_all-Drained i xs h busy =
      check_all-rounds (due i.total_ticks xs + 1) i xs h busy (omega arith)
