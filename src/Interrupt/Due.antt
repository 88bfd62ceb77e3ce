-- ===== src/Interrupt/Due.antt =====
-- The pending interrupts of machine/interrupt.cc: those that are due, and `Schedule`.
use pku_os_lab.Common.{
  ℕ, ◌+◌, ◌≤◌, ◌<◌, ◌≡◌, refl, ◌∙◌, ap, true, false, List, [], ◌∷◌, ◌++◌, ltb, leb, if◌then◌else◌,
  Run, ok, All, arith, lt→ltb,
}
use pku_os_lab.Threads.Lists.Chain.{Represents}
use pku_os_lab.Threads.Lists.Sequence.{Increasing, Placed, sorted_insert-Placed}
use pku_os_lab.Interrupt.{Interrupts, IntType, PendingInterrupt, put_object, schedule}

-- How many pending interrupts are due at a time.
abbrev pub due : ℕ → List (ℕ × ℕ) → ℕ
due time [] = 0
due time (x ∷ xs) = (if leb x.1 time then 1 else 0) + due time xs

-- The pending interrupts are `xs`, in order of time, and interrupts are off.
pub record Holds (i : Interrupts) (xs : List (ℕ × ℕ)) : Type 0 where
  pub represents : Represents i.pending xs
  pub increasing : Increasing xs
  pub off : i.level ≡ false

-- What a handler may do, called with `i`: interrupts stay off, the time is the same, and what it
-- schedules is for later times only.
pub data Handled (i : Interrupts) (xs : List (ℕ × ℕ)) : Run Interrupts → Type 0 where
  returns :
      (i' : Interrupts) (ys : List (ℕ × ℕ))
      → Holds i' ys
      → i'.total_ticks ≡ i.total_ticks
      → due i.total_ticks ys ≡ due i.total_ticks xs
      → Handled i xs (ok i')

due-append : (time : ℕ) (xs ys : List (ℕ × ℕ)) → due time (xs ++ ys) ≡ due time xs + due time ys
due-append time [] ys = omega arith
due-append time (x ∷ xs) ys = omega (arith, due-append time xs ys)

pub due-Placed :
    (time : ℕ) (x : ℕ × ℕ) (xs ys : List (ℕ × ℕ))
    → Placed x xs ys
    → due time ys ≡ (if leb x.1 time then 1 else 0) + due time xs
due-Placed time x xs ys p =
    ap (due time) p.now
    ∙ omega (
      arith,
      due-append time p.before (x ∷ p.after),
      due-append time p.before p.after,
      ap (due time) p.was,
    )

-- Later interrupts are not due.
pub due-later :
    (time k : ℕ) (xs : List (ℕ × ℕ)) → time < k → All (λ (y : ℕ × ℕ). k ≤ y.1) xs → due time xs ≡ 0
due-later time k [] lt h = refl
due-later time k (x ∷ xs) lt h = ground (arith, lt, h.0, due-later time k xs lt h.1)

pub All-later :
    (time : ℕ) (xs : List (ℕ × ℕ)) → due time xs ≡ 0 → All (λ (y : ℕ × ℕ). time < y.1) xs
All-later time [] h = tt
All-later time (x ∷ xs) h = (ground (arith, h), All-later time xs (omega (arith, h)))

-- What `Schedule` leaves: the new interrupt stands in its place, and nothing else is changed.
pub record Scheduled (i : Interrupts) (xs : List (ℕ × ℕ)) (from_now : ℕ) (r : Run Interrupts)
    : Type 0 where
  pub i' : Interrupts
  pub ys : List (ℕ × ℕ)
  pub runs : r ≡ ok i'
  pub holds : Holds i' ys
  pub placed : Placed (i.fresh, i.total_ticks + from_now) xs ys
  pub same_time : i'.total_ticks ≡ i.total_ticks
  pub same_status : i'.status ≡ i.status
  pub same_handler : i'.in_handler ≡ i.in_handler
  pub same_yields : i'.yields ≡ i.yields

pub schedule-Scheduled :
    (i : Interrupts) (xs : List (ℕ × ℕ)) (handler arg from_now : ℕ) (kind : IntType)
    → Holds i xs
    → 0 < from_now
    → Scheduled i xs from_now (schedule i handler arg from_now kind)
unfolding schedule
schedule-Scheduled i xs handler arg from_now kind h later =
    let (l', ys, run, rep, inc, placed) =
      sorted_insert-Placed i.pending xs i.fresh (i.total_ticks + from_now) h.represents
        h.increasing in
    let positive : ltb 0 from_now ≡ true = lt→ltb 0 from_now later in
    let to_occur : PendingInterrupt = record {
      handler = handler;
      arg = arg;
      due_time = i.total_ticks + from_now;
      kind = kind;
    } in
    let state : Interrupts = record i {
      pending = l';
      objects = put_object i.objects i.fresh to_occur;
      fresh = i.fresh + 1;
    } in
    record {
      i' = state;
      ys = ys;
      runs = rw (positive, run) refl;
      holds = record { represents = rep; increasing = inc; off = h.off };
      placed = placed;
      same_time = refl;
      same_status = refl;
      same_handler = refl;
      same_yields = refl;
    }

-- To put in a later interrupt makes none due.
pub due-later_Placed :
    (time item k : ℕ) (xs ys : List (ℕ × ℕ))
    → 0 < k
    → Placed (item, time + k) xs ys
    → due time ys ≡ due time xs
due-later_Placed time item k xs ys later placed =
    due-Placed time (item, time + k) xs ys placed ∙ ground (arith, later)

-- `Schedule` for a positive time behaves as a handler must.
pub schedule-Handled :
    (i : Interrupts) (xs : List (ℕ × ℕ)) (handler arg from_now : ℕ) (kind : IntType)
    → Holds i xs
    → 0 < from_now
    → Handled i xs (schedule i handler arg from_now kind)
schedule-Handled i xs handler arg from_now kind h later =
    let s = schedule-Scheduled i xs handler arg from_now kind h later in
    rw s.runs (
      returns s.i' s.ys s.holds s.same_time
        (due-later_Placed i.total_ticks i.fresh from_now xs s.ys later s.placed))
