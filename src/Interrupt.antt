-- ===== src/Interrupt.antt =====
-- machine/interrupt.h and interrupt.cc, as they are built without `USER_PROGRAM`: the pending interrupts
-- and the simulated time of machine/stats.h. A pending interrupt is a number, that of its object; the
-- handlers, which are pointers to functions of the devices, and `Thread::Yield` are parameters.
pub mod Due
pub mod Loop
pub mod Timer
pub mod Tick
mod Tests
use pku_os_lab.Common.{
  ℕ, zero, suc, ◌+◌, ◌-◌, Bool, true, false, not, ◌&&◌, ◌||◌, Option, none, some, ltb, ◌==◌,
  if◌then◌else◌, Run, ok, aborted, ◌>>=◌, ◌>>◌, assert,
}
use pku_os_lab.Threads.Lists.{ListState, new_list, sorted_insert, sorted_remove, is_empty, Cells}

pub data MachineStatus : Type 0 where
  idle_mode system_mode user_mode : MachineStatus

pub data IntType : Type 0 where
  timer_int disk_int console_write_int console_read_int elevator_int network_send_int
        network_recv_int :
      IntType

pub record PendingInterrupt : Type 0 where
  pub handler : ℕ
  pub arg : ℕ
  pub due_time : ℕ
  pub kind : IntType

-- `level` says whether interrupts are enabled. `objects` are the pending interrupts, and `fresh` the next new one.
pub record Interrupts : Type 0 where
  pub level : Bool
  pub pending : ListState
  pub in_handler : Bool
  pub yields : Bool
  pub status : MachineStatus
  pub objects : ℕ → PendingInterrupt
  pub fresh : ℕ
  pub total_ticks : ℕ
  pub idle_ticks : ℕ
  pub system_ticks : ℕ
  pub user_ticks : ℕ

-- `UserTick` and `SystemTick`
abbrev pub user_tick : ℕ
user_tick = 1

abbrev pub system_tick : ℕ
system_tick = 10

abbrev pub is_idle : MachineStatus → Bool
is_idle idle_mode = true
is_idle system_mode = false
is_idle user_mode = false

abbrev pub is_system : MachineStatus → Bool
is_system idle_mode = false
is_system system_mode = true
is_system user_mode = false

abbrev pub is_timer : IntType → Bool
is_timer timer_int = true
is_timer disk_int = false
is_timer console_write_int = false
is_timer console_read_int = false
is_timer elevator_int = false
is_timer network_send_int = false
is_timer network_recv_int = false

-- The constructor, at the start of the simulated time.
unfoldable pub new_interrupts : Cells → (ℕ → PendingInterrupt) → Interrupts
new_interrupts cells objects = record {
  level = false;
  pending = new_list cells 0;
  in_handler = false;
  yields = false;
  status = system_mode;
  objects = objects;
  fresh = 0;
  total_ticks = 0;
  idle_ticks = 0;
  system_ticks = 0;
  user_ticks = 0;
}

unfoldable pub change_level : Interrupts → Bool → Interrupts
change_level i now = record i { level = now }

unfoldable pub yield_on_return : Interrupts → Run Interrupts
yield_on_return i = assert i.in_handler >> ok (record i { yields = true })

abbrev pub put_object : (ℕ → PendingInterrupt) → ℕ → PendingInterrupt → ℕ → PendingInterrupt
put_object objects a p b = if a == b then p else objects b

unfoldable pub schedule : Interrupts → ℕ → ℕ → ℕ → IntType → Run Interrupts
schedule i handler arg from_now kind =
    let due_time = i.total_ticks + from_now in
    let to_occur : PendingInterrupt = record {
      handler = handler;
      arg = arg;
      due_time = due_time;
      kind = kind;
    } in
    assert (ltb 0 from_now) >> (do
      list ← sorted_insert i.pending i.fresh due_time
      ok (record i {
        pending = list;
        objects = put_object i.objects i.fresh to_occur;
        fresh = i.fresh + 1;
      }))

-- `pending->SortedInsert(toOccur, when); return FALSE;`
unfoldable pub put_back : Interrupts → ℕ → ℕ → Run (Bool × Interrupts)
put_back i item due_time = do
  list ← sorted_insert i.pending item due_time
  ok (false, record i { pending = list })

-- `call handler arg` is the handler's code, and `yield_thread` is `Thread::Yield`.
module _ (call : ℕ → ℕ → Interrupts → Run Interrupts)
    (yield_thread : Interrupts → Run Interrupts) where
  -- The handler is called.
  unfoldable pub fire : Interrupts → ℕ → Run (Bool × Interrupts)
  fire i item = do
    i' ←
        call (i.objects item).handler (i.objects item).arg
          (record i { in_handler = true; status = system_mode })
    ok (true, record i' { status = i.status; in_handler = false })

  -- It is time, by the clock: is there nothing more to do but the timer's interrupt?
  unfoldable pub reached : Interrupts → ℕ → ℕ → Run (Bool × Interrupts)
  reached i item due_time =
      if is_idle i.status && is_timer (i.objects item).kind && is_empty i.pending
      then put_back i item due_time
      else fire i item

  -- What `SortedRemove` gave, and the state without it.
  unfoldable pub found : Bool → Option (ℕ × ℕ) → Interrupts → Run (Bool × Interrupts)
  found advance_clock none i = ok (false, i)
  found advance_clock (some (item, due_time)) i =
      if advance_clock && ltb i.total_ticks due_time
      then reached
          (record i {
            idle_ticks = i.idle_ticks + (due_time - i.total_ticks);
            total_ticks = due_time;
          })
          item due_time
      else if ltb i.total_ticks due_time
      then put_back i item due_time
      else reached i item due_time

  unfoldable pub check_if_due : Interrupts → Bool → Run (Bool × Interrupts)
  check_if_due i advance_clock = assert (not i.level) >> (do
    (o, list) ← sorted_remove i.pending
    found advance_clock o (record i { pending = list }))

  -- `while (CheckIfDue(FALSE)) ;`
  unfoldable pub check_all : ℕ → Interrupts → Run Interrupts
  check_all zero i = aborted
  check_all (suc fuel) i = do
    (fired, i') ← check_if_due i false
    let rest = check_all fuel i'
    if fired then rest else ok i'

  -- The time that passes.
  abbrev pub ticked : Interrupts → Interrupts
  ticked i =
      if is_system i.status
      then record i {
        total_ticks = i.total_ticks + system_tick;
        system_ticks = i.system_ticks + system_tick;
      }
      else record i {
        total_ticks = i.total_ticks + user_tick;
        user_ticks = i.user_ticks + user_tick;
      }

  abbrev pub yields_now : MachineStatus → Interrupts → Run Interrupts
  yields_now old i = do
    i' ← yield_thread (record i { yields = false; status = system_mode })
    ok (record i' { status = old })

  unfoldable pub one_tick : ℕ → Interrupts → Run Interrupts
  unfolding change_level
  one_tick fuel i = do
    i' ← check_all fuel (change_level (ticked i) false)
    let on = change_level i' true
    if on.yields then yields_now i.status on else ok on

  -- The old level and the new state.
  unfoldable pub set_level : ℕ → Interrupts → Bool → Run (Bool × Interrupts)
  unfolding change_level
  set_level fuel i now =
      assert (not now || not i.in_handler)
      >> (if now && not i.level
          then (do i' ← one_tick fuel (change_level i now); ok (i.level, i'))
          else ok (i.level, change_level i now))

  unfoldable pub enable : ℕ → Interrupts → Run Interrupts
  enable fuel i = do (old, i') ← set_level fuel i true; ok i'

  -- False is the call of `Halt`.
  unfoldable pub after_idle : ℕ → Bool × Interrupts → Run (Bool × Interrupts)
  after_idle fuel (true, i) = do
    i' ← check_all fuel i
    ok (true, record i' { yields = false; status = system_mode })
  after_idle fuel (false, i) = ok (false, i)

  unfoldable pub idle : ℕ → Interrupts → Run (Bool × Interrupts)
  idle fuel i = do r ← check_if_due (record i { status = idle_mode }) true; after_idle fuel r
