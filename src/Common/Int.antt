-- ===== src/Common/Int.antt =====
-- The sums of two `int`s that are not negative.
use Prim.Native.Nat.{ℕ, ◌+◌, ◌^◌, ◌<◌}
use mathlib.Core.Path.{◌≡◌, refl}
use pku_os_lab.Common.Abort.{Run, ok, aborted}
use pku_os_lab.Common.Tests.{ltb, if◌then◌else◌, lt→ltb}

-- What an `int` holds.
abbrev pub int_limit : ℕ
int_limit = 2 ^ 31

-- A sum of `int`s that leaves their range is not defined in C++, and ends the run.
abbrev pub int_sum : ℕ → ℕ → Run ℕ
int_sum a b = if ltb (a + b) int_limit then ok (a + b) else aborted

pub int_sum-ok : (a b : ℕ) → a + b < int_limit → int_sum a b ≡ ok (a + b)
int_sum-ok a b lt = rw (lt→ltb (a + b) int_limit lt) refl
