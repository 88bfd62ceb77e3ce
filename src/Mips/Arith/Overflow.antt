-- ===== src/Mips/Arith/Overflow.antt =====
-- The sums and differences of `OneInstruction` of machine/mipssim.cc that may overflow.
use pku_os_lab.Common.{
  ℕ, ◌+◌, ◌-◌, ◌%◌, ◌^◌, ◌<◌, ◌≡◌, Bool, true, false, not, ◌&&◌, ltb, leb, if◌then◌else◌,
  Bool-cases, inl, inr, arith,
}
use pku_os_lab.Machine.{Machine, overflow}
use pku_os_lab.Mips.{Instruction}
use pku_os_lab.Mips.Word.{add, sub, negative, differ}
use pku_os_lab.Mips.Registers.{reg, Effect, raises, sets}
use pku_os_lab.Mips.Arith.{add_signed, addi, sub_signed}

-- The `int` that a word stands for, plus 2 ^ 31.
abbrev pub bias : ℕ → ℕ
bias x = (x + 2 ^ 31) % 2 ^ 32

-- `total`, which is the exact result plus 2 ^ 32, is that of an `int`.
abbrev pub in_range : ℕ → Bool
in_range total = leb (2 ^ 31) total && ltb total (2 ^ 31 + 2 ^ 32)

-- What an instruction with a result of its own does: `total` is the exact result plus 2 ^ 32.
pub data Checked (m : Machine) (dest total : ℕ) : Effect → Type 0 where
  overflows : in_range total ≡ false → Checked m dest total (raises overflow 0 m)
  fits :
      (v : ℕ)
      → in_range total ≡ true
      → v < 2 ^ 32
      → bias v + 2 ^ 31 ≡ total
      → Checked m dest total (sets m dest v)

add-sum :
    (x y : ℕ)
    → x < 2 ^ 32
    → y < 2 ^ 32
    → in_range (bias x + bias y) ≡ true
    → bias (add x y) + 2 ^ 31 ≡ bias x + bias y
add-sum x y h g fit = ground (arith, h, g, fit)

sub-difference :
    (x y : ℕ)
    → x < 2 ^ 32
    → y < 2 ^ 32
    → in_range (bias x + (2 ^ 32 - bias y)) ≡ true
    → bias (sub x y) + 2 ^ 31 ≡ bias x + (2 ^ 32 - bias y)
sub-difference x y h g fit = ground (arith, h, g, fit)

-- The test of `OP_ADD`, and that of `OP_ADDI`, which looks at the other operand.
add-test :
    (x y : ℕ)
    → x < 2 ^ 32
    → y < 2 ^ 32
    → (not (differ (negative x) (negative y)) && differ (negative x) (negative (add x y)))
      ≡ not (in_range (bias x + bias y))
add-test x y h g = ground (arith, h, g)

addi-test :
    (x y : ℕ)
    → x < 2 ^ 32
    → y < 2 ^ 32
    → (not (differ (negative x) (negative y)) && differ (negative y) (negative (add x y)))
      ≡ not (in_range (bias x + bias y))
addi-test x y h g = ground (arith, h, g)

sub-test :
    (x y : ℕ)
    → x < 2 ^ 32
    → y < 2 ^ 32
    → (differ (negative x) (negative y) && differ (negative x) (negative (sub x y)))
      ≡ not (in_range (bias x + (2 ^ 32 - bias y)))
sub-test x y h g = ground (arith, h, g)

checked :
    (m : Machine) (dest total v : ℕ) (test : Bool)
    → test ≡ not (in_range total)
    → v < 2 ^ 32
    → (in_range total ≡ true → bias v + 2 ^ 31 ≡ total)
    → Checked m dest total (if test then raises overflow 0 m else sets m dest v)
checked m dest total v test e small exact = elim (Bool-cases (in_range total)) [
  | inl fit ↦ rw (e, fit) (fits v fit small (exact fit))
  | inr out ↦ rw (e, out) (overflows out)
]

-- Of two words as `int`s, `OP_ADD`, `OP_ADDI` and `OP_SUB` raise the overflow exception and change
-- nothing exactly when the sum or the difference is no `int` of 32 bits, by the three tests on signs;
-- otherwise they set the target register to the word that stands for it.
pub add_signed-Checked :
    (m : Machine) (i : Instruction)
    → reg m i.rs < 2 ^ 32
    → reg m i.rt < 2 ^ 32
    → i.extra < 2 ^ 32
    → Checked m i.rd (bias (reg m i.rs) + bias (reg m i.rt)) (add_signed m i)
      × Checked m i.rt (bias (reg m i.rs) + bias i.extra) (addi m i)
      × Checked m i.rd (bias (reg m i.rs) + (2 ^ 32 - bias (reg m i.rt))) (sub_signed m i)
unfolding add_signed addi sub_signed
add_signed-Checked m i s t x = (
  checked m i.rd _ _ _ (add-test _ _ s t) (omega arith) (add-sum _ _ s t),
  checked m i.rt _ _ _ (addi-test _ _ s x) (omega arith) (add-sum _ _ s x),
  checked m i.rd _ _ _ (sub-test _ _ s t) (omega arith) (sub-difference _ _ s t),
)
