-- ===== src/Mips/Transfer.antt =====
-- machine/mipssim.cc, `OneInstruction`: the instructions that read or write the memory. A load leaves
-- its register and its value to `DelayedLoad`.
pub mod Leaves
use pku_os_lab.Common.{
  ℕ, ◌+◌, ◌-◌, ◌*◌, ◌/◌, ◌%◌, ◌^◌, Bool, not, ◌&&◌, leb, ◌==◌, if◌then◌else◌, Run, ok, ◌>>=◌, ◌>>◌,
  assert, bit_and, bit_or,
}
use pku_os_lab.Machine.{Machine, address_error}
use pku_os_lab.Machine.Translate.{
  Value, failed, value, Written, refused, written, read_mem, write_mem,
}
use pku_os_lab.Mips.{Instruction}
use pku_os_lab.Mips.Word.{add}
use pku_os_lab.Mips.Registers.{reg, Effect, proceeds, raises, pc_after, load_reg, load_value_reg}

-- `registers[instr->rs] + instr->extra`
abbrev pub address : Machine → Instruction → ℕ
address m i = add (reg m i.rs) i.extra

-- `if (!machine->ReadMem(addr, ..., &value)) return;`: a failed access has raised its exception.
abbrev pub after_read : Machine → ℕ → Value → (ℕ → Machine → Run Effect) → Run Effect
after_read m addr (failed e) next = ok (raises e addr m)
after_read m addr (value v m') next = next v m'

-- `if (!machine->WriteMem(addr, ..., value)) return;`
abbrev pub after_write : Machine → ℕ → Written → Run Effect
after_write m addr (refused e) = ok (raises e addr m)
after_write m addr (written m') = ok (proceeds m' 0 0 (pc_after m'))

-- `nextLoadReg = instr->rt; nextLoadValue = v;`
abbrev pub loads : Machine → Instruction → ℕ → Run Effect
loads m i v = ok (proceeds m i.rt v (pc_after m))

-- `OP_LB` and `OP_LBU`
pub load_byte : Bool → Machine → Instruction → Run Effect
load_byte keeps_sign m i = do
  r ← read_mem m (address m i) 1
  after_read m (address m i) r (λ v m'.
      loads m' i
        (if leb (2 ^ 7) (v % 2 ^ 8) && keeps_sign then v % 2 ^ 8 + (2 ^ 32 - 2 ^ 8) else v % 2 ^ 8))

-- `OP_LH` and `OP_LHU`
pub load_half : Bool → Machine → Instruction → Run Effect
load_half keeps_sign m i =
    let tmp = address m i in
    if not (tmp % 2 == 0) then ok (raises address_error tmp m) else (do
      r ← read_mem m tmp 2
      after_read m tmp r (λ v m'. loads m' i (
          if leb (2 ^ 15) (v % 2 ^ 16) && keeps_sign
          then v % 2 ^ 16 + (2 ^ 32 - 2 ^ 16)
          else v % 2 ^ 16)))

pub lw : Machine → Instruction → Run Effect
lw m i =
    let tmp = address m i in
    if not (tmp % 4 == 0)
    then ok (raises address_error tmp m)
    else (do r ← read_mem m tmp 4; after_read m tmp r (λ v m'. loads m' i v))

-- The value that the register `rt` is about to have.
abbrev pub pending : Machine → ℕ → ℕ
pending m rt = if reg m load_reg == rt then reg m load_value_reg else reg m rt

-- `switch (tmp & 0x3)` of `OP_LWL`, on the word `v` and the register's value `old`
abbrev pub merge_left : ℕ → ℕ → ℕ → ℕ
merge_left k v old =
    if k == 0
    then v
    else if k == 1
    then bit_or (old % 2 ^ 8) (v * 2 ^ 8 % 2 ^ 32)
    else if k == 2
    then bit_or (old % 2 ^ 16) (v * 2 ^ 16 % 2 ^ 32)
    else bit_or (old % 2 ^ 24) (v * 2 ^ 24 % 2 ^ 32)

pub lwl : Machine → Instruction → Run Effect
lwl m i =
    let tmp = address m i in
    assert (tmp % 4 == 0) >> (do
      r ← read_mem m tmp 4
      after_read m tmp r (λ v m'. loads m' i (merge_left (tmp % 4) v (pending m' i.rt))))

-- `switch (tmp & 0x3)` of `OP_LWR`
abbrev pub merge_right : ℕ → ℕ → ℕ → ℕ
merge_right k v old =
    if k == 0
    then bit_or (bit_and old 0xffffff00) (v / 2 ^ 24 % 2 ^ 8)
    else if k == 1
    then bit_or (bit_and old 0xffff0000) (v / 2 ^ 16 % 2 ^ 16)
    else if k == 2
    then bit_or (bit_and old 0xff000000) (v / 2 ^ 8 % 2 ^ 24)
    else v

pub lwr : Machine → Instruction → Run Effect
lwr m i =
    let tmp = address m i in
    assert (tmp % 4 == 0) >> (do
      r ← read_mem m tmp 4
      after_read m tmp r (λ v m'. loads m' i (merge_right (tmp % 4) v (pending m' i.rt))))

-- `OP_SB`, `OP_SH` and `OP_SW`
pub store_reg : ℕ → Machine → Instruction → Run Effect
store_reg size m i = do
  r ← write_mem m (address m i) size (reg m i.rt)
  after_write m (address m i) r

-- `switch (tmp & 0x3)` of `OP_SWL`, on the word `v` of the memory and the register's value
abbrev pub store_left : ℕ → ℕ → ℕ → ℕ
store_left k v new =
    if k == 0
    then new
    else if k == 1
    then bit_or (bit_and v 0xff000000) (new / 2 ^ 8 % 2 ^ 24)
    else if k == 2
    then bit_or (bit_and v 0xffff0000) (new / 2 ^ 16 % 2 ^ 16)
    else bit_or (bit_and v 0xffffff00) (new / 2 ^ 24 % 2 ^ 8)

-- `switch (tmp & 0x3)` of `OP_SWR`
abbrev pub store_right : ℕ → ℕ → ℕ → ℕ
store_right k v new =
    if k == 0
    then bit_or (v % 2 ^ 24) (new * 2 ^ 24 % 2 ^ 32)
    else if k == 1
    then bit_or (v % 2 ^ 16) (new * 2 ^ 16 % 2 ^ 32)
    else if k == 2
    then bit_or (v % 2 ^ 8) (new * 2 ^ 8 % 2 ^ 32)
    else new

-- The word at `tmp & ~0x3` is read, merged and written back.
abbrev pub store_merged : (ℕ → ℕ → ℕ → ℕ) → Machine → Instruction → Run Effect
store_merged merge m i =
    let tmp = address m i in
    let word = tmp - tmp % 4 in
    assert (tmp % 4 == 0) >> (do
      r ← read_mem m word 4
      after_read m word r (λ v m'. do
        w ← write_mem m' word 4 (merge (tmp % 4) v (reg m' i.rt))
        after_write m' word w))

pub swl : Machine → Instruction → Run Effect
swl m i = store_merged store_left m i

pub swr : Machine → Instruction → Run Effect
swr m i = store_merged store_right m i
