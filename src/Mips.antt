-- ===== src/Mips.antt =====
-- machine/mipssim.h and mipssim.cc: the instructions of the simulated processor. A register and an
-- instruction are 32-bit words, numbers below 2 ^ 32. The texts that a debugging run prints are left out.
pub mod Word
pub mod Mult
pub mod Registers
pub mod Effects
pub mod Arith
pub mod Branch
pub mod Transfer
pub mod Step
pub mod Decode
mod Tests
use pku_os_lab.Common.{
  ℕ, ◌+◌, ◌-◌, ◌*◌, ◌/◌, ◌%◌, ◌^◌, List, [], ◌∷◌, leb, ◌==◌, if◌then◌else◌, get_or,
}

-- The operation codes; `special` and `bcond` ask for more decoding.
pub data OpCode : Type 0 where
  op_add op_addi op_addiu op_addu op_and op_andi op_beq op_bgez op_bgezal op_bgtz : OpCode
  op_blez op_bltz op_bltzal op_bne op_div op_divu op_j op_jal op_jalr op_jr op_lb : OpCode
  op_lbu op_lh op_lhu op_lui op_lw op_lwl op_lwr op_mfhi op_mflo op_mthi op_mtlo : OpCode
  op_mult op_multu op_nor op_or op_ori op_rfe op_sb op_sh op_sll op_sllv op_slt : OpCode
  op_slti op_sltiu op_sltu op_sra op_srav op_srl op_srlv op_sub op_subu op_sw op_swl : OpCode
  op_swr op_xor op_xori op_syscall op_unimp op_res special bcond : OpCode

pub data Format : Type 0 where
  ifmt jfmt rfmt : Format

pub record OpInfo : Type 0 where
  pub op_code : OpCode
  pub format : Format

pub record Instruction : Type 0 where
  pub op_code : OpCode
  pub rs : ℕ
  pub rt : ℕ
  pub rd : ℕ
  pub extra : ℕ

abbrev pub info : OpCode → Format → OpInfo
info op form = record { op_code = op; format = form }

abbrev pub op_table : List OpInfo
op_table =
    info special rfmt
    ∷ info bcond ifmt
    ∷ info op_j jfmt
    ∷ info op_jal jfmt
    ∷ info op_beq ifmt
    ∷ info op_bne ifmt
    ∷ info op_blez ifmt
    ∷ info op_bgtz ifmt
    ∷ info op_addi ifmt
    ∷ info op_addiu ifmt
    ∷ info op_slti ifmt
    ∷ info op_sltiu ifmt
    ∷ info op_andi ifmt
    ∷ info op_ori ifmt
    ∷ info op_xori ifmt
    ∷ info op_lui ifmt
    ∷ info op_unimp ifmt
    ∷ info op_unimp ifmt
    ∷ info op_unimp ifmt
    ∷ info op_unimp ifmt
    ∷ info op_res ifmt
    ∷ info op_res ifmt
    ∷ info op_res ifmt
    ∷ info op_res ifmt
    ∷ info op_res ifmt
    ∷ info op_res ifmt
    ∷ info op_res ifmt
    ∷ info op_res ifmt
    ∷ info op_res ifmt
    ∷ info op_res ifmt
    ∷ info op_res ifmt
    ∷ info op_res ifmt
    ∷ info op_lb ifmt
    ∷ info op_lh ifmt
    ∷ info op_lwl ifmt
    ∷ info op_lw ifmt
    ∷ info op_lbu ifmt
    ∷ info op_lhu ifmt
    ∷ info op_lwr ifmt
    ∷ info op_res ifmt
    ∷ info op_sb ifmt
    ∷ info op_sh ifmt
    ∷ info op_swl ifmt
    ∷ info op_sw ifmt
    ∷ info op_res ifmt
    ∷ info op_res ifmt
    ∷ info op_swr ifmt
    ∷ info op_res ifmt
    ∷ info op_unimp ifmt
    ∷ info op_unimp ifmt
    ∷ info op_unimp ifmt
    ∷ info op_unimp ifmt
    ∷ info op_res ifmt
    ∷ info op_res ifmt
    ∷ info op_res ifmt
    ∷ info op_res ifmt
    ∷ info op_unimp ifmt
    ∷ info op_unimp ifmt
    ∷ info op_unimp ifmt
    ∷ info op_unimp ifmt
    ∷ info op_res ifmt
    ∷ info op_res ifmt
    ∷ info op_res ifmt
    ∷ info op_res ifmt
    ∷ []

abbrev pub special_table : List OpCode
special_table =
    op_sll ∷ op_res ∷ op_srl ∷ op_sra ∷ op_sllv ∷ op_res ∷ op_srlv ∷ op_srav ∷ op_jr ∷ op_jalr
    ∷ op_res ∷ op_res ∷ op_syscall ∷ op_unimp ∷ op_res ∷ op_res ∷ op_mfhi ∷ op_mthi ∷ op_mflo
    ∷ op_mtlo ∷ op_res ∷ op_res ∷ op_res ∷ op_res ∷ op_mult ∷ op_multu ∷ op_div ∷ op_divu ∷ op_res
    ∷ op_res ∷ op_res ∷ op_res ∷ op_add ∷ op_addu ∷ op_sub ∷ op_subu ∷ op_and ∷ op_or ∷ op_xor
    ∷ op_nor ∷ op_res ∷ op_res ∷ op_slt ∷ op_sltu ∷ op_res ∷ op_res ∷ op_res ∷ op_res ∷ op_res
    ∷ op_res ∷ op_res ∷ op_res ∷ op_res ∷ op_res ∷ op_res ∷ op_res ∷ op_res ∷ op_res ∷ op_res
    ∷ op_res ∷ op_res ∷ op_res ∷ op_res ∷ op_res ∷ []

-- `extra` of an instruction in each format: a 16-bit number with its sign, the amount of a shift, or
-- the target of a jump.
abbrev pub extra_of : Format → ℕ → ℕ
extra_of ifmt value =
    if leb (2 ^ 15) (value % 2 ^ 16) then value % 2 ^ 16 + (2 ^ 32 - 2 ^ 16) else value % 2 ^ 16
extra_of rfmt value = value / 2 ^ 6 % 2 ^ 5
extra_of jfmt value = value % 2 ^ 26

-- `value & 0x1f0000` names the branch.
abbrev pub branch_code : ℕ → OpCode
branch_code i =
    if i == 0
    then op_bltz
    else if i == 1
    then op_bgez
    else if i == 16
    then op_bltzal
    else if i == 17
    then op_bgezal
    else op_unimp

-- What `special` and `bcond` stand for in the instruction `value`.
abbrev pub op_code_of : OpCode → ℕ → OpCode
op_code_of special value = get_or special_table (value % 2 ^ 6) op_res
op_code_of bcond value = branch_code (value / 2 ^ 16 % 2 ^ 5)
op_code_of op value = op

pub decode : ℕ → Instruction
decode value =
    let entry = get_or op_table (value / 2 ^ 26 % 2 ^ 6) (info op_res ifmt) in
    record {
      op_code = op_code_of entry.op_code value;
      rs = value / 2 ^ 21 % 2 ^ 5;
      rt = value / 2 ^ 16 % 2 ^ 5;
      rd = value / 2 ^ 11 % 2 ^ 5;
      extra = extra_of entry.format value;
    }
