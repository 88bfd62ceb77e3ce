-- ===== src/Mips/Tests.antt =====
-- The theorems on machine/mipssim.cc at concrete words, and runs of single instructions.
use pku_os_lab.Common.{
  ℕ, ◌+◌, ◌-◌, ◌*◌, ◌%◌, ◌^◌, ◌≡◌, refl, true, false, [], ◌∷◌, none, some, ◌==◌, if◌then◌else◌,
  arith, Run, ok, aborted,
}
use pku_os_lab.Machine.{Machine, TranslationEntry, no_entry}
use pku_os_lab.Machine.Translate.{read_mem, read_at, translate, use_slot, use_entry, load}
use pku_os_lab.Mips.{Instruction, decode, op_addi}
use pku_os_lab.Mips.Mult.{mult, mult_loop}
use pku_os_lab.Mips.Mult.Loop.{value, AreWords}
use pku_os_lab.Mips.Mult.Product.{extend, mult-Product}
use pku_os_lab.Mips.Decode.{immediate, encode, Decoded, op_of, decode-encode}
use pku_os_lab.Mips.Registers.{reg, delayed_load, advance, raise_exception}
use pku_os_lab.Mips.Arith.{add_signed, addi, sub_signed}
use pku_os_lab.Mips.Arith.Overflow.{Checked, bias, add_signed-Checked}
use pku_os_lab.Mips.Effects.{IsCpu}
use pku_os_lab.Mips.Step.{Outcome, done, trapped, one_instruction, run_fetched, execute, finish}
use pku_os_lab.Mips.Step.Valid.{Stepped, one_instruction-Stepped}

-- -3 times 7.
mult-Product_example :
    (value (mult 0xfffffffd 7 true) ≡ extend true 0xfffffffd * extend true 7 % 2 ^ 64)
    × AreWords (mult 0xfffffffd 7 true)
mult-Product_example = mult-Product 0xfffffffd 7 true (omega arith) (omega arith)

mult-signed : value (mult 0xfffffffd 7 true) ≡ 2 ^ 64 - 21
unfolding mult mult_loop
mult-signed = refl

mult-unsigned : value (mult 0xffffffff 0xffffffff false) ≡ 0xffffffff * 0xffffffff
unfolding mult mult_loop
mult-unsigned = refl

-- `ADDI r2,r1,-1`
decode-encode_example :
    Decoded (immediate 1 2 0xffff) (decode (encode 8 (immediate 1 2 0xffff)))
    × ((decode (encode 8 (immediate 1 2 0xffff))).op_code ≡ op_of 8 (immediate 1 2 0xffff))
decode-encode_example =
    decode-encode 8 (immediate 1 2 0xffff) (omega arith) (omega arith, omega arith, omega arith)
      refl

decode-addi : (decode 0x2022ffff).extra ≡ 0xffffffff
unfolding decode
decode-addi = refl

-- One page, and in it `ADDI r2,r1,5` at address 0.
abbrev page : TranslationEntry
page = record no_entry { valid = true }

abbrev code : ℕ → ℕ
code p = if p == 0 then 0x05 else if p == 2 then 0x22 else if p == 3 then 0x20 else 0

-- Register 1 is `v`, and the next program counter 4.
abbrev with_value : ℕ → Machine
with_value v = record {
  registers =
      0 ∷ v ∷ 0 ∷ 0 ∷ 0 ∷ 0 ∷ 0 ∷ 0 ∷ 0 ∷ 0 ∷ 0 ∷ 0 ∷ 0 ∷ 0 ∷ 0 ∷ 0 ∷ 0 ∷ 0 ∷ 0 ∷ 0 ∷ 0 ∷ 0 ∷ 0 ∷ 0
      ∷ 0 ∷ 0 ∷ 0 ∷ 0 ∷ 0 ∷ 0 ∷ 0 ∷ 0 ∷ 0 ∷ 0 ∷ 0 ∷ 4 ∷ 0 ∷ 0 ∷ 0 ∷ 0 ∷ [];
  main_memory = code;
  tlb = none;
  page_table = some (page ∷ []);
  page_table_size = 1;
}

abbrev instruction : Instruction
instruction = record { op_code = op_addi; rs = 1; rt = 2; rd = 3; extra = 5 }

add_signed-Checked_example :
    Checked
      (with_value 0x7ffffffe)
      3
      (bias 0x7ffffffe + bias 0)
      (add_signed (with_value 0x7ffffffe) instruction)
    × Checked
        (with_value 0x7ffffffe)
        2
        (bias 0x7ffffffe + bias 5)
        (addi (with_value 0x7ffffffe) instruction)
    × Checked
        (with_value 0x7ffffffe)
        3
        (bias 0x7ffffffe + (2 ^ 32 - bias 0))
        (sub_signed (with_value 0x7ffffffe) instruction)
add_signed-Checked_example =
    add_signed-Checked (with_value 0x7ffffffe) instruction (omega arith) (omega arith) (omega arith)

with_value-IsCpu : IsCpu (with_value 7)
with_value-IsCpu = record {
  full = refl;
  words = omega arith;
  target = omega arith;
  bytes = λ p. ground arith;
  mapped = refl;
}

one_instruction-Stepped_example : Stepped (with_value 7) (one_instruction (with_value 7))
one_instruction-Stepped_example = one_instruction-Stepped (with_value 7) with_value-IsCpu

-- Register `r` after an instruction, or the exception.
abbrev register_after : ℕ → Run Outcome → ℕ
register_after r (ok (done m)) = reg m r
register_after r (ok (trapped e m)) = 1000
register_after r aborted = 2000

one_instruction-addi : register_after 2 (one_instruction (with_value 7)) ≡ 12
unfolding one_instruction run_fetched execute finish read_mem read_at translate use_slot use_entry
    load decode addi delayed_load advance
one_instruction-addi = refl

one_instruction-overflow : register_after 2 (one_instruction (with_value 0x7fffffff)) ≡ 1000
unfolding one_instruction run_fetched execute finish read_mem read_at translate use_slot use_entry
    load decode addi delayed_load advance raise_exception
one_instruction-overflow = refl
