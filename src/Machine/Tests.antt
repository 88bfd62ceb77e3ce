-- ===== src/Machine/Tests.antt =====
-- The theorems on the machine, at concrete machines.
use pku_os_lab.Common.{ℕ, zero, suc, ◌≡◌, refl, true, false, List, [], ◌∷◌, none, some, ok, arith}
use pku_os_lab.Machine.{Machine, TranslationEntry, no_entry}
use pku_os_lab.Machine.Translate.{in_table, at, translate, use_slot, use_entry}
use pku_os_lab.Machine.Translate.Outcome.{
  a_half, a_word, by_table, Translated, translate-Translated,
}
use pku_os_lab.Machine.Translate.Memory.{Stored, read_mem-write_mem}
use pku_os_lab.Machine.Tlb.Coherent.{IsCoherent, Numbered}
use pku_os_lab.Machine.Tlb.Refine.{Agreed, translate-Agreed}

abbrev zeros : ℕ → List ℕ
zeros zero = []
zeros (suc n) = 0 ∷ zeros n

abbrev page : ℕ → ℕ → TranslationEntry
page vpn frame = record {
  virtual_page = vpn;
  physical_page = frame;
  valid = true;
  read_only = false;
  use_bit = false;
  dirty = false;
  count = 0;
}

-- Page 0 is in frame 5, page 1 in frame 3.
abbrev table : List TranslationEntry
table = page 0 5 ∷ page 1 3 ∷ []

abbrev linear : Machine
linear = record {
  registers = zeros 40;
  main_memory = λ p. 0;
  tlb = none;
  page_table = some table;
  page_table_size = 2;
}

-- The TLB knows page 1.
abbrev tlb : List TranslationEntry
tlb = page 1 3 ∷ no_entry ∷ no_entry ∷ no_entry ∷ []

abbrev cached : Machine
cached = record linear { tlb = some tlb }

cached-IsCoherent : IsCoherent cached tlb table
cached-IsCoherent = record {
  has_tlb = refl;
  has_table = refl;
  full = refl;
  agrees = (
    λ v. (omega arith, record { page = refl; frame = refl; valid = refl; read_only = refl }),
    (λ v. absurd cc, (λ v. absurd cc, (λ v. absurd cc, tt))),
  );
}

table-Numbered : Numbered table 2
table-Numbered zero h = refl
table-Numbered (suc zero) h = refl
table-Numbered (suc (suc vpn)) h = absurd (omega arith)

-- Page 1 after a write.
abbrev written_table : List TranslationEntry
written_table = page 0 5 ∷ record (page 1 3) { use_bit = true; dirty = true } ∷ []

translate-linear :
    translate linear 132 4 true ≡ ok (at 388 (record linear { page_table = some written_table }))
unfolding translate use_slot use_entry
translate-linear = refl

translate-Translated_example : Translated linear 132 4 true (translate linear 132 4 true)
translate-Translated_example = translate-Translated linear 132 4 true a_word refl

read_mem-write_mem_example : Stored linear 130 2 70000 386
read_mem-write_mem_example =
    read_mem-write_mem linear 130 2 70000 (in_table 1) a_half refl
      (by_table table refl refl (omega arith) refl) refl (omega arith)

-- A miss: page 0 is not in the TLB.
translate-Agreed_example : Agreed cached table 20 4 true
translate-Agreed_example =
    translate-Agreed cached tlb table cached-IsCoherent 20 4 true table-Numbered (omega arith) refl
