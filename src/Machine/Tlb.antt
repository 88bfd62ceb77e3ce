-- ===== src/Machine/Tlb.antt =====
-- userprog/exception.cc and addrspace.cc as they are built with `USE_TLB`: the handler of a TLB miss,
-- its two ways to replace an entry, and the two context-switch operations of an address space.
pub mod Replace
pub mod Coherent
pub mod Refine
pub mod Switch
use pku_os_lab.Common.{
  ℕ, zero, suc, ◌+◌, ◌-◌, ◌/◌, Bool, true, false, List, Option, none, some, ltb, if◌then◌else◌, Run,
  ok, aborted, get_or, set,
}
use pku_os_lab.Machine.{Machine, TranslationEntry, page_size, tlb_size, no_entry}

-- `for (i = 0; i < TLBSize; i++) if (tlb[i].valid == FALSE) ...`, with `n` rounds left
unfoldable pub find_invalid : List TranslationEntry → ℕ → ℕ → Option ℕ
find_invalid tlb zero i = none
find_invalid tlb (suc n) i =
    let rest = find_invalid tlb n (i + 1) in if (get_or tlb i no_entry).valid then rest else some i

-- `for (i = 0; i < TLBSize - 1; i++) tlb[i] = tlb[i+1];`
unfoldable pub move_forward : List TranslationEntry → ℕ → ℕ → List TranslationEntry
move_forward tlb zero i = tlb
move_forward tlb (suc n) i = move_forward (set tlb i (get_or tlb (i + 1) no_entry)) n (i + 1)

abbrev pub replace_fifo :
    List TranslationEntry → Option ℕ → TranslationEntry → List TranslationEntry
replace_fifo tlb (some i) page = set tlb i page
replace_fifo tlb none page = set (move_forward tlb (tlb_size - 1) 0) (tlb_size - 1) page

-- `TLBAlgoFIFO`
pub tlb_algo_fifo : List TranslationEntry → TranslationEntry → List TranslationEntry
tlb_algo_fifo tlb page = replace_fifo tlb (find_invalid tlb tlb_size 0) page

-- `for (i = 0; i < TLBSize - 1; i++) if (tlb[i].count > tlb[TLBreplaceIdx].count) TLBreplaceIdx = i;`
unfoldable pub most_counted : List TranslationEntry → ℕ → ℕ → ℕ → ℕ
most_counted tlb zero i best = best
most_counted tlb (suc n) i best =
    most_counted tlb n (i + 1)
      (if ltb (get_or tlb best no_entry).count (get_or tlb i no_entry).count then i else best)

abbrev pub replace_lru : List TranslationEntry → Option ℕ → TranslationEntry → List TranslationEntry
replace_lru tlb (some i) page = set tlb i page
replace_lru tlb none page = set tlb (most_counted tlb (tlb_size - 1) 0 (tlb_size - 1)) page

-- `TLBAlgoLRU`
pub tlb_algo_lru : List TranslationEntry → TranslationEntry → List TranslationEntry
tlb_algo_lru tlb page = replace_lru tlb (find_invalid tlb tlb_size 0) page

-- `TLBMissHandler`, which reads both arrays through their pointers.
abbrev pub load_entry :
    Machine → Option (List TranslationEntry) → Option (List TranslationEntry) → ℕ → Run Machine
load_entry m (some tlb) (some table) vpn =
    ok (record m { tlb = some (tlb_algo_fifo tlb (get_or table vpn no_entry)) })
load_entry m (some tlb) none vpn = aborted
load_entry m none table vpn = aborted

pub tlb_miss_handler : Machine → ℕ → Run Machine
tlb_miss_handler m virt_addr = load_entry m m.tlb m.page_table (virt_addr / page_size)

-- `for (i = 0; i < TLBSize; i++) tlb[i].valid = FALSE;`
unfoldable pub invalidate : List TranslationEntry → ℕ → ℕ → List TranslationEntry
invalidate tlb zero i = tlb
invalidate tlb (suc n) i =
    invalidate (set tlb i (record (get_or tlb i no_entry) { valid = false })) n (i + 1)

abbrev pub with_cleaned : Machine → Option (List TranslationEntry) → Run Machine
with_cleaned m (some tlb) = ok (record m { tlb = some (invalidate tlb tlb_size 0) })
with_cleaned m none = aborted

-- `AddrSpace::SaveState`
pub save_state : Machine → Run Machine
save_state m = with_cleaned m m.tlb

-- `AddrSpace::RestoreState`, of an address space with the table `table` of `num_pages` entries
pub restore_state : Machine → List TranslationEntry → ℕ → Machine
restore_state m table num_pages = record m { page_table = some table; page_table_size = num_pages }
