-- ===== src/Machine/Translate.antt =====
-- machine/translate.cc: from virtual to physical addresses, and the accesses to the memory. The host
-- is little-endian and `char` is signed. An address is taken as a 32-bit word. Where the source calls
-- `RaiseException` and returns FALSE, the result names the exception.
pub mod Search
pub mod Outcome
pub mod Mapping
pub mod Memory
use pku_os_lab.Common.{
  ℕ, zero, suc, ◌+◌, ◌-◌, ◌*◌, ◌/◌, ◌%◌, ◌^◌, Bool, true, false, not, ◌&&◌, ◌||◌, List, Option,
  none, some, ltb, leb, ◌==◌, if◌then◌else◌, Run, ok, aborted, ◌>>=◌, ◌>>◌, assert, get_or, set,
}
use pku_os_lab.Machine.{
  Machine, TranslationEntry, ExceptionType, page_fault, read_only_fault, bus_error, address_error,
  page_size, num_phys_pages, memory_size, tlb_size, no_entry,
}

-- The entry that `Translate` has found, or the exception.
pub data Slot : Type 0 where
  missing : ExceptionType → Slot
  in_tlb in_table : ℕ → Slot

-- `(tlb[i].valid && (tlb[i].virtualPage == vpn))`
abbrev pub hits : TranslationEntry → ℕ → Bool
hits e vpn = e.valid && (e.virtual_page == vpn)

-- The loop over the TLB, with `n` rounds left.
unfoldable pub search_tlb : List TranslationEntry → ℕ → ℕ → ℕ → Option ℕ
search_tlb tlb zero i vpn = none
search_tlb tlb (suc n) i vpn =
    let rest = search_tlb tlb n (i + 1) vpn in
    if hits (get_or tlb i no_entry) vpn then some i else rest

abbrev pub tlb_slot : Option ℕ → Slot
tlb_slot none = missing page_fault
tlb_slot (some i) = in_tlb i

abbrev pub table_slot : List TranslationEntry → ℕ → ℕ → Slot
table_slot table size vpn =
    if leb size vpn
    then missing address_error
    else if (get_or table vpn no_entry).valid
    then in_table vpn
    else missing page_fault

-- By `tlb` and `pageTable`.
abbrev pub find_slot :
    Option (List TranslationEntry) → Option (List TranslationEntry) → ℕ → ℕ → Run Slot
find_slot (some tlb) table size vpn = ok (tlb_slot (search_tlb tlb tlb_size 0 vpn))
find_slot none (some table) size vpn = ok (table_slot table size vpn)
find_slot none none size vpn = aborted

abbrev pub entry_of : Option (List TranslationEntry) → ℕ → TranslationEntry
entry_of none i = no_entry
entry_of (some entries) i = get_or entries i no_entry

abbrev pub entry_at : Machine → Slot → TranslationEntry
entry_at m (missing e) = no_entry
entry_at m (in_tlb i) = entry_of m.tlb i
entry_at m (in_table i) = entry_of m.page_table i

-- `entry->use = TRUE; if (writing) entry->dirty = TRUE;`
abbrev pub touched : TranslationEntry → Bool → TranslationEntry
touched e writing = record e { use_bit = true; dirty = writing || e.dirty }

abbrev pub touch_in : Option (List TranslationEntry) → ℕ → Bool → Option (List TranslationEntry)
touch_in none i writing = none
touch_in (some entries) i writing =
    some (set entries i (touched (get_or entries i no_entry) writing))

abbrev pub touch : Machine → Slot → Bool → Machine
touch m (missing e) writing = m
touch m (in_tlb i) writing = record m { tlb = touch_in m.tlb i writing }
touch m (in_table i) writing = record m { page_table = touch_in m.page_table i writing }

-- `((size == 4) && (virtAddr & 0x3)) || ((size == 2) && (virtAddr & 0x1))`
abbrev pub misaligned : ℕ → ℕ → Bool
misaligned size addr = (size == 4 && not (addr % 4 == 0)) || (size == 2 && not (addr % 2 == 0))

pub data Translation : Type 0 where
  raised : ExceptionType → Translation
  at : ℕ → Machine → Translation

-- What `Translate` does with an entry.
unfoldable pub use_entry : Machine → Slot → ℕ → ℕ → Bool → Run Translation
use_entry m slot offset size writing =
    let e = entry_at m slot in
    let phys = e.physical_page * page_size + offset in
    if e.read_only && writing
    then ok (raised read_only_fault)
    else if leb num_phys_pages e.physical_page
    then ok (raised bus_error)
    else (assert (leb (phys + size) memory_size) >> ok (at phys (touch m slot writing)))

unfoldable pub use_slot : Machine → Slot → ℕ → ℕ → Bool → Run Translation
use_slot m (missing e) offset size writing = ok (raised e)
use_slot m (in_tlb i) offset size writing = use_entry m (in_tlb i) offset size writing
use_slot m (in_table i) offset size writing = use_entry m (in_table i) offset size writing

unfoldable pub translate : Machine → ℕ → ℕ → Bool → Run Translation
translate m addr size writing = if misaligned size addr then ok (raised address_error) else (do
  slot ← find_slot m.tlb m.page_table m.page_table_size (addr / page_size)
  use_slot m slot (addr % page_size) size writing)

-- The `n` cells from `phys` on, the lowest first.
unfoldable pub load : ℕ → ℕ → (ℕ → ℕ) → ℕ
load zero phys mem = 0
load (suc n) phys mem = mem phys + 256 * load n (phys + 1) mem

unfoldable pub put_byte : (ℕ → ℕ) → ℕ → ℕ → ℕ → ℕ
put_byte mem phys v p = if phys == p then v else mem p

unfoldable pub store : ℕ → ℕ → ℕ → (ℕ → ℕ) → ℕ → ℕ
store zero phys v mem = mem
store (suc n) phys v mem = store n (phys + 1) (v / 256) (put_byte mem phys (v % 256))

pub data Value : Type 0 where
  failed : ExceptionType → Value
  value : ℕ → Machine → Value

-- A `char` as an `int`.
abbrev pub sign_extend : ℕ → ℕ
sign_extend b = if ltb b 128 then b else b + (2 ^ 32 - 256)

-- `switch (size)` of `ReadMem`
unfoldable pub read_at : ℕ → Translation → Run Value
read_at size (raised e) = ok (failed e)
read_at size (at phys m) =
    if size == 1
    then ok (value (sign_extend (m.main_memory phys)) m)
    else if size == 2
    then ok (value (load 2 phys m.main_memory) m)
    else if size == 4
    then ok (value (load 4 phys m.main_memory) m)
    else aborted

unfoldable pub read_mem : Machine → ℕ → ℕ → Run Value
read_mem m addr size = do t ← translate m addr size false; read_at size t

pub data Written : Type 0 where
  refused : ExceptionType → Written
  written : Machine → Written

-- `switch (size)` of `WriteMem`
unfoldable pub write_at : ℕ → ℕ → Translation → Run Written
write_at size v (raised e) = ok (refused e)
write_at size v (at phys m) =
    if size == 1
    then ok (written (record m { main_memory = store 1 phys v m.main_memory }))
    else if size == 2
    then ok (written (record m { main_memory = store 2 phys v m.main_memory }))
    else if size == 4
    then ok (written (record m { main_memory = store 4 phys v m.main_memory }))
    else aborted

unfoldable pub write_mem : Machine → ℕ → ℕ → ℕ → Run Written
write_mem m addr size v = do t ← translate m addr size true; write_at size v t
