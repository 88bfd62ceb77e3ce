-- ===== src/Machine/Translate/Outcome.antt =====
-- What `Machine::Translate` of machine/translate.cc may return, and when.
use pku_os_lab.Common.{
  ℕ, ◌+◌, ◌*◌, ◌/◌, ◌%◌, ◌≤◌, ◌<◌, ◌≡◌, refl, ◌≢◌, Bool, true, false, ◌&&◌, List, Option, none,
  some, leb, Run, ok, aborted, ◌>>=◌, get_or, arith, Bool-cases, inl, inr, le→leb,
}
use pku_os_lab.Machine.{
  Machine, TranslationEntry, ExceptionType, page_fault, read_only_fault, bus_error, address_error,
  page_size, num_phys_pages, memory_size, tlb_size, no_entry,
}
use pku_os_lab.Machine.Translate.{
  Slot, missing, in_tlb, in_table, hits, tlb_slot, table_slot, find_slot, entry_at, touch,
  misaligned, Translation, raised, at, use_entry, use_slot, translate,
}
use pku_os_lab.Machine.Translate.Search.{Searched, first, nowhere, search_tlb-Searched}

-- The sizes that the machine's instructions access.
pub data IsSize : ℕ → Type 0 where
  a_byte : IsSize 1
  a_half : IsSize 2
  a_word : IsSize 4

-- The slot that maps page `vpn`: the first entry of the TLB that hits, or the entry of the page table.
pub data Maps (m : Machine) (vpn : ℕ) : Slot → Type 0 where
  by_tlb :
      (tlb : List TranslationEntry) (i : ℕ)
      → m.tlb ≡ some tlb
      → i < tlb_size
      → hits (get_or tlb i no_entry) vpn ≡ true
      → ((j : ℕ) → j < i → hits (get_or tlb j no_entry) vpn ≡ false)
      → Maps m vpn (in_tlb i)
  by_table :
      (table : List TranslationEntry)
      → m.tlb ≡ none
      → m.page_table ≡ some table
      → vpn < m.page_table_size
      → (get_or table vpn no_entry).valid ≡ true
      → Maps m vpn (in_table vpn)

-- Why no entry maps page `vpn`, with the exception that says so.
pub data Unmapped (m : Machine) (vpn : ℕ) : ExceptionType → Type 0 where
  tlb_miss :
      (tlb : List TranslationEntry)
      → m.tlb ≡ some tlb
      → ((j : ℕ) → j < tlb_size → hits (get_or tlb j no_entry) vpn ≡ false)
      → Unmapped m vpn page_fault
  invalid :
      (table : List TranslationEntry)
      → m.tlb ≡ none
      → m.page_table ≡ some table
      → vpn < m.page_table_size
      → (get_or table vpn no_entry).valid ≡ false
      → Unmapped m vpn page_fault
  beyond : m.tlb ≡ none → m.page_table_size ≤ vpn → Unmapped m vpn address_error

pub data Translated (m : Machine) (addr size : ℕ) (writing : Bool) : Run Translation → Type 0 where
  not_aligned : addr % size ≢ 0 → Translated m addr size writing (ok (raised address_error))
  not_mapped :
      (e : ExceptionType)
      → addr % size ≡ 0
      → Unmapped m (addr / page_size) e
      → Translated m addr size writing (ok (raised e))
  protected :
      (slot : Slot)
      → addr % size ≡ 0
      → Maps m (addr / page_size) slot
      → (entry_at m slot).read_only ≡ true
      → writing ≡ true
      → Translated m addr size writing (ok (raised read_only_fault))
  no_frame :
      (slot : Slot)
      → addr % size ≡ 0
      → Maps m (addr / page_size) slot
      → ((entry_at m slot).read_only && writing) ≡ false
      → num_phys_pages ≤ (entry_at m slot).physical_page
      → Translated m addr size writing (ok (raised bus_error))
  done :
      (slot : Slot) (phys : ℕ)
      → addr % size ≡ 0
      → Maps m (addr / page_size) slot
      → ((entry_at m slot).read_only && writing) ≡ false
      → (entry_at m slot).physical_page < num_phys_pages
      → phys ≡ (entry_at m slot).physical_page * page_size + addr % page_size
      → phys % size ≡ 0
      → phys + size ≤ memory_size
      → Translated m addr size writing (ok (at phys (touch m slot writing)))

data Slotted (m : Machine) (vpn : ℕ) : Run Slot → Type 0 where
  found : (slot : Slot) → Maps m vpn slot → Slotted m vpn (ok slot)
  absent : (e : ExceptionType) → Unmapped m vpn e → Slotted m vpn (ok (missing e))

tlb-Slotted :
    (m : Machine) (vpn : ℕ) (tlb : List TranslationEntry) (o : Option ℕ)
    → m.tlb ≡ some tlb
    → Searched tlb vpn tlb_size 0 o
    → Slotted m vpn (ok (tlb_slot o))
tlb-Slotted m vpn tlb (some _) named (first k lt hit before) =
    found _ (by_tlb tlb k named (omega arith) hit (λ j h. before j (omega arith) h))
tlb-Slotted m vpn tlb none named (nowhere all) =
    absent _ (tlb_miss tlb named (λ j h. all j (omega arith) (omega arith)))

table-Slotted :
    (m : Machine) (vpn : ℕ) (table : List TranslationEntry)
    → m.tlb ≡ none
    → m.page_table ≡ some table
    → Slotted m vpn (ok (table_slot table m.page_table_size vpn))
table-Slotted m vpn table no_tlb named = elim (Bool-cases (leb m.page_table_size vpn)) [
  | inl big ↦ rw big (absent _ (beyond no_tlb (ground arith)))
  | inr small ↦ elim (Bool-cases (get_or table vpn no_entry).valid) [
    | inl good ↦ rw (small, good) (found _ (by_table table no_tlb named (ground arith) good))
    | inr bad ↦ rw (small, bad) (absent _ (invalid table no_tlb named (ground arith) bad))
  ]
]

-- The machine has a TLB or a page table.
abbrev pub has_mapping : Option (List TranslationEntry) → Option (List TranslationEntry) → Bool
has_mapping none none = false
has_mapping none (some table) = true
has_mapping (some tlb) table = true

find_slot-Slotted :
    (m : Machine) (vpn : ℕ) (tlb table : Option (List TranslationEntry))
    → m.tlb ≡ tlb
    → m.page_table ≡ table
    → has_mapping tlb table ≡ true
    → Slotted m vpn (find_slot tlb table m.page_table_size vpn)
find_slot-Slotted m vpn none none e g mapping = absurd cc
find_slot-Slotted m vpn none (some table) e g mapping = table-Slotted m vpn table e g
find_slot-Slotted m vpn (some tlb) table e g mapping =
    tlb-Slotted m vpn tlb _ e (search_tlb-Searched tlb vpn tlb_size 0)

-- An aligned access that starts in a page of the memory ends in it.
fits :
    (size addr frame : ℕ)
    → IsSize size
    → misaligned size addr ≡ false
    → frame < num_phys_pages
    → ((frame * page_size + addr % page_size) % size ≡ 0)
      × (frame * page_size + addr % page_size + size ≤ memory_size)
fits size addr frame a_byte good small = (omega arith, omega arith)
fits size addr frame a_half good small = (ground arith, ground arith)
fits size addr frame a_word good small = (ground arith, ground arith)

uneven : (size addr : ℕ) → misaligned size addr ≡ true → addr % size ≢ 0
uneven size addr h = ground arith

even : (size addr : ℕ) → IsSize size → misaligned size addr ≡ false → addr % size ≡ 0
even size addr a_byte h = omega arith
even size addr a_half h = ground arith
even size addr a_word h = ground arith

module _ (m : Machine) (addr size : ℕ) (writing : Bool) (sized : IsSize size)
    (good : misaligned size addr ≡ false) where
  use_entry-Translated :
      (slot : Slot)
      → Maps m (addr / page_size) slot
      → Translated m addr size writing (use_entry m slot (addr % page_size) size writing)
  unfolding use_entry
  use_entry-Translated slot maps = elim (Bool-cases ((entry_at m slot).read_only && writing)) [
    | inl ro ↦ rw ro (protected slot (even size addr sized good) maps (ground arith) (ground arith))
    | inr free ↦ elim (Bool-cases (leb num_phys_pages (entry_at m slot).physical_page)) [
      | inl big ↦
          rw (free, big) (no_frame slot (even size addr sized good) maps free (ground arith))
      | inr small ↦
          let (phys_even, inside) =
            fits size addr (entry_at m slot).physical_page sized good (ground arith) in
          rw (free, small, le→leb _ _ inside)
            (done slot _ (even size addr sized good) maps free (ground arith) refl phys_even inside)
    ]
  ]

pub use_slot-use_entry :
    (m : Machine) (vpn : ℕ) (slot : Slot) (offset size : ℕ) (writing : Bool)
    → Maps m vpn slot
    → use_slot m slot offset size writing ≡ use_entry m slot offset size writing
unfolding use_slot
use_slot-use_entry m vpn (missing e) offset size writing h = elim h [ ]
use_slot-use_entry m vpn (in_tlb i) offset size writing (by_tlb tlb _ a b c d) = refl
use_slot-use_entry m vpn (in_table i) offset size writing (by_table table a b c d) = refl

-- `use_slot` after the search.
use_slot-Translated :
    (m : Machine) (addr size : ℕ) (writing : Bool) (r : Run Slot)
    → IsSize size
    → misaligned size addr ≡ false
    → Slotted m (addr / page_size) r
    → Translated m addr size writing (r >>= λ slot. use_slot m slot (addr % page_size) size writing)
unfolding use_slot
use_slot-Translated m addr size writing aborted sized good h = elim h [ ]
use_slot-Translated m addr size writing (ok _) sized good (absent e why) =
    not_mapped e (even size addr sized good) why
use_slot-Translated m addr size writing (ok slot) sized good (found _ maps) =
    rw (use_slot-use_entry m (addr / page_size) slot (addr % page_size) size writing maps)
      (use_entry-Translated m addr size writing sized good slot maps)

-- An access of 1, 2 or 4 bytes, on a machine with a TLB or a page table, never fails the `ASSERT`s of
-- `Translate`. A misaligned address raises AddressErrorException, and the other exceptions are raised only
-- for aligned ones: for a page that the TLB does not hold, or whose entry is invalid, PageFaultException; for
-- one beyond the page table AddressErrorException; for a write through an entry that is read-only
-- ReadOnlyException; and for a frame that does not exist, unless that came first, BusErrorException. In all
-- other cases the physical address is the offset in the frame of the first
-- entry that maps the page, it is aligned, the access lies in the memory, and only the use and dirty
-- bits of that entry change.
pub translate-Translated :
    (m : Machine) (addr size : ℕ) (writing : Bool)
    → IsSize size
    → has_mapping m.tlb m.page_table ≡ true
    → Translated m addr size writing (translate m addr size writing)
unfolding translate
translate-Translated m addr size writing sized mapping = elim (Bool-cases (misaligned size addr)) [
  | inl bad ↦ rw bad (not_aligned (uneven size addr bad))
  | inr good ↦ rw good (
      use_slot-Translated m addr size writing _ sized good
        (find_slot-Slotted m (addr / page_size) m.tlb m.page_table refl refl mapping))
]
