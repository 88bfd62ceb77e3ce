-- ===== src/Machine/Tlb/Refine.antt =====
-- A machine with a TLB that agrees with the page table translates as one with the page table alone:
-- userprog/exception.cc and machine/translate.cc.
use pku_os_lab.Common.{
  ℕ, ◌/◌, ◌%◌, ◌<◌, ◌≡◌, refl, ◌∙◌, sym, ap, Bool, true, false, ◌&&◌, List, Option, none, some, Run,
  ok, aborted, ◌>>=◌, get_or, arith, Bool-cases, inl, inr, ◌⊎◌, leb, assert, All-get_or, subst,
}
use pku_os_lab.Machine.{
  Machine, TranslationEntry, ExceptionType, page_fault, page_size, num_phys_pages, tlb_size,
  no_entry,
}
use pku_os_lab.Machine.Translate.{
  Slot, in_tlb, in_table, hits, entry_at, entry_of, Translation, raised, at, use_entry, use_slot,
  translate, misaligned, search_tlb,
}
use pku_os_lab.Machine.Translate.Search.{search_tlb-Searched, Searched, first, nowhere}
use pku_os_lab.Machine.Translate.Outcome.{Maps, by_tlb, by_table, use_slot-use_entry}
use pku_os_lab.Machine.Translate.Mapping.{SameEntry, same_entry, find_slot-Maps}
use pku_os_lab.Machine.Tlb.{tlb_miss_handler}
use pku_os_lab.Machine.Tlb.Replace.{tlb_algo_fifo-Queued}
use pku_os_lab.Machine.Tlb.Coherent.{
  Agrees, IsCoherent, loaded, Numbered, no_entry-Agrees, Queued-hits, tlb_miss_handler-IsCoherent,
}

-- The exception or the physical address of a translation.
pub forget : Run Translation → Run (ExceptionType ⊎ ℕ)
forget (ok (raised e)) = ok (inl e)
forget (ok (at phys m)) = ok (inr phys)
forget aborted = aborted

-- The machine that has the page table only.
abbrev pub without_tlb : Machine → Machine
without_tlb m = record m { tlb = none }

forget-assert :
    (b : Bool) (phys : ℕ) (m m' : Machine)
    → forget (assert b >>= λ _. ok (at phys m)) ≡ forget (assert b >>= λ _. ok (at phys m'))
unfolding forget
forget-assert true phys m m' = refl
forget-assert false phys m m' = refl

use_entry-same :
    (m m' : Machine) (slot slot' : Slot) (offset size : ℕ) (writing : Bool)
    → SameEntry (entry_at m' slot') (entry_at m slot)
    → forget (use_entry m slot offset size writing)
      ≡ forget (use_entry m' slot' offset size writing)
unfolding use_entry
use_entry-same m m' slot slot' offset size writing same =
    rw (same.frame, same.read_only)
      (elim (Bool-cases ((entry_at m' slot').read_only && writing)) [
        | inl ro ↦ rw ro refl
        | inr free ↦ elim (Bool-cases (leb num_phys_pages (entry_at m' slot').physical_page)) [
          | inl big ↦ rw (free, big) refl
          | inr small ↦ rw (free, small) (forget-assert _ _ _ _)
        ]
      ])

-- One translation by an entry, on two machines.
translate-same :
    (m m' : Machine) (addr size : ℕ) (writing : Bool) (slot slot' : Slot)
    → Maps m (addr / page_size) slot
    → Maps m' (addr / page_size) slot'
    → SameEntry (entry_at m' slot') (entry_at m slot)
    → forget (translate m addr size writing) ≡ forget (translate m' addr size writing)
unfolding translate
translate-same m m' addr size writing slot slot' maps maps' same =
    elim (Bool-cases (misaligned size addr)) [
      | inl bad ↦ rw bad refl
      | inr good ↦
          rw
            (
              good,
              find_slot-Maps m _ slot maps,
              find_slot-Maps m' _ slot' maps',
              use_slot-use_entry m _ slot (addr % page_size) size writing maps,
              use_slot-use_entry m' _ slot' (addr % page_size) size writing maps',
            )
            (use_entry-same m m' slot slot' (addr % page_size) size writing same)
    ]

hits-split :
    (e : TranslationEntry) (vpn : ℕ) → hits e vpn ≡ true → (e.valid ≡ true) × (e.virtual_page ≡ vpn)
hits-split e vpn h = (ground arith, ground arith)

SameEntry-ends : (e e' f f' : TranslationEntry) → e ≡ f → e' ≡ f' → SameEntry f f' → SameEntry e e'
SameEntry-ends e e' f f' p q same = rw (p, q) same

-- How a machine `m` with a TLB and the page table `table` translates page accesses at `addr`: at once
-- as the page table alone, or after one run of the handler, which keeps the TLB coherent.
pub data Agreed (m : Machine) (table : List TranslationEntry) (addr size : ℕ) (writing : Bool)
    : Type 0 where
  hit :
      forget (translate m addr size writing) ≡ forget (translate (without_tlb m) addr size writing)
      → Agreed m table addr size writing
  miss :
      (m' : Machine) (tlb' : List TranslationEntry)
      → translate m addr size writing ≡ ok (raised page_fault)
      → tlb_miss_handler m addr ≡ ok m'
      → IsCoherent m' tlb' table
      → forget (translate m' addr size writing)
        ≡ forget (translate (without_tlb m) addr size writing)
      → Agreed m table addr size writing

misaligned-same :
    (m m' : Machine) (addr size : ℕ) (writing : Bool)
    → misaligned size addr ≡ true
    → forget (translate m addr size writing) ≡ forget (translate m' addr size writing)
unfolding translate
misaligned-same m m' addr size writing bad = rw bad refl

translate-miss :
    (m : Machine) (tlb : List TranslationEntry) (addr size : ℕ) (writing : Bool)
    → misaligned size addr ≡ false
    → m.tlb ≡ some tlb
    → search_tlb tlb tlb_size 0 (addr / page_size) ≡ none
    → translate m addr size writing ≡ ok (raised page_fault)
unfolding translate use_slot
translate-miss m tlb addr size writing good named absent = rw (good, named, absent) refl

module _ (m : Machine) (tlb table : List TranslationEntry) (c : IsCoherent m tlb table) where
  -- A hit: the page table maps the page too, by the same entry.
  hit-Maps :
      (vpn i : ℕ)
      → hits (get_or tlb i no_entry) vpn ≡ true
      → Maps (without_tlb m) vpn (in_table vpn)
        × SameEntry (entry_at (without_tlb m) (in_table vpn)) (entry_at m (in_tlb i))
  hit-Maps vpn i now =
      let (valid, page) = hits-split (get_or tlb i no_entry) vpn now in
      let (lt, same) =
        subst
          (λ (v : ℕ).
            (v < m.page_table_size) × SameEntry (get_or table v no_entry) (get_or tlb i no_entry))
          page
          (All-get_or (Agrees table m.page_table_size) tlb i no_entry c.agrees
            (no_entry-Agrees table m.page_table_size) valid) in
      (
        by_table table refl c.has_table lt (sym same.valid ∙ valid),
        SameEntry-ends _ _ _ _ (ap (λ o. entry_of o vpn) c.has_table)
            (ap (λ o. entry_of o i) c.has_tlb) same,
      )

  module _ (addr size : ℕ) (writing : Bool) (numbered : Numbered table m.page_table_size)
      (lt : addr / page_size < m.page_table_size)
      (present : (get_or table (addr / page_size) no_entry).valid ≡ true) where
    hit_case :
        (i : ℕ)
        → i < tlb_size
        → hits (get_or tlb i no_entry) (addr / page_size) ≡ true
        → ((j : ℕ) → j < i → hits (get_or tlb j no_entry) (addr / page_size) ≡ false)
        → Agreed m table addr size writing
    hit_case i inside now before =
        let (maps, same) = hit-Maps (addr / page_size) i now in
        hit (
          translate-same m (without_tlb m) addr size writing (in_tlb i)
            (in_table (addr / page_size)) (by_tlb tlb i c.has_tlb inside now before) maps same)

    page_hits : hits (get_or table (addr / page_size) no_entry) (addr / page_size) ≡ true
    page_hits = rw present (ground (arith, numbered (addr / page_size) lt))

    miss_case :
        misaligned size addr ≡ false
        → search_tlb tlb tlb_size 0 (addr / page_size) ≡ none
        → ((j : ℕ) → j < tlb_size → hits (get_or tlb j no_entry) (addr / page_size) ≡ false)
        → Agreed m table addr size writing
    miss_case good none_found all =
        let vpn = addr / page_size in
        let page = get_or table vpn no_entry in
        let now = page_hits in
        let (k, inside, is, before) =
          Queued-hits tlb _ page vpn c.full now all (tlb_algo_fifo-Queued tlb page c.full) in
        let (run, c') = tlb_miss_handler-IsCoherent m tlb table c addr numbered lt in
        miss (loaded m tlb table vpn) _
          (translate-miss m tlb addr size writing good c.has_tlb none_found) run c'
          (translate-same (loaded m tlb table vpn) (without_tlb m) addr size writing (in_tlb k)
            (in_table vpn) (by_tlb _ k refl inside (ap (λ e. hits e vpn) is ∙ now) before)
            (by_table table refl c.has_table lt present)
            (SameEntry-ends _ _ _ _ (ap (λ o. entry_of o vpn) c.has_table) is (same_entry page)))

    either_case :
        (o : Option ℕ)
        → misaligned size addr ≡ false
        → search_tlb tlb tlb_size 0 (addr / page_size) ≡ o
        → Searched tlb (addr / page_size) tlb_size 0 o
        → Agreed m table addr size writing
    either_case (some _) good is (first k inside now before) =
        hit_case k (omega arith) now (λ j h. before j (omega arith) h)
    either_case none good is (nowhere all) =
        miss_case good is (λ j h. all j (omega arith) (omega arith))

    -- For a page that the page table holds, an access on a machine with a coherent TLB gives the same
    -- exception or physical address as on the machine with the page table alone: at once, or on the
    -- second try, after `TLBMissHandler` has run once, which succeeds and leaves the TLB coherent.
    pub translate-Agreed : Agreed m table addr size writing
    translate-Agreed = elim (Bool-cases (misaligned size addr)) [
      | inl bad ↦ hit (misaligned-same m (without_tlb m) addr size writing bad)
      | inr good ↦ either_case _ good refl (search_tlb-Searched tlb (addr / page_size) tlb_size 0)
    ]
