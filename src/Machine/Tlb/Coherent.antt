-- ===== src/Machine/Tlb/Coherent.antt =====
-- A TLB that agrees with the page table: what the handler of userprog/exception.cc and `Translate` of
-- machine/translate.cc do together.
use pku_os_lab.Common.{
  ℕ, suc, ◌+◌, ◌/◌, ◌<◌, ◌≡◌, refl, ◌∙◌, ap, Bool, true, false, List, [], ◌∷◌, ◌++◌, Option, some,
  ok, length, get_or, drop, All, All-set, length-set, length-append, get_or-set_self, get_or-set_ne,
  get_or-append_left, get_or-append_right, All-get_or, arith,
}
use pku_os_lab.Machine.{Machine, TranslationEntry, page_size, tlb_size, no_entry}
use pku_os_lab.Machine.Translate.{in_tlb, touch_in, touched, hits, touch}
use pku_os_lab.Machine.Translate.Mapping.{SameEntry, same_entry}
use pku_os_lab.Machine.Tlb.{tlb_algo_fifo, tlb_miss_handler, load_entry}
use pku_os_lab.Machine.Tlb.Replace.{Queued, filled, moved, tlb_algo_fifo-Queued}

-- A valid entry of the TLB is the entry of the page table for its page, up to the use and dirty bits.
abbrev pub Agrees : List TranslationEntry → ℕ → TranslationEntry → Type 0
Agrees table size e =
    e.valid ≡ true → (e.virtual_page < size) × SameEntry (get_or table e.virtual_page no_entry) e

-- A machine with a TLB of `TLBSize` entries that agrees with the page table.
pub record IsCoherent (m : Machine) (tlb table : List TranslationEntry) : Type 0 where
  pub has_tlb : m.tlb ≡ some tlb
  pub has_table : m.page_table ≡ some table
  pub full : length tlb ≡ tlb_size
  pub agrees : All (Agrees table m.page_table_size) tlb

pub no_entry-Agrees : (table : List TranslationEntry) (size : ℕ) → Agrees table size no_entry
no_entry-Agrees table size h = absurd cc

-- The entries of the page table name their own page, as `AddrSpace` makes them.
abbrev pub Numbered : List TranslationEntry → ℕ → Type 0
Numbered table size = (vpn : ℕ) → vpn < size → (get_or table vpn no_entry).virtual_page ≡ vpn

table-Agrees :
    (table : List TranslationEntry) (size vpn : ℕ)
    → Numbered table size
    → vpn < size
    → Agrees table size (get_or table vpn no_entry)
table-Agrees table size vpn numbered lt h =
    let e = numbered vpn lt in (omega (arith, e), rw e (same_entry _))

drop-All :
    (P : TranslationEntry → Type 0) (tlb : List TranslationEntry) (page : TranslationEntry)
    → All P tlb
    → P page
    → All P (drop 1 tlb ++ (page ∷ []))
drop-All P [] page h p = (p, tt)
drop-All P (e ∷ es) page h p = behind es h.1
  where
    behind : (xs : List TranslationEntry) → All P xs → All P (xs ++ (page ∷ []))
    behind [] g = (p, tt)
    behind (x ∷ xs) g = (g.0, behind xs g.1)

Queued-All :
    (P : TranslationEntry → Type 0) (tlb tlb' : List TranslationEntry) (page : TranslationEntry)
    → Queued tlb page tlb'
    → All P tlb
    → P page
    → All P tlb'
Queued-All P tlb _ page (filled k lt bad before) h p = All-set P tlb k page h p
Queued-All P tlb _ page (moved all) h p = drop-All P tlb page h p

Queued-length :
    (tlb tlb' : List TranslationEntry) (page : TranslationEntry)
    → length tlb ≡ tlb_size
    → Queued tlb page tlb'
    → length tlb' ≡ tlb_size
Queued-length tlb _ page len (filled k lt bad before) = length-set tlb k page ∙ len
Queued-length [] _ page len (moved all) = absurd (omega arith)
Queued-length (e ∷ es) _ page len (moved all) = omega (arith, length-append es (page ∷ []))

load_entry-some :
    (m : Machine) (tlb table : List TranslationEntry) (vpn : ℕ)
    (o p : Option (List TranslationEntry))
    → o ≡ some tlb
    → p ≡ some table
    → load_entry m o p vpn
      ≡ ok (record m { tlb = some (tlb_algo_fifo tlb (get_or table vpn no_entry)) })
load_entry-some m tlb table vpn o p e g = rw (e, g) refl

-- The entry that is put in is the first one to hit, when none did before.
pub Queued-hits :
    (tlb tlb' : List TranslationEntry) (page : TranslationEntry) (vpn : ℕ)
    → length tlb ≡ tlb_size
    → hits page vpn ≡ true
    → ((j : ℕ) → j < tlb_size → hits (get_or tlb j no_entry) vpn ≡ false)
    → Queued tlb page tlb'
    → (k : ℕ) × (k < tlb_size)
      × (get_or tlb' k no_entry ≡ page)
      × ((j : ℕ) → j < k → hits (get_or tlb' j no_entry) vpn ≡ false)
Queued-hits tlb _ page vpn len hit miss (filled k lt bad before) = (
  k,
  lt,
  get_or-set_self tlb k page no_entry (omega arith),
  λ j h.
      ap (λ e. hits e vpn) (get_or-set_ne tlb k j page no_entry (λ e. omega (arith, e)))
      ∙ miss j (omega arith),
)
Queued-hits [] _ page vpn len hit miss (moved all) = absurd (omega arith)
Queued-hits (e ∷ es) _ page vpn len hit miss (moved all) = (
  3,
  omega arith,
  ap (λ (k : ℕ). get_or (es ++ (page ∷ [])) k no_entry) three
      ∙ get_or-append_right es (page ∷ []) 0 no_entry,
  λ j h.
      ap (λ e. hits e vpn) (get_or-append_left es (page ∷ []) j no_entry (omega arith))
      ∙ miss (suc j) (omega arith),
)
  where
    three : 3 ≡ length es + 0
    three = omega (arith, len)

-- The machine once the handler has put the entry of page `vpn` into its TLB.
abbrev pub loaded : Machine → List TranslationEntry → List TranslationEntry → ℕ → Machine
loaded m tlb table vpn = record m { tlb = some (tlb_algo_fifo tlb (get_or table vpn no_entry)) }

module _ (m : Machine) (tlb table : List TranslationEntry) (c : IsCoherent m tlb table) where
  -- The handler of a miss keeps the TLB coherent.
  pub tlb_miss_handler-IsCoherent :
      (addr : ℕ)
      → Numbered table m.page_table_size
      → addr / page_size < m.page_table_size
      → (tlb_miss_handler m addr ≡ ok (loaded m tlb table (addr / page_size)))
        × IsCoherent
            (loaded m tlb table (addr / page_size))
            (tlb_algo_fifo tlb (get_or table (addr / page_size) no_entry))
            table
  unfolding tlb_miss_handler
  tlb_miss_handler-IsCoherent addr numbered lt = (
    load_entry-some m tlb table (addr / page_size) m.tlb m.page_table c.has_tlb c.has_table,
    record {
      has_tlb = refl;
      has_table = c.has_table;
      full = Queued-length tlb _ _ c.full (tlb_algo_fifo-Queued tlb _ c.full);
      agrees =
          Queued-All (Agrees table m.page_table_size) tlb _ _ (tlb_algo_fifo-Queued tlb _ c.full)
            c.agrees (table-Agrees table m.page_table_size _ numbered lt);
    },
  )

  touched-Agrees :
      (i : ℕ) (writing : Bool)
      → Agrees table m.page_table_size (touched (get_or tlb i no_entry) writing)
  touched-Agrees i writing h =
      let (lt, same) =
        All-get_or (Agrees table m.page_table_size) tlb i no_entry c.agrees
          (no_entry-Agrees table m.page_table_size) h in
      (
        lt,
        record {
          page = same.page;
          frame = same.frame;
          valid = same.valid;
          read_only = same.read_only;
        },
      )

  -- An access that `Translate` lets pass keeps the TLB coherent.
  pub touch-IsCoherent :
      (i : ℕ) (writing : Bool)
      → (tlb' : List TranslationEntry) × IsCoherent (touch m (in_tlb i) writing) tlb' table
  touch-IsCoherent i writing = (
    _,
    record {
      has_tlb = ap (λ o. touch_in o i writing) c.has_tlb;
      has_table = c.has_table;
      full = length-set _ _ _ ∙ c.full;
      agrees = All-set (Agrees table m.page_table_size) tlb i _ c.agrees (touched-Agrees i writing);
    },
  )
