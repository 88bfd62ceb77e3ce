-- ===== src/Machine/Translate/Mapping.antt =====
-- The mapping of machine/translate.cc as a relation: it fixes what `Translate` finds, and the use and
-- dirty bits do not matter to it.
use pku_os_lab.Common.{
  ℕ, zero, suc, ◌+◌, ◌*◌, ◌/◌, ◌%◌, ◌≤◌, ◌<◌, ◌≡◌, refl, ◌∙◌, ap, Bool, true, false, ◌&&◌, List, [],
  ◌∷◌, Option, none, some, ltb, ok, get_or, set, arith, Bool-cases, inl, inr, le→leb, lt→leb, clash,
}
use pku_os_lab.Machine.{
  Machine, TranslationEntry, page_size, num_phys_pages, memory_size, tlb_size, no_entry,
}
use pku_os_lab.Machine.Translate.{
  Slot, missing, in_tlb, in_table, hits, find_slot, entry_at, entry_of, touch, touch_in, touched,
  misaligned, at, use_entry, translate,
}
use pku_os_lab.Machine.Translate.Search.{Searched, first, nowhere, search_tlb-Searched}
use pku_os_lab.Machine.Translate.Outcome.{Maps, by_tlb, by_table, use_slot-use_entry}

first_unique :
    (tlb : List TranslationEntry) (vpn i : ℕ) (o : Option ℕ)
    → i < tlb_size
    → hits (get_or tlb i no_entry) vpn ≡ true
    → ((j : ℕ) → j < i → hits (get_or tlb j no_entry) vpn ≡ false)
    → Searched tlb vpn tlb_size 0 o
    → o ≡ some i
first_unique tlb vpn i (some _) lt hit before (first k lt' hit' before') =
    elim (Bool-cases (ltb i k)) [
      | inl less ↦ clash hit (before' i (omega arith) (ground arith))
      | inr more ↦ elim (Bool-cases (ltb k i)) [
        | inl less ↦ clash hit' (before k (ground arith))
        | inr more' ↦ ap some (ground arith)
      ]
    ]
first_unique tlb vpn i none lt hit before (nowhere all) =
    clash hit (all i (omega arith) (omega arith))

-- A page that is mapped is found.
pub find_slot-Maps :
    (m : Machine) (vpn : ℕ) (slot : Slot)
    → Maps m vpn slot
    → find_slot m.tlb m.page_table m.page_table_size vpn ≡ ok slot
find_slot-Maps m vpn (missing e) h = elim h [ ]
find_slot-Maps m vpn (in_tlb i) (by_tlb tlb _ named lt hit before) =
    rw (named, first_unique tlb vpn i _ lt hit before (search_tlb-Searched tlb vpn tlb_size 0))
find_slot-Maps m vpn (in_table _) (by_table table no_tlb named lt good) =
    rw (no_tlb, named, good, lt→leb m.page_table_size vpn lt)

-- The fields that the mapping reads.
pub record SameEntry (e e' : TranslationEntry) : Type 0 where
  pub page : e'.virtual_page ≡ e.virtual_page
  pub frame : e'.physical_page ≡ e.physical_page
  pub valid : e'.valid ≡ e.valid
  pub read_only : e'.read_only ≡ e.read_only

pub same_entry : (e : TranslationEntry) → SameEntry e e
same_entry e = record { page = refl; frame = refl; valid = refl; read_only = refl }

pub touched-SameEntry :
    (entries : List TranslationEntry) (i j : ℕ) (writing : Bool)
    → SameEntry
        (get_or entries j no_entry)
        (get_or (set entries i (touched (get_or entries i no_entry) writing)) j no_entry)
touched-SameEntry [] i j writing = same_entry _
touched-SameEntry (e ∷ es) zero zero writing = record {
  page = refl;
  frame = refl;
  valid = refl;
  read_only = refl;
}
touched-SameEntry (e ∷ es) zero (suc j) writing = same_entry _
touched-SameEntry (e ∷ es) (suc i) zero writing = same_entry _
touched-SameEntry (e ∷ es) (suc i) (suc j) writing = touched-SameEntry es i j writing

-- The entries of `m'` are those of `m`, of which one may have been touched.
pub record Touches (m m' : Machine) (slot : Slot) (writing : Bool) : Type 0 where
  pub same_tlb : m'.tlb ≡ (touch m slot writing).tlb
  pub same_table : m'.page_table ≡ (touch m slot writing).page_table
  pub same_size : m'.page_table_size ≡ m.page_table_size

hits-touched :
    (entries : List TranslationEntry) (i j vpn : ℕ) (writing : Bool)
    → hits (get_or (set entries i (touched (get_or entries i no_entry) writing)) j no_entry) vpn
      ≡ hits (get_or entries j no_entry) vpn
hits-touched entries i j vpn writing =
    let same = touched-SameEntry entries i j writing in rw (same.valid, same.page)

pub Maps-touch :
    (m m' : Machine) (vpn : ℕ) (slot : Slot) (writing : Bool)
    → Touches m m' slot writing
    → Maps m vpn slot
    → Maps m' vpn slot
Maps-touch m m' vpn (missing e) writing t h = elim h [ ]
Maps-touch m m' vpn (in_tlb i) writing t (by_tlb tlb _ named lt hit before) =
    by_tlb _ i (t.same_tlb ∙ ap (λ o. touch_in o i writing) named) lt
      (hits-touched tlb i i vpn writing ∙ hit)
      (λ j h. hits-touched tlb i j vpn writing ∙ before j h)
Maps-touch m m' vpn (in_table _) writing t (by_table table no_tlb named lt good) =
    by_table _ (t.same_tlb ∙ no_tlb) (t.same_table ∙ ap (λ o. touch_in o vpn writing) named)
      (omega (arith, t.same_size)) ((touched-SameEntry table vpn vpn writing).valid ∙ good)

entry_of-touch_in :
    (o o' : Option (List TranslationEntry)) (i : ℕ) (writing : Bool)
    → o' ≡ touch_in o i writing
    → SameEntry (entry_of o i) (entry_of o' i)
entry_of-touch_in none o' i writing h = rw h (same_entry _)
entry_of-touch_in (some entries) o' i writing h = rw h (touched-SameEntry entries i i writing)

pub entry_at-touch :
    (m m' : Machine) (slot : Slot) (writing : Bool)
    → Touches m m' slot writing
    → SameEntry (entry_at m slot) (entry_at m' slot)
entry_at-touch m m' (missing e) writing t = same_entry _
entry_at-touch m m' (in_tlb i) writing t = entry_of-touch_in m.tlb m'.tlb i writing t.same_tlb
entry_at-touch m m' (in_table i) writing t =
    entry_of-touch_in m.page_table m'.page_table i writing t.same_table

-- `Translate` through an entry that allows the access.
pub translate-at :
    (m : Machine) (addr size phys : ℕ) (writing : Bool) (slot : Slot)
    → misaligned size addr ≡ false
    → Maps m (addr / page_size) slot
    → ((entry_at m slot).read_only && writing) ≡ false
    → (entry_at m slot).physical_page < num_phys_pages
    → phys ≡ (entry_at m slot).physical_page * page_size + addr % page_size
    → phys + size ≤ memory_size
    → translate m addr size writing ≡ ok (at phys (touch m slot writing))
unfolding translate use_entry
translate-at m addr size phys writing slot good maps free small is inside = rw (
  good,
  find_slot-Maps m _ slot maps,
  use_slot-use_entry m _ slot (addr % page_size) size writing maps,
  free,
  ← is,
  lt→leb _ _ small,
  le→leb _ _ inside,
)
