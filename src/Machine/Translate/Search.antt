-- ===== src/Machine/Translate/Search.antt =====
-- The search of the TLB in `Translate` of machine/translate.cc.
use pku_os_lab.Common.{
  ℕ, zero, suc, ◌+◌, ◌≤◌, ◌<◌, ◌≡◌, true, false, List, Option, none, some, ◌==◌, get_or, arith,
  Bool-cases, inl, inr,
}
use pku_os_lab.Machine.{TranslationEntry, no_entry}
use pku_os_lab.Machine.Translate.{hits, search_tlb}

-- What the search over `n` entries from `i` on finds.
pub data Searched (tlb : List TranslationEntry) (vpn n i : ℕ) : Option ℕ → Type 0 where
  first :
      (k : ℕ)
      → k < i + n
      → hits (get_or tlb k no_entry) vpn ≡ true
      → ((j : ℕ) → i ≤ j → j < k → hits (get_or tlb j no_entry) vpn ≡ false)
      → Searched tlb vpn n i (some k)
  nowhere :
      ((j : ℕ) → i ≤ j → j < i + n → hits (get_or tlb j no_entry) vpn ≡ false)
      → Searched tlb vpn n i none

-- A miss at `i` goes before what the rest finds.
miss_first :
    (tlb : List TranslationEntry) (vpn n i : ℕ) (o : Option ℕ)
    → hits (get_or tlb i no_entry) vpn ≡ false
    → Searched tlb vpn n (i + 1) o
    → Searched tlb vpn (suc n) i o
miss_first tlb vpn n i (some _) miss (first k lt hit before) = first k (omega arith) hit (λ j h g.
    elim (Bool-cases (i == j)) [
      | inl same ↦ ground (arith, miss)
      | inr other ↦ before j (ground arith) g
    ])
miss_first tlb vpn n i none miss (nowhere all) = nowhere (λ j h g. elim (Bool-cases (i == j)) [
  | inl same ↦ ground (arith, miss)
  | inr other ↦ all j (ground arith) (omega arith)
])

pub search_tlb-Searched :
    (tlb : List TranslationEntry) (vpn n i : ℕ) → Searched tlb vpn n i (search_tlb tlb n i vpn)
unfolding search_tlb
search_tlb-Searched tlb vpn zero i = nowhere (λ j h g. absurd (omega arith))
search_tlb-Searched tlb vpn (suc n) i = elim (Bool-cases (hits (get_or tlb i no_entry) vpn)) [
  | inl hit ↦ rw hit (first i (omega arith) hit (λ j h g. absurd (omega arith)))
  | inr miss ↦ rw miss (miss_first tlb vpn n i _ miss (search_tlb-Searched tlb vpn n (i + 1)))
]
