-- ===== src/Machine/Tlb/Replace.antt =====
-- Which entry `TLBAlgoFIFO` and `TLBAlgoLRU` of userprog/exception.cc replace.
use pku_os_lab.Common.{
  ℕ, zero, suc, ◌+◌, ◌≤◌, ◌<◌, ◌≡◌, refl, true, false, List, [], ◌∷◌, ◌++◌, Option, none, some,
  length, get_or, set, drop, arith, Bool-cases, inl, inr, ◌==◌, ltb,
}
use pku_os_lab.Machine.{TranslationEntry, tlb_size, no_entry}
use pku_os_lab.Machine.Tlb.{
  find_invalid, move_forward, replace_fifo, tlb_algo_fifo, most_counted, replace_lru, tlb_algo_lru,
}

-- What the search for an invalid entry finds among `n` entries from `i` on.
data Sought (tlb : List TranslationEntry) (n i : ℕ) : Option ℕ → Type 0 where
  first :
      (k : ℕ)
      → k < i + n
      → (get_or tlb k no_entry).valid ≡ false
      → ((j : ℕ) → i ≤ j → j < k → (get_or tlb j no_entry).valid ≡ true)
      → Sought tlb n i (some k)
  full : ((j : ℕ) → i ≤ j → j < i + n → (get_or tlb j no_entry).valid ≡ true) → Sought tlb n i none

valid_first :
    (tlb : List TranslationEntry) (n i : ℕ) (o : Option ℕ)
    → (get_or tlb i no_entry).valid ≡ true
    → Sought tlb n (i + 1) o
    → Sought tlb (suc n) i o
valid_first tlb n i (some _) here (first k lt bad before) = first k (omega arith) bad (λ j h g.
    elim (Bool-cases (i == j)) [
      | inl same ↦ ground (arith, here)
      | inr other ↦ before j (ground arith) g
    ])
valid_first tlb n i none here (full all) = full (λ j h g. elim (Bool-cases (i == j)) [
  | inl same ↦ ground (arith, here)
  | inr other ↦ all j (ground arith) (omega arith)
])

find_invalid-Sought :
    (tlb : List TranslationEntry) (n i : ℕ) → Sought tlb n i (find_invalid tlb n i)
unfolding find_invalid
find_invalid-Sought tlb zero i = full (λ j h g. absurd (omega arith))
find_invalid-Sought tlb (suc n) i = elim (Bool-cases (get_or tlb i no_entry).valid) [
  | inl good ↦ rw good (valid_first tlb n i _ good (find_invalid-Sought tlb n (i + 1)))
  | inr bad ↦ rw bad (first i (omega arith) bad (λ j h g. absurd (omega arith)))
]

-- What `TLBAlgoFIFO` may do with the entry `page`.
pub data Queued (tlb : List TranslationEntry) (page : TranslationEntry)
    : List TranslationEntry → Type 0 where
  filled :
      (k : ℕ)
      → k < tlb_size
      → (get_or tlb k no_entry).valid ≡ false
      → ((j : ℕ) → j < k → (get_or tlb j no_entry).valid ≡ true)
      → Queued tlb page (set tlb k page)
  moved :
      ((j : ℕ) → j < tlb_size → (get_or tlb j no_entry).valid ≡ true)
      → Queued tlb page (drop 1 tlb ++ (page ∷ []))

move_forward-drop :
    (tlb : List TranslationEntry) (page : TranslationEntry)
    → length tlb ≡ tlb_size
    → set (move_forward tlb 3 0) 3 page ≡ drop 1 tlb ++ (page ∷ [])
unfolding move_forward
move_forward-drop (a ∷ b ∷ c ∷ d ∷ []) page h = refl
move_forward-drop [] page h = absurd (omega arith)
move_forward-drop (a ∷ []) page h = absurd (omega arith)
move_forward-drop (a ∷ b ∷ []) page h = absurd (omega arith)
move_forward-drop (a ∷ b ∷ c ∷ []) page h = absurd (omega arith)
move_forward-drop (a ∷ b ∷ c ∷ d ∷ e ∷ es) page h = absurd (omega arith)

replace_fifo-Queued :
    (tlb : List TranslationEntry) (page : TranslationEntry) (o : Option ℕ)
    → length tlb ≡ tlb_size
    → Sought tlb tlb_size 0 o
    → Queued tlb page (replace_fifo tlb o page)
replace_fifo-Queued tlb page (some _) len (first k lt bad before) =
    filled k (omega arith) bad (λ j h. before j (omega arith) h)
replace_fifo-Queued tlb page none len (full all) =
    rw (move_forward-drop tlb page len) (moved (λ j h. all j (omega arith) (omega arith)))

-- With a TLB of `TLBSize` entries, `TLBAlgoFIFO` puts the new entry at the first invalid place; when
-- there is none, it drops the first entry, moves the others forward and puts the new one last.
pub tlb_algo_fifo-Queued :
    (tlb : List TranslationEntry) (page : TranslationEntry)
    → length tlb ≡ tlb_size
    → Queued tlb page (tlb_algo_fifo tlb page)
unfolding tlb_algo_fifo
tlb_algo_fifo-Queued tlb page len =
    replace_fifo-Queued tlb page _ len (find_invalid-Sought tlb tlb_size 0)

-- `r` counts most among the entries before `i` and the last one.
record Most (tlb : List TranslationEntry) (i r : ℕ) : Type 0 where
  within : r < tlb_size
  above : (j : ℕ) → j < i → (get_or tlb j no_entry).count ≤ (get_or tlb r no_entry).count
  above_last : (get_or tlb 3 no_entry).count ≤ (get_or tlb r no_entry).count

most_counted-Most :
    (tlb : List TranslationEntry) (n i best : ℕ)
    → i + n ≡ 3
    → Most tlb i best
    → Most tlb 3 (most_counted tlb n i best)
unfolding most_counted
most_counted-Most tlb zero i best h m = record {
  within = m.within;
  above = λ j g. m.above j (omega arith);
  above_last = m.above_last;
}
most_counted-Most tlb (suc n) i best h m =
    most_counted-Most tlb n (i + 1) _ (omega arith)
      (elim (Bool-cases (ltb (get_or tlb best no_entry).count (get_or tlb i no_entry).count)) [
        | inl more ↦ rw more (record {
          within = omega arith;
          above = λ j g. elim (Bool-cases (i == j)) [
            | inl same ↦ ground arith
            | inr other ↦ ground (arith, m.above j (ground arith))
          ];
          above_last = ground (arith, m.above_last);
        })
        | inr less ↦ rw less (record {
          within = m.within;
          above = λ j g. elim (Bool-cases (i == j)) [
            | inl same ↦ ground arith
            | inr other ↦ m.above j (ground arith)
          ];
          above_last = m.above_last;
        })
      ])

-- What `TLBAlgoLRU` may do with the entry `page`.
pub data Evicted (tlb : List TranslationEntry) (page : TranslationEntry)
    : List TranslationEntry → Type 0 where
  filled :
      (k : ℕ)
      → k < tlb_size
      → (get_or tlb k no_entry).valid ≡ false
      → ((j : ℕ) → j < k → (get_or tlb j no_entry).valid ≡ true)
      → Evicted tlb page (set tlb k page)
  replaced :
      (k : ℕ)
      → k < tlb_size
      → ((j : ℕ) → j < tlb_size → (get_or tlb j no_entry).valid ≡ true)
      → ((j : ℕ) → j < tlb_size → (get_or tlb j no_entry).count ≤ (get_or tlb k no_entry).count)
      → Evicted tlb page (set tlb k page)

replace_lru-Evicted :
    (tlb : List TranslationEntry) (page : TranslationEntry) (o : Option ℕ)
    → Sought tlb tlb_size 0 o
    → Evicted tlb page (replace_lru tlb o page)
replace_lru-Evicted tlb page (some _) (first k lt bad before) =
    filled k (omega arith) bad (λ j h. before j (omega arith) h)
replace_lru-Evicted tlb page none (full all) =
    let m = most_counted-Most tlb 3 0 3 refl (record {
      within = omega arith;
      above = λ j h. absurd (omega arith);
      above_last = omega arith;
    }) in
    replaced _ m.within (λ j h. all j (omega arith) (omega arith))
      (λ j h. elim (Bool-cases (j == 3)) [
        | inl last ↦ ground (arith, m.above_last)
        | inr other ↦ m.above j (ground arith)
      ])

-- `TLBAlgoLRU` puts the new entry at the first invalid place; when there is none, it replaces an entry
-- whose count no other exceeds.
pub tlb_algo_lru-Evicted :
    (tlb : List TranslationEntry) (page : TranslationEntry)
    → Evicted tlb page (tlb_algo_lru tlb page)
unfolding tlb_algo_lru
tlb_algo_lru-Evicted tlb page = replace_lru-Evicted tlb page _ (find_invalid-Sought tlb tlb_size 0)
