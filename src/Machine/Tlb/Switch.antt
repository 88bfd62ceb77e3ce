-- ===== src/Machine/Tlb/Switch.antt =====
-- What keeps a TLB coherent: `Translate` of machine/translate.cc, and the context switch of
-- userprog/addrspace.cc.
use pku_os_lab.Common.{
  ℕ, ◌/◌, ◌≡◌, refl, Bool, true, false, List, [], ◌∷◌, Option, some, Run, ok, aborted, length, All,
  arith,
}
use pku_os_lab.Machine.{Machine, TranslationEntry, page_size, tlb_size}
use pku_os_lab.Machine.Translate.{
  Slot, missing, in_tlb, in_table, touch, Translation, raised, at, translate,
}
use pku_os_lab.Machine.Translate.Outcome.{
  IsSize, Maps, by_table, Translated, not_aligned, not_mapped, protected, no_frame, done,
  translate-Translated, has_mapping,
}
use pku_os_lab.Machine.Tlb.{invalidate, save_state, restore_state, with_cleaned}
use pku_os_lab.Machine.Tlb.Coherent.{Agrees, IsCoherent, touch-IsCoherent}

-- A translation that succeeds leaves a coherent machine.
pub LeavesCoherent : List TranslationEntry → Run Translation → Type 0
LeavesCoherent table (ok (at phys m)) = (tlb : List TranslationEntry) × IsCoherent m tlb table
LeavesCoherent table (ok (raised e)) = Unit
LeavesCoherent table aborted = Unit

Maps-touch-IsCoherent :
    (m : Machine) (tlb table : List TranslationEntry) (vpn : ℕ) (slot : Slot) (writing : Bool)
    → IsCoherent m tlb table
    → Maps m vpn slot
    → (tlb' : List TranslationEntry) × IsCoherent (touch m slot writing) tlb' table
Maps-touch-IsCoherent m tlb table vpn (missing e) writing c h = elim h [ ]
Maps-touch-IsCoherent m tlb table vpn (in_tlb i) writing c h =
    touch-IsCoherent m tlb table c i writing
Maps-touch-IsCoherent m tlb table vpn (in_table _) writing c (by_table t no_tlb named lt good) = cc

Translated-LeavesCoherent :
    (m : Machine) (tlb table : List TranslationEntry) (addr size : ℕ) (writing : Bool)
    (r : Run Translation)
    → IsCoherent m tlb table
    → Translated m addr size writing r
    → LeavesCoherent table r
unfolding LeavesCoherent
Translated-LeavesCoherent m tlb table addr size writing _ c (not_aligned h) = tt
Translated-LeavesCoherent m tlb table addr size writing _ c (not_mapped e even h) = tt
Translated-LeavesCoherent m tlb table addr size writing _ c (protected slot even maps ro w) = tt
Translated-LeavesCoherent m tlb table addr size writing _ c (no_frame slot even maps ro big) = tt
Translated-LeavesCoherent m tlb table addr size writing _ c (done slot phys even maps a b d e f) =
    Maps-touch-IsCoherent m tlb table (addr / page_size) slot writing c maps

has_mapping-some :
    (o p : Option (List TranslationEntry)) (tlb : List TranslationEntry)
    → o ≡ some tlb
    → has_mapping o p ≡ true
has_mapping-some o p tlb h = rw h refl

-- A translation of an access of 1, 2 or 4 bytes that finds an address keeps the TLB coherent, whatever
-- bits it sets.
translate-LeavesCoherent :
    (m : Machine) (tlb table : List TranslationEntry) (addr size : ℕ) (writing : Bool)
    → IsCoherent m tlb table
    → IsSize size
    → LeavesCoherent table (translate m addr size writing)
translate-LeavesCoherent m tlb table addr size writing c sized =
    Translated-LeavesCoherent m tlb table addr size writing _ c (
      translate-Translated m addr size writing sized
        (has_mapping-some m.tlb m.page_table tlb c.has_tlb))

invalidate-Agrees :
    (tlb table : List TranslationEntry) (size : ℕ)
    → length tlb ≡ tlb_size
    → (length (invalidate tlb tlb_size 0) ≡ tlb_size)
      × All (Agrees table size) (invalidate tlb tlb_size 0)
unfolding invalidate
invalidate-Agrees (a ∷ b ∷ c ∷ d ∷ []) table size h = (refl, (off, (off, (off, (off, tt)))))
  where
    off : {A : Type 0} → false ≡ true → A
    off h = absurd cc
invalidate-Agrees [] table size h = absurd (omega arith)
invalidate-Agrees (a ∷ []) table size h = absurd (omega arith)
invalidate-Agrees (a ∷ b ∷ []) table size h = absurd (omega arith)
invalidate-Agrees (a ∷ b ∷ c ∷ []) table size h = absurd (omega arith)
invalidate-Agrees (a ∷ b ∷ c ∷ d ∷ e ∷ es) table size h = absurd (omega arith)

save_state-runs :
    (m : Machine) (tlb : List TranslationEntry) (o : Option (List TranslationEntry))
    → o ≡ some tlb
    → with_cleaned m o ≡ ok (record m { tlb = some (invalidate tlb tlb_size 0) })
save_state-runs m tlb o h = rw h refl

-- A context switch: `SaveState` of one address space succeeds, and `RestoreState` of any other then
-- leaves a machine whose TLB is coherent with that one's page table.
restore_state-IsCoherent :
    (m : Machine) (tlb table : List TranslationEntry) (num_pages : ℕ)
    → m.tlb ≡ some tlb
    → length tlb ≡ tlb_size
    → (m' : Machine) × (tlb' : List TranslationEntry) × (save_state m ≡ ok m')
      × IsCoherent (restore_state m' table num_pages) tlb' table
unfolding save_state restore_state
restore_state-IsCoherent m tlb table num_pages named len =
    let (full, agrees) = invalidate-Agrees tlb table num_pages len in
    (
      record m { tlb = some (invalidate tlb tlb_size 0) },
      invalidate tlb tlb_size 0,
      save_state-runs m tlb m.tlb named,
      record { has_tlb = refl; has_table = refl; full = full; agrees = agrees },
    )
