-- ===== src/Threads/Scheduler/Table/Names.antt =====
-- The numbers of threads in threads/thread.cc.
use pku_os_lab.Common.{
  ℕ, zero, suc, ◌+◌, ◌<◌, ◌≤◌, ◌≡◌, refl, ◌∙◌, sym, ap, Bool, true, false, inl, inr, Option,
  if◌then◌else◌, none, some, ◌==◌, ok, Bool-cases, arith,
}
use pku_os_lab.Threads.Scheduler.Table.{
  max_thread_num, Table, new_table, first_free, with_id, new_thread, delete_thread,
}

-- An entry is flagged if it names a thread, and the thread knows its number.
pub data Entry (table : Table) (i : ℕ) : Bool → Option ℕ → Type 0 where
  free : Entry table i false none
  names : (t : ℕ) → table.thread_id t ≡ i → Entry table i true (some t)

pub record IsTable (table : Table) : Type 0 where
  pub entry : (i : ℕ) → i < max_thread_num → Entry table i (table.flags i) (table.threads i)

new_table-IsTable : (garbage : ℕ → ℕ) → IsTable (new_table garbage)
new_table-IsTable garbage = record { entry = λ i lt. free }

-- No entry names the thread.
pub record Unnamed (table : Table) (t : ℕ) : Type 0 where
  pub nowhere : (i u : ℕ) → i < max_thread_num → table.threads i ≡ some u → (t == u) ≡ false

pub data FirstFree (flags : ℕ → Bool) (n i : ℕ) : Option ℕ → Type 0 where
  all_taken : ((j : ℕ) → i ≤ j → j < i + n → flags j ≡ true) → FirstFree flags n i none
  found :
      (k : ℕ)
      → i ≤ k
      → k < i + n
      → flags k ≡ false
      → ((j : ℕ) → i ≤ j → j < k → flags j ≡ true)
      → FirstFree flags n i (some k)

further :
    (flags : ℕ → Bool) (n i : ℕ) (r : Option ℕ)
    → flags i ≡ true
    → FirstFree flags n (i + 1) r
    → FirstFree flags (suc n) i r
further flags n i _ here (all_taken all) = all_taken at
  where
    at : (j : ℕ) → i ≤ j → j < i + suc n → flags j ≡ true
    at j ge lt = elim (Bool-cases (i == j)) [
      | inl same ↦ let e : i ≡ j = ground (arith, same) in ap flags (sym e) ∙ here
      | inr other ↦ all j (ground (arith, ge, other)) (omega (arith, lt))
    ]
further flags n i _ here (found k ge lt clear below) =
    found k (omega (arith, ge)) (omega (arith, lt)) clear at
  where
    at : (j : ℕ) → i ≤ j → j < k → flags j ≡ true
    at j ge' lt' = elim (Bool-cases (i == j)) [
      | inl same ↦ let e : i ≡ j = ground (arith, same) in ap flags (sym e) ∙ here
      | inr other ↦ below j (ground (arith, ge', other)) lt'
    ]

first_free-FirstFree : (flags : ℕ → Bool) (n i : ℕ) → FirstFree flags n i (first_free flags n i)
unfolding first_free
first_free-FirstFree flags zero i = all_taken (λ j ge lt. absurd (omega (arith, ge, lt)))
first_free-FirstFree flags (suc n) i = elim (Bool-cases (flags i)) [
  | inl taken ↦ rw taken (further flags n i _ taken (first_free-FirstFree flags n (i + 1)))
  | inr clear ↦
      rw clear
        (found i (omega arith) (omega arith) clear (λ j ge lt. absurd (omega (arith, ge, lt))))
]

taken_by :
    (table : Table) (i : ℕ) (b : Bool) (o : Option ℕ)
    → Entry table i b o
    → b ≡ true
    → (u : ℕ) × (o ≡ some u)
taken_by table i _ _ free e = cc
taken_by table i _ _ (names t eq) e = (t, refl)

-- Another number for the thread `t` changes nothing for other threads.
carried :
    (table table' : Table) (t i : ℕ) (b : Bool) (o : Option ℕ)
    → Entry table i b o
    → ((u : ℕ) → (t == u) ≡ false → table'.thread_id u ≡ table.thread_id u)
    → ((u : ℕ) → o ≡ some u → (t == u) ≡ false)
    → Entry table' i b o
carried table table' t i _ _ free same other = free
carried table table' t i _ _ (names u eq) same other = names u (same u (other u refl) ∙ eq)

-- What the constructor of the object `t` may do.
pub data Named (t : ℕ) (table : Table) : Option Table → Type 0 where
  full : ((i : ℕ) → i < max_thread_num → (u : ℕ) × (table.threads i ≡ some u)) → Named t table none
  named :
      (i : ℕ) (table' : Table)
      → i < max_thread_num
      → table.flags i ≡ false
      → ((j : ℕ) → j < i → table.flags j ≡ true)
      → table'.thread_id t ≡ i
      → table'.threads i ≡ some t
      → ((j : ℕ) → (i == j) ≡ false → table'.threads j ≡ table.threads j)
      → IsTable table'
      → Named t table (some table')

module _ (t : ℕ) (table : Table) (ok_table : IsTable table) (fresh : Unnamed table t) where
  abbrev given : ℕ → Table
  given i = record {
    flags = λ j. if i == j then true else table.flags j;
    threads = λ j. if i == j then some t else table.threads j;
    thread_id = λ u. if t == u then i else table.thread_id u;
  }

  given-IsTable : (i : ℕ) → IsTable (given i)
  given-IsTable i = record { entry = at }
    where
      at :
          (j : ℕ)
          → j < max_thread_num
          → Entry
              (given i)
              j
              (if i == j then true else table.flags j)
              (if i == j then some t else table.threads j)
      at j lt = elim (Bool-cases (i == j)) [
        | inl same ↦
            let self : (t == t) ≡ true = ground arith in
            rw same (names t (rw self (ground (arith, same))))
        | inr other ↦ rw other (
            carried table (given i) t j _ _ (ok_table.entry j lt) (λ u apart. rw apart refl)
              (λ u e. fresh.nowhere j u lt e))
      ]

  by_first_free :
      (o : Option ℕ) → FirstFree table.flags max_thread_num 0 o → Named t table (with_id table t o)
  by_first_free _ (all_taken all) =
      full (λ i lt.
        taken_by table i _ _ (ok_table.entry i lt) (all i (omega arith) (omega (arith, lt))))
  by_first_free _ (found k ge lt clear below) =
      let self : (t == t) ≡ true = ground arith in
      let self_k : (k == k) ≡ true = ground arith in
      named k (given k) (omega (arith, lt)) clear (λ j less. below j (omega arith) less)
        (rw self refl) (rw self_k refl) (λ j other. rw other refl) (given-IsTable k)

  -- The constructor of a thread that the table does not hold throws just if all 128 entries name a thread. Otherwise
  -- the thread gets the smallest number that is free, and no other entry changes; a flag still says whether its entry
  -- names a thread, and every thread in the table knows its number, so that no two threads share one.
  pub new_thread-Named : Named t table (new_thread t table)
  unfolding new_thread
  new_thread-Named =
      by_first_free (first_free table.flags max_thread_num 0)
        (first_free-FirstFree table.flags max_thread_num 0)

-- The table after the destructor of `t`.
pub record IsFreed (table table' : Table) (t : ℕ) : Type 0 where
  pub flag : table'.flags (table.thread_id t) ≡ false
  pub others : (j : ℕ) → (table.thread_id t == j) ≡ false → table'.threads j ≡ table.threads j
  pub is_table : IsTable table'

pub delete_thread-IsFreed :
    (t current : ℕ) (table : Table)
    → IsTable table
    → (t == current) ≡ false
    → (table' : Table) × (delete_thread t current table ≡ ok table') × IsFreed table table' t
unfolding delete_thread
delete_thread-IsFreed t current table ok_table apart = (
  gone,
  rw apart refl,
  record {
    flag =
        let self : (table.thread_id t == table.thread_id t) ≡ true = ground arith in rw self refl;
    others = λ j other. rw other refl;
    is_table = record { entry = at };
  },
)
  where
    gone : Table
    gone = record table {
      flags = λ j. if table.thread_id t == j then false else table.flags j;
      threads = λ j. if table.thread_id t == j then none else table.threads j;
    }

    at :
        (j : ℕ)
        → j < max_thread_num
        → Entry gone j
            (if table.thread_id t == j then false else table.flags j)
            (if table.thread_id t == j then none else table.threads j)
    at j lt = elim (Bool-cases (table.thread_id t == j)) [
      | inl same ↦ rw same free
      | inr other ↦ rw other (moved _ _ (ok_table.entry j lt))
    ]
      where
        moved : (b : Bool) (o : Option ℕ) → Entry table j b o → Entry gone j b o
        moved _ _ free = free
        moved _ _ (names u eq) = names u eq
