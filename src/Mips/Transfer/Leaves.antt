-- ===== src/Mips/Transfer/Leaves.antt =====
-- The instructions of machine/mipssim.cc that read or write the memory.
use pku_os_lab.Common.{
  ℕ, ◌+◌, ◌-◌, ◌%◌, ◌^◌, ◌≡◌, refl, ◌∙◌, ap, Bool, true, false, not, ◌&&◌, leb, ◌==◌, if◌then◌else◌,
  Bool-cases, inl, inr, arith, Run, ok, ◌>>=◌, ◌>>◌, assert, get_or,
}
use pku_os_lab.Common.Bits.{and-le, or-lt}
use pku_os_lab.Machine.{Machine, address_error, pc_reg, next_pc_reg}
use pku_os_lab.Machine.Translate.{Value, Written}
use pku_os_lab.Mips.{Instruction}
use pku_os_lab.Mips.Registers.{reg, Effect, raises, pc_after, load_value_reg}
use pku_os_lab.Mips.Effects.{
  IsCpu, reg-IsWord, completes, stops, same-IsCpu, MayLeave, leaves, halts,
}
use pku_os_lab.Mips.Effects.Bounds.{IsWord, Operands}
use pku_os_lab.Mips.Effects.Access.{
  Reads, unread, gives, read_mem-Reads, Writes, unwritten, stores, write_mem-Writes,
}
use pku_os_lab.Machine.Translate.Outcome.{IsSize, a_byte, a_half, a_word}
use pku_os_lab.Mips.Transfer.{
  address, after_read, after_write, loads, load_byte, load_half, lw, lwl, lwr, pending, merge_left,
  merge_right, store_reg, store_left, store_right, store_merged, swl, swr,
}

merge_left-IsWord : (k v old : ℕ) → IsWord v → IsWord old → IsWord (merge_left k v old)
merge_left-IsWord k v old h g = elim (Bool-cases (k == 0)) [
  | inl e ↦ rw e h
  | inr n ↦ elim (Bool-cases (k == 1)) [
    | inl e ↦ rw (n, e) (or-lt 32 _ _ (omega arith) (omega arith))
    | inr n₁ ↦ elim (Bool-cases (k == 2)) [
      | inl e ↦ rw (n, n₁, e) (or-lt 32 _ _ (omega arith) (omega arith))
      | inr n₂ ↦ rw (n, n₁, n₂) (or-lt 32 _ _ (omega arith) (omega arith))
    ]
  ]
]

merge_right-IsWord : (k v old : ℕ) → IsWord v → IsWord old → IsWord (merge_right k v old)
merge_right-IsWord k v old h g = elim (Bool-cases (k == 0)) [
  | inl e ↦ rw e (or-lt 32 _ _ (and-le 32 _ _ g) (omega arith))
  | inr n ↦ elim (Bool-cases (k == 1)) [
    | inl e ↦ rw (n, e) (or-lt 32 _ _ (and-le 32 _ _ g) (omega arith))
    | inr n₁ ↦ elim (Bool-cases (k == 2)) [
      | inl e ↦ rw (n, n₁, e) (or-lt 32 _ _ (and-le 32 _ _ g) (omega arith))
      | inr n₂ ↦ rw (n, n₁, n₂) h
    ]
  ]
]

keeps_sign-IsWord : (b : Bool) (x y : ℕ) → IsWord x → IsWord y → IsWord (if b then x else y)
keeps_sign-IsWord true x y h g = h
keeps_sign-IsWord false x y h g = g

module _ (m : Machine) (c : IsCpu m) (i : Instruction) (o : Operands i) (may : Bool) where
  after_read-MayLeave :
      (addr : ℕ) (r : Run Value) (next : ℕ → Machine → Run Effect)
      → IsWord addr
      → Reads m r
      → ((v : ℕ) (m' : Machine)
          → IsWord v
          → IsCpu m'
          → m'.registers ≡ m.registers
          → MayLeave m may (next v m'))
      → MayLeave m may (do x ← r; after_read m addr x next)
  after_read-MayLeave addr _ next w (unread e) more = leaves _ (stops e addr m c w refl)
  after_read-MayLeave addr _ next w (gives v m' wv same mem map) more =
      more v m' wv (same-IsCpu m m' c same (rw mem c.bytes) map) same

  -- `DelayedLoad` is to load `v`.
  loads-MayLeave :
      (m' : Machine) (v : ℕ)
      → IsWord v
      → IsCpu m'
      → m'.registers ≡ m.registers
      → MayLeave m may (loads m' i v)
  loads-MayLeave m' v w c' same = leaves _ (
      completes m' i.rt v (pc_after m') c' o.rt w (omega arith) (ap (λ rs. get_or rs pc_reg 0) same)
        (ap (λ rs. get_or rs next_pc_reg 0) same))

  after_write-MayLeave :
      (m₀ : Machine) (addr : ℕ) (r : Run Written)
      → IsWord addr
      → IsCpu m₀
      → m₀.registers ≡ m.registers
      → Writes m₀ r
      → MayLeave m may (do x ← r; after_write m₀ addr x)
  after_write-MayLeave m₀ addr _ w c₀ same₀ (unwritten e) = leaves _ (stops e addr m₀ c₀ w same₀)
  after_write-MayLeave m₀ addr _ w c₀ same₀ (stores m' same bytes map) = leaves _ (
      completes m' 0 0 (pc_after m') (same-IsCpu m₀ m' c₀ same bytes map) (omega arith)
        (omega arith) (omega arith) (ap (λ rs. get_or rs pc_reg 0) (same ∙ same₀))
        (ap (λ rs. get_or rs next_pc_reg 0) (same ∙ same₀)))

  pub load_byte-MayLeave : (keeps_sign : Bool) → MayLeave m may (load_byte keeps_sign m i)
  unfolding load_byte
  load_byte-MayLeave keeps_sign =
      after_read-MayLeave (address m i) _ _ (omega arith)
        (read_mem-Reads m c.bytes c.mapped (address m i) 1 a_byte)
        (λ v m' w c' same.
          loads-MayLeave m' _
            (keeps_sign-IsWord (leb (2 ^ 7) (v % 2 ^ 8) && keeps_sign)
              (v % 2 ^ 8 + (2 ^ 32 - 2 ^ 8)) (v % 2 ^ 8) (omega arith) (omega arith))
            c' same)

  -- An access that is not aligned raises its exception before anything is read.
  unless_odd :
      (even : Bool) (run : Run Effect)
      → MayLeave m may run
      → MayLeave m may (if not even then ok (raises address_error (address m i) m) else run)
  unless_odd true run h = h
  unless_odd false run h = leaves _ (stops address_error (address m i) m c (omega arith) refl)

  pub load_half-MayLeave : (keeps_sign : Bool) → MayLeave m may (load_half keeps_sign m i)
  unfolding load_half
  load_half-MayLeave keeps_sign = unless_odd (address m i % 2 == 0) _ (
      after_read-MayLeave (address m i) _ _ (omega arith)
        (read_mem-Reads m c.bytes c.mapped (address m i) 2 a_half)
        (λ v m' w c' same.
          loads-MayLeave m' _
            (keeps_sign-IsWord (leb (2 ^ 15) (v % 2 ^ 16) && keeps_sign)
              (v % 2 ^ 16 + (2 ^ 32 - 2 ^ 16)) (v % 2 ^ 16) (omega arith) (omega arith))
            c' same))

  pub lw-MayLeave : MayLeave m may (lw m i)
  unfolding lw
  lw-MayLeave = unless_odd (address m i % 4 == 0) _ (
      after_read-MayLeave (address m i) _ _ (omega arith)
        (read_mem-Reads m c.bytes c.mapped (address m i) 4 a_word)
        (λ v m' w c' same. loads-MayLeave m' v w c' same))

  asserted :
      (b : Bool) (run : Run Effect)
      → may ≡ true
      → MayLeave m may run
      → MayLeave m may (assert b >> run)
  asserted true run stop h = h
  asserted false run stop h = halts stop

  pending-IsWord : (m' : Machine) → IsCpu m' → IsWord (pending m' i.rt)
  pending-IsWord m' c' =
      keeps_sign-IsWord _ _ _ (reg-IsWord m' load_value_reg c') (reg-IsWord m' i.rt c')

  pub lwl-MayLeave : may ≡ true → MayLeave m may (lwl m i)
  unfolding lwl
  lwl-MayLeave stop = asserted _ _ stop (
      after_read-MayLeave (address m i) _ _ (omega arith)
        (read_mem-Reads m c.bytes c.mapped (address m i) 4 a_word)
        (λ v m' w c' same.
          loads-MayLeave m' _ (merge_left-IsWord (address m i % 4) _ _ w (pending-IsWord m' c')) c'
            same))

  pub lwr-MayLeave : may ≡ true → MayLeave m may (lwr m i)
  unfolding lwr
  lwr-MayLeave stop = asserted _ _ stop (
      after_read-MayLeave (address m i) _ _ (omega arith)
        (read_mem-Reads m c.bytes c.mapped (address m i) 4 a_word)
        (λ v m' w c' same.
          loads-MayLeave m' _ (merge_right-IsWord (address m i % 4) _ _ w (pending-IsWord m' c')) c'
            same))

  pub store_reg-MayLeave : (size : ℕ) → IsSize size → MayLeave m may (store_reg size m i)
  unfolding store_reg
  store_reg-MayLeave size sized =
      after_write-MayLeave m (address m i) _ (omega arith) c refl
        (write_mem-Writes m c.bytes c.mapped (address m i) size (reg m i.rt) sized)

  store_merged-MayLeave :
      (merge : ℕ → ℕ → ℕ → ℕ) → may ≡ true → MayLeave m may (store_merged merge m i)
  store_merged-MayLeave merge stop =
      let word = address m i - address m i % 4 in
      asserted _ _ stop (
        after_read-MayLeave word _ _ (omega arith) (read_mem-Reads m c.bytes c.mapped word 4 a_word)
          (λ v m' w c' same.
            after_write-MayLeave m' word _ (omega arith) c' same
              (write_mem-Writes m' c'.bytes c'.mapped word 4 _ a_word)))

  pub swl-MayLeave : may ≡ true → MayLeave m may (swl m i)
  unfolding swl
  swl-MayLeave stop = store_merged-MayLeave store_left stop

  pub swr-MayLeave : may ≡ true → MayLeave m may (swr m i)
  unfolding swr
  swr-MayLeave stop = store_merged-MayLeave store_right stop
