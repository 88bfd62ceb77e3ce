-- ===== src/Mips/Effects/Access.antt =====
-- `ReadMem` and `WriteMem` of machine/translate.cc, as machine/mipssim.cc uses them.
use pku_os_lab.Common.{
  ℕ, zero, suc, ◌+◌, ◌/◌, ◌%◌, ◌<◌, ◌≡◌, refl, Bool, true, false, arith, Run, ok, ◌>>=◌, none, some,
  Option, List,
}
use pku_os_lab.Machine.{Machine, TranslationEntry, ExceptionType}
use pku_os_lab.Machine.Translate.{
  Slot, missing, in_tlb, in_table, touch, touch_in, translate, Translation, raised, at, load, store,
  put_byte, sign_extend, Value, failed, value, read_at, read_mem, Written, refused, written,
  write_at, write_mem,
}
use pku_os_lab.Machine.Translate.Memory.{touch-memory}
use pku_os_lab.Machine.Translate.Outcome.{
  IsSize, a_byte, a_half, a_word, has_mapping, Translated, not_aligned, not_mapped, protected,
  no_frame, done, translate-Translated,
}
use pku_os_lab.Mips.Effects.Bounds.{IsWord}

-- A translation changes the tables at most, and there is one still.
data Translates (m : Machine) : Run Translation → Type 0 where
  refuses : (e : ExceptionType) → Translates m (ok (raised e))
  finds :
      (phys : ℕ) (m' : Machine)
      → m'.registers ≡ m.registers
      → m'.main_memory ≡ m.main_memory
      → has_mapping m'.tlb m'.page_table ≡ true
      → Translates m (ok (at phys m'))

touch-has_mapping :
    (m : Machine) (slot : Slot) (writing : Bool)
    → has_mapping m.tlb m.page_table ≡ true
    → has_mapping (touch m slot writing).tlb (touch m slot writing).page_table ≡ true
touch-has_mapping m (missing e) writing h = h
touch-has_mapping m (in_tlb i) writing h = by_first m.tlb m.page_table i writing h
  where
    by_first :
        (t u : Option (List TranslationEntry)) (i : ℕ) (writing : Bool)
        → has_mapping t u ≡ true
        → has_mapping (touch_in t i writing) u ≡ true
    by_first none u i writing h = h
    by_first (some es) u i writing h = refl
touch-has_mapping m (in_table i) writing h = by_second m.tlb m.page_table i writing h
  where
    by_second :
        (t u : Option (List TranslationEntry)) (i : ℕ) (writing : Bool)
        → has_mapping t u ≡ true
        → has_mapping t (touch_in u i writing) ≡ true
    by_second t none i writing h = h
    by_second none (some es) i writing h = refl
    by_second (some fs) (some es) i writing h = refl

Translated-Translates :
    (m : Machine) (addr size : ℕ) (writing : Bool) (r : Run Translation)
    → has_mapping m.tlb m.page_table ≡ true
    → Translated m addr size writing r
    → Translates m r
Translated-Translates m addr size writing _ h (not_aligned odd) = refuses _
Translated-Translates m addr size writing _ h (not_mapped e even why) = refuses e
Translated-Translates m addr size writing _ h (protected slot even maps ro w) = refuses _
Translated-Translates m addr size writing _ h (no_frame slot even maps ro big) = refuses _
Translated-Translates m addr size writing _ h
      (done slot phys aligned maps free small is even inside) =
    finds phys _ (touch-memory m slot writing).1 (touch-memory m slot writing).0
      (touch-has_mapping m slot writing h)

translate-Translates :
    (m : Machine) (addr size : ℕ) (writing : Bool)
    → IsSize size
    → has_mapping m.tlb m.page_table ≡ true
    → Translates m (translate m addr size writing)
translate-Translates m addr size writing sized h =
    Translated-Translates m addr size writing _ h (translate-Translated m addr size writing sized h)

-- A read gives a word and changes the tables at most.
pub data Reads (m : Machine) : Run Value → Type 0 where
  unread : (e : ExceptionType) → Reads m (ok (failed e))
  gives :
      (v : ℕ) (m' : Machine)
      → IsWord v
      → m'.registers ≡ m.registers
      → m'.main_memory ≡ m.main_memory
      → has_mapping m'.tlb m'.page_table ≡ true
      → Reads m (ok (value v m'))

-- A write leaves bytes in the memory and changes the tables besides.
pub data Writes (m : Machine) : Run Written → Type 0 where
  unwritten : (e : ExceptionType) → Writes m (ok (refused e))
  stores :
      (m' : Machine)
      → m'.registers ≡ m.registers
      → ((p : ℕ) → m'.main_memory p < 256)
      → has_mapping m'.tlb m'.page_table ≡ true
      → Writes m (ok (written m'))

abbrev AreBytes : (ℕ → ℕ) → Type 0
AreBytes mem = (p : ℕ) → mem p < 256

sign_extend-IsWord : (x : ℕ) → x < 256 → IsWord (sign_extend x)
sign_extend-IsWord x h = ground (arith, h)

load_two-IsWord : (phys : ℕ) (mem : ℕ → ℕ) → AreBytes mem → IsWord (load 2 phys mem)
unfolding load
load_two-IsWord phys mem b = omega (arith, b phys, b (phys + 1))

load_four-IsWord : (phys : ℕ) (mem : ℕ → ℕ) → AreBytes mem → IsWord (load 4 phys mem)
unfolding load
load_four-IsWord phys mem b =
    omega (arith, b phys, b (phys + 1), b (phys + 1 + 1), b (phys + 1 + 1 + 1))

store-AreBytes : (n phys v : ℕ) (mem : ℕ → ℕ) → AreBytes mem → AreBytes (store n phys v mem)
unfolding store put_byte
store-AreBytes zero phys v mem b = b
store-AreBytes (suc n) phys v mem b =
    store-AreBytes n (phys + 1) (v / 256) (put_byte mem phys (v % 256)) (λ p. ground (arith, b p))

module _ (m : Machine) (bytes : AreBytes m.main_memory)
    (mapped : has_mapping m.tlb m.page_table ≡ true) where
  read_at-Reads :
      (size : ℕ) (r : Run Translation)
      → IsSize size
      → Translates m r
      → Reads m (do t ← r; read_at size t)
  unfolding read_at
  read_at-Reads size _ sized (refuses e) = unread e
  read_at-Reads _ _ a_byte (finds phys m' regs mem map) =
      gives _ m' (sign_extend-IsWord (m'.main_memory phys) (rw mem (bytes phys))) regs mem map
  read_at-Reads _ _ a_half (finds phys m' regs mem map) =
      gives _ m' (load_two-IsWord phys _ (rw mem bytes)) regs mem map
  read_at-Reads _ _ a_word (finds phys m' regs mem map) =
      gives _ m' (load_four-IsWord phys _ (rw mem bytes)) regs mem map

  -- A read of 1, 2 or 4 bytes ends, whatever the address.
  pub read_mem-Reads : (addr size : ℕ) → IsSize size → Reads m (read_mem m addr size)
  unfolding read_mem
  read_mem-Reads addr size sized =
      read_at-Reads size _ sized (translate-Translates m addr size false sized mapped)

  write_at-Writes :
      (size v : ℕ) (r : Run Translation)
      → IsSize size
      → Translates m r
      → Writes m (do t ← r; write_at size v t)
  unfolding write_at
  write_at-Writes size v _ sized (refuses e) = unwritten e
  write_at-Writes _ v _ a_byte (finds phys m' regs mem map) =
      stores _ regs (store-AreBytes 1 phys v _ (rw mem bytes)) map
  write_at-Writes _ v _ a_half (finds phys m' regs mem map) =
      stores _ regs (store-AreBytes 2 phys v _ (rw mem bytes)) map
  write_at-Writes _ v _ a_word (finds phys m' regs mem map) =
      stores _ regs (store-AreBytes 4 phys v _ (rw mem bytes)) map

  pub write_mem-Writes : (addr size v : ℕ) → IsSize size → Writes m (write_mem m addr size v)
  unfolding write_mem
  write_mem-Writes addr size v sized =
      write_at-Writes size v _ sized (translate-Translates m addr size true sized mapped)
