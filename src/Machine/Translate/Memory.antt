-- ===== src/Machine/Translate/Memory.antt =====
-- `ReadMem` and `WriteMem` of machine/translate.cc against one another.
use pku_os_lab.Common.{
  ℕ, zero, suc, ◌+◌, ◌*◌, ◌/◌, ◌%◌, ◌^◌, ◌≤◌, ◌<◌, ◌≡◌, refl, ◌∙◌, ap, Bool, true, false, ◌||◌, ltb,
  leb, ok, arith, ◌==◌, if◌then◌else◌,
}
use pku_os_lab.Machine.{Machine, page_size, num_phys_pages, memory_size}
use pku_os_lab.Machine.Translate.{
  Slot, missing, in_tlb, in_table, entry_at, touch, misaligned, at, load, store, put_byte,
  sign_extend, value, read_mem, read_at, written, write_mem, write_at,
}
use pku_os_lab.Machine.Translate.Outcome.{IsSize, a_byte, a_half, a_word, Maps}
use pku_os_lab.Machine.Translate.Mapping.{Maps-touch, Touches, entry_at-touch, translate-at}

store-outside :
    (n phys v : ℕ) (mem : ℕ → ℕ) (p : ℕ)
    → (ltb p phys || leb (phys + n) p) ≡ true
    → store n phys v mem p ≡ mem p
unfolding store put_byte
store-outside zero phys v mem p h = refl
store-outside (suc n) phys v mem p h =
    store-outside n (phys + 1) (v / 256) (put_byte mem phys (v % 256)) p (ground arith)
    ∙ ground arith

-- The lowest `n` bytes of a number.
low_bytes : ℕ → ℕ → ℕ
low_bytes zero v = 0
low_bytes (suc n) v = v % 256 + 256 * low_bytes n (v / 256)

load-store : (n phys v : ℕ) (mem : ℕ → ℕ) → load n phys (store n phys v mem) ≡ low_bytes n v
unfolding store load low_bytes put_byte
load-store zero phys v mem = refl
load-store (suc n) phys v mem =
    let later = put_byte mem phys (v % 256) in
    rw
      (
        store-outside n (phys + 1) (v / 256) later phys (ground arith),
        load-store n (phys + 1) (v / 256) later,
      )
      (ground arith)

-- What `ReadMem` gives after `WriteMem` of `v`: the value's lowest byte with its sign, its lowest half
-- or the word.
abbrev pub kept : ℕ → ℕ → ℕ
kept size v =
    if size == 1 then sign_extend (v % 2 ^ 8) else if size == 2 then v % 2 ^ 16 else v % 2 ^ 32

store_one : (phys v : ℕ) (mem : ℕ → ℕ) → store 1 phys v mem phys ≡ v % 256
unfolding store put_byte
store_one phys v mem = ground arith

low_half : (v : ℕ) → low_bytes 2 v ≡ v % 2 ^ 16
unfolding low_bytes
low_half v = omega arith

low_word : (v : ℕ) → low_bytes 4 v ≡ v % 2 ^ 32
unfolding low_bytes
low_word v = omega arith

-- The reading of `size` bytes at `phys` after they were stored there.
read_at-store :
    (m : Machine) (size phys v : ℕ) (mem : ℕ → ℕ)
    → IsSize size
    → m.main_memory ≡ store size phys v mem
    → read_at size (at phys m) ≡ ok (value (kept size v) m)
unfolding read_at
read_at-store m size phys v mem a_byte h =
    ap (λ (x : ℕ). ok (value (sign_extend x) m)) (ap (λ f. f phys) h ∙ store_one phys v mem)
read_at-store m size phys v mem a_half h =
    ap (λ (x : ℕ). ok (value x m)) (ap (load 2 phys) h ∙ load-store 2 phys v mem ∙ low_half v)
read_at-store m size phys v mem a_word h =
    ap (λ (x : ℕ). ok (value x m)) (ap (load 4 phys) h ∙ load-store 4 phys v mem ∙ low_word v)

aligned : (size addr : ℕ) → IsSize size → addr % size ≡ 0 → misaligned size addr ≡ false
aligned size addr a_byte h = refl
aligned size addr a_half h = ground arith
aligned size addr a_word h = ground arith

inside :
    (size addr frame : ℕ)
    → IsSize size
    → addr % size ≡ 0
    → frame < num_phys_pages
    → frame * page_size + addr % page_size + size ≤ memory_size
inside size addr frame a_byte h small = omega arith
inside size addr frame a_half h small = omega arith
inside size addr frame a_word h small = omega arith

write_at-store :
    (size v phys : ℕ) (m : Machine)
    → IsSize size
    → write_at size v (at phys m)
      ≡ ok (written (record m { main_memory = store size phys v m.main_memory }))
unfolding write_at
write_at-store size v phys m a_byte = refl
write_at-store size v phys m a_half = refl
write_at-store size v phys m a_word = refl

pub touch-memory :
    (m : Machine) (slot : Slot) (writing : Bool)
    → ((touch m slot writing).main_memory ≡ m.main_memory)
      × ((touch m slot writing).registers ≡ m.registers)
touch-memory m (missing e) writing = (refl, refl)
touch-memory m (in_tlb i) writing = (refl, refl)
touch-memory m (in_table i) writing = (refl, refl)

touch-size :
    (m : Machine) (slot : Slot) (writing : Bool)
    → (touch m slot writing).page_table_size ≡ m.page_table_size
touch-size m (missing e) writing = refl
touch-size m (in_tlb i) writing = refl
touch-size m (in_table i) writing = refl

-- A write of `v` at the physical address `phys`, and the reading of it.
pub record Stored (m : Machine) (addr size v phys : ℕ) : Type 0 where
  pub m' : Machine
  pub m'' : Machine
  pub writes : write_mem m addr size v ≡ ok (written m')
  pub outside :
      (p : ℕ) → (ltb p phys || leb (phys + size) p) ≡ true → m'.main_memory p ≡ m.main_memory p
  pub reads : read_mem m' addr size ≡ ok (value (kept size v) m'')
  pub same_memory : m''.main_memory ≡ m'.main_memory
  pub same_registers : m''.registers ≡ m.registers

module _ (m : Machine) (addr size v phys : ℕ) (slot : Slot) (sized : IsSize size)
    (even : addr % size ≡ 0) (maps : Maps m (addr / page_size) slot)
    (writable : (entry_at m slot).read_only ≡ false)
    (small : (entry_at m slot).physical_page < num_phys_pages)
    (is : phys ≡ (entry_at m slot).physical_page * page_size + addr % page_size) where
  inside_memory : phys + size ≤ memory_size
  inside_memory = rw is (inside size addr (entry_at m slot).physical_page sized even small)

  -- The machine after the write.
  stored : Machine
  stored = record (touch m slot true) {
    main_memory = store size phys v (touch m slot true).main_memory;
  }

  write_runs : write_mem m addr size v ≡ ok (written stored)
  unfolding write_mem stored
  write_runs =
      rw
        (translate-at m addr size phys true slot (aligned size addr sized even) maps
          (rw writable refl) small is inside_memory)
        (write_at-store size v phys (touch m slot true) sized)

  read_runs :
      (m' : Machine)
      → Touches m m' slot true
      → m'.main_memory ≡ store size phys v m.main_memory
      → read_mem m' addr size ≡ ok (value (kept size v) (touch m' slot false))
  unfolding read_mem
  read_runs m' t mem =
      let same = entry_at-touch m m' slot true t in
      rw
        (translate-at m' addr size phys false slot (aligned size addr sized even)
          (Maps-touch m m' _ slot true t maps) (rw (same.read_only, writable) refl)
          (omega (arith, same.frame)) (rw same.frame is) inside_memory)
        (read_at-store (touch m' slot false) size phys v m.main_memory sized
          ((touch-memory m' slot false).0 ∙ mem))

  stored-Stored : Stored m addr size v phys
  unfolding stored
  stored-Stored = record {
    m' = stored;
    m'' = touch stored slot false;
    writes = write_runs;
    outside = λ p h. store-outside size phys v _ p h ∙ ap (λ f. f p) (touch-memory m slot true).0;
    reads =
        read_runs stored
          (record { same_tlb = refl; same_table = refl; same_size = touch-size m slot true })
          (ap (store size phys v) (touch-memory m slot true).0);
    same_memory = (touch-memory stored slot false).0;
    same_registers = (touch-memory stored slot false).1 ∙ (touch-memory m slot true).1;
  }

module _ (m : Machine) (addr size v : ℕ) (slot : Slot) (sized : IsSize size)
    (even : addr % size ≡ 0) (maps : Maps m (addr / page_size) slot)
    (writable : (entry_at m slot).read_only ≡ false)
    (small : (entry_at m slot).physical_page < num_phys_pages) where
  -- An aligned write of 1, 2 or 4 bytes through a mapped entry that is not read-only and names a frame
  -- of the memory succeeds and changes no cell outside the frame's bytes at the offset, and a read at
  -- the same address then gives the value back, cut to its size and, for one byte, with its sign.
  pub read_mem-write_mem :
      Stored m addr size v ((entry_at m slot).physical_page * page_size + addr % page_size)
  read_mem-write_mem = stored-Stored m addr size v _ slot sized even maps writable small refl
