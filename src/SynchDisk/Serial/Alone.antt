-- ===== src/SynchDisk/Serial/Alone.antt =====
-- `ReadSector` and `WriteSector` of filesys/synchdisk.cc where one thread uses the disk, as filesys/filesys.cc does.
use mathlib.Core.Path.{fun_ext}
use pku_os_lab.Common.{
  ℕ, ◌≡◌, refl, ◌∙◌, sym, ap, true, false, [], Option, none, ◌==◌, if◌then◌else◌, pos, Run, ok,
  ◌>>=◌, arith, Bool-cases, inl, inr, ltb,
}
use pku_os_lab.Synch.{acquire, release, p_pass, v}
use pku_os_lab.SynchDisk.{Disk, disk_sectors, read_sector, write_sector, put}
use pku_os_lab.SynchDisk.Serial.{
  Request, reading, writing, Place, outside, acquiring, System, move, run_thread, try_lock,
  send_request, wait_done, finish, disk_interrupt,
}

-- A call of the thread `t` whose steps only the interrupt comes between.
abbrev pub run_alone : ℕ → Request → System → Run System
run_alone t r s = do
  taken ← run_thread t (record s { place = move s.place t (acquiring r) })
  requested ← run_thread t taken
  blocked ← run_thread t requested
  woken ← run_thread t (disk_interrupt blocked)
  run_thread t woken

-- No thread is in an operation of the disk.
abbrev pub at_rest : Option ℕ → Disk (ℕ → ℕ) → (ℕ → ℕ → ℕ) → (ℕ → Place) → System
at_rest holder contents buffers place = record {
  lock = record { holder = holder; semaphore = record { value = 1; queue = [] } };
  done = record { value = 0; queue = [] };
  active = false;
  scheduled = 0;
  contents = contents;
  buffers = buffers;
  place = place;
}

-- The request, on the sectors alone.
abbrev pub transfer : ℕ → Request → Disk (ℕ → ℕ) → (ℕ → ℕ → ℕ) → Run (Disk (ℕ → ℕ) × (ℕ → ℕ → ℕ))
transfer t (reading sector) contents buffers = do
  bytes ← read_sector (pos sector) contents
  ok (contents, λ u. if t == u then bytes else buffers u)
transfer t (writing sector bytes) contents buffers = do
  contents' ← write_sector (pos sector) bytes contents
  ok (contents', buffers)

module _ (holder : Option ℕ) (contents : Disk (ℕ → ℕ)) (buffers : ℕ → ℕ → ℕ) (place : ℕ → Place)
    (t : ℕ) where
  self : (t == t) ≡ true
  self = ground arith

  -- The thread is where it was.
  moved_back :
      (a b c d e f : Place)
      → place t ≡ outside
      → move (move (move (move (move (move (move place t a) t b) t c) t d) t e) t f) t outside
        ≡ place
  moved_back a b c d e f out = fun_ext at
    where
      at :
          (u : ℕ)
          → move (move (move (move (move (move (move place t a) t b) t c) t d) t e) t f) t outside u
            ≡ place u
      at u = elim (Bool-cases (t == u)) [
        | inr other ↦ rw other refl
        | inl same ↦
            let eq : t ≡ u = ground (arith, same) in rw same (sym (ap place (sym eq) ∙ out))
      ]

  -- While no other thread uses the disk, a call that only its own interrupt comes between runs to its end: it leaves
  -- the lock and the disk free, and does to the sectors and to the buffer what `read_sector` or `write_sector` does,
  -- which is what the file system is modelled on, and it stops at an `ASSERT` where that does.
  pub run_alone-transfer :
      (r : Request)
      → place t ≡ outside
      → run_alone t r (at_rest holder contents buffers place) ≡ (
          transfer t r contents buffers >>= λ (result : Disk (ℕ → ℕ) × (ℕ → ℕ → ℕ)).
          ok (at_rest none result.0 result.1 place))
  unfolding try_lock acquire p_pass send_request wait_done finish disk_interrupt v release
      read_sector write_sector
  run_alone-transfer (reading sector) out = elim (Bool-cases (ltb sector disk_sectors)) [
    | inr off ↦ rw self (rw self (rw off refl))
    | inl on ↦ rw self (
        rw self (
          rw on (
            rw self (
              rw self (
                rw self (
                  rw self (
                    ap
                      (λ f. ok (
                        at_rest none contents (λ u. if t == u then contents sector else buffers u)
                          f))
                      (moved_back _ _ _ _ _ _ out))))))))
  ]
  run_alone-transfer (writing sector bytes) out = elim (Bool-cases (ltb sector disk_sectors)) [
    | inr off ↦ rw self (rw self (rw off refl))
    | inl on ↦ rw self (
        rw self (
          rw on (
            rw self (
              rw self (
                rw self (
                  rw self (
                    ap (λ f. ok (at_rest none (put contents sector bytes) buffers f))
                      (moved_back _ _ _ _ _ _ out))))))))
  ]
