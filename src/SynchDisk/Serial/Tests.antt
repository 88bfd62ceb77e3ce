-- ===== src/SynchDisk/Serial/Tests.antt =====
-- The theorems on filesys/synchdisk.cc in a short run: thread 1 writes sector 3 and sleeps for the disk, while thread 2
-- sleeps for the lock.
use pku_os_lab.Common.{ℕ, ◌≡◌, refl, none, some, Run, ok, ◌>>=◌, arith}
use pku_os_lab.Synch.{acquire, p_pass, new_lock, v, release}
use pku_os_lab.SynchDisk.{Disk, write_sector, put}
use pku_os_lab.SynchDisk.Serial.{
  reading, writing, System, outside, acquiring, move, new_synch_disk, calls, runs, interrupts,
  Reach, here, next, try_lock, send_request, wait_done, disk_interrupt, finish, run_thread,
}
use pku_os_lab.SynchDisk.Serial.Safe.{Answer, run_thread_served}
use pku_os_lab.SynchDisk.Serial.Alone.{run_alone, at_rest, transfer, run_alone-transfer}

-- What `ok` holds.
abbrev state : System → Run System → System
state s (ok s') = s'
state s Run.aborted = s

abbrev zeroes : ℕ → ℕ
zeroes i = 0

abbrev sevens : ℕ → ℕ
sevens i = 7

abbrev start : System
start = new_synch_disk (some 7) (λ s. zeroes) (λ t. zeroes)

abbrev first_call : System
first_call = record start { place = move start.place 1 (acquiring (writing 3 sevens)) }

abbrev second_call : System
second_call = record first_call { place = move first_call.place 2 (acquiring (reading 3)) }

abbrev first_in : System
first_in = state second_call (run_thread 1 second_call)

abbrev second_asleep : System
second_asleep = state first_in (run_thread 2 first_in)

abbrev requested : System
requested = state second_asleep (run_thread 1 second_asleep)

abbrev first_blocked : System
first_blocked = state requested (run_thread 1 requested)

abbrev first_woken : System
first_woken = disk_interrupt first_blocked

abbrev first_done : System
first_done = state first_woken (run_thread 1 first_woken)

first_blocked-Reach : Reach start first_blocked
unfolding new_synch_disk try_lock acquire p_pass new_lock send_request write_sector put wait_done
first_blocked-Reach =
    next
      (next
        (next
          (next
            (next (next here (calls 1 (writing 3 sevens) start refl (omega arith)))
              (calls 2 (reading 3) first_call refl (omega arith)))
            (runs 1 second_call first_in refl))
          (runs 2 first_in second_asleep refl))
        (runs 1 second_asleep requested refl))
      (runs 1 requested first_blocked refl)

first_done-Reach : Reach start first_done
unfolding new_synch_disk try_lock acquire p_pass new_lock send_request write_sector put wait_done
    disk_interrupt v
first_done-Reach =
    next (next first_blocked-Reach (interrupts 0 first_blocked refl))
      (runs 1 first_woken first_done refl)

run_thread_served_example :
    ((s' : System) × (run_thread 1 first_done ≡ ok s')) × Answer first_done 1 (first_done.place 1)
run_thread_served_example =
    run_thread_served (some 7) (λ s. zeroes) (λ t. zeroes) first_done first_done-Reach 1

-- Thread 1 returns: thread 2 is woken, and finds the sevens.
finish-wakes : (state first_done (run_thread 1 first_done)).place 2 ≡ acquiring (reading 3)
unfolding new_synch_disk try_lock acquire p_pass new_lock send_request write_sector put wait_done
    disk_interrupt v finish release
finish-wakes = refl

write_sector-then : first_done.contents 3 8 ≡ 7
unfolding new_synch_disk try_lock acquire p_pass new_lock send_request write_sector put wait_done
    disk_interrupt v
write_sector-then = refl

run_alone-transfer_example :
    run_alone 1 (writing 3 sevens) (at_rest (some 7) (λ s. zeroes) (λ t. zeroes) (λ t. outside)) ≡ (
      transfer 1 (writing 3 sevens) (λ s. zeroes) (λ t. zeroes)
      >>= λ (result : Disk (ℕ → ℕ) × (ℕ → ℕ → ℕ)).
          ok (at_rest none result.0 result.1 (λ t. outside)))
run_alone-transfer_example =
    run_alone-transfer (some 7) (λ s. zeroes) (λ t. zeroes) (λ t. outside) 1 (writing 3 sevens) refl

-- A new disk is at rest.
new_synch_disk-at_rest : start ≡ at_rest (some 7) (λ s. zeroes) (λ t. zeroes) (λ t. outside)
unfolding new_synch_disk new_lock
new_synch_disk-at_rest = refl
