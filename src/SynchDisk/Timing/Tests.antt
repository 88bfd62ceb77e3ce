-- ===== src/SynchDisk/Timing/Tests.antt =====
-- The times of machine/disk.cc, at a concrete request.
use pku_os_lab.Common.{true, ◌≡◌, refl}
use pku_os_lab.SynchDisk.Timing.{Head, compute_latency, seek_for, rotation_after, modulo_diff}

abbrev head : Head
head = record { last_sector = 40; buffer_init = 500 }

-- From track 1 to track 3.
compute_latency-write : compute_latency head 1234 100 true ≡ 17266
unfolding compute_latency seek_for rotation_after modulo_diff
compute_latency-write = refl
