-- ===== src/SynchDisk/Timing.antt =====
-- How long a request takes: `TimeToSeek`, `ModuloDiff`, `ComputeLatency` and `UpdateLast` of
-- machine/disk.cc, built with the track buffer. Times are not negative; where the buffer would start
-- after the seek, the truncated difference is 0 as the quotient is in the source.
mod Tests
use pku_os_lab.Common.{
  ℕ, ◌+◌, ◌-◌, ◌*◌, ◌/◌, ◌%◌, ◌≤◌, ◌<◌, ◌≡◌, refl, Bool, true, false, not, ◌&&◌, ltb, ◌==◌,
  if◌then◌else◌, arith, Bool-cases, inl, inr,
}
use pku_os_lab.SynchDisk.{disk_sectors}

-- `SectorsPerTrack`, `SeekTime` and `RotationTime`
abbrev pub sectors_per_track : ℕ
sectors_per_track = 32

abbrev pub seek_time : ℕ
seek_time = 500

abbrev pub rotation_time : ℕ
rotation_time = 500

-- `lastSector` and `bufferInit`
pub record Head : Type 0 where
  pub last_sector : ℕ
  pub buffer_init : ℕ

-- `abs(newTrack - oldTrack) * SeekTime`
pub seek_for : Head → ℕ → ℕ
seek_for h new_sector =
    let new_track = new_sector / sectors_per_track in
    let old_track = h.last_sector / sectors_per_track in
    (new_track - old_track + (old_track - new_track)) * seek_time

-- What `TimeToSeek` stores in `*rotation`, after a seek that ends at the time `arrival`.
pub rotation_after : ℕ → ℕ
rotation_after arrival =
    let over = arrival % rotation_time in if ltb 0 over then rotation_time - over else 0

-- `ModuloDiff`
pub modulo_diff : ℕ → ℕ → ℕ
modulo_diff to from =
    (to % sectors_per_track + sectors_per_track - from % sectors_per_track) % sectors_per_track

-- `ComputeLatency` at the time `ticks`
pub compute_latency : Head → ℕ → ℕ → Bool → ℕ
compute_latency h ticks new_sector writing =
    let seek = seek_for h new_sector in
    let rotation = rotation_after (ticks + seek) in
    let time_after = ticks + seek + rotation in
    if not writing
      && (seek == 0
          && ltb (modulo_diff new_sector (h.buffer_init / rotation_time))
              ((time_after - h.buffer_init) / rotation_time))
    then rotation_time
    else seek
      + (rotation + modulo_diff new_sector (time_after / rotation_time) * rotation_time)
      + rotation_time

-- `UpdateLast`
pub update_last : Head → ℕ → ℕ → Head
update_last h ticks new_sector =
    let seek = seek_for h new_sector in
    record {
      last_sector = new_sector;
      buffer_init =
          if not (seek == 0) then ticks + seek + rotation_after (ticks + seek) else h.buffer_init;
    }

seek_for-bounds :
    (h : Head) (new_sector : ℕ)
    → h.last_sector < disk_sectors
    → new_sector < disk_sectors
    → seek_for h new_sector ≤ 31 * seek_time
unfolding seek_for
seek_for-bounds h new_sector old new = omega arith

-- The head is at the start of a sector after the rotation.
rotation_after-whole :
    (arrival : ℕ)
    → ((arrival + rotation_after arrival) % rotation_time ≡ 0)
      × (rotation_after arrival < rotation_time)
unfolding rotation_after
rotation_after-whole arrival = (ground arith, ground arith)

-- That many sectors later the head is at the sector `to`.
modulo_diff-reaches :
    (to from : ℕ)
    → ((from + modulo_diff to from) % sectors_per_track ≡ to % sectors_per_track)
      × (modulo_diff to from < sectors_per_track)
unfolding modulo_diff
modulo_diff-reaches to from = (omega arith, omega arith)

-- What a request that does not come from the track buffer takes.
pub record Transfer (h : Head) (ticks new_sector latency : ℕ) : Type 0 where
  pub ends_whole : (ticks + latency) % rotation_time ≡ 0
  pub ends_behind :
      ((ticks + latency) / rotation_time) % sectors_per_track ≡ (new_sector + 1) % sectors_per_track
  pub least : seek_for h new_sector + rotation_time ≤ latency
  pub most : latency < 31 * seek_time + 33 * rotation_time

pub data Latency (h : Head) (ticks new_sector : ℕ) (writing : Bool) : ℕ → Type 0 where
  from_buffer :
      writing ≡ false → seek_for h new_sector ≡ 0 → Latency h ticks new_sector writing rotation_time
  from_disk :
      (latency : ℕ)
      → Transfer h ticks new_sector latency
      → Latency h ticks new_sector writing latency

transfer :
    (h : Head) (ticks new_sector seek rotation whole turn : ℕ)
    → seek_for h new_sector ≡ seek
    → seek ≤ 31 * seek_time
    → ticks + seek + rotation ≡ whole
    → whole % rotation_time ≡ 0
    → rotation < rotation_time
    → (whole / rotation_time + turn) % sectors_per_track ≡ new_sector % sectors_per_track
    → turn < sectors_per_track
    → Transfer h ticks new_sector (seek + (rotation + turn * rotation_time) + rotation_time)
transfer h ticks new_sector seek rotation whole turn is few sum even less reach short = record {
  ends_whole = omega arith;
  ends_behind = omega arith;
  least = omega arith;
  most = omega arith;
}

buffer_hit :
    (writing now : Bool) (seek : ℕ)
    → (not writing && (seek == 0 && now)) ≡ true
    → (writing ≡ false) × (seek ≡ 0)
buffer_hit writing now seek h = (ground arith, ground arith)

-- A request for a sector of the disk, with the head at a sector of the disk. A read that needs no seek
-- and that the track buffer holds takes one rotation time. Every other request ends at a sector
-- boundary, when the head has just passed the sector that is asked for; it takes at least the seek and
-- one rotation time and less than 31 seek times and 33 rotation times.
compute_latency-Latency :
    (h : Head) (ticks new_sector : ℕ) (writing : Bool)
    → h.last_sector < disk_sectors
    → new_sector < disk_sectors
    → Latency h ticks new_sector writing (compute_latency h ticks new_sector writing)
unfolding compute_latency
compute_latency-Latency h ticks new_sector writing old new =
    let seek = seek_for h new_sector in
    let rotation = rotation_after (ticks + seek) in
    let whole = ticks + seek + rotation in
    let now =
      ltb (modulo_diff new_sector (h.buffer_init / rotation_time))
        ((whole - h.buffer_init) / rotation_time) in
    elim (Bool-cases (not writing && (seek == 0 && now))) [
      | inl hit ↦
          let (read, still) = buffer_hit writing now seek hit in rw hit (from_buffer read still)
      | inr miss ↦
          let (even, less) = rotation_after-whole (ticks + seek) in
          let (reach, short) = modulo_diff-reaches new_sector (whole / rotation_time) in
          rw miss (
            from_disk _ (
              transfer h ticks new_sector seek rotation whole
                (modulo_diff new_sector (whole / rotation_time)) refl
                (seek_for-bounds h new_sector old new) refl even less reach short))
    ]
