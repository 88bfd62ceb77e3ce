-- ===== src/OpenFile/Buffer.antt =====
-- The buffer of `WriteAt` in filesys/openfile.cc: what is read into it, and what is copied into it.
use pku_os_lab.Common.{
  ℕ, ◌+◌, ◌-◌, ◌*◌, ◌/◌, ◌%◌, ◌≤◌, ◌<◌, ◌≡◌, refl, ◌∙◌, ap, Bool, true, false, not, ◌&&◌, ◌||◌,
  List, ltb, leb, ◌==◌, if◌then◌else◌, Run, ok, ◌>>=◌, int_limit, All, arith, Bool-cases, inl, inr,
}
use pku_os_lab.SynchDisk.{Disk, disk_sectors}
use pku_os_lab.FileHeader.{FileHeader, sector_size}
use pku_os_lab.FileHeader.Direct.RoundTrip.{Describes}
use pku_os_lab.OpenFile.{bcopy, read_partial}
use pku_os_lab.OpenFile.Reading.{byte, Reads, read_at-Reads}
use pku_os_lab.OpenFile.Blocks.{Written}

module _ (hdr : FileHeader) (size : ℕ) (xs : List ℕ) (d : Describes hdr size xs)
    (inside : All (λ (x : ℕ). x < disk_sectors) xs) where
  -- `ReadAt` of the whole of sector `k` of the file.
  sector-copied :
      (disk : Disk (ℕ → ℕ)) (into : ℕ → ℕ) (at k : ℕ) (r : Run (ℕ × (ℕ → ℕ)))
      → k * sector_size < size
      → Reads disk size xs into at sector_size (k * sector_size) r
      → (buf : ℕ → ℕ) × ((do (m, b) ← r; ok b) ≡ ok buf)
        × ((j : ℕ)
            → j < sector_size
            → k * sector_size + j < size
            → buf (at + j) ≡ byte disk xs (k * sector_size + j))
        × ((j : ℕ) → (ltb j at || leb (at + sector_size) j) ≡ true → buf j ≡ into j)
  sector-copied disk into at k _ lt (Reads.nothing h) = absurd (ground (arith, h, lt))
  sector-copied disk into at k _ lt (Reads.bytes n buf more less fits all get keep) = (
    buf,
    refl,
    λ j small within. get j (ground (arith, all, small, within)),
    λ j out. keep j (ground (arith, out, less)),
  )

  -- What a buffer holds after a sector was read into it, when that was needed.
  pub record Filled (disk : Disk (ℕ → ℕ)) (needed : Bool) (k at : ℕ) (into : ℕ → ℕ) (buf : ℕ → ℕ)
      : Type 0 where
    pub get :
        (j : ℕ)
        → needed ≡ true
        → j < sector_size
        → k * sector_size + j < size
        → buf (at + j) ≡ byte disk xs (k * sector_size + j)
    pub keep : (j : ℕ) → (ltb j at || leb (at + sector_size) j) ≡ true → buf j ≡ into j
    pub same : (j : ℕ) → needed ≡ false → buf j ≡ into j

  pub read_partial-Filled :
      (disk : Disk (ℕ → ℕ)) (fresh into : ℕ → ℕ) (needed : Bool) (k at : ℕ)
      → k * sector_size < size
      → k * sector_size + sector_size < int_limit
      → (buf : ℕ → ℕ) × (read_partial hdr disk fresh needed k at into ≡ ok buf)
        × Filled disk needed k at into buf
  unfolding read_partial
  read_partial-Filled disk fresh into false k at lt in_range =
      (into, refl, record { get = λ j h. absurd (cc); keep = λ j h. refl; same = λ j h. refl })
  read_partial-Filled disk fresh into true k at lt in_range =
      let (buf, run, got, kept) = sector-copied disk into at k _ lt (
        read_at-Reads hdr disk size xs d inside fresh into at sector_size (k * sector_size)
          in_range) in
      (buf, run, record { get = λ j h. got j; keep = kept; same = λ j h. absurd (cc) })

  -- The bytes around the request are those of the file.
  pub kept-byte :
      (disk : Disk (ℕ → ℕ)) (buf₀ buf₁ buf₂ : ℕ → ℕ) (position n first last j : ℕ)
      → first * sector_size ≤ position
      → position < first * sector_size + sector_size
      → last * sector_size < position + n
      → position + n ≤ last * sector_size + sector_size
      → first ≤ last
      → Filled disk (not (position == first * sector_size)) first 0 buf₀ buf₁
      → Filled disk
          (not (position + n == (last + 1) * sector_size)
            && (not (first == last) || position == first * sector_size))
          last
          ((last - first) * sector_size)
          buf₁
          buf₂
      → j < (1 + last - first) * sector_size
      → first * sector_size + j < size
      → (leb position (first * sector_size + j) && ltb (first * sector_size + j) (position + n))
        ≡ false
      → buf₂ j ≡ byte disk xs (first * sector_size + j)
  kept-byte disk buf₀ buf₁ buf₂ position n first last j a b c e g f₁ f₂ lj lt out =
      let shift : j ≡ 0 + j = omega arith in
      elim (Bool-cases (ltb (first * sector_size + j) position)) [
        | inl before ↦
            let got =
              ap buf₁ shift ∙ f₁.get j (ground (arith, before, a)) (ground (arith, before, b)) lt in
            elim (Bool-cases (ltb first last)) [
              | inl more ↦ f₂.keep j (ground (arith, more, before, b)) ∙ got
              | inr one ↦ f₂.same j (ground (arith, one, before, a, g)) ∙ got
            ]
        | inr behind ↦
            elim (Bool-cases (
              not (position + n == (last + 1) * sector_size)
              && (not (first == last) || position == first * sector_size))) [
                | inl read ↦
                    let split : j
                        ≡ (last - first) * sector_size + (j - (last - first) * sector_size) =
                      ground (arith, behind, out, c, g) in
                    ap buf₂ split
                    ∙ f₂.get (j - (last - first) * sector_size) read (omega (arith, lj, g))
                        (ground (arith, behind, out, c, g, lt))
                    ∙ ap (byte disk xs) (ground (arith, behind, out, c, g))
                | inr spare ↦
                    f₂.same j spare
                    ∙ ap buf₁ shift
                    ∙ f₁.get j (ground (arith, spare, behind, out, lj, g, e))
                        (ground (arith, spare, behind, out, lj, g, e)) lt
              ]
      ]

  -- The buffer that is written: the bytes of the request and those around it.
  pub whole-buffer :
      (disk : Disk (ℕ → ℕ)) (from buf₂ : ℕ → ℕ) (at position n first j : ℕ)
      → first * sector_size ≤ position
      → ((leb position (first * sector_size + j) && ltb (first * sector_size + j) (position + n))
            ≡ false
          → buf₂ j ≡ byte disk xs (first * sector_size + j))
      → bcopy from at buf₂ (position - first * sector_size) n j ≡ (
          if leb position (first * sector_size + j) && ltb (first * sector_size + j) (position + n)
          then from (at + (first * sector_size + j - position))
          else byte disk xs (first * sector_size + j))
  whole-buffer disk from buf₂ at position n first j a around =
      let test : (leb (position - first * sector_size) j
            && ltb j (position - first * sector_size + n))
          ≡ (leb position (first * sector_size + j)
              && ltb (first * sector_size + j) (position + n)) =
        ground (arith, a) in
      rw test
        (elim (Bool-cases (
          leb position (first * sector_size + j) && ltb (first * sector_size + j) (position + n))) [
            | inr out ↦ rw out (around out)
            | inl within ↦
                let same : at + (j - (position - first * sector_size))
                    ≡ at + (first * sector_size + j - position) =
                  omega (arith, a) in
                rw (within, same) refl
          ])

  pub written-byte :
      (disk disk' : Disk (ℕ → ℕ)) (from buf : ℕ → ℕ) (at position n first last q : ℕ)
      → first * sector_size ≤ position
      → position + n ≤ last * sector_size + sector_size
      → first ≤ last
      → ((j : ℕ)
          → j < (1 + last - first) * sector_size
          → first * sector_size + j < size
          → buf j ≡ (
              if leb position (first * sector_size + j)
                && ltb (first * sector_size + j) (position + n)
              then from (at + (first * sector_size + j - position))
              else byte disk xs (first * sector_size + j)))
      → Written xs first first (1 + last - first) buf disk disk'
      → q < size
      → byte disk' xs q ≡ (
          if leb position q && ltb q (position + n)
          then from (at + (q - position))
          else byte disk xs q)
  written-byte disk disk' from buf at position n first last q a e g holds w lt =
      let k = q / sector_size in
      let j = (k - first) * sector_size + q % sector_size in
      w.blocks k (q % sector_size) (ground (arith, d.as_many, lt))
      ∙ elim (Bool-cases (leb first k && ltb k (first + (1 + last - first)))) [
        | inl within ↦
            let place : first * sector_size + j ≡ q = ground (arith, within) in
            rw within
              (holds j (ground (arith, within, g)) (ground (arith, within, lt)) ∙ rw place refl)
        | inr out ↦
            let away : (leb position q && ltb q (position + n)) ≡ false =
              ground (arith, out, a, e, g) in
            rw (out, away) refl
      ]
