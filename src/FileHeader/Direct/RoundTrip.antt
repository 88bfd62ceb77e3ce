-- ===== src/FileHeader/Direct/RoundTrip.antt =====
-- `Allocate`, `Deallocate` and `ByteToSector` of filesys/filehdr.cc against one another, with direct
-- sector numbers only.
use pku_os_lab.Common.{
  ℕ, ℤ, ◌+◌, [], ◌∷◌, ◌/◌, ◌≤◌, ◌<◌, ◌≡◌, refl, ap, ◌∙◌, Bool, true, false, List, ltb, pos,
  minus_one, Run, ok, aborted, length, get_or, arith, Bool-cases, inl, inr, div_round_up, subst,
  sym, ◌↔◌,
}
use pku_os_lab.Bitmap.{BitMap}
use pku_os_lab.Bitmap.Marks.{IsValid, marked}
use pku_os_lab.Bitmap.Find.{clear_count, num_clear_lem}
use pku_os_lab.FileHeader.{FileHeader, sector_size, num_data_sectors}
use pku_os_lab.FileHeader.Sectors.{Distinct, Takes, Holds, fill-Filled}
use pku_os_lab.FileHeader.Tables.{Holds-get_or, has-get_or, Distinct-get_or}
use pku_os_lab.FileHeader.Release.{Gives, InUse, Gives-Takes, Takes-InUse, release_all-Gives}
use pku_os_lab.FileHeader.Direct.{num_direct, allocate, deallocate, byte_to_sector}

abbrev pub sectors_for : ℕ → ℕ
sectors_for size = div_round_up size sector_size

-- A header for a file of `size` bytes that lies in the sectors `xs`, in this order.
pub record Describes (h : FileHeader) (size : ℕ) (xs : List ℕ) : Type 0 where
  pub bytes : h.num_bytes ≡ size
  pub number : h.num_sectors ≡ sectors_for size
  pub as_many : length xs ≡ sectors_for size
  pub holds : Holds h.data_sectors 0 xs

-- What `Allocate` may return for a file of `size` bytes.
pub data Allocated (h : FileHeader) (b : BitMap) (size : ℕ)
    : Run (Bool × FileHeader × BitMap) → Type 0 where
  no_space :
      (h' : FileHeader) → clear_count b < sectors_for size → Allocated h b size (ok (false, h', b))
  too_large :
      sectors_for size ≤ clear_count b → num_direct ≤ sectors_for size → Allocated h b size aborted
  done :
      (h' : FileHeader) (b' : BitMap) (xs : List ℕ)
      → sectors_for size ≤ clear_count b
      → sectors_for size < num_direct
      → Takes b xs b'
      → Describes h' size xs
      → Allocated h b size (ok (true, h', b'))

-- `Allocate`, with a valid free map, refuses a file that needs more sectors than are free and leaves
-- the map alone, stops at its `ASSERT_MSG` for a file of `NumDirect` sectors or more, and otherwise
-- takes as many free sectors as the file needs, all different, and lists them in the header.
pub allocate-Allocated :
    (h : FileHeader) (b : BitMap) (size : ℕ)
    → IsValid b
    → length h.data_sectors ≡ num_data_sectors
    → Allocated h b size (allocate h b size)
unfolding allocate
allocate-Allocated h b size valid len =
    rw (num_clear_lem b) (elim (Bool-cases (ltb (clear_count b) (sectors_for size))) [
      | inl short ↦ rw short (no_space _ (ground arith))
      | inr enough ↦ elim (Bool-cases (ltb (sectors_for size) num_direct)) [
        | inr large ↦ rw (enough, large) (too_large (ground arith) (ground arith))
        | inl small ↦
            let f =
              fill-Filled (sectors_for size) 0 h.data_sectors b valid (ground (arith, len))
                (ground arith) in
            rw (enough, small, f.run)
              (done _ _ f.sectors (ground arith) (ground arith) f.taken
                (record { bytes = refl; number = refl; as_many = f.as_many; holds = f.holds }))
      ]
    ])

-- What a successful `Allocate` says, read off its result.
abbrev Success : BitMap → ℕ → Run (Bool × FileHeader × BitMap) → Type 0
Success b size (ok (true, h, b')) = (xs : List ℕ) × Takes b xs b' × Describes h size xs
Success b size (ok (false, h, b')) = Unit
Success b size aborted = Unit

Allocated-Success :
    (h : FileHeader) (b : BitMap) (size : ℕ) (r : Run (Bool × FileHeader × BitMap))
    → Allocated h b size r
    → Success b size r
Allocated-Success h b size r (no_space h' short) = tt
Allocated-Success h b size r (too_large enough large) = tt
Allocated-Success h b size r (done h' b' xs enough small t d) = (xs, t, d)

pub allocate-done :
    (h h' : FileHeader) (b b' : BitMap) (size : ℕ)
    → IsValid b
    → length h.data_sectors ≡ num_data_sectors
    → allocate h b size ≡ ok (true, h', b')
    → (xs : List ℕ) × Takes b xs b' × Describes h' size xs
allocate-done h h' b b' size valid len e =
    subst (Success b size) e (Allocated-Success h b size _ (allocate-Allocated h b size valid len))

Holds-unique :
    (table : List ℤ) (i : ℕ) (xs ys : List ℕ)
    → length xs ≡ length ys
    → Holds table i xs
    → Holds table i ys
    → xs ≡ ys
Holds-unique table i [] [] len h g = refl
Holds-unique table i [] (y ∷ ys) len h g = absurd (omega (arith, len))
Holds-unique table i (x ∷ xs) [] len h g = absurd (omega (arith, len))
Holds-unique table i (x ∷ xs) (y ∷ ys) len h g =
    let same : x ≡ y = pos-injective x y (sym h.0 ∙ g.0) in
    let rest = Holds-unique table (i + 1) xs ys (omega (arith, len)) h.1 g.1 in cc
  where
    pos-injective : (x y : ℕ) → pos x ≡ pos y → x ≡ y
    pos-injective x y e = cc

-- A header describes one file.
pub Describes-unique :
    (h : FileHeader) (size size' : ℕ) (xs ys : List ℕ)
    → Describes h size xs
    → Describes h size' ys
    → xs ≡ ys
Describes-unique h size size' xs ys d e =
    Holds-unique h.data_sectors 0 xs ys (omega (arith, d.as_many, d.number, e.as_many, e.number))
      d.holds e.holds

-- With the sectors that it needs, `Allocate` succeeds.
pub allocate-enough :
    (h : FileHeader) (b : BitMap) (size : ℕ)
    → IsValid b
    → length h.data_sectors ≡ num_data_sectors
    → sectors_for size ≤ clear_count b
    → sectors_for size < num_direct
    → (h' : FileHeader) × (b' : BitMap) × (xs : List ℕ) × (allocate h b size ≡ ok (true, h', b'))
      × Takes b xs b'
      × Describes h' size xs
allocate-enough h b size valid len enough small =
    by_outcome _ refl (allocate-Allocated h b size valid len)
  where
    by_outcome :
        (r : Run (Bool × FileHeader × BitMap))
        → allocate h b size ≡ r
        → Allocated h b size r
        → (h' : FileHeader) × (b' : BitMap) × (xs : List ℕ) × (allocate h b size
            ≡ ok (true, h', b'))
          × Takes b xs b'
          × Describes h' size xs
    by_outcome _ e (no_space h' short) = absurd (omega (arith, short, enough))
    by_outcome _ e (too_large enough large) = absurd (omega (arith, large, small))
    by_outcome _ e (done h' b' xs enough small t d) = (h', b', xs, e, t, d)

-- `Deallocate` of a file that lies in the sectors `xs`, each in use and none twice, gives them back.
pub deallocate-Gives :
    (h : FileHeader) (b : BitMap) (size : ℕ) (xs : List ℕ)
    → IsValid b
    → Describes h size xs
    → Distinct xs
    → InUse b xs
    → (b' : BitMap) × (deallocate h b ≡ ok b') × Gives b xs b'
unfolding deallocate
deallocate-Gives h b size xs valid d distinct used =
    release_all-Gives xs h.num_sectors 0 h.data_sectors b valid (omega (arith, d.as_many, d.number))
      d.holds distinct used

-- A file that was allocated is deallocated with no failed `ASSERT`, and the free map is then the one
-- before, bit by bit.
pub deallocate-allocate :
    (h h' : FileHeader) (b b' : BitMap) (size : ℕ)
    → IsValid b
    → length h.data_sectors ≡ num_data_sectors
    → allocate h b size ≡ ok (true, h', b')
    → (b'' : BitMap) × (deallocate h' b' ≡ ok b'')
      × IsValid b''
      × (b''.num_bits ≡ b.num_bits)
      × ((j : ℕ) → marked b'' j ≡ marked b j)
deallocate-allocate h h' b b' size valid len e =
    let (xs, t, d) = allocate-done h h' b b' size valid len e in
    let (b'', run, g) =
      deallocate-Gives h' b' size xs t.valid d t.distinct (Takes-InUse b b' xs t) in
    (b'', run, g.valid, g.same_size ∙ t.same_size, Gives-Takes b b' b'' xs t g)

pub byte_to_sector-Describes :
    (h : FileHeader) (size offset : ℕ) (xs : List ℕ)
    → Describes h size xs
    → offset < size
    → (byte_to_sector h offset ≡ pos (get_or xs (offset / sector_size) 0))
      × (offset / sector_size < length xs)
unfolding byte_to_sector
byte_to_sector-Describes h size offset xs d lt =
    let inside : offset / sector_size < length xs = ground (arith, d.as_many) in
    (
      ap (λ k. get_or h.data_sectors k minus_one) (omega arith)
          ∙ Holds-get_or h.data_sectors 0 (offset / sector_size) xs d.holds inside,
      inside,
    )

-- In an allocated file every byte below the file's length has a sector, which was free before and is
-- taken now, and two such bytes share their sector exactly when their offsets lie in one block of
-- `SectorSize` bytes.
byte_to_sector-allocate :
    (h h' : FileHeader) (b b' : BitMap) (size o p : ℕ)
    → IsValid b
    → length h.data_sectors ≡ num_data_sectors
    → allocate h b size ≡ ok (true, h', b')
    → o < size
    → p < size
    → (s : ℕ) × (byte_to_sector h' o ≡ pos s)
      × (s < b.num_bits)
      × (marked b s ≡ false)
      × (marked b' s ≡ true)
      × ((byte_to_sector h' o ≡ byte_to_sector h' p) ↔ (o / sector_size ≡ p / sector_size))
byte_to_sector-allocate h h' b b' size o p valid len e lo lp =
    let (xs, t, d) = allocate-done h h' b b' size valid len e in
    let (eo, io) = byte_to_sector-Describes h' size o xs d lo in
    let (ep, ip) = byte_to_sector-Describes h' size p xs d lp in
    let s = get_or xs (o / sector_size) 0 in
    let member = has-get_or xs (o / sector_size) io in
    (
      s,
      eo,
      (t.fresh s member).1,
      (t.fresh s member).0,
      ground (arith, t.bits s, member),
      (
        λ same. Distinct-get_or xs (o / sector_size) (p / sector_size) t.distinct io ip (cc),
        λ block. eo ∙ ap (λ k. pos (get_or xs k 0)) block ∙ sym ep,
      ),
    )
