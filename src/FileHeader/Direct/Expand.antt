-- ===== src/FileHeader/Direct/Expand.antt =====
-- `FileHeader::ExpandFileSize` of filesys/filehdr.cc, with direct sector numbers only.
use pku_os_lab.Common.{
  ℕ, ◌+◌, ◌-◌, ◌≤◌, ◌<◌, ◌≡◌, refl, Bool, true, false, List, ◌++◌, ltb, ◌==◌, ℤ, Run, ok, aborted,
  length, arith, int_limit, int_sum-ok, Bool-cases, inl, inr, lt→ltb,
}
use pku_os_lab.Bitmap.{BitMap}
use pku_os_lab.Bitmap.Marks.{IsValid}
use pku_os_lab.Bitmap.Find.{clear_count, num_clear_lem}
use pku_os_lab.FileHeader.{FileHeader, num_data_sectors, fill}
use pku_os_lab.FileHeader.Sectors.{
  has, Holds, Takes, Distinct, Distinct-append, length-append, fill-Filled,
}
use pku_os_lab.FileHeader.Tables.{Holds-frame, Holds-append}
use pku_os_lab.FileHeader.Release.{InUse}
use pku_os_lab.FileHeader.Direct.{num_direct, expand_file_size}
use pku_os_lab.FileHeader.Direct.RoundTrip.{Describes, sectors_for}

-- What `ExpandFileSize` may return for a file of `size` bytes in the sectors `xs`.
pub data Expanded (h : FileHeader) (b : BitMap) (size more : ℕ) (xs : List ℕ)
    : Run (Bool × FileHeader × BitMap) → Type 0 where
  same_sectors :
      (h' : FileHeader)
      → sectors_for (size + more) ≡ sectors_for size
      → Describes h' (size + more) xs
      → Expanded h b size more xs (ok (true, h', b))
  no_space :
      (h' : FileHeader)
      → clear_count b < sectors_for (size + more) - sectors_for size
      → h'.num_bytes ≡ size + more
      → h'.num_sectors ≡ sectors_for (size + more)
      → h'.data_sectors ≡ h.data_sectors
      → Expanded h b size more xs (ok (false, h', b))
  too_large :
      sectors_for size < sectors_for (size + more)
      → sectors_for (size + more) - sectors_for size ≤ clear_count b
      → num_direct ≤ sectors_for (size + more)
      → Expanded h b size more xs aborted
  grown :
      (h' : FileHeader) (b' : BitMap) (ys : List ℕ)
      → sectors_for size < sectors_for (size + more)
      → sectors_for (size + more) - sectors_for size ≤ clear_count b
      → sectors_for (size + more) < num_direct
      → Takes b ys b'
      → Distinct (xs ++ ys)
      → Describes h' (size + more) (xs ++ ys)
      → Expanded h b size more xs (ok (true, h', b'))

sectors_for_mono : (size more : ℕ) → sectors_for size ≤ sectors_for (size + more)
sectors_for_mono size more = ground arith

module _ (h : FileHeader) (b : BitMap) (size more : ℕ) (xs : List ℕ) (valid : IsValid b)
    (len : length h.data_sectors ≡ num_data_sectors) (d : Describes h size xs)
    (distinct : Distinct xs) (used : InUse b xs) where
  -- The sectors that the loop adds go behind those that are there.
  grow :
      sectors_for (size + more) - sectors_for size ≤ clear_count b
      → sectors_for (size + more) < num_direct
      → (table : List ℤ) × (b' : BitMap) × (ys : List ℕ) × (fill
            (sectors_for (size + more) - sectors_for size)
            (sectors_for size)
            h.data_sectors
            b
          ≡ ok (table, b'))
        × Takes b ys b'
        × Distinct (xs ++ ys)
        × Holds table 0 (xs ++ ys)
        × (length (xs ++ ys) ≡ sectors_for (size + more))
  grow enough small =
      let f =
        fill-Filled (sectors_for (size + more) - sectors_for size) (sectors_for size) h.data_sectors
          b valid (omega (arith, sectors_for_mono size more)) enough in
      (
        f.table',
        f.b',
        f.sectors,
        f.run,
        f.taken,
        Distinct-append xs f.sectors distinct f.taken.distinct (λ j m.
            elim (Bool-cases (has j f.sectors)) [
              | inl both ↦ absurd (ground (arith, used j m, f.taken.fresh j both))
              | inr apart ↦ apart
            ]),
        Holds-append f.table' 0 (sectors_for size) xs f.sectors (omega (arith, d.as_many))
            (Holds-frame h.data_sectors f.table' 0 xs
              (λ j lo hi. f.others j (inl (omega (arith, d.as_many)))) d.holds)
            f.holds,
        omega (arith, length-append xs f.sectors, d.as_many, f.as_many, sectors_for_mono size more),
      )

  -- `ExpandFileSize` by `more` bytes, more than none, to a size that an `int` holds, of a file that lies in the
  -- sectors `xs`, each in use and none twice: it keeps the sectors just if the new size needs no more of them. If it
  -- does, it refuses just if too few are free; if enough are, it stops at its `ASSERT_MSG` just if the header cannot
  -- name so many, and otherwise takes free sectors and puts them behind the old ones, so that no byte moves. When it
  -- refuses, the free map and the table are unchanged, but the header has the new length and number of sectors.
  pub expand_file_size-Expanded :
      0 < more → size + more < int_limit → Expanded h b size more xs (expand_file_size h b more)
  unfolding expand_file_size
  expand_file_size-Expanded some in_range =
      rw (lt→ltb 0 more some, d.bytes, int_sum-ok size more in_range, d.number)
        (elim (Bool-cases (sectors_for size == sectors_for (size + more))) [
          | inl same ↦ rw same (
              same_sectors _ (ground arith) (record {
                bytes = refl;
                number = refl;
                as_many = ground (arith, d.as_many);
                holds = d.holds;
              }))
          | inr other ↦
              rw (other, num_clear_lem b)
                (elim (Bool-cases
                  (ltb (clear_count b) (sectors_for (size + more) - sectors_for size))) [
                    | inl short ↦ rw short (no_space _ (ground arith) refl refl refl)
                    | inr enough ↦ elim (Bool-cases (ltb (sectors_for (size + more)) num_direct)) [
                      | inr large ↦
                          rw (enough, large)
                            (too_large (ground (arith, sectors_for_mono size more)) (ground arith)
                              (ground arith))
                      | inl small ↦
                          let (table, b', ys, run, taken, apart, holds, many) =
                            grow (ground arith) (ground arith) in
                          rw (enough, small, run)
                            (grown _ b' ys (ground (arith, sectors_for_mono size more))
                              (ground arith) (ground arith) taken apart
                              (record {
                                bytes = refl;
                                number = refl;
                                as_many = many;
                                holds = holds;
                              }))
                    ]
                  ])
        ])
