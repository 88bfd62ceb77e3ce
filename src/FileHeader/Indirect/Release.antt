-- ===== src/FileHeader/Indirect/Release.antt =====
-- `Deallocate` of filesys/filehdr.cc with `INDIRECT_MAP` gives back the sectors of a tree.
use Prim.Native.Nat.{min}
use pku_os_lab.Common.{
  ℕ, zero, suc, ◌+◌, ◌-◌, ◌*◌, ◌≤◌, ◌<◌, ◌≡◌, refl, ◌∙◌, ◌⊎◌, inl, true, false, List, [], ◌∷◌, ◌++◌,
  pos, Run, ok, length, arith, lt→ltb, le→ltb,
}
use pku_os_lab.Bitmap.{BitMap}
use pku_os_lab.Bitmap.Marks.{IsValid, marked}
use pku_os_lab.SynchDisk.{Disk, disk_sectors, read_sector-ok}
use pku_os_lab.FileHeader.{level_map_num, release, release_all}
use pku_os_lab.FileHeader.Sectors.{has, Distinct, Holds, has-append, length-append}
use pku_os_lab.FileHeader.Release.{Gives, InUse, release-Gives, release_all-Gives}
use pku_os_lab.FileHeader.Indirect.{Table, release_tables}
use pku_os_lab.FileHeader.Indirect.Tables.{Groups, flat, heads, Stored}
use pku_os_lab.FileHeader.Indirect.Tree.{single_limit}

-- The same sectors in another order.
pub Gives-same :
    (b b' : BitMap) (xs ys : List ℕ)
    → ((j : ℕ) → has j ys ≡ has j xs)
    → length ys ≡ length xs
    → Gives b xs b'
    → Gives b ys b'
Gives-same b b' xs ys same len g = record {
  valid = g.valid;
  same_size = g.same_size;
  bits = λ j. ground (arith, g.bits j, same j);
  count = omega (arith, g.count);
}

pub Gives-append :
    (b b₁ b₂ : BitMap) (xs ys : List ℕ) → Gives b xs b₁ → Gives b₁ ys b₂ → Gives b (xs ++ ys) b₂
Gives-append b b₁ b₂ xs ys s t = record {
  valid = t.valid;
  same_size = t.same_size ∙ s.same_size;
  bits = λ j. ground (arith, t.bits j, s.bits j, has-append j xs ys);
  count = omega (arith, s.count, t.count, length-append xs ys);
}

-- What is in use beside the sectors `xs` is still in use when those are given back.
pub InUse-rest :
    (b b₁ : BitMap) (xs ys : List ℕ)
    → ((j : ℕ) → has j ys ≡ true → (has j xs ≡ false) × (marked b j ≡ true) × (j < b.num_bits))
    → Gives b xs b₁
    → InUse b₁ ys
InUse-rest b b₁ xs ys used g j h = ground (arith, used j h, g.bits j, g.same_size)

pub Distinct-left : (xs ys : List ℕ) → Distinct (xs ++ ys) → Distinct xs
Distinct-left [] ys d = tt
Distinct-left (x ∷ xs) ys d = (ground (arith, d.0, has-append x xs ys), Distinct-left xs ys d.1)

pub Distinct-right : (xs ys : List ℕ) → Distinct (xs ++ ys) → Distinct ys
Distinct-right [] ys d = d
Distinct-right (x ∷ xs) ys d = Distinct-right xs ys d.1

pub Distinct-apart :
    (xs ys : List ℕ) (j : ℕ) → Distinct (xs ++ ys) → has j ys ≡ true → has j xs ≡ false
Distinct-apart [] ys j d h = refl
Distinct-apart (x ∷ xs) ys j d h =
    ground (arith, d.0, has-append x xs ys, Distinct-apart xs ys j d.1 h)

-- A run that gives back `xs`.
abbrev pub Freed : BitMap → List ℕ → Run BitMap → Type 0
Freed b xs r = (b' : BitMap) × (r ≡ ok b') × Gives b xs b'

-- A table: its entries are given back, then its own sector.
pub release_table :
    (b : BitMap) (disk : Disk Table) (t : ℕ) (ss : List ℕ)
    → IsValid b
    → Holds (disk t) 0 ss
    → Distinct (t ∷ ss)
    → InUse b (t ∷ ss)
    → (b₁ b₂ : BitMap) × (release_all (length ss) 0 (disk t) b ≡ ok b₁)
      × (release (pos t) b₁ ≡ ok b₂)
      × Gives b (t ∷ ss) b₂
release_table b disk t ss valid holds d used =
    let (b₁, run, g) =
      release_all-Gives ss (length ss) 0 (disk t) b valid refl holds d.1
        (λ j h. used j (ground arith)) in
    let (b₂, run', g') =
      release-Gives b₁ t g.valid
        (InUse-rest b b₁ ss (t ∷ []) (λ j h. ground (arith, used j, d.0)) g) in
    (
      b₁,
      b₂,
      run,
      run',
      Gives-same b b₂ (ss ++ (t ∷ [])) (t ∷ ss) (λ j. ground (arith, has-append j ss (t ∷ [])))
          (omega (arith, length-append ss (t ∷ []))) (Gives-append b b₁ b₂ ss (t ∷ []) g g'),
    )

-- Each table of `gs` from number `ii` on has something of the `left` sectors, and together they have
-- all that is left of them.
abbrev pub Cover : ℕ → ℕ → Groups → Type 0
Cover left ii [] = left ≤ ii * level_map_num
Cover left ii (g ∷ gs) = (ii * level_map_num < left) × Cover left (ii + 1) gs

pub Cover-groups :
    (left ii : ℕ) (gs : Groups)
    → left ≤ (ii + length gs) * level_map_num
    → ((ii + length gs) * level_map_num < left + level_map_num) ⊎ (length gs ≡ 0)
    → Cover left ii gs
Cover-groups left ii [] lo hi = omega arith
Cover-groups left ii (g ∷ gs) lo hi =
    (omega arith, Cover-groups left (ii + 1) gs (omega arith) (inl (omega arith)))

pub release_tables-Freed :
    (gs : Groups) (left num n ii i : ℕ) (double : Table) (disk : Disk Table) (b : BitMap)
    → IsValid b
    → b.num_bits ≤ disk_sectors
    → num ≡ single_limit + left
    → i ≡ single_limit + min left (ii * level_map_num)
    → length gs ≤ n
    → Cover left ii gs
    → Holds double ii (heads gs)
    → Stored disk left ii gs
    → Distinct (flat gs)
    → InUse b (flat gs)
    → Freed b (flat gs) (release_tables num n ii i double disk b)
unfolding release_tables
release_tables-Freed [] left num zero ii i double disk b valid small en ei fits cover h s d used =
    (b, refl, record { valid = valid; same_size = refl; bits = λ j. refl; count = omega arith })
release_tables-Freed [] left num (suc n) ii i double disk b valid small en ei fits cover h s d
      used =
    (
      b,
      rw (le→ltb i num (omega arith)) refl,
      record { valid = valid; same_size = refl; bits = λ j. refl; count = omega arith },
    )
release_tables-Freed ((t, ss) ∷ gs) left num zero ii i double disk b valid small en ei fits cover h
      s d used =
    absurd (omega arith)
release_tables-Freed ((t, ss) ∷ gs) left num (suc n) ii i double disk b valid small en ei fits cover
      h s d used =
    let (b₁, b₂, run, run', g) =
      release_table b disk t ss valid s.0 (Distinct-left (t ∷ ss) (flat gs) d)
        (λ j m. used j (ground (arith, has-append j ss (flat gs)))) in
    let rest =
      release_tables-Freed gs left num n (ii + 1) (i + length ss) double disk b₂ g.valid
        (omega (arith, g.same_size)) en (omega (arith, s.1)) (omega arith) cover.1 h.1 s.2
        (Distinct-right (t ∷ ss) (flat gs) d)
        (InUse-rest b b₂ (t ∷ ss) (flat gs)
          (λ j m.
            ground
              (arith, used j, has-append j ss (flat gs), Distinct-apart (t ∷ ss) (flat gs) j d m))
          g) in
    (
      rest.0,
      (let count : min (num - i) level_map_num ≡ length ss = omega (arith, s.1) in
          rw
            (
              lt→ltb i num (omega arith),
              h.0,
              read_sector-ok t disk (omega (arith, (used t (ground arith)).1)),
              count,
              run,
              run',
            )
            rest.1),
      Gives-append b b₂ rest.0 (t ∷ ss) (flat gs) g rest.2,
    )
