-- ===== src/FileHeader/Sectors.antt =====
-- Sectors taken from the free map and given back: the loops that filehdr.cc shares.
use mathlib.Core.Bool.{or_assoc}
use pku_os_lab.Common.{
  ◌⊎◌, ℕ, zero, suc, ◌+◌, ◌≤◌, ◌<◌, ◌≡◌, refl, ◌∙◌, true, false, ◌||◌, List, [], ◌∷◌, ◌++◌, ℤ, pos,
  minus_one, ok, length, get_or, set, arith, inl, length-set, get_or-set_self, get_or-set_ne, Run,
}
use pku_os_lab.Bitmap.{BitMap}
use pku_os_lab.Bitmap.Marks.{IsValid, marked, Updates}
use pku_os_lab.Bitmap.Find.{clear_count, find-counts}
use pku_os_lab.FileHeader.{fill}
pub use pku_os_lab.Common.{has, Distinct}

-- `b'` is `b` with the sectors `xs` taken, each of which was free.
pub record Takes (b : BitMap) (xs : List ℕ) (b' : BitMap) : Type 0 where
  pub valid : IsValid b'
  pub same_size : b'.num_bits ≡ b.num_bits
  pub bits : (j : ℕ) → marked b' j ≡ (has j xs || marked b j)
  pub fresh : (j : ℕ) → has j xs ≡ true → (marked b j ≡ false) × (j < b.num_bits)
  pub distinct : Distinct xs
  pub count : clear_count b ≡ length xs + clear_count b'

pub Takes-nil : (b : BitMap) → IsValid b → Takes b [] b
Takes-nil b valid = record {
  valid = valid;
  same_size = refl;
  bits = λ j. refl;
  fresh = λ j h. absurd (cc);
  distinct = tt;
  count = omega arith;
}

pub Takes-cons :
    (b b₁ b₂ : BitMap) (x : ℕ) (xs : List ℕ)
    → Updates b b₁ x true
    → marked b x ≡ false
    → x < b.num_bits
    → clear_count b ≡ suc (clear_count b₁)
    → Takes b₁ xs b₂
    → Takes b (x ∷ xs) b₂
Takes-cons b b₁ b₂ x xs up free lt count rest = record {
  valid = rest.valid;
  same_size = rest.same_size ∙ up.same_size;
  bits = λ j. ground (arith, rest.bits j, up.bits j);
  fresh = λ j h. ground (arith, rest.fresh j, up.bits j, up.same_size);
  distinct = (ground (arith, rest.fresh x, up.bits x), rest.distinct);
  count = omega (arith, rest.count);
}

pub has-append : (a : ℕ) (xs ys : List ℕ) → has a (xs ++ ys) ≡ (has a xs || has a ys)
has-append a [] ys = refl
has-append a (x ∷ xs) ys = rw (has-append a xs ys, or_assoc)

pub Distinct-append :
    (xs ys : List ℕ)
    → Distinct xs
    → Distinct ys
    → ((j : ℕ) → has j xs ≡ true → has j ys ≡ false)
    → Distinct (xs ++ ys)
Distinct-append [] ys d e apart = e
Distinct-append (x ∷ xs) ys d e apart = (
  ground (arith, has-append x xs ys, apart x),
  Distinct-append xs ys d.1 e (λ j h. ground (arith, apart j)),
)

pub length-append : (xs ys : List ℕ) → length (xs ++ ys) ≡ length xs + length ys
length-append [] ys = omega arith
length-append (x ∷ xs) ys = omega (arith, length-append xs ys)

pub Takes-append :
    (b b₁ b₂ : BitMap) (xs ys : List ℕ) → Takes b xs b₁ → Takes b₁ ys b₂ → Takes b (xs ++ ys) b₂
Takes-append b b₁ b₂ xs ys s t = record {
  valid = t.valid;
  same_size = t.same_size ∙ s.same_size;
  bits = λ j. ground (arith, has-append j xs ys, t.bits j, s.bits j);
  fresh = λ j h. ground (arith, has-append j xs ys, t.fresh j, s.fresh j, s.bits j, s.same_size);
  distinct =
      Distinct-append xs ys s.distinct t.distinct (λ j h. ground (arith, t.fresh j, s.bits j));
  count = omega (arith, s.count, t.count, length-append xs ys);
}

-- Entries `i` to `i + length xs - 1` of the table are the sectors `xs`.
abbrev pub Holds : List ℤ → ℕ → List ℕ → Type 0
Holds table i [] = Unit
Holds table i (x ∷ xs) = (get_or table i minus_one ≡ pos x) × Holds table (i + 1) xs

-- What a run of `fill` over `n` entries from `i` on leaves: the sectors are in the table, in order.
pub record Filled (n i : ℕ) (table : List ℤ) (b : BitMap) (r : Run (List ℤ × BitMap)) : Type 0 where
  pub table' : List ℤ
  pub b' : BitMap
  pub sectors : List ℕ
  pub run : r ≡ ok (table', b')
  pub taken : Takes b sectors b'
  pub as_many : length sectors ≡ n
  pub holds : Holds table' i sectors
  pub same_length : length table' ≡ length table
  pub others :
      (j : ℕ) → (j < i) ⊎ (i + n ≤ j) → get_or table' j minus_one ≡ get_or table j minus_one

pub fill-Filled :
    (n i : ℕ) (table : List ℤ) (b : BitMap)
    → IsValid b
    → i + n ≤ length table
    → n ≤ clear_count b
    → Filled n i table b (fill n i table b)
unfolding fill
fill-Filled zero i table b valid room enough = record {
  table' = table;
  b' = b;
  sectors = [];
  run = refl;
  taken = Takes-nil b valid;
  as_many = refl;
  holds = tt;
  same_length = refl;
  others = λ j h. refl;
}
fill-Filled (suc n) i table b valid room enough =
    let (x, b₁, run, lt, free, up, count) = find-counts b valid (omega arith) in
    let table₁ : List ℤ = set table i (pos x) in
    let rest =
      fill-Filled n (i + 1) table₁ b₁ up.valid (omega (arith, length-set table i (pos x)))
        (omega arith) in
    record {
      table' = rest.table';
      b' = rest.b';
      sectors = x ∷ rest.sectors;
      run = rw run rest.run;
      taken = Takes-cons b b₁ rest.b' x rest.sectors up free lt count rest.taken;
      as_many = omega (arith, rest.as_many);
      holds = (
        rest.others i (inl (omega arith)) ∙ get_or-set_self table i (pos x) minus_one (omega arith),
        rest.holds,
      );
      same_length = rest.same_length ∙ length-set table i (pos x);
      others = λ j h.
          rest.others j (omega arith) ∙ get_or-set_ne table i j (pos x) minus_one (omega arith);
    }
