-- ===== src/OpenFile/Extent.antt =====
-- How long a file of filesys/openfile.cc can be whose sectors are different and on the disk.
use pku_os_lab.Common.{
  ℕ, ◌+◌, ◌*◌, ◌≤◌, ◌<◌, ◌≡◌, refl, subst, ◌==◌, if◌then◌else◌, true, List, [], ◌∷◌, length, All,
  has, Distinct, arith, Bool-cases, inl, inr,
}
use pku_os_lab.Common.Counts.{unset, unset-set, unset-full}
use pku_os_lab.SynchDisk.{disk_sectors}
use pku_os_lab.FileHeader.{FileHeader, sector_size}
use pku_os_lab.FileHeader.Direct.RoundTrip.{Describes, sectors_for}

-- Of `n` numbers a list without repetitions leaves those that it does not have.
unset-has :
    (n : ℕ) (xs : List ℕ)
    → Distinct xs
    → All (λ (x : ℕ). x < n) xs
    → unset (λ j. has j xs) n 0 + length xs ≡ n
unset-has n [] d below = omega (arith, unset-full (λ j. has j []) n 0 (λ j lo hi. refl))
unset-has n (x ∷ xs) d below =
    let one_less =
      unset-set (λ j. has j xs) (λ j. has j (x ∷ xs)) x n 0 (λ j. either j) d.0 (omega arith)
        (omega (arith, below.0)) in
    omega (arith, one_less, unset-has n xs d.1 below.1)
  where
    either : (j : ℕ) → has j (x ∷ xs) ≡ (if x == j then true else has j xs)
    either j = elim (Bool-cases (x == j)) [ inl same ↦ rw same refl | inr other ↦ rw other refl ]

length-Distinct : (n : ℕ) (xs : List ℕ) → Distinct xs → All (λ (x : ℕ). x < n) xs → length xs ≤ n
length-Distinct n xs d below = let all = unset-has n xs d below in omega (arith, all)

covered : (size n : ℕ) → sectors_for size ≤ n → size ≤ n * sector_size
covered size n le = ground (arith, le)

pub Describes-extent :
    (hdr : FileHeader) (size : ℕ) (xs : List ℕ)
    → Describes hdr size xs
    → All (λ (x : ℕ). x < disk_sectors) xs
    → Distinct xs
    → size ≤ disk_sectors * sector_size
Describes-extent hdr size xs d inside apart =
    covered size disk_sectors
      (subst (λ (n : ℕ). n ≤ disk_sectors) d.as_many (length-Distinct disk_sectors xs apart inside))
