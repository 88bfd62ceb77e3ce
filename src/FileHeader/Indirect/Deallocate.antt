-- ===== src/FileHeader/Indirect/Deallocate.antt =====
-- The whole of `Deallocate` in filesys/filehdr.cc with `INDIRECT_MAP`, on a tree that `Allocate` built.
use pku_os_lab.Common.{
  ℕ, ◌≤◌, ◌≡◌, refl, ap, ◌∙◌, inl, inr, Bool, true, false, ◌||◌, ◌==◌, List, [], ◌∷◌, ◌++◌, Run, ok,
  length, arith, Bool-cases, sym,
}
use mathlib.Core.List.{append-nil, append_assoc}
use pku_os_lab.Bitmap.{BitMap}
use pku_os_lab.Bitmap.Marks.{IsValid}
use pku_os_lab.SynchDisk.{Disk, disk_sectors}
use pku_os_lab.FileHeader.{FileHeader}
use pku_os_lab.FileHeader.Sectors.{Distinct, has-append}
use pku_os_lab.FileHeader.Release.{InUse}
use pku_os_lab.FileHeader.Indirect.{Table, num_direct, deallocate}
use pku_os_lab.FileHeader.Indirect.Tables.{Groups, flat}
use pku_os_lab.FileHeader.Indirect.Tree.{Tree, direct, single, double, single_limit}
use pku_os_lab.FileHeader.Indirect.Release.{Distinct-left, Distinct-right, Freed}
use pku_os_lab.FileHeader.Indirect.Levels.{
  double_skipped, double-Freed, single_skipped, direct-Freed, levels-Freed,
}

nothing-Freed : (b : BitMap) (r : Run BitMap) → IsValid b → r ≡ ok b → Freed b [] r
nothing-Freed b r valid e =
    (b, e, record { valid = valid; same_size = refl; bits = λ j. refl; count = omega arith })

nil_of_length {ℓ} : {A : Type ℓ} (xs : List A) → length xs ≡ 0 → xs ≡ []
nil_of_length [] e = refl
nil_of_length (x ∷ xs) e = absurd (omega arith)

-- Part of what is in use, and has no sector twice, is so too.
Distinct-part : (xs ys zs : List ℕ) → Distinct (xs ++ (ys ++ zs)) → Distinct (xs ++ (ys ++ []))
Distinct-part xs ys zs d = rw append-nil (Distinct-left (xs ++ ys) zs (rw append_assoc d))

InUse-part :
    (b : BitMap) (xs ys zs : List ℕ) → InUse b (xs ++ (ys ++ zs)) → InUse b (xs ++ (ys ++ []))
InUse-part b xs ys zs used j m = used j (
    ground (
      arith,
      has-append j xs (ys ++ zs),
      has-append j xs (ys ++ []),
      has-append j ys zs,
      has-append j ys [],
    ))

-- The sizes, in sectors, at which `Allocate` takes a sector that `Deallocate` does not give back.
abbrev pub leaks : ℕ → Bool
leaks needed = needed == num_direct || needed == single_limit

-- `freed` is all of `all`, or all but the last one where a sector leaks.
pub record Outcome (needed : ℕ) (all : List ℕ) (b : BitMap) (r : Run BitMap) : Type 0 where
  pub freed : List ℕ
  pub run : Freed b freed r
  pub complete : leaks needed ≡ false → freed ≡ all
  pub partial : leaks needed ≡ true → (x : ℕ) × (all ≡ freed ++ (x ∷ []))

module _ (h : FileHeader) (disk : Disk Table) (b : BitMap) (all : List ℕ) (valid : IsValid b)
    (small : b.num_bits ≤ disk_sectors) (d : Distinct all) (used : InUse b all) where
  pub deallocate-Outcome :
      Tree h.data_sectors disk h.num_sectors all → Outcome h.num_sectors all b (deallocate h disk b)
  deallocate-Outcome (direct lt len holds) = record {
    freed = all;
    run = rw append-nil at (
        direct-Freed h disk b all [] valid (omega (arith, len)) holds (rw append-nil d)
          (rw append-nil used)
          (λ b₁ v e u. nothing-Freed b₁ _ v (single_skipped h disk b₁ (omega arith))));
    complete = λ e. refl;
    partial = λ e. absurd (ground arith);
  }
  deallocate-Outcome (single xs index ss ge lt shape len holds named many stored) =
      let d' : Distinct (xs ++ (index ∷ ss)) = rw shape at d in
      let used' : InUse b (xs ++ (index ∷ ss)) = rw shape at used in
      elim (Bool-cases (h.num_sectors == num_direct)) [
        | inl exact ↦ record {
          freed = xs;
          run = rw append-nil at (
              direct-Freed h disk b xs [] valid (omega (arith, len)) holds
                (rw append-nil (Distinct-left xs (index ∷ ss) d'))
                (rw append-nil (λ j m. used' j (ground (arith, has-append j xs (index ∷ ss)))))
                (λ b₁ v e u. nothing-Freed b₁ _ v (single_skipped h disk b₁ (ground arith))));
          complete = λ e. absurd (ground arith);
          partial = λ e. (
            index,
            shape ∙ ap (λ l. xs ++ (index ∷ l)) (nil_of_length ss (ground (arith, many))),
          );
        }
        | inr above ↦ record {
          freed = xs ++ ((index ∷ ss) ++ []);
          run =
              levels-Freed h disk b xs index ss [] valid small (ground arith) len holds named
                (omega (arith, many)) stored (rw append-nil d') (rw append-nil used')
                (λ b₁ v e u. nothing-Freed b₁ _ v (double_skipped h disk b₁ (omega arith)));
          complete = λ e. rw append-nil (sym shape);
          partial = λ e. absurd (ground arith);
        }
      ]
  deallocate-Outcome
        (double xs index ss top groups ge lt shape len holds named many stored topmost listed
          counted kept) =
      let d' : Distinct (xs ++ ((index ∷ ss) ++ (top ∷ flat groups))) = rw shape at d in
      let used' : InUse b (xs ++ ((index ∷ ss) ++ (top ∷ flat groups))) = rw shape at used in
      elim (Bool-cases (h.num_sectors == single_limit)) [
        | inl exact ↦ record {
          freed = xs ++ ((index ∷ ss) ++ []);
          run =
              levels-Freed h disk b xs index ss [] valid small (omega arith) len holds named
                (omega (arith, many)) stored (Distinct-part xs (index ∷ ss) (top ∷ flat groups) d')
                (InUse-part b xs (index ∷ ss) (top ∷ flat groups) used')
                (λ b₁ v e u. nothing-Freed b₁ _ v (double_skipped h disk b₁ (ground arith)));
          complete = λ e. absurd (ground arith);
          partial = λ e. (
            top,
            shape
                ∙ ap (λ (gs : Groups). xs ++ ((index ∷ ss) ++ (top ∷ flat gs)))
                    (nil_of_length groups (ground (arith, counted)))
                ∙ rw append-nil (sym (append_assoc xs (index ∷ ss) (top ∷ []))),
          );
        }
        | inr above ↦ record {
          freed = xs ++ ((index ∷ ss) ++ (top ∷ flat groups));
          run =
              levels-Freed h disk b xs index ss (top ∷ flat groups) valid small (omega arith) len
                holds named (omega (arith, many)) stored d' used'
                (λ b₁ v e u.
                  double-Freed h disk b₁ top groups v (omega (arith, e)) (ground arith) lt topmost
                    listed counted kept
                    (Distinct-right (index ∷ ss) (top ∷ flat groups)
                      (Distinct-right xs ((index ∷ ss) ++ (top ∷ flat groups)) d'))
                    u);
          complete = λ e. sym shape;
          partial = λ e. absurd (ground arith);
        }
      ]
