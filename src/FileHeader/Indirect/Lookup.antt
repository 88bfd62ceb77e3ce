-- ===== src/FileHeader/Indirect/Lookup.antt =====
-- `ByteToSector` of filesys/filehdr.cc with `INDIRECT_MAP`, on a tree that `Allocate` built.
use pku_os_lab.Common.{
  ℕ, ◌+◌, ◌-◌, ◌*◌, ◌/◌, ◌%◌, ◌≤◌, ◌<◌, ◌≡◌, ap, ◌∙◌, sym, true, List, [], ◌∷◌, ◌++◌, pos,
  minus_one, length, get_or, ltb, arith, Bool-cases, inl, inr, get_or-append_left,
  get_or-append_right,
}
use pku_os_lab.SynchDisk.{Disk, disk_sectors}
use pku_os_lab.FileHeader.{level_map_num}
use pku_os_lab.FileHeader.Sectors.{has, Distinct, Holds, has-append, length-append, Distinct-append}
use pku_os_lab.FileHeader.Tables.{Holds-get_or}
use pku_os_lab.FileHeader.Indirect.{Table}
use pku_os_lab.FileHeader.Indirect.Tables.{Groups, flat, heads, Stored}
use pku_os_lab.FileHeader.Indirect.Release.{Cover, Distinct-left, Distinct-right, Distinct-apart}

-- The data sectors that the tables list, in the order of the file.
abbrev pub entries : Groups → List ℕ
entries [] = []
entries ((t, ss) ∷ gs) = ss ++ entries gs

pub has-entries : (j : ℕ) (gs : Groups) → has j (entries gs) ≡ true → has j (flat gs) ≡ true
has-entries j [] h = h
has-entries j ((t, ss) ∷ gs) h =
    ground (arith, has-append j ss (entries gs), has-append j ss (flat gs), has-entries j gs)

pub Distinct-entries : (gs : Groups) → Distinct (flat gs) → Distinct (entries gs)
Distinct-entries [] d = tt
Distinct-entries ((t, ss) ∷ gs) d =
    Distinct-append ss (entries gs) (Distinct-left ss (flat gs) d.1)
      (Distinct-entries gs (Distinct-right ss (flat gs) d.1))
      (λ j m. elim (Bool-cases (has j (entries gs))) [
        | inl both ↦
            absurd (ground (arith, Distinct-apart ss (flat gs) j d.1 (has-entries j gs both)))
        | inr apart ↦ apart
      ])

pub length-entries :
    (disk : Disk Table) (left j : ℕ) (gs : Groups)
    → Stored disk left j gs
    → Cover left j gs
    → length (entries gs) ≡ left - j * level_map_num
length-entries disk left j [] s c = omega arith
length-entries disk left j ((t, ss) ∷ gs) s c =
    omega (arith, length_both, s.1, length-entries disk left (j + 1) gs s.2 c.1)
  where
    length_both : length (ss ++ entries gs) ≡ length ss + length (entries gs)
    length_both = length-append ss (entries gs)

-- Entry `m` behind table `j` is found through the table of tables.
pub record Reached (disk : Disk Table) (top : Table) (j m s : ℕ) : Type 0 where
  pub index : ℕ
  pub named : get_or top (j + m / level_map_num) minus_one ≡ pos index
  pub in_use : index < disk_sectors
  pub entry : get_or (disk index) (m % level_map_num) minus_one ≡ pos s

pub reach :
    (disk : Disk Table) (left j m : ℕ) (top : Table) (gs : Groups)
    → Stored disk left j gs
    → Cover left j gs
    → Holds top j (heads gs)
    → ((t : ℕ) → has t (flat gs) ≡ true → t < disk_sectors)
    → j * level_map_num + m < left
    → Reached disk top j m (get_or (entries gs) m 0)
reach disk left j m top [] s c h used lt = absurd (omega arith)
reach disk left j m top ((t, ss) ∷ gs) s c h used lt = elim (Bool-cases (ltb m level_map_num)) [
  | inl here ↦
      let low : m < level_map_num = ground arith in
      record {
        index = t;
        named = ap (λ k. get_or top k minus_one) (omega arith) ∙ h.0;
        in_use = used t (ground arith);
        entry =
            ap (λ k. get_or (disk t) k minus_one) (omega arith)
            ∙ Holds-get_or (disk t) 0 m ss s.0 (omega (arith, s.1))
            ∙ ap pos (sym (get_or-append_left ss (entries gs) m 0 (omega (arith, s.1))));
      }
  | inr later ↦
      let high : level_map_num ≤ m = ground arith in
      let r =
        reach disk left (j + 1) (m - level_map_num) top gs s.2 c.1 h.1
          (λ u v. used u (ground (arith, has-append u ss (flat gs)))) (omega arith) in
      record {
        index = r.index;
        named = ap (λ k. get_or top k minus_one) (omega arith) ∙ r.named;
        in_use = r.in_use;
        entry =
            ap (λ k. get_or (disk r.index) k minus_one) (omega arith)
            ∙ r.entry
            ∙ ap pos (sym (get_or-append_right ss (entries gs) (m - level_map_num) 0))
            ∙ ap (λ k. pos (get_or (ss ++ entries gs) k 0)) (omega (arith, s.1));
      }
]
