-- ===== src/Mips/Decode.antt =====
-- `Decode` of machine/mipssim.cc against the encoding of instructions.
use pku_os_lab.Common.{
  ℕ, zero, suc, ◌+◌, ◌-◌, ◌*◌, ◌/◌, ◌%◌, ◌^◌, ◌<◌, ◌≡◌, refl, ◌∙◌, ap, Bool, true, false, ◌&&◌,
  ◌||◌, List, [], ◌∷◌, leb, ◌==◌, if◌then◌else◌, get_or, length, arith, Bool-cases, inl, inr,
}
use pku_os_lab.Mips.{
  OpCode, special, bcond, op_res, Format, ifmt, jfmt, rfmt, OpInfo, Instruction, info, op_table,
  special_table, extra_of, op_code_of, branch_code, decode,
}

-- The three layouts of an instruction word, below its operation code.
pub data Layout : Type 0 where
  immediate : (rs rt value : ℕ) → Layout
  jump : (target : ℕ) → Layout
  register : (rs rt rd amount funct : ℕ) → Layout

abbrev pub encode : ℕ → Layout → ℕ
encode code (immediate rs rt value) = code * 2 ^ 26 + rs * 2 ^ 21 + rt * 2 ^ 16 + value
encode code (jump target) = code * 2 ^ 26 + target
encode code (register rs rt rd amount funct) =
    code * 2 ^ 26 + rs * 2 ^ 21 + rt * 2 ^ 16 + rd * 2 ^ 11 + amount * 2 ^ 6 + funct

-- The fields of a layout have their widths.
abbrev pub Fits : Layout → Type 0
Fits (immediate rs rt value) = (rs < 2 ^ 5) × (rt < 2 ^ 5) × (value < 2 ^ 16)
Fits (jump target) = target < 2 ^ 26
Fits (register rs rt rd amount funct) =
    (rs < 2 ^ 5) × (rt < 2 ^ 5) × (rd < 2 ^ 5) × (amount < 2 ^ 5) × (funct < 2 ^ 6)

abbrev pub entry : ℕ → OpInfo
entry code = get_or op_table code (info op_res ifmt)

abbrev pub format_of : Layout → Format
format_of (immediate rs rt value) = ifmt
format_of (jump target) = jfmt
format_of (register rs rt rd amount funct) = rfmt

-- The operation: the branches on the sign of a register share the code 1.
abbrev pub op_of : ℕ → Layout → OpCode
op_of code (immediate rs rt value) = if code == 1 then branch_code rt else (entry code).op_code
op_of code (jump target) = (entry code).op_code
op_of code (register rs rt rd amount funct) = get_or special_table funct op_res

-- A decoded instruction has the fields of the layout; an immediate is extended with its sign.
abbrev pub Decoded : Layout → Instruction → Type 0
Decoded (immediate rs rt value) i =
    (i.rs ≡ rs)
    × (i.rt ≡ rt)
    × (i.extra ≡ (if leb (2 ^ 15) value then value + (2 ^ 32 - 2 ^ 16) else value))
Decoded (jump target) i = i.extra ≡ target
Decoded (register rs rt rd amount funct) i =
    (i.rs ≡ rs) × (i.rt ≡ rt) × (i.rd ≡ rd) × (i.extra ≡ amount)

is_plain : OpCode → Bool
is_plain special = false
is_plain bcond = false
is_plain op = true

op_code_of-plain : (op : OpCode) (word : ℕ) → is_plain op ≡ true → op_code_of op word ≡ op
unfolding is_plain
op_code_of-plain special word h = cc
op_code_of-plain bcond word h = cc
op_code_of-plain op word h = refl

-- What the entries of the table have in common, by their format.
is_regular : ℕ → OpCode → Format → Bool
is_regular code op ifmt = is_plain op || code == 1
is_regular code op jfmt = is_plain op
is_regular code op rfmt = code == 0

all_regular : ℕ → List OpInfo → Bool
all_regular code [] = true
all_regular code (e ∷ es) = is_regular code e.op_code e.format && all_regular (code + 1) es

all_regular-entry :
    (es : List OpInfo) (first k : ℕ) (d : OpInfo)
    → all_regular first es ≡ true
    → k < length es
    → is_regular (first + k) (get_or es k d).op_code (get_or es k d).format ≡ true
unfolding all_regular
all_regular-entry [] first k d h lt = absurd (omega arith)
all_regular-entry (e ∷ es) first zero d h lt =
    let same : first + 0 ≡ first = omega arith in rw same (ground (arith, h))
all_regular-entry (e ∷ es) first (suc k) d h lt =
    let same : first + suc k ≡ first + 1 + k = omega arith in
    rw same (all_regular-entry es (first + 1) k d (ground (arith, h)) (omega (arith, lt)))

table_regular :
    (code : ℕ) → code < 2 ^ 6 → is_regular code (entry code).op_code (entry code).format ≡ true
unfolding all_regular is_regular is_plain
table_regular code h =
    let e : 0 + code ≡ code = omega arith in
    rw e at (all_regular-entry op_table 0 code (info op_res ifmt) refl h)

code_of-encode :
    (code : ℕ) (l : Layout) → code < 2 ^ 6 → Fits l → encode code l / 2 ^ 26 % 2 ^ 6 ≡ code
code_of-encode code (immediate rs rt v) h f = omega (arith, h, f)
code_of-encode code (jump target) h f = omega (arith, h, f)
code_of-encode code (register rs rt rd amount funct) h f = omega (arith, h, f)

-- The fields of an encoded layout, once its format is known.
fields-encode :
    (code : ℕ) (l : Layout) (i : Instruction)
    → code < 2 ^ 6
    → Fits l
    → i.rs ≡ encode code l / 2 ^ 21 % 2 ^ 5
    → i.rt ≡ encode code l / 2 ^ 16 % 2 ^ 5
    → i.rd ≡ encode code l / 2 ^ 11 % 2 ^ 5
    → i.extra ≡ extra_of (format_of l) (encode code l)
    → Decoded l i
fields-encode code (immediate rs rt v) i h f s t d x =
    let low : encode code (immediate rs rt v) % 2 ^ 16 ≡ v = omega (arith, h, f) in
    (omega (arith, s, h, f), omega (arith, t, h, f), x ∙ rw low refl)
fields-encode code (jump target) i h f s t d x = omega (arith, x, h, f)
fields-encode code (register rs rt rd amount funct) i h f s t d x =
    (omega (arith, s, h, f), omega (arith, t, h, f), omega (arith, d, h, f), omega (arith, x, h, f))

op_of-encode :
    (code : ℕ) (l : Layout)
    → code < 2 ^ 6
    → Fits l
    → (entry code).format ≡ format_of l
    → op_code_of (entry code).op_code (encode code l) ≡ op_of code l
unfolding is_regular
op_of-encode code (immediate rs rt v) h f form =
    let regular : is_regular code (entry code).op_code ifmt ≡ true =
      rw form at (table_regular code h) in
    elim (Bool-cases (code == 1)) [
      | inl one_code ↦
          let e : code ≡ 1 = ground (arith, one_code) in
          let branch : encode code (immediate rs rt v) / 2 ^ 16 % 2 ^ 5 ≡ rt =
            omega (arith, h, f) in
          rw one_code (
            ap (λ k. op_code_of (entry k).op_code (encode code (immediate rs rt v))) e
            ∙ rw branch refl)
      | inr other ↦
          rw other (op_code_of-plain (entry code).op_code _ (ground (arith, regular, other)))
    ]
op_of-encode code (jump target) h f form =
    op_code_of-plain (entry code).op_code _ (rw form at (table_regular code h))
op_of-encode code (register rs rt rd amount funct) h f form =
    let regular : (code == 0) ≡ true = rw form at (table_regular code h) in
    let e : code ≡ 0 = ground (arith, regular) in
    let low : encode code (register rs rt rd amount funct) % 2 ^ 6 ≡ funct = omega (arith, h, f) in
    ap (λ k. op_code_of (entry k).op_code (encode code (register rs rt rd amount funct))) e
    ∙ rw low refl

-- `Decode` of a word that is put together from an operation code of 6 bits and the fields of the format
-- that the code has in `opTable` gives these fields back: the registers, and an immediate with its sign,
-- the amount of a shift or the target of a jump. The operation is the one of `opTable`; it is that of
-- `specialTable` for the register format, and for the code 1 the branch that the field `rt` names.
pub decode-encode :
    (code : ℕ) (l : Layout)
    → code < 2 ^ 6
    → Fits l
    → (entry code).format ≡ format_of l
    → Decoded l (decode (encode code l)) × ((decode (encode code l)).op_code ≡ op_of code l)
unfolding decode
decode-encode code l h f form =
    let here : encode code l / 2 ^ 26 % 2 ^ 6 ≡ code = code_of-encode code l h f in
    (
      fields-encode code l (decode (encode code l)) h f refl refl refl (
          ap (λ k. extra_of (entry k).format (encode code l)) here
          ∙ ap (λ form'. extra_of form' (encode code l)) form),
      ap (λ k. op_code_of (entry k).op_code (encode code l)) here ∙ op_of-encode code l h f form,
    )
