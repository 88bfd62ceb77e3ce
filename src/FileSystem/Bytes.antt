-- ===== src/FileSystem/Bytes.antt =====
-- How the structures of filesys/ and userprog/bitmap.cc lie in the memory that is read from and written to files:
-- an `int` or `unsigned` has 4 bytes, the lowest first.
use pku_os_lab.Common.{
  zero, suc, refl, false, List, [], ◌∷◌, length, get_or, All, ◌≤◌, ℕ, ◌+◌, ◌*◌, ◌/◌, ◌%◌, ◌^◌, ◌<◌,
  ◌≡◌, ◌==◌, if◌then◌else◌, arith, ap, ◌∙◌,
}

-- Byte `k` of the word `w`, of its four.
unfoldable pub word_byte : ℕ → ℕ → ℕ
word_byte w k =
    if k == 0
    then w % 256
    else if k == 1
    then w / 256 % 256
    else if k == 2
    then w / 65536 % 256
    else w / 16777216 % 256

-- The word whose bytes stand from index `i` of the buffer on.
unfoldable pub word_at : (ℕ → ℕ) → ℕ → ℕ
word_at buf i = buf i + 256 * buf (i + 1) + 65536 * buf (i + 2) + 16777216 * buf (i + 3)

-- The characters before the first zero, of `n` from index `i` on.
unfoldable pub chars_in : (ℕ → ℕ) → ℕ → ℕ → List ℕ
chars_in buf zero i = []
chars_in buf (suc n) i =
    let rest = chars_in buf n (i + 1) in if buf i == 0 then [] else buf i ∷ rest

bytes-word :
    (w : ℕ)
    → w < 2 ^ 32
    → w % 256 + 256 * (w / 256 % 256) + 65536 * (w / 65536 % 256) + 16777216 * (w / 16777216 % 256)
      ≡ w
bytes-word w lt = omega arith

-- A word is read back from its bytes.
pub word_at-word_byte :
    (buf : ℕ → ℕ) (i w : ℕ)
    → w < 2 ^ 32
    → ((r : ℕ) → r < 4 → buf (i + r) ≡ word_byte w r)
    → word_at buf i ≡ w
unfolding word_at word_byte
word_at-word_byte buf i w lt same =
    rw (same 1 (omega arith), same 2 (omega arith), same 3 (omega arith))
      (omega (arith, first, bytes-word w lt))
  where
    first : buf i ≡ w % 256
    first = ap buf (omega arith) ∙ same 0 (omega arith)

-- The characters of a name are read back, from memory that is zero behind them.
pub chars_in-same :
    (buf : ℕ → ℕ) (name : List ℕ) (n i : ℕ)
    → length name ≤ n
    → All (λ (c : ℕ). 0 < c) name
    → ((k : ℕ) → k < n → buf (i + k) ≡ get_or name k 0)
    → chars_in buf n i ≡ name
unfolding chars_in
chars_in-same buf [] zero i short positive same = refl
chars_in-same buf [] (suc n) i short positive same =
    let end : buf i ≡ 0 = ap buf (omega arith) ∙ same 0 (omega arith) in rw end refl
chars_in-same buf (c ∷ name) zero i short positive same = absurd (omega arith)
chars_in-same buf (c ∷ name) (suc n) i short positive same =
    let here : buf i ≡ c = ap buf (omega arith) ∙ same 0 (omega arith) in
    let more : (c == 0) ≡ false = ground (arith, positive.0) in
    let rest : chars_in buf n (i + 1) ≡ name =
      chars_in-same buf name n (i + 1) (omega (arith, short)) positive.1
        (λ k lt. ap buf (omega arith) ∙ same (suc k) (omega arith)) in
    rw (here, more, rest) refl

-- The characters of a text are read back, whatever stands behind the zero that ends it.
pub chars_in-text :
    (buf : ℕ → ℕ) (text : List ℕ) (n i : ℕ)
    → length text < n
    → All (λ (c : ℕ). 0 < c) text
    → ((k : ℕ) → k ≤ length text → buf (i + k) ≡ get_or text k 0)
    → chars_in buf n i ≡ text
unfolding chars_in
chars_in-text buf text zero i short positive same = absurd (omega (arith, short))
chars_in-text buf [] (suc n) i short positive same =
    let end : buf i ≡ 0 = ap buf (omega arith) ∙ same 0 (omega arith) in rw end refl
chars_in-text buf (c ∷ text) (suc n) i short positive same =
    let here : buf i ≡ c = ap buf (omega arith) ∙ same 0 (omega arith) in
    let more : (c == 0) ≡ false = ground (arith, positive.0) in
    let rest : chars_in buf n (i + 1) ≡ text =
      chars_in-text buf text n (i + 1) (omega (arith, short)) positive.1
        (λ k lt. ap buf (omega arith) ∙ same (suc k) (omega arith)) in
    rw (here, more, rest) refl
