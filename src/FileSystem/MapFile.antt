-- ===== src/FileSystem/MapFile.antt =====
-- `FetchFrom` and `WriteBack` of userprog/bitmap.cc: the words of the map, as the bytes of a file.
use pku_os_lab.Common.{
  ℕ, zero, suc, ◌+◌, ◌*◌, ◌/◌, ◌%◌, ◌^◌, ◌≤◌, ◌<◌, ◌≡◌, refl, ◌∙◌, ap, sym, div_round_up, false,
  List, [], ◌∷◌, length, get_or, All, Run, ok, ◌>>=◌, arith,
}
use pku_os_lab.SynchDisk.{Disk, disk_sectors}
use pku_os_lab.Bitmap.{BitMap, bits_in_word}
use pku_os_lab.Bitmap.Marks.{IsValid}
use pku_os_lab.FileHeader.{FileHeader}
use pku_os_lab.FileHeader.Sectors.{has, Distinct}
use pku_os_lab.FileHeader.Direct.RoundTrip.{Describes}
use pku_os_lab.OpenFile.{read_at, write_at}
use pku_os_lab.FileSystem.Bytes.{word_byte, word_at, word_at-word_byte}
use pku_os_lab.FileSystem.Transfer.{read_at-write_at}

-- The bytes of the words that start at `map`.
unfoldable pub map_bytes : List ℕ → ℕ → ℕ
map_bytes words j = word_byte (get_or words (j / 4) 0) (j % 4)

-- The `n` words from number `i` on in the memory `buf`.
unfoldable pub words_in : (ℕ → ℕ) → ℕ → ℕ → List ℕ
words_in buf zero i = []
words_in buf (suc n) i = word_at buf (i * 4) ∷ words_in buf n (i + 1)

-- `BitMap::FetchFrom`
unfoldable pub fetch_map : FileHeader → Disk (ℕ → ℕ) → (ℕ → ℕ) → BitMap → Run BitMap
fetch_map hdr disk fresh b = do
  (n, into) ← read_at hdr disk fresh (map_bytes b.words) 0 (b.num_words * 4) 0
  ok (record b { words = words_in into b.num_words 0 })

-- `BitMap::WriteBack`
unfoldable pub write_map : FileHeader → (ℕ → ℕ → ℕ) → BitMap → Disk (ℕ → ℕ) → Run (Disk (ℕ → ℕ))
write_map hdr fresh b disk = do
  (n, disk') ← write_at hdr fresh (map_bytes b.words) 0 (b.num_words * 4) 0 disk
  ok disk'

words_in-same :
    (buf : ℕ → ℕ) (ws : List ℕ) (i : ℕ)
    → All (λ (w : ℕ). w < 2 ^ 32) ws
    → ((k r : ℕ) → k < length ws → r < 4 → buf ((i + k) * 4 + r) ≡ word_byte (get_or ws k 0) r)
    → words_in buf (length ws) i ≡ ws
unfolding words_in
words_in-same buf [] i narrow same = refl
words_in-same buf (w ∷ ws) i narrow same =
    let head : word_at buf (i * 4) ≡ w =
      word_at-word_byte buf (i * 4) w narrow.0
        (λ r lt. ap buf (omega arith) ∙ same 0 r (omega arith) lt) in
    let tail : words_in buf (length ws) (i + 1) ≡ ws =
      words_in-same buf ws (i + 1) narrow.1
        (λ k r lk lr. ap buf (omega arith) ∙ same (suc k) r (omega arith) lr) in
    cc

-- A valid map is written by `WriteBack` to a file that is at least as long as its words, whose sectors are different
-- and on the disk: neither `WriteBack` nor a later `FetchFrom` into a valid map of as many bits aborts, `FetchFrom` gives
-- back the map that was written, and no sector outside the file is changed.
pub fetch_map-write_map :
    (hdr : FileHeader) (size : ℕ) (xs : List ℕ) (b b' : BitMap) (fresh : ℕ → ℕ → ℕ)
    (disk : Disk (ℕ → ℕ))
    → Describes hdr size xs
    → All (λ (x : ℕ). x < disk_sectors) xs
    → Distinct xs
    → IsValid b
    → IsValid b'
    → b'.num_bits ≡ b.num_bits
    → b.num_words * 4 ≤ size
    → (disk' : Disk (ℕ → ℕ)) × (write_map hdr fresh b disk ≡ ok disk')
      × (fetch_map hdr disk' (fresh 3) b' ≡ ok b)
      × ((s : ℕ) → has s xs ≡ false → disk' s ≡ disk s)
unfolding fetch_map write_map map_bytes
fetch_map-write_map hdr size xs b b' fresh disk d inside apart valid valid' same fits =
    let k =
      read_at-write_at hdr size xs d inside apart fresh (map_bytes b.words) (map_bytes b'.words)
        (b.num_words * 4) disk fits in
    let words : words_in k.into' b.num_words 0 ≡ b.words = rw⁻¹ valid.stored (
      words_in-same k.into' b.words 0 valid.narrow (λ i r li lr.
        ap k.into' (omega arith)
        ∙ k.same (i * 4 + r) (omega (arith, valid.stored, li, lr))
        ∙ byte_of_map i r lr)) in
    let same_words : b'.num_words ≡ b.num_words =
      valid'.sized ∙ ap (λ n. div_round_up n bits_in_word) same ∙ sym valid.sized in
    (
      k.disk',
      rw k.writes refl,
      rw (same_words, same, k.reads) (ap (λ ws. ok (record b { words = ws })) words),
      k.others,
    )
  where
    byte_of_map :
        (i r : ℕ)
        → r < 4
        → word_byte (get_or b.words ((i * 4 + r) / 4) 0) ((i * 4 + r) % 4)
          ≡ word_byte (get_or b.words i 0) r
    byte_of_map i r lr =
        let which : (i * 4 + r) / 4 ≡ i = omega arith in
        let rest : (i * 4 + r) % 4 ≡ r = omega arith in rw (which, rest) refl
