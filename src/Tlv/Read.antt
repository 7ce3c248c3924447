-- ===== src/Tlv/Read.antt =====
-- What `rd_u32` reads: four bytes in little-endian order, with no fault inside the buffer.
use n_rf5340_presence_test.Base.{
  ℕ, ◌+◌, ◌*◌, ◌/◌, ◌%◌, ◌^◌, ◌<◌, ◌≡◌, refl, List, [], ◌∷◌, ◌++◌, some, bit_or, arith, length,
  byte_at, IsBytes, byte_at-lt, get_elem?-eq-get_or, get_or-append_left, get_or-append_right, set,
  get_or-set_ne,
}
use n_rf5340_presence_test.Base.Word.{◌<<<◌}
use n_rf5340_presence_test.Base.Bits.{bit_or_low}
use n_rf5340_presence_test.Tlv.{rd_u32}

-- The word that the four bytes at `o` stand for.
abbrev pub le32 : List ℕ → ℕ → ℕ
le32 p o =
    byte_at p o
    + byte_at p (o + 1) * 2 ^ 8
    + byte_at p (o + 2) * 2 ^ 16
    + byte_at p (o + 3) * 2 ^ 24

-- The four bytes of a word, lowest first.
abbrev pub le_bytes : ℕ → List ℕ
le_bytes w = w % 256 ∷ w / 256 % 256 ∷ w / 65536 % 256 ∷ w / 16777216 % 256 ∷ []

-- Bytes at their places are a sum.
pub or_bytes :
    (a b c d : ℕ)
    → a < 256
    → b < 256
    → c < 256
    → bit_or (bit_or (bit_or a (b <<< 8)) (c <<< 16)) (d <<< 24)
      ≡ a + b * 2 ^ 8 + c * 2 ^ 16 + d * 2 ^ 24
or_bytes a b c d ha hb hc =
    rw
      (
        bit_or_low 8 a b (omega arith),
        bit_or_low 16 (a + b * 2 ^ 8) c (omega arith),
        bit_or_low 24 (a + b * 2 ^ 8 + c * 2 ^ 16) d (omega arith),
      )
      refl

pub rd_u32-eq-le32 :
    (p : List ℕ) (o : ℕ) → IsBytes p → o + 3 < length p → rd_u32 p o ≡ some (le32 p o)
unfolding rd_u32
rd_u32-eq-le32 p o bytes h =
    rw
      (
        get_elem?-eq-get_or p o 0 (omega arith),
        get_elem?-eq-get_or p (o + 1) 0 (omega arith),
        get_elem?-eq-get_or p (o + 2) 0 (omega arith),
        get_elem?-eq-get_or p (o + 3) 0 h,
        or_bytes (byte_at p o) (byte_at p (o + 1)) (byte_at p (o + 2)) (byte_at p (o + 3))
            (byte_at-lt p o bytes) (byte_at-lt p (o + 1) bytes) (byte_at-lt p (o + 2) bytes),
      )
      refl

pub le32-lt : (p : List ℕ) (o : ℕ) → IsBytes p → le32 p o < 2 ^ 32
le32-lt p o bytes = omega (
  arith,
  byte_at-lt p o bytes,
  byte_at-lt p (o + 1) bytes,
  byte_at-lt p (o + 2) bytes,
  byte_at-lt p (o + 3) bytes,
)

-- A word inside `p` is read from `p` alone.
pub le32-append_left : (p q : List ℕ) (o : ℕ) → o + 3 < length p → le32 (p ++ q) o ≡ le32 p o
le32-append_left p q o h = omega (
  arith,
  get_or-append_left p q o 0 (omega arith),
  get_or-append_left p q (o + 1) 0 (omega arith),
  get_or-append_left p q (o + 2) 0 (omega arith),
  get_or-append_left p q (o + 3) 0 (omega arith),
)

-- A write behind a word leaves it.
pub le32-set : (p : List ℕ) (o i v : ℕ) → o + 3 < i → le32 (set p i v) o ≡ le32 p o
le32-set p o i v h = omega (
  arith,
  get_or-set_ne p i o v 0 (omega arith),
  get_or-set_ne p i (o + 1) v 0 (omega arith),
  get_or-set_ne p i (o + 2) v 0 (omega arith),
  get_or-set_ne p i (o + 3) v 0 (omega arith),
)

add_one : (n m : ℕ) → n + m + 1 ≡ n + (m + 1)
add_one n m = omega arith

add_two : (n m : ℕ) → n + m + 2 ≡ n + (m + 2)
add_two n m = omega arith

add_three : (n m : ℕ) → n + m + 3 ≡ n + (m + 3)
add_three n m = omega arith

-- A word behind `p` is a word of the rest.
pub le32-append_right : (p q : List ℕ) (o : ℕ) → le32 (p ++ q) (length p + o) ≡ le32 q o
le32-append_right p q o =
    rw
      (
        add_one (length p) o,
        add_two (length p) o,
        add_three (length p) o,
        get_or-append_right p q o 0,
        get_or-append_right p q (o + 1) 0,
        get_or-append_right p q (o + 2) 0,
        get_or-append_right p q (o + 3) 0,
      )
      refl

-- Writing a word and reading it gives the word.
pub le32-le_bytes : (w : ℕ) (q : List ℕ) → w < 2 ^ 32 → le32 (le_bytes w ++ q) 0 ≡ w
le32-le_bytes w q h = omega arith
