-- ===== src/Frame/Crc.antt =====
-- `sntl_crc16` of frame.c, and what its CRC detects.
use n_rf5340_presence_test.Base.{
  ℕ, zero, suc, ◌+◌, ◌-◌, ◌/◌, ◌%◌, ◌^◌, ◌<◌, ◌≡◌, ◌≢◌, refl, sym, ◌∙◌, ap, List, [], ◌∷◌, ◌++◌,
  ◌==◌, if◌then◌else◌, bit_and, bit_xor, arith, IsBytes,
}
use n_rf5340_presence_test.Base.Word.{u16, ◌<<<◌}
use n_rf5340_presence_test.Base.Bits.{
  bit_and_bit, bit_xor_step, bit_xor-lt, xor_cancel, xor_comm, xor_high,
}
use native.Mathlib.Decide.{dec_lt}

abbrev pub poly : ℕ
poly = 0x1021

-- One round of the inner loop.
unfoldable pub shift_bit : ℕ → ℕ
shift_bit crc = if bit_and crc 0x8000 == 0 then u16 (crc <<< 1) else u16 (bit_xor (crc <<< 1) poly)

-- `for (i = 0; i < 8; i++)`, with the rounds left.
unfoldable pub shift_bits : ℕ → ℕ → ℕ
unfolding shift_bit
shift_bits zero crc = crc
shift_bits (suc left) crc = shift_bits left (shift_bit crc)

-- One round of `while (len--)`; `crc` is a `uint16_t`.
unfoldable pub crc_byte : ℕ → ℕ → ℕ
unfolding shift_bits
crc_byte crc b = shift_bits 8 (u16 (bit_xor crc (b <<< 8)))

-- `sntl_crc16(seed, data, len)` over the `len` bytes of the list.
unfoldable pub crc16 : ℕ → List ℕ → ℕ
unfolding crc_byte
crc16 crc [] = crc
crc16 crc (b ∷ bs) = crc16 (crc_byte crc b) bs

-- The CRC of a frame can be taken over its chunks, each seeded by the one before.
pub crc16-append : (xs ys : List ℕ) (seed : ℕ) → crc16 seed (xs ++ ys) ≡ crc16 (crc16 seed xs) ys
unfolding crc16
crc16-append [] ys seed = refl
crc16-append (x ∷ xs) ys seed = crc16-append xs ys (crc_byte seed x)

shift_bit-lt : (c : ℕ) → shift_bit c < 2 ^ 16
unfolding shift_bit
shift_bit-lt c = ground arith

-- The step can be undone: the lowest bit tells whether the polynomial went in.
unshift : ℕ → ℕ
unshift d = if d % 2 == 0 then d / 2 else bit_xor d poly / 2 + 2 ^ 15

unshift-even : (c : ℕ) → c < 2 ^ 15 → unshift (u16 (c <<< 1)) ≡ c
unfolding unshift
unshift-even c h = ground arith

unshift-odd : (c : ℕ) → c < 2 ^ 15 → unshift (u16 (bit_xor ((2 ^ 15 + c) <<< 1) poly)) ≡ 2 ^ 15 + c
unfolding unshift
unshift-odd c h = ground (
  arith,
  xor_high 16 1 (c <<< 1) poly (omega arith) (omega arith),
  bit_xor-lt 16 (c <<< 1) poly (omega arith) (omega arith),
  bit_xor_step (c <<< 1) poly,
  xor_cancel (c <<< 1) poly,
)

unshift-shift_bit : (c : ℕ) → c < 2 ^ 16 → unshift (shift_bit c) ≡ c
unfolding shift_bit
unshift-shift_bit c h = elim (dec_lt c (2 ^ 15)) [
  | yes low ↦ ground (arith, bit_and_bit 15 c, unshift-even c low)
  | no high ↦ ground (arith, bit_and_bit 15 c, unshift-odd (c - 2 ^ 15) (omega arith))
]

shift_bit-injective : (a b : ℕ) → a < 2 ^ 16 → b < 2 ^ 16 → shift_bit a ≡ shift_bit b → a ≡ b
shift_bit-injective a b ha hb e =
    sym (unshift-shift_bit a ha) ∙ ap unshift e ∙ unshift-shift_bit b hb

shift_bits-injective :
    (n a b : ℕ) → a < 2 ^ 16 → b < 2 ^ 16 → shift_bits n a ≡ shift_bits n b → a ≡ b
unfolding shift_bits
shift_bits-injective zero a b ha hb e = e
shift_bits-injective (suc n) a b ha hb e =
    shift_bit-injective a b ha hb
      (shift_bits-injective n (shift_bit a) (shift_bit b) (shift_bit-lt a) (shift_bit-lt b) e)

shift_bits-lt : (n c : ℕ) → c < 2 ^ 16 → shift_bits n c < 2 ^ 16
unfolding shift_bits
shift_bits-lt zero c h = h
shift_bits-lt (suc n) c h = shift_bits-lt n (shift_bit c) (shift_bit-lt c)

crc_byte-lt : (c b : ℕ) → crc_byte c b < 2 ^ 16
unfolding crc_byte
crc_byte-lt c b = shift_bits-lt 8 (u16 (bit_xor c (b <<< 8))) (omega arith)

-- The running value stays a `uint16_t`.
pub crc16-lt : (xs : List ℕ) (seed : ℕ) → seed < 2 ^ 16 → crc16 seed xs < 2 ^ 16
unfolding crc16
crc16-lt [] seed h = h
crc16-lt (x ∷ xs) seed h = crc16-lt xs (crc_byte seed x) (crc_byte-lt seed x)

-- What the byte is mixed into: nothing is cut off, and either side can be had back.
mixed-lt : (c b : ℕ) → c < 2 ^ 16 → b < 256 → bit_xor c (b <<< 8) < 2 ^ 16
mixed-lt c b hc hb = bit_xor-lt 16 c (b <<< 8) hc (omega arith)

mix-injective :
    (a b x y : ℕ)
    → a < 2 ^ 16
    → b < 2 ^ 16
    → x < 256
    → y < 256
    → crc_byte a x ≡ crc_byte b y
    → bit_xor a (x <<< 8) ≡ bit_xor b (y <<< 8)
unfolding crc_byte
mix-injective a b x y ha hb hx hy e = omega (
  arith,
  mixed-lt a x ha hx,
  mixed-lt b y hb hy,
  shift_bits-injective 8 (u16 (bit_xor a (x <<< 8))) (u16 (bit_xor b (y <<< 8))) (omega arith)
      (omega arith) e,
)

seed-injective :
    (xs : List ℕ) (a b : ℕ) → IsBytes xs → a < 2 ^ 16 → b < 2 ^ 16 → crc16 a xs ≡ crc16 b xs → a ≡ b
unfolding crc16
seed-injective [] a b bytes ha hb e = e
seed-injective (x ∷ xs) a b bytes ha hb e =
    let same = mix-injective a b x x ha hb bytes.0 bytes.0 (
      seed-injective xs (crc_byte a x) (crc_byte b x) bytes.1 (crc_byte-lt a x) (crc_byte-lt b x)
        e) in
    sym (xor_cancel a (x <<< 8)) ∙ ap (λ (t : ℕ). bit_xor t (x <<< 8)) same ∙ xor_cancel b (x <<< 8)

byte-injective : (c x y : ℕ) → c < 2 ^ 16 → x < 256 → y < 256 → crc_byte c x ≡ crc_byte c y → x ≡ y
byte-injective c x y hc hx hy e = omega (
  arith,
  xor_comm c (x <<< 8),
  xor_comm c (y <<< 8),
  xor_cancel (x <<< 8) c,
  xor_cancel (y <<< 8) c,
  ap (λ (t : ℕ). bit_xor t c)
      (sym (xor_comm c (x <<< 8)) ∙ mix-injective c c x y hc hc hx hy e ∙ xor_comm c (y <<< 8)),
)

-- From any 16-bit seed the CRC detects every corruption that is confined to one byte, wherever it
-- lies and whatever follows: two messages that differ in just one byte have different CRCs.
pub crc16_detects :
    (xs ys : List ℕ) (x y seed : ℕ)
    → seed < 2 ^ 16
    → IsBytes (x ∷ ys)
    → y < 256
    → x ≢ y
    → crc16 seed (xs ++ x ∷ ys) ≢ crc16 seed (xs ++ y ∷ ys)
crc16_detects xs ys x y seed hs bytes hy differs e =
    let c : ℕ = crc16 seed xs in
    differs (
      byte-injective c x y (crc16-lt xs seed hs) bytes.0 hy (
        seed-injective ys (crc_byte c x) (crc_byte c y) bytes.1 (crc_byte-lt c x) (crc_byte-lt c y)
          (unfold crc16 in
            sym (crc16-append xs (x ∷ ys) seed) ∙ e ∙ crc16-append xs (y ∷ ys) seed)))
