-- ===== src/Sen5x/Crc.antt =====
-- `crc8` of sen5x.c, and what it detects in a word of two bytes.
use n_rf5340_presence_test.Base.{
  ℕ, zero, suc, ◌+◌, ◌-◌, ◌/◌, ◌%◌, ◌^◌, ◌<◌, ◌≡◌, ◌≢◌, sym, ◌∙◌, ap, ◌==◌, if◌then◌else◌, bit_and,
  bit_xor, arith,
}
use n_rf5340_presence_test.Base.Word.{u8, ◌<<<◌}
use n_rf5340_presence_test.Base.Bits.{
  bit_and_bit, bit_xor_step, bit_xor-lt, xor_cancel, xor_comm, xor_high,
}
use native.Mathlib.Decide.{dec_lt}

abbrev pub poly : ℕ
poly = 0x31

-- One round of the inner loop.
unfoldable pub shift_bit : ℕ → ℕ
shift_bit crc = if bit_and crc 0x80 == 0 then u8 (crc <<< 1) else u8 (bit_xor (crc <<< 1) poly)

-- `for (b = 0; b < 8; b++)`, with the rounds left.
unfoldable pub shift_bits : ℕ → ℕ → ℕ
unfolding shift_bit
shift_bits zero crc = crc
shift_bits (suc left) crc = shift_bits left (shift_bit crc)

-- `crc8` of the bytes `d[0]` and `d[1]`
unfoldable pub crc8 : ℕ → ℕ → ℕ
unfolding shift_bits
crc8 d0 d1 = shift_bits 8 (bit_xor (shift_bits 8 (bit_xor 0xFF d0)) d1)

shift_bit-lt : (c : ℕ) → shift_bit c < 2 ^ 8
unfolding shift_bit
shift_bit-lt c = ground arith

unshift : ℕ → ℕ
unshift d = if d % 2 == 0 then d / 2 else bit_xor d poly / 2 + 2 ^ 7

unshift-even : (c : ℕ) → c < 2 ^ 7 → unshift (u8 (c <<< 1)) ≡ c
unfolding unshift
unshift-even c h = ground arith

unshift-odd : (c : ℕ) → c < 2 ^ 7 → unshift (u8 (bit_xor ((2 ^ 7 + c) <<< 1) poly)) ≡ 2 ^ 7 + c
unfolding unshift
unshift-odd c h = ground (
  arith,
  xor_high 8 1 (c <<< 1) poly (omega arith) (omega arith),
  bit_xor-lt 8 (c <<< 1) poly (omega arith) (omega arith),
  bit_xor_step (c <<< 1) poly,
  xor_cancel (c <<< 1) poly,
)

unshift-shift_bit : (c : ℕ) → c < 2 ^ 8 → unshift (shift_bit c) ≡ c
unfolding shift_bit
unshift-shift_bit c h = elim (dec_lt c (2 ^ 7)) [
  | yes low ↦ ground (arith, bit_and_bit 7 c, unshift-even c low)
  | no high ↦ ground (arith, bit_and_bit 7 c, unshift-odd (c - 2 ^ 7) (omega arith))
]

shift_bit-injective : (a b : ℕ) → a < 2 ^ 8 → b < 2 ^ 8 → shift_bit a ≡ shift_bit b → a ≡ b
shift_bit-injective a b ha hb e =
    sym (unshift-shift_bit a ha) ∙ ap unshift e ∙ unshift-shift_bit b hb

shift_bits-injective : (n a b : ℕ) → a < 2 ^ 8 → b < 2 ^ 8 → shift_bits n a ≡ shift_bits n b → a ≡ b
unfolding shift_bits
shift_bits-injective zero a b ha hb e = e
shift_bits-injective (suc n) a b ha hb e =
    shift_bit-injective a b ha hb
      (shift_bits-injective n (shift_bit a) (shift_bit b) (shift_bit-lt a) (shift_bit-lt b) e)

shift_bits-lt : (n c : ℕ) → c < 2 ^ 8 → shift_bits n c < 2 ^ 8
unfolding shift_bits
shift_bits-lt zero c h = h
shift_bits-lt (suc n) c h = shift_bits-lt n (shift_bit c) (shift_bit-lt c)

xor_injective : (k a b : ℕ) → bit_xor a k ≡ bit_xor b k → a ≡ b
xor_injective k a b e = sym (xor_cancel a k) ∙ ap (λ (t : ℕ). bit_xor t k) e ∙ xor_cancel b k

round-injective :
    (k a b : ℕ)
    → k < 2 ^ 8
    → a < 2 ^ 8
    → b < 2 ^ 8
    → shift_bits 8 (bit_xor a k) ≡ shift_bits 8 (bit_xor b k)
    → a ≡ b
round-injective k a b hk ha hb e = xor_injective k a b (
    shift_bits-injective 8 (bit_xor a k) (bit_xor b k) (bit_xor-lt 8 a k ha hk)
      (bit_xor-lt 8 b k hb hk) e)

round-lt : (k a : ℕ) → k < 2 ^ 8 → a < 2 ^ 8 → shift_bits 8 (bit_xor a k) < 2 ^ 8
round-lt k a hk ha = shift_bits-lt 8 (bit_xor a k) (bit_xor-lt 8 a k ha hk)

pub crc8-lt : (d0 d1 : ℕ) → d0 < 256 → d1 < 256 → crc8 d0 d1 < 256
unfolding crc8
crc8-lt d0 d1 h0 h1 =
    round-lt d1 (shift_bits 8 (bit_xor 0xFF d0)) h1 (round-lt d0 0xFF h0 (omega arith))

-- The CRC of a word detects a corruption of either of its bytes: with the other byte the same, only
-- the same byte has the same CRC.
pub crc8_detects :
    (a b d : ℕ)
    → a < 256
    → b < 256
    → d < 256
    → a ≢ b
    → (crc8 a d ≢ crc8 b d) × (crc8 d a ≢ crc8 d b)
unfolding crc8
crc8_detects a b d ha hb hd differs = (
  λ e. differs (
      xor_injective 0xFF a b (
        xor_comm a 0xFF
        ∙ shift_bits-injective 8 (bit_xor 0xFF a) (bit_xor 0xFF b)
            (bit_xor-lt 8 0xFF a (omega arith) ha) (bit_xor-lt 8 0xFF b (omega arith) hb)
            (round-injective d (shift_bits 8 (bit_xor 0xFF a)) (shift_bits 8 (bit_xor 0xFF b)) hd
              (round-lt a 0xFF ha (omega arith)) (round-lt b 0xFF hb (omega arith)) e)
        ∙ xor_comm 0xFF b)),
  λ e. differs (
      let c : ℕ = shift_bits 8 (bit_xor 0xFF d) in
      let hc : c < 2 ^ 8 = round-lt d 0xFF hd (omega arith) in
      xor_injective c a b (
        xor_comm a c
        ∙ shift_bits-injective 8 (bit_xor c a) (bit_xor c b) (bit_xor-lt 8 c a hc ha)
            (bit_xor-lt 8 c b hc hb) e
        ∙ xor_comm c b)),
)
