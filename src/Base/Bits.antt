-- ===== src/Base/Bits.antt =====
-- Laws of the bit operations at every width, from one equation for the lowest digit.
use Prim.Native.Nat.{ℕ, zero, suc, ◌+◌, ◌-◌, ◌*◌, ◌/◌, ◌%◌, ◌^◌, ◌≤◌, ◌<◌, min, max}
use Prim.Native.Nat.{bit_and, bit_or, bit_xor, digits, bitwise, differ}
use Prim.Native.Nat.{bit_and-bitwise, bit_or-bitwise, bit_xor-bitwise}
use mathlib.Core.Path.{◌≡◌, refl, ap, ◌∙◌}
use native.Mathlib.Decide.{dec_le}
use native.Mathlib.Nat.{le_refl, pow-suc, one-le-pow, div-div-eq-div-mul}
use native.Mathlib.Omega.{arith}
use n_rf5340_presence_test.Base.Word.{◌<<<◌}

module _ (rest : ℕ → ℕ) (op : ℕ → ℕ → ℕ) where
  -- One more round changes nothing once there are as many rounds as the number says.
  one_more : (k x y : ℕ) → x ≤ k → digits rest op (suc k) x y ≡ digits rest op k x y
  one_more zero zero y h = refl
  one_more (suc k) zero y h = refl
  one_more zero (suc x) y h = absurd (omega arith)
  one_more (suc k) (suc x) y h = rw (one_more k (suc x / 2) (y / 2) (omega arith)) refl

  enough : (k x y : ℕ) → x ≤ k → digits rest op k x y ≡ digits rest op x x y
  enough zero x y h = ap (λ (t : ℕ). digits rest op t x y) {x = 0} (omega arith)
  enough (suc k) x y h = elim (dec_le x k) [
    | yes le ↦ one_more k x y le ∙ enough k x y le
    | no gt ↦ ap (λ (t : ℕ). digits rest op t x y) {x = suc k} (omega arith)
  ]

  low_digit :
      (x y : ℕ)
      → bitwise rest op (suc x) y ≡ bitwise rest op (suc x / 2) (y / 2) * 2 + op (suc x % 2) (y % 2)
  low_digit x y = omega (arith, enough x (suc x / 2) (y / 2) (omega arith))

differ-mod : (x y : ℕ) → x < 2 → y < 2 → differ x y ≡ (x + y) % 2
differ-mod zero y p q = omega arith
differ-mod (suc zero) zero p q = refl
differ-mod (suc zero) (suc zero) p q = refl
differ-mod (suc zero) (suc (suc y)) p q = absurd (omega arith)
differ-mod (suc (suc x)) y p q = absurd (omega arith)

xor_digits : (x y : ℕ) → bit_xor x y ≡ bit_xor (x / 2) (y / 2) * 2 + differ (x % 2) (y % 2)
xor_digits zero y = simp bit_xor-bitwise (omega arith)
xor_digits (suc x) y = simp bit_xor-bitwise (low_digit (λ t. t) differ x y)

pub bit_and_step : (x y : ℕ) → bit_and x y ≡ bit_and (x / 2) (y / 2) * 2 + min (x % 2) (y % 2)
bit_and_step zero y = simp bit_and-bitwise (omega arith)
bit_and_step (suc x) y = simp bit_and-bitwise (low_digit (λ t. 0) min x y)

bit_or_step : (x y : ℕ) → bit_or x y ≡ bit_or (x / 2) (y / 2) * 2 + max (x % 2) (y % 2)
bit_or_step zero y = simp bit_or-bitwise (omega arith)
bit_or_step (suc x) y = simp bit_or-bitwise (low_digit (λ t. t) max x y)

pub bit_xor_step : (a b : ℕ) → bit_xor a b ≡ bit_xor (a / 2) (b / 2) * 2 + (a + b) % 2
bit_xor_step a b =
    omega (arith, xor_digits a b, differ-mod (a % 2) (b % 2) (omega arith) (omega arith))

pub zero-bit_or : (b : ℕ) → bit_or 0 b ≡ b
zero-bit_or b = bit_or-bitwise 0 b

pub zero-bit_xor : (b : ℕ) → bit_xor 0 b ≡ b
zero-bit_xor b = bit_xor-bitwise 0 b

bit_or-zero_fuel : (fuel x : ℕ) → x ≤ fuel → bit_or x 0 ≡ x
bit_or-zero_fuel fuel zero covered = refl
bit_or-zero_fuel zero (suc x) covered = absurd (omega arith)
bit_or-zero_fuel (suc fuel) (suc x) covered =
    let half = bit_or-zero_fuel fuel (suc x / 2) (omega arith) in
    omega (arith, half, bit_or_step (suc x) 0)

bit_and-zero_fuel : (fuel x : ℕ) → x ≤ fuel → bit_and x 0 ≡ 0
bit_and-zero_fuel fuel zero covered = refl
bit_and-zero_fuel zero (suc x) covered = absurd (omega arith)
bit_and-zero_fuel (suc fuel) (suc x) covered =
    let half = bit_and-zero_fuel fuel (suc x / 2) (omega arith) in
    omega (arith, half, bit_and_step (suc x) 0)

mul-two-pow-suc : (m e : ℕ) → m * 2 ^ suc e ≡ 2 * (m * 2 ^ e)
mul-two-pow-suc m e = let doubled = ap (λ (p : ℕ). m * p) (pow-suc 2 e) in omega (doubled, arith)

-- `r | (q << k)` is a sum when `r` fits `k` bits.
pub bit_or_low : (k r q : ℕ) → r < 2 ^ k → bit_or r (q <<< k) ≡ r + q * 2 ^ k
bit_or_low zero r q fits = ground (arith, zero-bit_or q)
bit_or_low (suc k) r q fits = ground (
  arith,
  bit_or_step r (q * 2 ^ suc k),
  mul-two-pow-suc q k,
  pow-suc 2 k,
  bit_or_low k (r / 2) q (omega (arith, pow-suc 2 k)),
)

-- `(q << k) | r` is the same sum.
pub bit_or_high : (k q r : ℕ) → r < 2 ^ k → bit_or (q <<< k) r ≡ q * 2 ^ k + r
bit_or_high zero q r fits = ground (arith, bit_or-zero_fuel q q (le_refl q))
bit_or_high (suc k) q r fits = ground (
  arith,
  bit_or_step (q * 2 ^ suc k) r,
  mul-two-pow-suc q k,
  pow-suc 2 k,
  bit_or_high k q (r / 2) (omega (arith, pow-suc 2 k)),
)

bit_and_fields : (k q r : ℕ) → r < 2 ^ k → bit_and (q * 2 ^ k + r) (2 ^ k - 1) ≡ r
bit_and_fields zero q r fits =
    ground (arith, bit_and-zero_fuel (q * 2 ^ 0 + r) (q * 2 ^ 0 + r) (le_refl _))
bit_and_fields (suc k) q r fits = ground (
  arith,
  bit_and_step (q * 2 ^ suc k + r) (2 ^ suc k - 1),
  mul-two-pow-suc q k,
  pow-suc 2 k,
  one-le-pow k 2,
  bit_and_fields k q (r / 2) (omega (arith, pow-suc 2 k)),
)

-- A mask of the `k` low bits is the remainder by `2 ^ k`.
pub bit_and_mask : (k a : ℕ) → bit_and a (2 ^ k - 1) ≡ a % 2 ^ k
bit_and_mask k a = ground (arith, one-le-pow k 2, bit_and_fields k (a / 2 ^ k) (a % 2 ^ k))

pow-suc-left : (k : ℕ) → 2 ^ suc k ≡ 2 * 2 ^ k
pow-suc-left k = omega (arith, pow-suc 2 k)

-- A mask of one bit keeps that bit.
pub bit_and_bit : (k a : ℕ) → bit_and a (2 ^ k) ≡ a / 2 ^ k % 2 * 2 ^ k
bit_and_bit zero a = omega (arith, bit_and_step a 1, bit_and-zero_fuel (a / 2) (a / 2) (le_refl _))
bit_and_bit (suc k) a =
    rw (pow-suc-left k, ← div-div-eq-div-mul a 2 (2 ^ k))
      (omega (
        arith,
        bit_and_step a (2 * 2 ^ k),
        ap (λ (t : ℕ). bit_and (a / 2) t) (half (2 ^ k)),
        bit_and_bit k (a / 2),
      ))
  where
    half : (q : ℕ) → 2 * q / 2 ≡ q
    half q = omega arith

xor_cancel_fuel : (n a k : ℕ) → a ≤ n → k ≤ n → bit_xor (bit_xor a k) k ≡ a
xor_cancel_fuel zero a k p q = ground (arith, zero-bit_xor 0)
xor_cancel_fuel (suc n) a k p q = omega (
  arith,
  bit_xor_step a k,
  bit_xor_step (bit_xor a k) k,
  ap (λ (t : ℕ). bit_xor t (k / 2)) (half a k),
  xor_cancel_fuel n (a / 2) (k / 2) (omega arith) (omega arith),
)
  where
    half : (a k : ℕ) → bit_xor a k / 2 ≡ bit_xor (a / 2) (k / 2)
    half a k = omega (arith, bit_xor_step a k)

-- `^` with the same word twice gives the first word back.
pub xor_cancel : (a k : ℕ) → bit_xor (bit_xor a k) k ≡ a
xor_cancel a k = xor_cancel_fuel (max a k) a k (omega arith) (omega arith)

xor_comm_fuel : (n a k : ℕ) → a ≤ n → k ≤ n → bit_xor a k ≡ bit_xor k a
xor_comm_fuel zero a k p q = ground arith
xor_comm_fuel (suc n) a k p q = omega (
  arith,
  bit_xor_step a k,
  bit_xor_step k a,
  xor_comm_fuel n (a / 2) (k / 2) (omega arith) (omega arith),
)

pub xor_comm : (a k : ℕ) → bit_xor a k ≡ bit_xor k a
xor_comm a k = xor_comm_fuel (max a k) a k (omega arith) (omega arith)

pub bit_xor-lt : (k a b : ℕ) → a < 2 ^ k → b < 2 ^ k → bit_xor a b < 2 ^ k
bit_xor-lt zero a b p q = ground arith
bit_xor-lt (suc k) a b p q = omega (
  arith,
  pow-suc 2 k,
  bit_xor_step a b,
  bit_xor-lt k (a / 2) (b / 2) (omega (arith, pow-suc 2 k)) (omega (arith, pow-suc 2 k)),
)

pub bit_xor-zero : (a : ℕ) → bit_xor a 0 ≡ a
bit_xor-zero a = omega (arith, xor_comm a 0, zero-bit_xor a)

-- `^` with a word of `k` bits leaves the digits above.
pub xor_high :
    (k q a b : ℕ) → a < 2 ^ k → b < 2 ^ k → bit_xor (q * 2 ^ k + a) b ≡ q * 2 ^ k + bit_xor a b
xor_high zero q a b ha hb = ground (arith, bit_xor-zero (q * 2 ^ 0 + a), bit_xor-zero a)
xor_high (suc k) q a b ha hb = ground (
  arith,
  bit_xor_step (q * 2 ^ suc k + a) b,
  bit_xor_step a b,
  mul-two-pow-suc q k,
  pow-suc 2 k,
  xor_high k q (a / 2) (b / 2) (omega (arith, pow-suc 2 k)) (omega (arith, pow-suc 2 k)),
)
