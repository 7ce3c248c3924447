-- ===== src/Ble/DeviceId/Decode.antt =====
-- The device id names the node: it is as long as its field, and gives the factory number back.
use n_rf5340_presence_test.Base.{
  ℕ, zero, suc, ◌+◌, ◌-◌, ◌*◌, ◌/◌, ◌%◌, ◌^◌, ◌≤◌, ◌<◌, ◌≡◌, refl, ◌∙◌, ap, List, [], ◌∷◌, ◌++◌,
  some, ltb, if◌then◌else◌, arith, length, length-append, byte_at, byte_at-lt, IsBytes,
  get_elem?-eq-get_or, bit_or, drop, take, ap₂,
}
use native.Mathlib.Nat.{pow-suc}
use n_rf5340_presence_test.Base.Int.{ℤ}
use n_rf5340_presence_test.Base.Bits.{bit_or_high, bit_and_mask}
use n_rf5340_presence_test.Base.Word.{◌<<<◌}
use n_rf5340_presence_test.Frame.Record.{device_id_len}
use n_rf5340_presence_test.Ble.DeviceId.{prefix, id_tail, hex_digit, hex_digits, device_id_init}

-- The number that hexadecimal digits stand for, after those that are read already.
abbrev pub hex_value : ℕ → ℕ
hex_value c = if ltb c 65 then c - 48 else c - 55

abbrev pub read_hex : ℕ → List ℕ → ℕ
read_hex v [] = v
read_hex v (c ∷ cs) = read_hex (v * 16 + hex_value c) cs

-- The number that the last three of `n` bytes stand for, if there are so many.
abbrev pub serial : ℤ → List ℕ → ℕ
serial (ℤ.negsuc e) hw = 0
serial (ℤ.pos n) hw =
    if ltb n 3
    then 0
    else (byte_at hw (n - 3) * 256 + byte_at hw (n - 2)) * 256 + byte_at hw (n - 1)

-- `n` is at most the size of `hw`, as documented of `hwinfo_get_device_id`.
abbrev pub IsFilled : ℤ → List ℕ → Type 0
IsFilled (ℤ.negsuc e) hw = IsBytes hw
IsFilled (ℤ.pos n) hw = IsBytes hw × (n ≤ length hw)

or_three :
    (a b c : ℕ)
    → b < 256
    → c < 256
    → bit_or (bit_or (a <<< 16) (b <<< 8)) c ≡ (a * 256 + b) * 256 + c
or_three a b c hb hc =
    ap (λ (t : ℕ). bit_or t c)
      (bit_or_high 16 a (b * 256) (omega arith)
        ∙ ap (λ (t : ℕ). t) {y = (a * 256 + b) * 256} (omega arith))
    ∙ bit_or_high 8 (a * 256 + b) c hc

id_tail_lem : (n : ℤ) (hw : List ℕ) → IsFilled n hw → id_tail n hw ≡ some (serial n hw)
unfolding id_tail
id_tail_lem (ℤ.negsuc e) hw h = refl
id_tail_lem (ℤ.pos n) hw (bytes, fits) = ground (
  arith,
  get_elem?-eq-get_or hw (n - 3) 0,
  get_elem?-eq-get_or hw (n - 2) 0,
  get_elem?-eq-get_or hw (n - 1) 0,
  or_three (byte_at hw (n - 3)) (byte_at hw (n - 2)) (byte_at hw (n - 1))
      (byte_at-lt hw (n - 2) bytes) (byte_at-lt hw (n - 1) bytes),
)

serial-lt : (n : ℤ) (hw : List ℕ) → IsFilled n hw → serial n hw < 2 ^ 24
serial-lt (ℤ.negsuc e) hw h = omega arith
serial-lt (ℤ.pos n) hw (bytes, fits) =
    ground
      (arith, byte_at-lt hw (n - 3) bytes, byte_at-lt hw (n - 2) bytes, byte_at-lt hw (n - 1) bytes)

read_hex-append : (v : ℕ) (cs ds : List ℕ) → read_hex v (cs ++ ds) ≡ read_hex (read_hex v cs) ds
read_hex-append v [] ds = refl
read_hex-append v (c ∷ cs) ds = read_hex-append (v * 16 + hex_value c) cs ds

hex_value-hex_digit : (d : ℕ) → d < 16 → hex_value (hex_digit d) ≡ d
hex_value-hex_digit d h = ground arith

read_hex-hex_digits : (k v : ℕ) → v < 16 ^ k → read_hex 0 (hex_digits k v) ≡ v
read_hex-hex_digits zero v h = omega arith
read_hex-hex_digits (suc k) v h =
    read_hex-append 0 (hex_digits k (v / 16)) (hex_digit (v % 16) ∷ [])
    ∙ ap₂ (λ (a b : ℕ). a * 16 + b) (read_hex-hex_digits k (v / 16) (omega (arith, pow-suc 16 k)))
        (hex_value-hex_digit (v % 16) (omega arith))
    ∙ omega arith

length-hex_digits : (k v : ℕ) → length (hex_digits k v) ≡ k
length-hex_digits zero v = refl
length-hex_digits (suc k) v = omega (
  arith,
  length-append (hex_digits k (v / 16)) (hex_digit (v % 16) ∷ []),
  length-hex_digits k (v / 16),
)

-- No character ends the string, and each is printable ASCII.
abbrev pub IsPrintable : List ℕ → Type 0
IsPrintable [] = Unit {0}
IsPrintable (c ∷ cs) = (32 ≤ c) × (c < 127) × IsPrintable cs

IsPrintable-append : (cs ds : List ℕ) → IsPrintable cs → IsPrintable ds → IsPrintable (cs ++ ds)
IsPrintable-append [] ds h k = k
IsPrintable-append (c ∷ cs) ds h k = (h.0, h.1, IsPrintable-append cs ds h.2 k)

hex_digits-IsPrintable : (k v : ℕ) → IsPrintable (hex_digits k v)
hex_digits-IsPrintable zero v = tt
hex_digits-IsPrintable (suc k) v =
    IsPrintable-append (hex_digits k (v / 16)) (hex_digit (v % 16) ∷ [])
      (hex_digits-IsPrintable k (v / 16)) (ground arith, ground arith, tt)

-- Whatever number of bytes `hwinfo_get_device_id` gives, a code of an error included, the device id
-- is made without a read past the buffer: it has the eight characters of the frame's field, all
-- printable, begins with the prefix, and the rest, read as a hexadecimal number, is the factory
-- number of the last three bytes, or 0 when there are not so many.
pub device_id_init_lem :
    (n : ℤ) (hw : List ℕ)
    → IsFilled n hw
    → (id : List ℕ) × (device_id_init n hw ≡ some id)
      × (length id ≡ device_id_len)
      × IsPrintable id
      × (take 2 id ≡ prefix)
      × (read_hex 0 (drop 2 id) ≡ serial n hw)
unfolding device_id_init
device_id_init_lem n hw h =
    let low =
      bit_and_mask 24 (serial n hw)
      ∙ ap (λ (t : ℕ). t) {y = serial n hw} (omega (arith, serial-lt n hw h)) in
    (
      prefix ++ hex_digits 6 (serial n hw),
      rw (id_tail_lem n hw h, low) refl,
      omega (arith, length-hex_digits 6 (serial n hw)),
      IsPrintable-append prefix (hex_digits 6 (serial n hw))
          (omega arith, omega arith, (omega arith, omega arith, tt))
          (hex_digits-IsPrintable 6 (serial n hw)),
      refl,
      read_hex-hex_digits 6 (serial n hw) (serial-lt n hw h),
    )
