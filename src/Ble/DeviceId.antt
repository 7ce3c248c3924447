-- ===== src/Ble/DeviceId.antt =====
-- `device_id_init` of ble.c, and `BLE_ID_PREFIX` of ble.h.
--
-- `hwinfo_get_device_id` is a parameter: what it returns, and what it leaves in `hw`, which was
-- zeroed.
pub mod Decode
use n_rf5340_presence_test.Base.{
  ℕ, zero, suc, ◌+◌, ◌-◌, ◌/◌, ◌%◌, List, [], ◌∷◌, ◌++◌, Option, some, ltb, if◌then◌else◌, ◌>>=◌,
  get_elem?, bit_and, bit_or,
}
use n_rf5340_presence_test.Base.Int.{ℤ}
use n_rf5340_presence_test.Base.Word.{◌<<<◌}

-- `BLE_ID_PREFIX`: "PR"
abbrev pub prefix : List ℕ
prefix = 80 ∷ 82 ∷ []

-- The three last bytes as one number; `none` is a read past `hw`.
unfoldable pub id_tail : ℤ → List ℕ → Option ℕ
id_tail (ℤ.negsuc e) hw = some 0
id_tail (ℤ.pos n) hw = if ltb n 3 then some 0 else (do
  high ← get_elem? hw (n - 3)
  mid ← get_elem? hw (n - 2)
  low ← get_elem? hw (n - 1)
  some (bit_or (bit_or (high <<< 16) (mid <<< 8)) low))

-- A digit of `%X`.
abbrev pub hex_digit : ℕ → ℕ
hex_digit d = if ltb d 10 then 48 + d else 55 + d

-- `%0*X` of a number with so many digits at most.
abbrev pub hex_digits : ℕ → ℕ → List ℕ
hex_digits zero v = []
hex_digits (suc k) v = hex_digits k (v / 16) ++ hex_digit (v % 16) ∷ []

-- The characters of `device_id` before its NUL.
unfoldable pub device_id_init : ℤ → List ℕ → Option (List ℕ)
device_id_init n hw = do id ← id_tail n hw; some (prefix ++ hex_digits 6 (bit_and id 0xFFFFFF))
