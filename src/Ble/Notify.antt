-- ===== src/Ble/Notify.antt =====
-- `notify_chunk` of ble.c: one notification, sent again while the controller has no buffer for it.
--
-- The Bluetooth stack is a parameter: the state `W`, `bt_gatt_notify` on it, what two milliseconds
-- change, and whether there is a connection.
pub mod Delivery
use n_rf5340_presence_test.Base.{
  ℕ, zero, suc, Bool, true, false, List, Option, none, some, ◌==◌, if◌then◌else◌,
}
use n_rf5340_presence_test.Base.Int.{ℤ}

-- `err == -ENOMEM`
abbrev pub is_enomem : ℤ → Bool
is_enomem (ℤ.pos n) = false
is_enomem (ℤ.negsuc n) = n == 11

-- The rounds of `while`, on fuel. `enotconn` is -ENOTCONN, whose value depends on the C library.
unfoldable pub notify_chunk :
    (W : Type 0) → (W → List ℕ → ℤ × W) → (W → W) → (W → Bool) → ℤ → ℕ → W → List ℕ → Option (ℤ × W)
notify_chunk W notify sleep connected enotconn zero w bytes = none
notify_chunk W notify sleep connected enotconn (suc fuel) w bytes =
    let (err, w') = notify w bytes in
    let again = notify_chunk W notify sleep connected enotconn fuel (sleep w') bytes in
    if is_enomem err
    then (if connected (sleep w') then again else some (enotconn, sleep w'))
    else some (err, w')
