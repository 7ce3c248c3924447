-- ===== src/Ble/Start.antt =====
-- `ble_start` of ble.c.
use n_rf5340_presence_test.Base.{
  ℕ, ◌≡◌, List, [], ◌∷◌, Option, some, if◌then◌else◌, not, ◌>>=◌, arith,
}
use n_rf5340_presence_test.Base.Int.{ℤ, is_zero}
use n_rf5340_presence_test.Base.Driver.{Call, Verdict, Log, must_be_zero, ignored, board, in_order}
use n_rf5340_presence_test.Ble.DeviceId.{device_id_init}

module _ (W : Type 0) (ask : W → Call → ℤ × W) where
  -- The code, the device id and what is left; `n` and `hw` are what the hardware's id is read as.
  -- A name that is refused is only printed.
  unfoldable pub ble_start : ℤ → List ℕ → W → Option (ℤ × (List ℕ × W))
  ble_start n hw w = do
    device_id ← device_id_init n hw
    let (err, w1) = ask w Call.bt_enable
    some (
        if not (is_zero err)
        then (err, (device_id, w1))
        else (ℤ.pos 0, (device_id, (ask w1 (Call.bt_set_name device_id)).1)))

abbrev pub ble_steps : List ℕ → List (Call × Verdict)
ble_steps device_id = (Call.bt_enable, must_be_zero) ∷ (Call.bt_set_name device_id, ignored) ∷ []

pub ble_start_lem :
    (answer : Call → ℤ) (n : ℤ) (hw : List ℕ) (log : Log) {device_id : List ℕ}
    → device_id_init n hw ≡ some device_id
    → let (code, log') = in_order answer (ble_steps device_id) log in
      ble_start Log (board answer) n hw log ≡ some (code, (device_id, log'))
unfolding ble_start
ble_start_lem answer n hw log e = ground (arith, e)
