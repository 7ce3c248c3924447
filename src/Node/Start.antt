-- ===== src/Node/Start.antt =====
-- The start of `main`: the probe mode, `adv_btn_init`, and the parts in their order.
pub mod Order
use n_rf5340_presence_test.Base.{
  ℕ, Bool, true, false, not, List, [], ◌∷◌, Option, none, some, if◌then◌else◌, ◌>>=◌, ◌==◌,
}
use n_rf5340_presence_test.Base.Int.{ℤ, is_zero}
use n_rf5340_presence_test.Base.Driver.{Call, Device, Pin, Mode, enodev}
use n_rf5340_presence_test.Ble.Start.{ble_start}
use n_rf5340_presence_test.Radar.Start.{radar_start}
use n_rf5340_presence_test.Sen5x
use n_rf5340_presence_test.Sen5x.{Sensor}
use n_rf5340_presence_test.Store
use n_rf5340_presence_test.Store.{Store, Flash}
use n_rf5340_presence_test.Store.Nvs.{Nvs}

abbrev is_one : ℤ → Bool
is_one (ℤ.pos n) = n == 1
is_one (ℤ.negsuc n) = false

abbrev same_level : ℤ → ℤ → Bool
same_level (ℤ.pos a) (ℤ.pos b) = a == b
same_level (ℤ.negsuc a) (ℤ.negsuc b) = a == b
same_level a b = false

-- The loop of `probe_mode`, over the levels that its rounds read: those that are printed. `last` is
-- -1 at first.
unfoldable pub probe_loop : ℤ → List ℤ → List ℤ
probe_loop last [] = []
probe_loop last (v ∷ vs) =
    let more = probe_loop v vs in if same_level v last then probe_loop last vs else v ∷ more

module _ (W : Type 0) (ask : W → Call → ℤ × W) where
  -- The last call's callback is `adv_btn_pressed`, which is `ble_advertise_window`.
  unfoldable pub adv_btn_init : W → ℤ × W
  adv_btn_init w =
      let (ready, w1) = ask w (Call.gpio_is_ready Pin.adv_btn) in
      if is_zero ready
      then (enodev, w1)
      else (let (err, w2) = ask w1 (Call.gpio_pin_configure Pin.adv_btn Mode.input) in
          if not (is_zero err)
          then (err, w2)
          else (let (err', w3) = ask w2 (Call.gpio_interrupt_edge Pin.adv_btn) in
              if not (is_zero err')
              then (err', w3)
              else ask (ask w3 (Call.gpio_init_callback Pin.adv_btn)).1
                  (Call.gpio_add_callback Pin.adv_btn)))

  -- The test for the probe mode.
  unfoldable pub probe_held : W → Bool × W
  probe_held w =
      let (ready, w1) = ask w (Call.gpio_is_ready Pin.probe_btn) in
      if is_zero ready
      then (false, w1)
      else (let (err, w2) = ask w1 (Call.gpio_pin_configure Pin.probe_btn Mode.input) in
          if not (is_zero err)
          then (false, w2)
          else (let (held, w3) = ask w2 (Call.gpio_pin_get Pin.probe_btn) in (is_one held, w3)))

  -- `probe_mode` up to its loop: true is that the loop is entered, which does not end. It returns
  -- where it cannot claim the pin.
  unfoldable pub probe_mode : W → Bool × W
  probe_mode w =
      let (ready, w1) = ask w (Call.device_is_ready Device.gpio1) in
      if is_zero ready
      then (false, w1)
      else (let (err, w2) = ask w1 (Call.gpio_pin_configure Pin.probe_pin Mode.input_pull_down) in
          (is_zero err, w2))

  -- The start of `main` up to the probe mode: true is that the node stays in it.
  unfoldable pub probe : W → Bool × W
  unfolding probe_held probe_mode
  probe w = let (held, w') = probe_held w in if held then probe_mode w' else (false, w')

-- What the start of `main` leaves: the codes that it prints, and the parts.
pub record Running (F B W : Type 0) : Type 0 where
  pub store_code : ℤ
  pub ble_code : ℤ
  pub button_code : ℤ
  pub radar_code : ℤ
  pub air_code : ℤ
  pub store : Store F
  pub device_id : List ℕ
  pub air : Sensor
  pub bus : B
  pub world : W

module _ (nvs : Nvs) (B : Type 0) (i2c_write : B → List ℕ → ℤ × B)
    (i2c_read : B → ℕ → ℤ × (List ℕ × B)) (W : Type 0) (ask : W → Call → ℤ × W) where
  -- `main` from the probe mode to its loop: no failure keeps the other parts from their start. The
  -- arguments are what the flash driver, the I2C driver and the hardware's id answer.
  unfoldable pub start_parts :
      Flash → Bool → ℤ → List ℕ → Store nvs.Fs → Sensor → B → W → Option (Running nvs.Fs B W)
  start_parts flash i2c_ready n hw store air bus w = do
    let (store_code, store') = Store.init nvs flash store
    (ble_code, (device_id, w1)) ← ble_start W ask n hw w
    let (button_code, w2) = adv_btn_init W ask w1
    let (radar_code, w3) = radar_start W ask w2
    (air_code, (air', bus')) ← Sen5x.start B i2c_write i2c_read i2c_ready bus air
    some (record {
      store_code = store_code;
      ble_code = ble_code;
      button_code = button_code;
      radar_code = radar_code;
      air_code = air_code;
      store = store';
      device_id = device_id;
      air = air';
      bus = bus';
      world = w3;
    })

  -- `main` before its loop: none inside is a node that stays in the probe mode.
  unfoldable pub main_start :
      Flash
      → Bool
      → ℤ
      → List ℕ
      → Store nvs.Fs
      → Sensor
      → B
      → W
      → Option (Option (Running nvs.Fs B W))
  main_start flash i2c_ready n hw store air bus w =
      let (probing, w') = probe W ask w in
      if probing
      then some none
      else (do r ← start_parts flash i2c_ready n hw store air bus w'; some (some r))
