-- ===== src/Node/Start/Order.antt =====
-- Which driver calls the start of `main` makes, and that every part is started.
use n_rf5340_presence_test.Base.{
  ℕ, ◌≡◌, refl, Bool, true, false, List, [], ◌∷◌, Option, none, some, if◌then◌else◌, arith, inl,
  inr, Bool-cases,
}
use n_rf5340_presence_test.Base.Int.{ℤ, is_zero}
use n_rf5340_presence_test.Base.Driver.{
  Call, Device, Pin, Mode, Verdict, Log, must_be_ready, must_be_zero, ignored, board, in_order,
}
use n_rf5340_presence_test.Ble.DeviceId.{device_id_init}
use n_rf5340_presence_test.Ble.DeviceId.Decode.{IsFilled, device_id_init_lem}
use n_rf5340_presence_test.Ble.Start.{ble_steps, ble_start_lem}
use n_rf5340_presence_test.Radar.Start.{radar_steps, radar_start_lem}
use n_rf5340_presence_test.Sen5x.{Sensor}
use n_rf5340_presence_test.Sen5x.Transfer.{IsFilling}
use n_rf5340_presence_test.Sen5x.Start.{IsStarted, start_lem}
use n_rf5340_presence_test.Store
use n_rf5340_presence_test.Store.{Store, Flash}
use n_rf5340_presence_test.Store.Nvs.{Nvs}
use n_rf5340_presence_test.Node.Start.{
  Running, adv_btn_init, probe, is_one, same_level, probe_loop, start_parts, main_start,
}

-- Each level differs from the one before.
abbrev pub AreChanges : ℤ → List ℤ → Type 0
AreChanges last [] = Unit {0}
AreChanges last (v ∷ vs) = (same_level v last ≡ false) × AreChanges v vs

-- The probe mode prints a level when it changes, and only then.
pub probe_loop-AreChanges : (last : ℤ) (vs : List ℤ) → AreChanges last (probe_loop last vs)
unfolding probe_loop
probe_loop-AreChanges last [] = tt
probe_loop-AreChanges last (v ∷ vs) = elim (Bool-cases (same_level v last)) [
  | inl same ↦ rw same (probe_loop-AreChanges last vs)
  | inr other ↦ rw other (other, probe_loop-AreChanges v vs)
]

-- The steps of `adv_btn_init`.
abbrev pub button_steps : List (Call × Verdict)
button_steps =
    (Call.gpio_is_ready Pin.adv_btn, must_be_ready)
    ∷ (Call.gpio_pin_configure Pin.adv_btn Mode.input, must_be_zero)
    ∷ (Call.gpio_interrupt_edge Pin.adv_btn, must_be_zero)
    ∷ (Call.gpio_init_callback Pin.adv_btn, ignored)
    ∷ (Call.gpio_add_callback Pin.adv_btn, must_be_zero)
    ∷ []

adv_btn_init_lem :
    (answer : Call → ℤ) (log : Log)
    → adv_btn_init Log (board answer) log ≡ in_order answer button_steps log
unfolding adv_btn_init
adv_btn_init_lem answer log = ground arith

-- The steps of the start up to the loop of the probe mode; where one is not as that mode wants it,
-- the node starts as usual.
abbrev pub probe_steps : List (Call × Verdict)
probe_steps =
    (Call.gpio_is_ready Pin.probe_btn, must_be_ready)
    ∷ (Call.gpio_pin_configure Pin.probe_btn Mode.input, must_be_zero)
    ∷ (Call.gpio_pin_get Pin.probe_btn, λ held. if is_one held then none else some (ℤ.pos 1))
    ∷ (Call.device_is_ready Device.gpio1, must_be_ready)
    ∷ (Call.gpio_pin_configure Pin.probe_pin Mode.input_pull_down, must_be_zero)
    ∷ []

probe_lem :
    (answer : Call → ℤ) (log : Log)
    → probe Log (board answer) log
      ≡ (is_zero (in_order answer probe_steps log).0, (in_order answer probe_steps log).1)
unfolding probe
probe_lem answer log = ground arith

module _ (nvs : Nvs) (B : Type 0) (i2c_write : B → List ℕ → ℤ × B)
    (i2c_read : B → ℕ → ℤ × (List ℕ × B)) (fills : IsFilling B i2c_write i2c_read)
    (answer : Call → ℤ) (flash : Flash) (i2c_ready : Bool) (n : ℤ) (hw : List ℕ)
    (store : Store nvs.Fs) (air : Sensor) where
  -- The parts after a start: each is as its own start leaves it, and the board has their calls in
  -- order.
  pub record AreStarted (log : Log) (r : Running nvs.Fs B Log) : Type 0 where
    pub named : device_id_init n hw ≡ some r.device_id
    pub stored : Store.init nvs flash store ≡ (r.store_code, r.store)
    pub measuring : IsStarted B i2c_write i2c_read fills air r.air_code r.air
    pub called :
        let (ble, log1) = in_order answer (ble_steps r.device_id) log in
        let (button, log2) = in_order answer button_steps log1 in
        let (radar, log3) = in_order answer radar_steps log2 in
        (r.ble_code ≡ ble) × (r.button_code ≡ button) × (r.radar_code ≡ radar) × (r.world ≡ log3)

  start_parts_lem :
      (bus : B) (log : Log)
      → IsFilled n hw
      → (r : Running nvs.Fs B Log) × (start_parts nvs B i2c_write i2c_read Log
            (board answer)
            flash
            i2c_ready
            n
            hw
            store
            air
            bus
            log
          ≡ some r)
        × AreStarted log r
  unfolding start_parts
  start_parts_lem bus log filled =
      let (id, named, _, _, _, _) = device_id_init_lem n hw filled in
      let (ble, log1) = in_order answer (ble_steps id) log in
      let (button, log2) = in_order answer button_steps log1 in
      let (radar, log3) = in_order answer radar_steps log2 in
      let (code, air', bus', begun, is) = start_lem B i2c_write i2c_read fills i2c_ready bus air in
      (
        record {
          store_code = (Store.init nvs flash store).0;
          ble_code = ble;
          button_code = button;
          radar_code = radar;
          air_code = code;
          store = (Store.init nvs flash store).1;
          device_id = id;
          air = air';
          bus = bus';
          world = log3;
        },
        rw
            (
              ble_start_lem answer n hw log named,
              adv_btn_init_lem answer log1,
              radar_start_lem answer log2,
              begun,
            )
            refl,
        record { named = named; stored = refl; measuring = is; called = (refl, refl, refl, refl) },
      )

  -- The node stays in the probe mode, or its parts are started after the calls of the test for it.
  abbrev pub ComesUp : Log → Option (Running nvs.Fs B Log) → Type 0
  ComesUp log none = is_zero (in_order answer probe_steps log).0 ≡ true
  ComesUp log (some r) =
      (is_zero (in_order answer probe_steps log).0 ≡ false)
      × AreStarted (in_order answer probe_steps log).1 r

  main_start-probing :
      (bus : B) (log : Log)
      → is_zero (in_order answer probe_steps log).0 ≡ true
      → main_start nvs B i2c_write i2c_read Log
          (board answer)
          flash
          i2c_ready
          n
          hw
          store
          air
          bus
          log
        ≡ some none
  unfolding main_start
  main_start-probing bus log held = rw (probe_lem answer log, held) refl

  main_start-running :
      (bus : B) (log : Log) {r : Running nvs.Fs B Log}
      → is_zero (in_order answer probe_steps log).0 ≡ false
      → start_parts nvs B i2c_write i2c_read Log
          (board answer)
          flash
          i2c_ready
          n
          hw
          store
          air
          bus
          (in_order answer probe_steps log).1
        ≡ some r
      → main_start nvs B i2c_write i2c_read Log
          (board answer)
          flash
          i2c_ready
          n
          hw
          store
          air
          bus
          log
        ≡ some (some r)
  unfolding main_start
  main_start-running bus log free e = rw (probe_lem answer log, free, e) refl

  -- The start of `main`, on a board that answers each driver call in one way, over a bus whose reads
  -- give as many bytes as they are asked for, and with a hardware id that fits its buffer. The node
  -- stays in the probe mode just if the button is held and the pin can be claimed. Otherwise it
  -- comes to its loop with every part started, whatever the others answered: the store, Bluetooth,
  -- the advertising button, the radar and the air sensor, each with its own code. In each of the
  -- three chains of driver calls the first one that fails ends that chain with its code, and no
  -- later call of it is made.
  pub main_start_lem :
      (bus : B) (log : Log)
      → IsFilled n hw
      → (out : Option (Running nvs.Fs B Log)) × (main_start nvs B i2c_write i2c_read Log
            (board answer)
            flash
            i2c_ready
            n
            hw
            store
            air
            bus
            log
          ≡ some out)
        × ComesUp log out
  main_start_lem bus log filled = elim (Bool-cases (is_zero (in_order answer probe_steps log).0)) [
    | inl held ↦ (none, main_start-probing bus log held, held)
    | inr free ↦
        let (r, e, started) = start_parts_lem bus (in_order answer probe_steps log).1 filled in
        (some r, main_start-running bus log free e, (free, started))
  ]
