-- ===== src/Node.antt =====
-- main.c: the record of a window, and the tick that says when a window is over.
pub mod Flags
pub mod Cadence
pub mod Flush
pub mod Period
pub mod Start
pub mod Report
use n_rf5340_presence_test.Base.{
  ℕ, ◌+◌, ◌-◌, Bool, true, false, List, Option, some, ltb, if◌then◌else◌, ◌>>=◌, bit_or,
}
use n_rf5340_presence_test.Base.Int.{ℤ}
use n_rf5340_presence_test.Base.Word.{u8, u32}
use n_rf5340_presence_test.Frame.Record.{Record, sensor_fault, rtc_unset, no_tracker, aq_fault}
use n_rf5340_presence_test.Radar
use n_rf5340_presence_test.Sen5x
use n_rf5340_presence_test.Store.{Store, period_s}
use n_rf5340_presence_test.Store

-- `rec` of `window_flush`, as it is handed to `store_append`.
unfoldable pub record_of : Radar.Window.Window → Sen5x.Window → Record
record_of w aq =
    let f0 = if w.alive then 0 else u8 (bit_or 0 sensor_fault) in
    let f1 = if aq.alive then f0 else u8 (bit_or f0 aq_fault) in
    let f2 = if w.tracker then f1 else u8 (bit_or f1 no_tracker) in
    record {
      seq = 0;
      ts = 0;
      headcount = w.headcount;
      occ_s = w.occ_s;
      dwell_s = w.dwell_s;
      flags = u8 (bit_or f2 rtc_unset);
      batt = 100;
      pm25 = aq.pm25;
      pm10 = aq.pm10;
      temp = aq.temp;
      rh = aq.rh;
      voc = aq.voc;
    }

-- `++sec >= STORE_PERIOD_S`: the counter, and is the window over?
unfoldable pub tick : ℕ → ℕ × Bool
tick sec = let sec' = u32 (sec + 1) in if ltb sec' period_s then (sec', false) else (0, true)

-- `if (delay > 0) k_msleep(delay)`: how long a round of `main` sleeps after its work, at the uptime
-- `now`. A delay is a second at most, so the cast to 32 bits keeps it.
unfoldable pub pause : ℕ → ℕ → ℕ
pause next_tick now = if ltb now next_tick then next_tick - now else 0

-- What the two sensors and the store keep.
pub record State (F : Type 0) : Type 0 where
  pub acc : Radar.Window.Acc
  pub air : Sen5x.Sensor
  pub store : Store F

module _ (nvs : Store.Nvs.Nvs) (B : Type 0) (i2c_write : B → List ℕ → ℤ × B)
    (i2c_read : B → ℕ → ℤ × (List ℕ × B)) where
  -- `window_flush` without its console lines: what `store_append` answers, and the state after. The
  -- radar's window is taken at the uptime `taken`, the record is written at `written`; `none` is a
  -- bus that delivered too few bytes.
  unfoldable pub window_flush : ℕ → ℕ → B → State nvs.Fs → Option (ℤ × (State nvs.Fs × B))
  unfolding record_of
  window_flush taken written bus s = do
    let (w, acc) = Radar.Window.window_take taken s.acc
    (aq, (air, bus')) ← Sen5x.window_take B i2c_write i2c_read bus s.air
    let out = Store.append nvs s.store written (record_of w aq)
    some (out.code, (record { acc = acc; air = air; store = out.store }, bus'))

  -- What a round of `main` works with: its counter, the bus, and what the components keep.
  abbrev pub Main : Type 0
  Main = ℕ × (State nvs.Fs × B)

  -- A round of `main` after its poll: the tick, and the record if it is due.
  unfoldable pub finish_round : ℕ → ℕ → ℕ → State nvs.Fs → B → Option Main
  finish_round taken written sec s bus =
      let (sec', over) = tick sec in
      if over
      then (do (_, rest) ← window_flush taken written bus s; some (sec', rest))
      else some (sec', (s, bus))

  -- A round of `main` up to its sleep; `taken` and `written` are as for `window_flush`.
  unfoldable pub main_round : ℕ → ℕ → Main → Option Main
  main_round taken written (sec, (s, bus)) = do
    (air, bus') ← Sen5x.poll B i2c_write i2c_read bus s.air
    finish_round taken written sec (record s { air = air }) bus'
