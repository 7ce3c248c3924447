-- ===== src/Sen5x.antt =====
-- sen5x.c: the air quality sensor on its I2C bus, and the window that is taken of it.
--
-- The bus is a parameter: the state `B`, and what `i2c_write_dt` and `i2c_read_dt` answer and leave.
pub mod Crc
pub mod Peak
pub mod Words
pub mod Transfer
pub mod Verdict
pub mod Period
pub mod Start
use n_rf5340_presence_test.Base.{
  ℕ, zero, suc, ◌+◌, ◌*◌, ◌%◌, ◌<◌, Bool, true, false, not, ◌&&◌, ◌||◌, List, [], ◌∷◌, Option, none,
  some, ltb, ◌==◌, if◌then◌else◌, bit_and, bit_or, get_elem?, ◌>>=◌,
}
use mathlib.Core.Option
use n_rf5340_presence_test.Base.Int.{ℤ, to_i16, halve, is_zero}
use n_rf5340_presence_test.Base.Word.{u8, u16, ◌<<<◌, ◌>>>◌}
use n_rf5340_presence_test.Frame.Record.{unknown_u, unknown_s}
use Crc.{crc8}

abbrev pub start_measurement : ℕ
start_measurement = 0x0021

abbrev pub read_measured : ℕ
read_measured = 0x03C4

abbrev pub read_product_name : ℕ
read_product_name = 0xD014

abbrev pub read_status : ℕ
read_status = 0xD206

abbrev pub max_words : ℕ
max_words = 16

-- `STATUS_FATAL`: bits 4 and 5
abbrev pub status_fatal : ℕ
status_fatal = bit_or (1 <<< 4) (1 <<< 5)

-- The error codes of errno.h that sen5x.c returns itself.
abbrev pub eio : ℤ
eio = ℤ.negsuc 4

abbrev pub enodev : ℤ
enodev = ℤ.negsuc 18

-- `struct sen5x_window`
pub record Window : Type 0 where
  pub pm25 : ℕ
  pub pm10 : ℕ
  pub temp : ℤ
  pub rh : ℤ
  pub voc : ℤ
  pub alive : Bool

-- The file's static variables.
pub record Sensor : Type 0 where
  pub running : Bool
  pub acc : Window

-- `acc_reset`
abbrev pub acc_reset : Window
acc_reset = record {
  pm25 = unknown_u;
  pm10 = unknown_u;
  temp = unknown_s;
  rh = unknown_s;
  voc = unknown_s;
  alive = false;
}

-- The loop of `read_words` over the words left; the outer `none` is a read past the bytes, the inner
-- one -EIO.
unfoldable pub words_of : List ℕ → ℕ → ℕ → Option (Option (List ℕ))
words_of raw zero i = some (some [])
words_of raw (suc left) i = do
  a ← get_elem? raw (i * 3)
  b ← get_elem? raw (i * 3 + 1)
  c ← get_elem? raw (i * 3 + 2)
  elim (crc8 a b == c) [
    | false ↦ some none
    | true ↦ do
      ws ← words_of raw left (suc i)
      some (Option.map (λ more. bit_or (u16 (a <<< 8)) b ∷ more) ws)
  ]

-- A comparison of `w[i]` with the peak so far.
unfoldable pub peak : ℕ → ℕ → ℕ
peak old w = if not (w == 0xFFFF) && (old == unknown_u || ltb old w) then w else old

-- What `sen5x_poll` does with the eight words; `none` is fewer of them.
unfoldable pub fold_sample : Window → List ℕ → Option Window
unfolding peak
fold_sample acc w = do
  w1 ← get_elem? w 1
  w3 ← get_elem? w 3
  w4 ← get_elem? w 4
  w5 ← get_elem? w 5
  w6 ← get_elem? w 6
  some (record {
    pm25 = peak acc.pm25 w1;
    pm10 = peak acc.pm10 w3;
    temp = if w5 == 0xFFFF then acc.temp else halve (to_i16 w5);
    rh = if w4 == 0xFFFF then acc.rh else to_i16 w4;
    voc = if w6 == 0xFFFF then acc.voc else to_i16 w6;
    alive = true;
  })

-- The code and, where it is 0, the words.
pub data Answer : Type 0 where
  failed : ℤ → Answer
  words : List ℕ → Answer

module _ (B : Type 0) (i2c_write : B → List ℕ → ℤ × B) (i2c_read : B → ℕ → ℤ × (List ℕ × B)) where
  unfoldable pub send_cmd : B → ℕ → ℤ × B
  send_cmd bus c = i2c_write bus (u8 (c >>> 8) ∷ u8 c ∷ [])

  -- `read_words`; `none` is a bus that delivered fewer bytes than it was asked for.
  unfoldable pub read_words : B → ℕ → ℕ → Option (Answer × B)
  unfolding send_cmd words_of
  read_words bus c count =
      let (err, bus') = send_cmd bus c in
      if not (is_zero err)
      then some (Answer.failed err, bus')
      else (let (err', (raw, bus'')) = i2c_read bus' (count * 3) in
          if not (is_zero err') then some (Answer.failed err', bus'') else (do
            ws ← words_of raw count 0
            some (elim ws [ none ↦ Answer.failed eio | some out ↦ Answer.words out ], bus'')))

  -- `sen5x_start`; `print_product_name` is its read alone.
  unfoldable pub start : Bool → B → Sensor → Option (ℤ × (Sensor × B))
  unfolding send_cmd
  start ready bus s =
      let s' = record s { acc = acc_reset } in
      if not ready then some (enodev, (s', bus)) else (do
        (_, bus') ← read_words bus read_product_name max_words
        let (err, bus'') = send_cmd bus' start_measurement
        elim (is_zero err) [
          | false ↦ some (err, (s', bus''))
          | true ↦ some (ℤ.pos 0, (record s' { running = true }, bus''))
        ])

  -- `sen5x_poll`
  unfoldable pub poll : B → Sensor → Option (Sensor × B)
  unfolding fold_sample
  poll bus s = if not s.running then some (s, bus) else (do
    (answer, bus') ← read_words bus read_measured 8
    elim answer [
      | Answer.failed _ ↦ some (s, bus')
      | Answer.words w ↦ do acc ← fold_sample s.acc w; some (record s { acc = acc }, bus')
    ])

  -- The status check of `sen5x_window_take`: is the window still alive?
  unfoldable pub check_status : B → Window → Option (Bool × B)
  check_status bus acc = if not acc.alive then some (false, bus) else (do
    (answer, bus') ← read_words bus read_status 2
    elim answer [
      | Answer.failed _ ↦ some (true, bus')
      | Answer.words st ↦ do
        hi ← get_elem? st 0
        lo ← get_elem? st 1
        some (bit_and (bit_or (hi <<< 16) lo) status_fatal == 0, bus')
    ])

  -- `sen5x_window_take`
  unfoldable pub window_take : B → Sensor → Option (Window × (Sensor × B))
  unfolding check_status
  window_take bus s = do
    (alive, bus') ← check_status bus s.acc
    some (record s.acc { alive = alive }, (record s { acc = acc_reset }, bus'))
