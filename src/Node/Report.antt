-- ===== src/Node/Report.antt =====
-- The console lines of `window_flush` of main.c.
use n_rf5340_presence_test.Base.{
  ℕ, zero, suc, ◌+◌, ◌*◌, ◌/◌, ◌%◌, ◌<◌, ◌≡◌, ◌≢◌, refl, ap, Bool, false, not, Option, none, some,
  if◌then◌else◌, ◌==◌, arith, bit_and,
}
use n_rf5340_presence_test.Base.Int.{ℤ, is_zero, is_neg}
use n_rf5340_presence_test.Frame.Record.{Record, unknown_u, aq_fault}

abbrev negate : ℕ → ℤ
negate zero = ℤ.pos 0
negate (suc k) = ℤ.negsuc k

-- `v / d` and `v % d` of C, towards zero.
abbrev quot : ℤ → ℕ → ℤ
quot (ℤ.pos n) d = ℤ.pos (n / d)
quot (ℤ.negsuc n) d = negate (suc n / d)

abbrev rem : ℤ → ℕ → ℤ
rem (ℤ.pos n) d = ℤ.pos (n % d)
rem (ℤ.negsuc n) d = negate (suc n % d)

abbrev magnitude : ℤ → ℕ
magnitude (ℤ.pos n) = n
magnitude (ℤ.negsuc n) = suc n

-- `v == SNTL_AQ_UNKNOWN_S`
abbrev pub is_unknown_s : ℤ → Bool
is_unknown_s (ℤ.pos n) = n == 0x7FFF
is_unknown_s (ℤ.negsuc n) = false

-- The numbers of the air's line. `minus` is the sign of the temperature.
pub record Air : Type 0 where
  pub pm25 : ℕ × ℕ
  pub pm10 : ℕ × ℕ
  pub minus : Bool
  pub temp : ℕ × ℕ
  pub rh : ℤ × ℤ
  pub voc : Option (ℤ × ℤ)
  pub fault : Bool

pub data Report : Type 0 where
  append_failed : ℤ → Report
  recorded : Bool → Option Air → Report

-- The sign is split off before the division, since -0.43 degrees have no whole part to carry it.
unfoldable pub air_line : Record → Air
air_line rec =
    let t = if is_unknown_s rec.temp then ℤ.pos 0 else rec.temp in
    let ta = magnitude t in
    record {
      pm25 = (rec.pm25 / 10, rec.pm25 % 10);
      pm10 = (rec.pm10 / 10, rec.pm10 % 10);
      minus = is_neg t;
      temp = (ta / 100, ta % 100);
      rh =
          if is_unknown_s rec.rh
          then (ℤ.pos 0, ℤ.pos 0)
          else (quot rec.rh 100, rem (quot rec.rh 10) 10);
      voc = if is_unknown_s rec.voc then none else some (quot rec.voc 10, rem rec.voc 10);
      fault = not (bit_and rec.flags aq_fault == 0);
    }

-- What is printed after `store_append` answered, of the record and the tracker; the line of the
-- occupancy shows the record's fields as they are.
unfoldable pub flush_report : ℤ → Record → Bool → Report
unfolding air_line
flush_report err rec tracker =
    if not (is_zero err)
    then append_failed err
    else recorded tracker (if rec.pm25 == unknown_u then none else some (air_line rec))

-- The temperature that a line shows.
abbrev pub shown_temp : Air → ℤ
shown_temp a =
    let hundredths = a.temp.0 * 100 + a.temp.1 in
    if a.minus then negate hundredths else ℤ.pos hundredths

temp_line :
    (rec : Record) (t : ℤ)
    → (if is_unknown_s rec.temp then ℤ.pos 0 else rec.temp) ≡ t
    → shown_temp (air_line rec) ≡ t
unfolding air_line
temp_line rec (ℤ.pos n) e = rw e (ap ℤ.pos (omega arith))
temp_line rec (ℤ.negsuc n) e =
    rw e (ap negate {x = suc n / 100 * 100 + suc n % 100} {y = suc n} (omega arith))

-- When a record with particle values was stored, the line shows its temperature to the hundredth of
-- a degree, with the sign also between -1 and 0 degrees, or 0 if it is not known, and the particle
-- values to the tenth: one digit behind the point, and the two numbers are the value.
pub flush_report-air :
    (rec : Record) (tracker : Bool)
    → rec.pm25 ≢ unknown_u
    → (a : Air) × (flush_report (ℤ.pos 0) rec tracker ≡ recorded tracker (some a))
      × (shown_temp a ≡ (if is_unknown_s rec.temp then ℤ.pos 0 else rec.temp))
      × (a.temp.1 < 100)
      × (a.pm25.0 * 10 + a.pm25.1 ≡ rec.pm25)
      × (a.pm25.1 < 10)
      × (a.pm10.0 * 10 + a.pm10.1 ≡ rec.pm10)
      × (a.pm10.1 < 10)
unfolding flush_report
flush_report-air rec tracker known = (
  air_line rec,
  ground (arith, known),
  temp_line rec _ refl,
  omega arith,
  omega arith,
  omega arith,
  omega arith,
  omega arith,
)
