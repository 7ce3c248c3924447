-- ===== src/Tests/SensorTests.antt =====
-- Air sensor, radar windows and ticks at concrete inputs.
use n_rf5340_presence_test.Base.{
  ℕ, ◌≡◌, ◌+◌, ◌*◌, ◌<◌, ◌-◌, ◌/◌, refl, true, false, not, List, [], ◌∷◌, some, arith, min,
}
use n_rf5340_presence_test.Base.Int.{ℤ}
use n_rf5340_presence_test.Frame.Record.{Record, sensor_fault, aq_fault, no_tracker, rtc_unset}
use n_rf5340_presence_test.Radar
use n_rf5340_presence_test.Radar.Window.{Acc, window_take}
use n_rf5340_presence_test.Radar.Window.Summary.{
  Seen, count_all, IsSummary, window_take-count_all, window_take-dwell,
}
use n_rf5340_presence_test.Sen5x.{acc_reset}
use n_rf5340_presence_test.Sen5x.Crc.{crc8}
use n_rf5340_presence_test.Sen5x.Peak.{Sample}
use n_rf5340_presence_test.Node.{record_of}
use n_rf5340_presence_test.Node.Report.{Air, recorded, flush_report, shown_temp, flush_report-air}
use n_rf5340_presence_test.Node.Flags.{has, record_of-flags}

abbrev idle : Acc
idle = record { max_count = 0; frames = 0; occ_frames = 0; any_tracker = false; occ_since = 0 }

abbrev seen_at : ℕ → ℕ → Seen
seen_at t n = record { uptime = t; n = n; tracker = false }

abbrev three_frames : List Seen
three_frames = seen_at 250 0 ∷ seen_at 500 2 ∷ seen_at 750 1 ∷ []

window_take-count_all_example :
    IsSummary three_frames (window_take 30000 (count_all three_frames (window_take 0 idle).1)).0
window_take-count_all_example =
    window_take-count_all three_frames idle 0 30000 (omega arith) (omega arith)

window_take-dwell_example :
    (window_take 40000 (
      count_all
        (seen_at 30250 1 ∷ [])
        (window_take 30000 (count_all three_frames idle)).1)).0.dwell_s
    ≡ min 0xFFFF ((40000 - 500) / 1000)
window_take-dwell_example =
    window_take-dwell [] (seen_at 250 0) (seen_at 500 2) (seen_at 750 1 ∷ []) (seen_at 30250 1) []
      idle 30000 40000 refl (omega arith) (omega arith) (omega arith) (omega arith) (omega arith)
      (omega arith)

abbrev dusty : Sample
dusty = record {
  pm1 = 50;
  pm25 = 120;
  pm4 = 130;
  pm10 = 140;
  rh = 4500;
  temp = 4300;
  voc = 0xFFFF;
  nox = 0xFFFF;
}

abbrev clean : Sample
clean = record dusty { pm25 = 20; pm10 = 0xFFFF; temp = 65450 }

abbrev samples : List Sample
samples = dusty ∷ clean ∷ []

abbrev dead_radar : Radar.Window.Window
dead_radar = record { headcount = 0; occ_s = 0; dwell_s = 0; alive = false; tracker = false }

record_of-flags_example :
    (has (record_of dead_radar acc_reset) sensor_fault ≡ not false)
    × (has (record_of dead_radar acc_reset) aq_fault ≡ not false)
    × (has (record_of dead_radar acc_reset) no_tracker ≡ not false)
    × (has (record_of dead_radar acc_reset) rtc_unset ≡ true)
record_of-flags_example = record_of-flags dead_radar acc_reset

-- Just below 0 degrees.
abbrev frosty : Record
frosty = record (record_of dead_radar acc_reset) { pm25 = 87; pm10 = 101; temp = ℤ.negsuc 42 }

flush_report-air_example :
    (a : Air) × (flush_report (ℤ.pos 0) frosty true ≡ recorded true (some a))
    × (shown_temp a ≡ ℤ.negsuc 42)
    × (a.temp.1 < 100)
    × (a.pm25.0 * 10 + a.pm25.1 ≡ 87)
    × (a.pm25.1 < 10)
    × (a.pm10.0 * 10 + a.pm10.1 ≡ 101)
    × (a.pm10.1 < 10)
flush_report-air_example = flush_report-air frosty true (λ e. omega (arith, e))

crc8_beef : crc8 0xBE 0xEF ≡ 0x92
unfolding crc8
crc8_beef = refl
