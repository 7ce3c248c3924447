-- ===== src/Node/Flags.antt =====
-- The flags of a record.
use n_rf5340_presence_test.Base.{ℕ, ◌≡◌, refl, Bool, true, false, not, ◌==◌, bit_and}
use n_rf5340_presence_test.Frame.Record.{Record, sensor_fault, rtc_unset, no_tracker, aq_fault}
use n_rf5340_presence_test.Radar
use n_rf5340_presence_test.Sen5x
use n_rf5340_presence_test.Node.{record_of}

abbrev pub has : Record → ℕ → Bool
has rec flag = not (bit_and rec.flags flag == 0)

flag_cases :
    (w : Radar.Window.Window) (aq : Sen5x.Window) (a b c : Bool)
    → w.alive ≡ a
    → aq.alive ≡ b
    → w.tracker ≡ c
    → (has (record_of w aq) sensor_fault ≡ not a)
      × (has (record_of w aq) aq_fault ≡ not b)
      × (has (record_of w aq) no_tracker ≡ not c)
      × (has (record_of w aq) rtc_unset ≡ true)
unfolding record_of
flag_cases w aq true true true e f g = rw (e, f, g) (refl, refl, refl, refl)
flag_cases w aq true true false e f g = rw (e, f, g) (refl, refl, refl, refl)
flag_cases w aq true false true e f g = rw (e, f, g) (refl, refl, refl, refl)
flag_cases w aq true false false e f g = rw (e, f, g) (refl, refl, refl, refl)
flag_cases w aq false true true e f g = rw (e, f, g) (refl, refl, refl, refl)
flag_cases w aq false true false e f g = rw (e, f, g) (refl, refl, refl, refl)
flag_cases w aq false false true e f g = rw (e, f, g) (refl, refl, refl, refl)
flag_cases w aq false false false e f g = rw (e, f, g) (refl, refl, refl, refl)

-- Each fault has its own flag, whatever the others are: a record is tagged with a dead radar, a dead
-- air sensor and a missing tracker just if that is so, and always with the unset clock.
pub record_of-flags :
    (w : Radar.Window.Window) (aq : Sen5x.Window)
    → (has (record_of w aq) sensor_fault ≡ not w.alive)
      × (has (record_of w aq) aq_fault ≡ not aq.alive)
      × (has (record_of w aq) no_tracker ≡ not w.tracker)
      × (has (record_of w aq) rtc_unset ≡ true)
record_of-flags w aq = flag_cases w aq w.alive aq.alive w.tracker refl refl refl
