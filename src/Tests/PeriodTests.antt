-- ===== src/Tests/PeriodTests.antt =====
-- A period of the node at concrete inputs: a bus that gives samples, and thirty rounds.
use n_rf5340_presence_test.Base.{
  ℕ, ◌+◌, ◌≡◌, refl, true, false, ◌&&◌, List, [], ◌∷◌, ◌++◌, Option, none, some, ltb, ◌==◌,
  if◌then◌else◌, arith, length, replicate, length-replicate, IsBytes, Bool-cases, inl, inr,
}
use n_rf5340_presence_test.Base.Int.{ℤ}
use n_rf5340_presence_test.Radar.Window.{Acc, window_take}
use n_rf5340_presence_test.Sen5x.{Sensor, acc_reset}
use n_rf5340_presence_test.Sen5x.Transfer.{IsFilling}
use n_rf5340_presence_test.Sen5x.Verdict.{status_of, fine}
use n_rf5340_presence_test.Sen5x.Period.{samples, seen_in, on, period, period_lem}
use n_rf5340_presence_test.Store.{oldest_seq, now, get, append, at_boot}
use n_rf5340_presence_test.Node.{State}
use n_rf5340_presence_test.Node.Start.{Running, main_start}
use n_rf5340_presence_test.Node.Start.Order.{ComesUp, main_start_lem}
use n_rf5340_presence_test.Base.Driver.{Call, Log, board}
use n_rf5340_presence_test.Node.Period.{Round, rounds}
use n_rf5340_presence_test.Node.Period.Recorded.{summary, rounds-recorded}
use n_rf5340_presence_test.Tests.RadioTests.{IsBytes-zeros}
use n_rf5340_presence_test.Tests.StoreTests.{
  Ram, ram, ram-IsNvs, fresh, fresh-IsRing, no_log, ready, blank,
}

-- Eight words with their CRCs, and no NOx.
abbrev sample_bytes : List ℕ
sample_bytes =
    0 ∷ 100 ∷ 254 ∷ 0 ∷ 120 ∷ 192 ∷ 0 ∷ 130 ∷ 153 ∷ 0 ∷ 140 ∷ 134 ∷ 17 ∷ 148 ∷ 230 ∷ 16 ∷ 204 ∷ 213
    ∷ 3 ∷ 232 ∷ 212 ∷ 255 ∷ 255 ∷ 172 ∷ []

abbrev bus_write : ℕ → List ℕ → ℤ × ℕ
bus_write bus bytes = (ℤ.pos 0, bus + 1)

abbrev read_bytes : ℕ → List ℕ
read_bytes n = if n == 24 then sample_bytes else replicate n 0

abbrev bus_read : ℕ → ℕ → ℤ × (List ℕ × ℕ)
bus_read bus n = (ℤ.pos 0, (read_bytes n, bus + 1))

length-read_bytes : (n : ℕ) → length (read_bytes n) ≡ n
length-read_bytes n = ground (arith, length-replicate {A = ℕ} n 0)

read_bytes-IsBytes : (n : ℕ) → IsBytes (read_bytes n)
read_bytes-IsBytes n = elim (Bool-cases (n == 24)) [
  | inl e ↦ rw e (omega arith)
  | inr e ↦ rw e (IsBytes-zeros n)
]

bus-IsFilling : IsFilling ℕ bus_write bus_read
bus-IsFilling = record {
  full = λ bus n. length-read_bytes n;
  bytes = λ bus n. read_bytes-IsBytes n;
}

period_lem_example :
    let (ss, bus) = samples ℕ bus_write bus_read 2 7 in
    (bus' : ℕ) × (period ℕ bus_write bus_read 2 7 (on acc_reset)
      ≡ some (
        record (seen_in ss) {
          alive = (seen_in ss).alive && fine (status_of ℕ bus_write bus_read bus);
        },
        (on acc_reset, bus'),
      ))
period_lem_example = period_lem ℕ bus_write bus_read bus-IsFilling 2 7

-- One person in a frame of each second.
abbrev occupied_second : Round
occupied_second = record {
  seen = record { uptime = 900; n = 1; tracker = true } ∷ [];
  taken = 30000;
  written = 30001;
}

abbrev seconds : List Round
seconds = replicate 29 occupied_second

abbrev no_frames : Acc
no_frames = record { max_count = 0; frames = 0; occ_frames = 0; any_tracker = false; occ_since = 0 }

rounds-recorded_example :
    let s : State ram.Fs = record { acc = no_frames; air = on acc_reset; store = fresh } in
    let rec =
      summary ram ram-IsNvs ℕ bus_write bus_read bus-IsFilling seconds occupied_second no_frames
        7 in
    (t : State ram.Fs) × (bus : ℕ) × (rounds ram ℕ bus_write bus_read
        (seconds ++ occupied_second ∷ [])
        (0, (s, 7))
      ≡ some (0, (t, bus)))
    × (t.air ≡ on acc_reset)
    × (get ram t.store 5 ≡ (
        if 5 == 5
        then some (record rec { seq = 5; ts = now ram fresh 30001 })
        else if ltb 5 (oldest_seq ram t.store)
        then none
        else get ram fresh 5))
unfolding append
rounds-recorded_example =
    rounds-recorded ram ram-IsNvs ℕ bus_write bus_read bus-IsFilling seconds occupied_second
      no_frames fresh 7 no_log 5 refl fresh-IsRing (omega arith) refl

abbrev cleared : Acc
cleared = (window_take 900 no_frames).1

-- A board on which all is well, and no button is held.
abbrev well : Call → ℤ
well (Call.device_is_ready device) = ℤ.pos 1
well (Call.gpio_is_ready pin) = ℤ.pos 1
well c = ℤ.pos 0

abbrev at_reset : Sensor
at_reset = record { running = false; acc = acc_reset }

abbrev hardware_id : List ℕ
hardware_id = replicate 8 7

main_start_lem_example :
    (out : Option (Running Ram ℕ Log)) × (main_start ram ℕ bus_write bus_read Log
        (board well)
        ready
        true
        (ℤ.pos 8)
        hardware_id
        (at_boot ram blank)
        at_reset
        7
        []
      ≡ some out)
    × ComesUp ram ℕ bus_write bus_read bus-IsFilling well ready true
        (ℤ.pos 8)
        hardware_id
        (at_boot ram blank)
        at_reset
        []
        out
main_start_lem_example =
    main_start_lem ram ℕ bus_write bus_read bus-IsFilling well ready true (ℤ.pos 8) hardware_id
      (at_boot ram blank) at_reset 7 [] (omega arith)
