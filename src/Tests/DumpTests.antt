-- ===== src/Tests/DumpTests.antt =====
-- The components together at concrete inputs: sensors, store and dump.
use n_rf5340_presence_test.Base.{
  ℕ, ◌+◌, ◌*◌, ◌≤◌, ◌≡◌, refl, true, Bool, List, [], ◌∷◌, none, some, leb, if◌then◌else◌, arith,
  length, replicate, length-replicate,
}
use n_rf5340_presence_test.Base.Int.{ℤ}
use n_rf5340_presence_test.Frame.Record.{Record}
use n_rf5340_presence_test.Store.{Store, oldest_seq, append, get, get_check, get_read}
use n_rf5340_presence_test.Store.Ring
use n_rf5340_presence_test.Store.Ring.{IsRing, extend, append-IsRing}
use n_rf5340_presence_test.Radar.Window.{Acc}
use n_rf5340_presence_test.Sen5x.{Sensor, acc_reset}
use n_rf5340_presence_test.Sen5x.Transfer.{IsFilling}
use n_rf5340_presence_test.Node.{State}
use n_rf5340_presence_test.Node.Cadence.{Round, rounds_end, rounds_end_lem}
use n_rf5340_presence_test.Ble.Dump.{chunk_size, dump_run}
use n_rf5340_presence_test.Ble.Dump.Wire.{Log, AllShort, link, limit}
use n_rf5340_presence_test.Ble.Dump.Whole.{IsEnded}
use n_rf5340_presence_test.Ble.Dump.Run.{chunk_size-le}
use n_rf5340_presence_test.Ble.Dump.Live.{AreRows, frame_of, dump_run-rows}
use n_rf5340_presence_test.Store.Ring.Later.{Later, get_read-later}
use n_rf5340_presence_test.Frame.Command.{dump_range}
use n_rf5340_presence_test.Ble.Dump.Held.{log_frame, dump_run-log_frame}
use n_rf5340_presence_test.Tests.RadioTests.{IsBytes-zeros}
use n_rf5340_presence_test.Tests.StoreTests.{
  ram, ram-IsNvs, fresh, fresh-IsRing, no_log, sample_record,
}

-- A bus that takes every command and reads zeros, whose CRCs are wrong.
abbrev bus_write : ℕ → List ℕ → ℤ × ℕ
bus_write bus bytes = (ℤ.pos 0, bus + 1)

abbrev bus_read : ℕ → ℕ → ℤ × (List ℕ × ℕ)
bus_read bus n = (ℤ.pos 0, (replicate n 0, bus + 1))

bus-IsFilling : IsFilling ℕ bus_write bus_read
bus-IsFilling = record {
  full = λ bus n. length-replicate {A = ℕ} n 0;
  bytes = λ bus n. IsBytes-zeros n;
}

abbrev sampled : Sensor
sampled = record { running = true; acc = record acc_reset { pm25 = 120; alive = true } }

abbrev three_of_four : Acc
three_of_four = record {
  max_count = 2;
  frames = 4;
  occ_frames = 3;
  any_tracker = true;
  occ_since = 500;
}

abbrev node : State ram.Fs
node = record { acc = three_of_four; air = sampled; store = fresh }

-- A link that takes everything.
abbrev pub takes : Log → List ℕ → ℤ
takes sent bytes = ℤ.pos 0

abbrev pub name : List ℕ
name = 80 ∷ 82 ∷ 48 ∷ 49 ∷ 50 ∷ 51 ∷ 52 ∷ 53 ∷ []

-- A store with one record.
abbrev pub one_held : Store ram.Fs
one_held = (append ram fresh 31000 sample_record).store

abbrev pub one_logged : Ring.Log
one_logged = extend no_log 5 (append ram fresh 31000 sample_record).rec

pub one_held-IsRing : IsRing ram ram-IsNvs one_held one_logged
one_held-IsRing =
    append-IsRing ram ram-IsNvs fresh no_log 31000 sample_record fresh-IsRing (omega arith)

dump_run-log_frame_example :
    let oldest = oldest_seq ram one_held in
    (out : Log × Bool) × (dump_run Log
        (link takes)
        (get ram one_held)
        247
        name
        0
        oldest
        one_held.meta.next_seq
        []
      ≡ some out)
    × AllShort (limit (chunk_size 247)) out.0
    × IsEnded takes
        (get ram one_held)
        (chunk_size 247)
        (chunk_size-le 247)
        (log_frame name one_logged 0 oldest one_held.meta.next_seq)
        out
unfolding append
dump_run-log_frame_example =
    dump_run-log_frame ram ram-IsNvs takes one_held one_logged one_held-IsRing 247 name 0
      (omega arith)

-- A second record comes between the test and the read of the first one.
abbrev pub grown_store : ℕ → Store ram.Fs
grown_store q = (append ram one_held 61000 sample_record).store

get_read-later_example :
    get_read ram (grown_store 5) 5
    ≡ (if leb (oldest_seq ram (grown_store 5)) 5 then some (one_logged 5) else none)
unfolding append get_check oldest_seq
get_read-later_example =
    get_read-later ram ram-IsNvs one_held (grown_store 5) one_logged 5 one_held-IsRing
      (Later.after one_held 61000 sample_record Later.now (omega arith)) refl

dump_run-rows_example :
    let (count, start) = dump_range 0 (oldest_seq ram one_held) one_held.meta.next_seq in
    (out : Log × Bool) × (rows : List Record) × (dump_run Log
        (link takes)
        (λ q. if get_check ram one_held q then get_read ram (grown_store q) q else none)
        247
        name
        0
        (oldest_seq ram one_held)
        one_held.meta.next_seq
        []
      ≡ some out)
    × AllShort (limit (chunk_size 247)) out.0
    × (length rows ≡ count)
    × AreRows one_logged start rows
    × IsEnded takes
        (λ q. if get_check ram one_held q then get_read ram (grown_store q) q else none)
        (chunk_size 247)
        (chunk_size-le 247)
        (frame_of name count rows)
        out
unfolding append
dump_run-rows_example =
    dump_run-rows ram ram-IsNvs takes one_held one_logged one_held-IsRing (λ q. one_held)
      grown_store (λ q. Later.now)
      (λ q. Later.after one_held 61000 sample_record Later.now (omega arith)) 247 name 0
      (omega arith)

-- Three rounds, with sleeps late by 1 ms at most.
abbrev three_rounds : List Round
three_rounds = (20, 1) ∷ (900, 0) ∷ (20, 1) ∷ []

rounds_end_lem_example :
    let at = rounds_end three_rounds (5000, 6000) in
    (at.1 ≡ 6000 + 1000 * length three_rounds) × (at.1 ≤ at.0 + 1000) × (at.0 + 1000 ≤ at.1 + 1)
rounds_end_lem_example =
    rounds_end_lem 1 three_rounds 5000 6000 (omega arith) (omega arith) (omega arith)
