-- ===== src/Tests/CliTests.antt =====
-- The radar's command line, its interrupt and its thread at concrete inputs.
use n_rf5340_presence_test.Base.{
  ℕ, suc, ◌+◌, ◌-◌, ◌≡◌, ◌≢◌, ◌⊎◌, refl, Bool, true, List, [], ◌∷◌, ◌++◌, none, some, arith, length,
  replicate, length-replicate, length-append, take, min, if◌then◌else◌, IsBytes-append,
}
use n_rf5340_presence_test.Base.Int.{ℤ}
use n_rf5340_presence_test.Base.Word.{u32}
use n_rf5340_presence_test.Tlv.{max_frame}
use n_rf5340_presence_test.Tlv.Reasm.{Reasm}
use n_rf5340_presence_test.Radar.Stream.Receive.{hunting}
use n_rf5340_presence_test.Radar.Stream.Total.{IsHeld}
use n_rf5340_presence_test.Radar.Types.{note_types}
use n_rf5340_presence_test.Radar.Types.Reads.{note_types_wraps}
use n_rf5340_presence_test.Radar.Cli.{Poll, Wait, cli_wait}
use n_rf5340_presence_test.Radar.Cli.Reply.{heard, answer, cli_wait-answer}
use n_rf5340_presence_test.Radar.Bringup.{codes, eio, cfg_lines, radar_configure}
use n_rf5340_presence_test.Radar.Bringup.Order
use n_rf5340_presence_test.Radar.Bringup.Order.{radar, reset_log, lines_log, radar_configure_lem}
use n_rf5340_presence_test.Radar.Thread.{Round, Session, Visit, session, radar_thread}
use n_rf5340_presence_test.Radar.Thread.Recover.{Sessions, radar_thread_lem}
use n_rf5340_presence_test.Radar.Thread.Stall.{any_late, session_silent}
use n_rf5340_presence_test.Radar.Uart.{Rx}
use n_rf5340_presence_test.Radar.Uart.Loss.{Fifo, IsRing, IsKept, joined, isr, uart_isr_lem}
use n_rf5340_presence_test.Tests.RadioTests.{empty_frame, zeros, IsBytes-zeros}

abbrev say : List ℕ → List Poll
say [] = []
say (c ∷ cs) = Poll.byte c ∷ say cs

-- An echo, its answer and the prompt, with a pause.
abbrev reply : List Poll
reply = say (codes "sensorStop 0\nDo") ++ Poll.idle true ∷ say (codes "ne\nmmwDemo:/>")

cli_wait-answer_example :
    (out : Wait × List Poll) × (cli_wait reply ≡ some out) × (out.0.done ≡ answer [] (heard reply))
cli_wait-answer_example = cli_wait-answer reply (omega arith)

-- A radar that accepts all.
abbrev accepts : Order.Log → Bool
accepts log = true

radar_configure_lem_example :
    let whole = ([] ++ reset_log) ++ lines_log cfg_lines in
    radar_configure Order.Log (radar accepts) [] ≡ (if accepts whole then ℤ.pos 0 else eio, whole)
radar_configure_lem_example = radar_configure_lem accepts []

-- Two rounds of noise, the second too late.
abbrev noise : List Round
noise =
    record { now = 1000; chunk = 1 ∷ 2 ∷ []; handled = 1001 }
    ∷ record { now = 10500; chunk = 3 ∷ []; handled = 10501 }
    ∷ []

-- A frame after some noise, then a quiet round that is late for the start but not for the frame,
-- and one that is too late for the frame.
abbrev heard_once : List Round
heard_once =
    record { now = 1000; chunk = 2 ∷ 9 ∷ []; handled = 1001 }
    ∷ record { now = 1005; chunk = empty_frame; handled = 1010 }
    ∷ record { now = 11000; chunk = []; handled = 11000 }
    ∷ record { now = 11010; chunk = []; handled = 11010 }
    ∷ []

-- Two sessions of noise.
abbrev two_visits : List Visit
two_visits = record { start = 500; rounds = noise } ∷ record { start = 20000; rounds = noise } ∷ []

radar_thread_lem_example :
    (frames : List (List ℕ)) × (re : Reasm) × (log : Order.Log) × (radar_thread Order.Log
        (radar accepts)
        3
        two_visits
        (hunting zeros 3)
        []
      ≡ some (frames, (re, log)))
    × Sessions accepts (hunting zeros 3) [] two_visits frames re log
radar_thread_lem_example =
    radar_thread_lem accepts 3 two_visits (hunting zeros 3) [] (λ log. (0, omega arith, refl))
      (length-replicate {A = ℕ} max_frame 0) (IsBytes-zeros max_frame) (omega arith)

session_silent_example :
    (s : Session) × (session (hunting zeros 3) 500 noise ≡ some s)
    × ((s.frames ≢ []) ⊎ (s.stalled ≡ any_late 500 noise))
session_silent_example =
    session_silent (hunting zeros 3) 500 noise (length-replicate {A = ℕ} max_frame 0)
      (IsBytes-zeros max_frame) (omega arith)

-- A header that claims 60 bytes and two TLVs, and a TLV whose length is 56 below 2 ^ 32.
abbrev lying : List ℕ
lying =
    2 ∷ 1 ∷ 4 ∷ 3 ∷ 6 ∷ 5 ∷ 8 ∷ 7 ∷ 4 ∷ 5 ∷ 3 ∷ 5 ∷ 60 ∷ 0 ∷ 0 ∷ 0 ∷ 0x32 ∷ 0x64 ∷ 0 ∷ 0 ∷ 9 ∷ 0 ∷ 0
    ∷ 0 ∷ 1 ∷ 2 ∷ 3 ∷ 4 ∷ 0 ∷ 0 ∷ 0 ∷ 0 ∷ 2 ∷ 0 ∷ 0 ∷ 0 ∷ 0 ∷ 0 ∷ 0 ∷ 0 ∷ 0x35 ∷ 1 ∷ 0 ∷ 0 ∷ 0xC8
    ∷ 0xFF ∷ 0xFF ∷ 0xFF ∷ []

abbrev lying_buf : List ℕ
lying_buf = lying ++ replicate 2000 0

lying-IsHeld : IsHeld lying_buf
lying-IsHeld = record {
  room = omega (arith, length-append lying (replicate 2000 0), length-replicate {A = ℕ} 2000 0);
  bytes = IsBytes-append lying (replicate 2000 0) (omega arith) (IsBytes-zeros 2000);
  least = omega arith;
  most = omega arith;
}

note_types_wraps_example : note_types lying_buf 0 ≡ none
note_types_wraps_example =
    note_types_wraps lying_buf lying-IsHeld 0 0 (omega arith) (omega arith) (omega arith)

-- A ring buffer of eight bytes.
abbrev put : List ℕ → List ℕ → ℕ × List ℕ
put r bs = let room = min (length bs) (8 - length r) in (room, r ++ take room bs)

put-IsRing : IsRing (List ℕ) put
put-IsRing = record { held = λ r. r; holds = λ r bs. refl }

abbrev waiting : Fifo
waiting = (1 ∷ 2 ∷ 3 ∷ []) ∷ (4 ∷ 5 ∷ []) ∷ []

abbrev quiet : Rx (List ℕ)
quiet = record { ring = 9 ∷ []; rx_total = 1; rx_dropped = 0 }

uart_isr_lem_example :
    (t : Rx (List ℕ)) × (isr (List ℕ) put put-IsRing (suc (length waiting)) waiting quiet
      ≡ some ([], t))
    × (u32 t.rx_total ≡ u32 (quiet.rx_total + length (joined waiting)))
    × IsKept (List ℕ) put put-IsRing (joined waiting) quiet t
uart_isr_lem_example =
    uart_isr_lem (List ℕ) put put-IsRing waiting quiet (omega arith) (omega arith)
