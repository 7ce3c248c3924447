-- ===== src/Tests/ConsoleTests.antt =====
-- The radar's frames handled as a whole, at concrete inputs.
use n_rf5340_presence_test.Base.{
  ℕ, inr, take, drop, ◌+◌, ◌/◌, ◌≡◌, false, List, [], ◌∷◌, ◌++◌, some, arith, length, replicate,
  length-replicate, length-append, IsBytes-append,
}
use n_rf5340_presence_test.Radar.Stream.Total.{IsHeld}
use n_rf5340_presence_test.Radar.Window.Summary.{Seen, count_all}
use n_rf5340_presence_test.Radar.Types.Reads.{NeverWraps}
use n_rf5340_presence_test.Radar.Console.{Line, Counters}
use n_rf5340_presence_test.Radar.Console.Handled.{Arrival, AreSeen, handle_all, handle_all_lem}
use n_rf5340_presence_test.Tests.RadioTests.{zone_frame, IsBytes-zeros}

-- A frame with a TLV, and a sub-frame number that is no length.
abbrev zone_report : List ℕ
zone_report = take 36 zone_frame ++ (255 ∷ 255 ∷ 255 ∷ 255 ∷ drop 40 zone_frame)

abbrev buf : List ℕ
buf = zone_report ++ replicate 1998 0

buf-IsHeld : IsHeld buf
buf-IsHeld = record {
  room =
      omega (arith, length-append zone_report (replicate 1998 0), length-replicate {A = ℕ} 1998 0);
  bytes = IsBytes-append zone_report (replicate 1998 0) (omega arith) (IsBytes-zeros 1998);
  least = omega arith;
  most = omega arith;
}

buf-NeverWraps : NeverWraps buf
buf-NeverWraps = inr (omega arith, tt)

abbrev frame_at : ℕ → Arrival
frame_at uptime = record { buf = buf; uptime = uptime; now = 0; dropped = 0 }

abbrev three_frames : List Arrival
three_frames = frame_at 250 ∷ frame_at 500 ∷ frame_at 750 ∷ []

abbrev counters : Counters
counters = record {
  acc = record { max_count = 0; frames = 0; occ_frames = 0; any_tracker = false; occ_since = 0 };
  types_seen = 0;
  seen = 2;
}

handle_all_lem_example :
    (t : Counters) × (lines : List Line) × (seen : List Seen) × (handle_all three_frames counters
      ≡ some (t, lines))
    × (t.acc ≡ count_all seen counters.acc)
    × AreSeen three_frames seen
    × (length lines + 2 / 4 ≡ (2 + length three_frames) / 4)
handle_all_lem_example =
    handle_all_lem three_frames counters
      (buf-IsHeld, buf-NeverWraps, (buf-IsHeld, buf-NeverWraps, (buf-IsHeld, buf-NeverWraps, tt)))
      (omega arith)
