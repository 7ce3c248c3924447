-- ===== src/Radar/Console/Handled.antt =====
-- The frames of the radar's stream, each handled as a whole.
use n_rf5340_presence_test.Base.{
  ℕ, suc, ◌+◌, ◌/◌, ◌%◌, ◌^◌, ◌<◌, ◌≡◌, refl, Bool, not, List, [], ◌∷◌, Option, none, some,
  if◌then◌else◌, ◌>>=◌, ◌==◌, arith, length, drop, length-drop, IsBytes-drop, take,
}
use n_rf5340_presence_test.Base.Word.{u32}
use n_rf5340_presence_test.Tlv.{target_list}
use n_rf5340_presence_test.Tlv.Read.{le32}
use n_rf5340_presence_test.Tlv.Find.{Found, find}
use n_rf5340_presence_test.Tlv.Find.Bounds.{IsInside}
use n_rf5340_presence_test.Tlv.Targets.{Target}
use n_rf5340_presence_test.Tlv.Targets.Bounds.{targets_total}
use n_rf5340_presence_test.Radar.Stream.Total.{IsHeld}
use n_rf5340_presence_test.Radar.Types.Reads.{NeverWraps, note_types_lem, header_read, header_of}
use n_rf5340_presence_test.Radar.Window.{max_targets, count_frame, detect}
use n_rf5340_presence_test.Radar.Window.Detect.{IsCount, found_in, detect_total}
use n_rf5340_presence_test.Radar.Window.Summary.{Seen, count_all}
use n_rf5340_presence_test.Radar.Console.{Line, Counters, tracked, frame_line, handle_frame}

module _ (buf : List ℕ) (held : IsHeld buf) where
  tracked_found :
      (found : Found)
      → find buf target_list ≡ some found
      → IsInside buf target_list (le32 buf 12) found
      → (ts : List Target) × (tracked buf ≡ some ts)
  unfolding tracked
  tracked_found none e inside = ([], rw e refl)
  tracked_found (some (at, len)) e inside =
      let (ts, e', l) =
        targets_total (drop at buf) len max_targets (IsBytes-drop at buf held.bytes)
          (omega (arith, length-drop at buf, inside.1, held.room, held.most))
          (omega (arith, inside.1, held.most)) in
      (ts, rw (e, e') refl)

  tracked_total : (ts : List Target) × (tracked buf ≡ some ts)
  tracked_total =
      let (found, e, inside) = found_in buf held target_list in tracked_found found e inside

  -- The line of every fourth frame.
  line_of : ℕ → ℕ → ℕ × Bool → List Target → ℕ → Option Line
  line_of now dropped (n, tracker) tgt seen =
      if not (u32 (seen + 1) % 4 == 0)
      then none
      else some (record {
        now = now;
        frame_no = (header_of buf held).frame_no;
        tracker = tracker;
        n = n;
        pts = (header_of buf held).num_detected;
        shown = if tracker then take 4 tgt else [];
        dropped = dropped;
      })

  frame_line_lem :
      (now dropped : ℕ) (count : ℕ × Bool) (tgt : List Target) (seen : ℕ)
      → frame_line now dropped buf count tgt seen
        ≡ some (u32 (seen + 1), line_of now dropped count tgt seen)
  unfolding frame_line line_of
  frame_line_lem now dropped count tgt seen = ground (arith, header_read buf held)

-- A frame, and when it is handled.
pub record Arrival : Type 0 where
  pub buf : List ℕ
  pub uptime : ℕ
  pub now : ℕ
  pub dropped : ℕ

abbrev pub AreArrivals : List Arrival → Type 0
AreArrivals [] = Unit {0}
AreArrivals (f ∷ fs) = IsHeld f.buf × NeverWraps f.buf × AreArrivals fs

-- What is counted for each frame.
abbrev pub AreSeen : List Arrival → List Seen → Type 0
AreSeen [] [] = Unit {0}
AreSeen (f ∷ fs) (s ∷ ss) =
    (detect f.buf ≡ some (s.n, s.tracker))
    × (s.uptime ≡ f.uptime)
    × IsCount (s.n, s.tracker)
    × AreSeen fs ss
AreSeen fs ss = ⊥

abbrev with_line : Option Line → List Line → List Line
with_line none lines = lines
with_line (some line) lines = line ∷ lines

-- The frames one after the other, and the lines that are printed.
abbrev pub handle_all : List Arrival → Counters → Option (Counters × List Line)
handle_all [] s = some (s, [])
handle_all (f ∷ fs) s = do
  (s', out) ← handle_frame f.uptime f.now f.dropped f.buf s
  (s'', lines) ← handle_all fs s'
  some (s'', with_line out.1 lines)

length-with_line :
    (line : Option Line) (lines : List Line)
    → length (with_line line lines) ≡ length (with_line line []) + length lines
length-with_line none lines = omega arith
length-with_line (some line) lines = omega arith

every_fourth :
    (seen left many one : ℕ)
    → seen + suc left < 2 ^ 32
    → many + u32 (seen + 1) / 4 ≡ (u32 (seen + 1) + left) / 4
    → one ≡ (if u32 (seen + 1) % 4 == 0 then 1 else 0)
    → one + many + seen / 4 ≡ (seen + suc left) / 4
every_fourth seen left many one range h k = ground arith

handle_frame_lem :
    (f : Arrival) (s : Counters)
    → IsHeld f.buf
    → NeverWraps f.buf
    → (n : ℕ) × (tracker : Bool) × (types : ℕ) × (listed : List (ℕ × ℕ)) × (line : Option Line)
      × (handle_frame f.uptime f.now f.dropped f.buf s
          ≡ some (
            record {
              acc = count_frame f.uptime n tracker s.acc;
              types_seen = types;
              seen = u32 (s.seen + 1);
            },
            (listed, line),
          ))
      × (detect f.buf ≡ some (n, tracker))
      × IsCount (n, tracker)
      × (length (with_line line []) ≡ (if u32 (s.seen + 1) % 4 == 0 then 1 else 0))
unfolding handle_frame
handle_frame_lem f s held never =
    let ((n, tracker), counted, is) = detect_total f.buf held in
    let (tgt, found) = tracked_total f.buf held in
    let ((types, listed), noted) = note_types_lem f.buf held s.types_seen never in
    (
      n,
      tracker,
      types,
      listed,
      line_of f.buf held f.now f.dropped (n, tracker) tgt s.seen,
      rw (counted, found, noted, frame_line_lem f.buf held f.now f.dropped (n, tracker) tgt s.seen)
          refl,
      counted,
      is,
      unfold line_of in ground arith,
    )

-- The frames of a stream, which the reassembler delivers: if no TLV header that the walk of the
-- types visits in them takes it past 2 ^ 32, each of them is handled whole with no read out of
-- range, each is counted once, by what it says of the room, and exactly every fourth one is
-- printed.
pub handle_all_lem :
    (fs : List Arrival) (s : Counters)
    → AreArrivals fs
    → s.seen + length fs < 2 ^ 32
    → (t : Counters) × (lines : List Line) × (seen : List Seen) × (handle_all fs s
        ≡ some (t, lines))
      × (t.acc ≡ count_all seen s.acc)
      × AreSeen fs seen
      × (length lines + s.seen / 4 ≡ (s.seen + length fs) / 4)
handle_all_lem [] s h range = (s, [], [], refl, refl, tt, omega arith)
handle_all_lem (f ∷ fs) s (held, never, h) range =
    let (n, tracker, types, listed, line, e, counted, is, one) = handle_frame_lem f s held never in
    let s' : Counters = record {
      acc = count_frame f.uptime n tracker s.acc;
      types_seen = types;
      seen = u32 (s.seen + 1);
    } in
    let (t, lines, seen, e', acc, are, many) = handle_all_lem fs s' h (omega arith) in
    (
      t,
      with_line line lines,
      record { uptime = f.uptime; n = n; tracker = tracker } ∷ seen,
      rw (e, e') refl,
      acc,
      (counted, refl, is, are),
      rw (length-with_line line lines) (
          every_fourth s.seen (length fs) (length lines) (length (with_line line [])) range many
            one),
    )
