-- ===== src/Radar/Console.antt =====
-- `on_frame` of radar.c as a whole: the counters, the list of TLV types, and the line that is
-- printed for every fourth frame.
pub mod Handled
use n_rf5340_presence_test.Base.{
  ℕ, ◌+◌, ◌%◌, Bool, true, false, not, List, [], Option, none, some, if◌then◌else◌, ◌>>=◌, ◌==◌,
  take, drop,
}
use n_rf5340_presence_test.Base.Word.{u32}
use n_rf5340_presence_test.Tlv.{target_list, header_get}
use n_rf5340_presence_test.Tlv.Find.{find}
use n_rf5340_presence_test.Tlv.Targets.{Target, targets}
use n_rf5340_presence_test.Radar.Types.{note_types}
use n_rf5340_presence_test.Radar.Window.{Acc, max_targets, detect, count_frame}

-- What the line shows. `now` is `store_now`; a coordinate is the float's pattern, which the code
-- prints in centimetres; no dropped bytes are not printed.
pub record Line : Type 0 where
  pub now : ℕ
  pub frame_no : ℕ
  pub tracker : Bool
  pub n : ℕ
  pub pts : ℕ
  pub shown : List Target
  pub dropped : ℕ

-- `tgt` after the tracker's branch; without a target list it is not looked at.
unfoldable pub tracked : List ℕ → Option (List Target)
tracked frame = do
  found ← find frame target_list
  elim found [ none ↦ some [] | some (at, len) ↦ targets (some (drop at frame)) len max_targets ]

-- `if (++seen % 4 == 0)`
unfoldable pub frame_line : ℕ → ℕ → List ℕ → ℕ × Bool → List Target → ℕ → Option (ℕ × Option Line)
frame_line now dropped frame (n, tracker) tgt seen =
    let seen' = u32 (seen + 1) in
    if not (seen' % 4 == 0) then some (seen', none) else (do
      h ← header_get frame
      some (
        seen',
        some (record {
          now = now;
          frame_no = h.frame_no;
          tracker = tracker;
          n = n;
          pts = h.num_detected;
          shown = if tracker then take 4 tgt else [];
          dropped = dropped;
        }),
      ))

-- `acc`, and the statics of `on_frame`.
pub record Counters : Type 0 where
  pub acc : Acc
  pub types_seen : ℕ
  pub seen : ℕ

-- `on_frame`: the counters after it, the types that are listed, and the line. `uptime` is in ms,
-- and `dropped` is `rx_dropped`.
unfoldable pub handle_frame :
    ℕ → ℕ → ℕ → List ℕ → Counters → Option (Counters × (List (ℕ × ℕ) × Option Line))
handle_frame uptime now dropped frame s = do
  (n, tracker) ← detect frame
  tgt ← tracked frame
  (types_seen, listed) ← note_types frame s.types_seen
  (seen, line) ← frame_line now dropped frame (n, tracker) tgt s.seen
  some (
    record { acc = count_frame uptime n tracker s.acc; types_seen = types_seen; seen = seen },
    (listed, line),
  )
