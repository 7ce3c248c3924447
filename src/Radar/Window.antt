-- ===== src/Radar/Window.antt =====
-- `on_frame` and `radar_window_take` of radar.c: what a frame says of the room, and the counters
-- that a record is made of. The console lines of `on_frame` are left out.
pub mod Summary
pub mod Detect
pub mod Scene
use n_rf5340_presence_test.Base.{
  ℕ, ◌+◌, ◌-◌, ◌*◌, ◌/◌, ◌%◌, ◌^◌, Bool, true, false, not, ◌||◌, List, [], ◌∷◌, Option, none, some,
  ltb, ◌==◌, if◌then◌else◌, ◌>>=◌, length, drop,
}
use n_rf5340_presence_test.Base.Word.{u8, u16}
use n_rf5340_presence_test.Tlv.{target_list, enhanced_presence}
use n_rf5340_presence_test.Tlv.Find.{find}
use n_rf5340_presence_test.Tlv.Targets.{targets}
use n_rf5340_presence_test.Tlv.Presence.{presence}
use n_rf5340_presence_test.Store.{period_s}

abbrev pub max_targets : ℕ
max_targets = 20

-- The array `zones[8]`
abbrev pub max_zones : ℕ
max_zones = 8

-- `acc`
pub record Acc : Type 0 where
  pub max_count : ℕ  -- uint8_t
  pub frames : ℕ  -- uint16_t
  pub occ_frames : ℕ  -- uint16_t
  pub any_tracker : Bool
  pub occ_since : ℕ  -- int64_t, the uptime in ms where the occupancy began, 0 = empty

-- `struct radar_window`
pub record Window : Type 0 where
  pub headcount : ℕ
  pub occ_s : ℕ
  pub dwell_s : ℕ
  pub alive : Bool
  pub tracker : Bool

-- The loop over `zones`: is there one that is not `TLV_ZONE_NONE`?
unfoldable pub any_zone : List ℕ → Bool
any_zone [] = false
any_zone (z ∷ zs) = not (z == 0) || any_zone zs

-- The branch of a frame without a TARGET_LIST.
unfoldable pub detect_zones : List ℕ → Option (ℕ × Bool)
unfolding any_zone
detect_zones frame = do
  found ← find frame enhanced_presence
  elim found [
    | none ↦ some (0, false)
    | some (at, len) ↦ do
      zones ← presence (some (drop at frame)) len max_zones
      some (if any_zone zones then 1 else 0, false)
  ]

-- `n` and `tracker` of a frame; `none` is a read outside of it.
unfoldable pub detect : List ℕ → Option (ℕ × Bool)
unfolding detect_zones
detect frame = do
  found ← find frame target_list
  elim found [
    | none ↦ detect_zones frame
    | some (at, len) ↦ do
      tgt ← targets (some (drop at frame)) len max_targets
      some (length tgt, true)
  ]

-- What `on_frame` does under its lock, at an uptime in ms.
unfoldable pub count_frame : ℕ → ℕ → Bool → Acc → Acc
count_frame uptime n tracker acc = record {
  max_count = if ltb acc.max_count n then u8 n else acc.max_count;
  frames = u16 (acc.frames + 1);
  occ_frames = if ltb 0 n then u16 (acc.occ_frames + 1) else acc.occ_frames;
  any_tracker = if tracker then true else acc.any_tracker;
  occ_since = if ltb 0 n then (if acc.occ_since == 0 then uptime else acc.occ_since) else 0;
}

unfoldable pub on_frame : ℕ → List ℕ → Acc → Option Acc
on_frame uptime frame acc = do (n, tracker) ← detect frame; some (count_frame uptime n tracker acc)

-- `(uint16_t)held` of `held = (uptime - since) / 1000`, capped; a negative one wraps around.
unfoldable pub dwell : ℕ → ℕ → ℕ
dwell uptime since =
    if since == 0
    then 0
    else if ltb uptime since
    then u16 (2 ^ 16 - (since - uptime) / 1000 % 2 ^ 16)
    else if ltb 0xFFFF ((uptime - since) / 1000)
    then 0xFFFF
    else (uptime - since) / 1000

-- `radar_window_take`
unfoldable pub window_take : ℕ → Acc → Window × Acc
unfolding dwell
window_take uptime acc =
    let since = if acc.frames == 0 then 0 else acc.occ_since in
    (
      record {
        headcount = acc.max_count;
        occ_s = if acc.frames == 0 then 0 else u8 (acc.occ_frames * period_s / acc.frames);
        dwell_s = dwell uptime since;
        alive = ltb 0 acc.frames;
        tracker = acc.any_tracker;
      },
      record { max_count = 0; frames = 0; occ_frames = 0; any_tracker = false; occ_since = since },
    )
