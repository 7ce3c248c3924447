-- ===== src/Radar/Window/Scene.antt =====
-- What `on_frame` makes of a frame, by the TLVs that the radar put into it.
use n_rf5340_presence_test.Base.{
  ℕ, ◌*◌, ◌≤◌, ◌<◌, ◌≡◌, Bool, true, false, List, [], ◌++◌, none, some, length, take, min,
  if◌then◌else◌,
}
use n_rf5340_presence_test.Tlv.{max_frame, target_list, enhanced_presence}
use n_rf5340_presence_test.Tlv.Find.Lookup
use n_rf5340_presence_test.Tlv.Find.Lookup.{Tlv, IsTlvFrame, first_value, payload}
use n_rf5340_presence_test.Tlv.Targets.{size_3d, size_2d}
use n_rf5340_presence_test.Tlv.Targets.Decode
use n_rf5340_presence_test.Tlv.Targets.Decode.{Track, AreTracks, encode_3d, encode_2d}
use n_rf5340_presence_test.Tlv.Presence.Decode.{AreStates, announce}
use n_rf5340_presence_test.Radar.Window.{max_targets, max_zones, any_zone}

-- What the radar reports: tracked people, in the 3D or the 2D layout, zones without a tracker, or
-- neither.
pub data Scene : Type 0 where
  tracked : List Track → Scene
  tracked_2d : List Track → Scene
  zoned : List ℕ → Scene
  silent : Scene

-- The TLVs report a scene. A target list hides the zones.
abbrev pub Reports : List Tlv → Scene → Type 0
Reports ts (tracked ks) =
    (first_value target_list ts ≡ some (Decode.encode_all encode_3d ks))
    × AreTracks 96 ks
    × (size_3d * length ks ≤ max_frame)
Reports ts (tracked_2d ks) =
    (first_value target_list ts ≡ some (Decode.encode_all encode_2d ks))
    × AreTracks 64 ks
    × (size_2d * length ks ≤ max_frame)
Reports ts (zoned states) =
    (first_value target_list ts ≡ none)
    × (first_value enhanced_presence ts ≡ some (announce states []))
    × AreStates states
    × (0 < length states)
Reports ts silent = (first_value target_list ts ≡ none) × (first_value enhanced_presence ts ≡ none)

-- How many people that is, and whether the tracker says so.
abbrev pub people : Scene → ℕ × Bool
people (tracked ks) = (min max_targets (length ks), true)
people (tracked_2d ks) = (min max_targets (length ks), true)
people (zoned states) = (if any_zone (take max_zones states) then 1 else 0, false)
people silent = (0, false)

module _ (front : List ℕ) (ts : List Tlv) (stale : List ℕ) (h : IsTlvFrame front ts stale) where
  abbrev buf : List ℕ
  buf = front ++ (Lookup.encode_all ts ++ stale)
