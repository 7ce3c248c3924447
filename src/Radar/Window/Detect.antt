-- ===== src/Radar/Window/Detect.antt =====
-- `on_frame` on a buffer that the reassembler delivers.
use n_rf5340_presence_test.Base.{
  ℕ, ◌≤◌, ◌≡◌, refl, Bool, true, false, List, [], none, some, length, arith, drop, length-drop,
  IsBytes-drop, if◌then◌else◌,
}
use native.Mathlib.Decide.{dec_le}
use n_rf5340_presence_test.Tlv.{target_list, enhanced_presence}
use n_rf5340_presence_test.Tlv.Read.{le32}
use n_rf5340_presence_test.Tlv.Find.{Found, find}
use n_rf5340_presence_test.Tlv.Find.Bounds.{IsInside, find_total}
use n_rf5340_presence_test.Tlv.Targets.Bounds.{targets_total}
use n_rf5340_presence_test.Tlv.Presence.{presence}
use n_rf5340_presence_test.Tlv.Presence.Decode.{presence_total}
use n_rf5340_presence_test.Radar.Stream.Total.{IsHeld}
use n_rf5340_presence_test.Radar.Window.{
  Acc, max_targets, max_zones, any_zone, detect_zones, detect, count_frame, on_frame,
}

-- Without the tracker the count is 0 or 1; with it, at most what `tgt` has room for.
abbrev pub IsCount : ℕ × Bool → Type 0
IsCount (n, true) = n ≤ max_targets
IsCount (n, false) = n ≤ 1

presence_safe :
    (payload : List ℕ) (len room : ℕ)
    → len ≤ length payload
    → (states : List ℕ) × (presence (some payload) len room ≡ some states)
presence_safe payload len room held = elim (dec_le 2 len) [
  | yes two ↦ let (states, e, l, ok) = presence_total payload len room two held in (states, e)
  | no short ↦ ([], unfold presence in ground (arith, short))
]

module _ (buf : List ℕ) (held : IsHeld buf) where
  pub found_in :
      (type : ℕ)
      → (found : Found) × (find buf type ≡ some found) × IsInside buf type (le32 buf 12) found
  found_in type =
      find_total buf type held.bytes (omega (arith, held.room))
        (omega (arith, held.room, held.most)) held.most

  zones_found :
      (found : Found)
      → find buf enhanced_presence ≡ some found
      → IsInside buf enhanced_presence (le32 buf 12) found
      → (out : ℕ × Bool) × (detect_zones buf ≡ some out) × IsCount out
  unfolding detect_zones
  zones_found none e inside = ((0, false), rw e refl, omega arith)
  zones_found (some (at, len)) e inside =
      let (states, e') =
        presence_safe (drop at buf) len max_zones
          (omega (arith, length-drop at buf, inside.1, held.room, held.most)) in
      ((if any_zone states then 1 else 0, false), rw (e, e') refl, ground arith)

  targets_found :
      (found : Found)
      → find buf target_list ≡ some found
      → IsInside buf target_list (le32 buf 12) found
      → (out : ℕ × Bool) × (detect buf ≡ some out) × IsCount out
  unfolding detect
  targets_found none e inside =
      let (found, e', inside') = found_in enhanced_presence in
      let (out, run, ok) = zones_found found e' inside' in (out, rw e run, ok)
  targets_found (some (at, len)) e inside =
      let (ts, e', l) =
        targets_total (drop at buf) len max_targets (IsBytes-drop at buf held.bytes)
          (omega (arith, length-drop at buf, inside.1, held.room, held.most))
          (omega (arith, inside.1, held.most)) in
      ((length ts, true), rw (e, e') refl, l)

pub detect_total :
    (buf : List ℕ) → IsHeld buf → (out : ℕ × Bool) × (detect buf ≡ some out) × IsCount out
detect_total buf held =
    let (found, e, inside) = found_in buf held target_list in targets_found buf held found e inside

-- On every buffer that the reassembler delivers `on_frame`, up to the end of its lock, reads
-- nothing out of range, and counts at most 20 people with the tracker and at most 1 without.
pub on_frame_total :
    (buf : List ℕ) (uptime : ℕ) (acc : Acc)
    → IsHeld buf
    → (out : ℕ × Bool) × (on_frame uptime buf acc ≡ some (count_frame uptime out.0 out.1 acc))
      × IsCount out
unfolding on_frame
on_frame_total buf uptime acc held =
    let (out, run, ok) = detect_total buf held in (out, rw run refl, ok)
