-- ===== src/Radar/Window/Summary.antt =====
-- What a radar window says of the frames that were counted into it.
use n_rf5340_presence_test.Base.{
  ℕ, ◌+◌, ◌-◌, ◌*◌, ◌/◌, ◌^◌, ◌≤◌, ◌<◌, ◌≡◌, refl, ◌∙◌, ap, Bool, true, false, ◌||◌, List, [], ◌∷◌,
  ◌++◌, ltb, ◌==◌, if◌then◌else◌, arith, length, length-append, min, max,
}
use native.Mathlib.Nat.{div-le_of_le-mul}
use n_rf5340_presence_test.Store.{period_s}
use n_rf5340_presence_test.Radar.Window.{Acc, Window, count_frame, dwell, window_take}

-- A frame as it was counted: when, how many, and was it the tracker that counted.
pub record Seen : Type 0 where
  pub uptime : ℕ
  pub n : ℕ
  pub tracker : Bool

abbrev pub count_all : List Seen → Acc → Acc
count_all [] acc = acc
count_all (s ∷ ss) acc = count_all ss (count_frame s.uptime s.n s.tracker acc)

abbrev pub most : List Seen → ℕ
most [] = 0
most (s ∷ ss) = max s.n (most ss)

abbrev pub occupied : List Seen → ℕ
occupied [] = 0
occupied (s ∷ ss) = (if ltb 0 s.n then 1 else 0) + occupied ss

abbrev pub any_tracker : List Seen → Bool
any_tracker [] = false
any_tracker (s ∷ ss) = s.tracker || any_tracker ss

-- Every count fits a byte.
abbrev pub AreCounts : List Seen → Type 0
AreCounts [] = Unit {0}
AreCounts (s ∷ ss) = (s.n < 256) × AreCounts ss

abbrev pub IsSummary : List Seen → Window → Type 0
IsSummary ss w =
    (w.alive ≡ ltb 0 (length ss))
    × (w.headcount ≡ most ss)
    × (w.occ_s ≡ (if length ss == 0 then 0 else occupied ss * period_s / length ss))
    × (w.occ_s ≤ period_s)
    × (w.tracker ≡ any_tracker ss)

occupied-le : (ss : List Seen) → occupied ss ≤ length ss
occupied-le [] = omega arith
occupied-le (s ∷ ss) = ground (arith, occupied-le ss)

count_all-max :
    (ss : List Seen) (acc : Acc)
    → AreCounts ss
    → (count_all ss acc).max_count ≡ max acc.max_count (most ss)
count_all-max [] acc h = omega arith
count_all-max (s ∷ ss) acc h =
    count_all-max ss (count_frame s.uptime s.n s.tracker acc) h.1
    ∙ (unfold count_frame in ground (arith, h.0))

count_all-frames :
    (ss : List Seen) (acc : Acc)
    → acc.frames + length ss < 2 ^ 16
    → (count_all ss acc).frames ≡ acc.frames + length ss
count_all-frames [] acc h = omega arith
count_all-frames (s ∷ ss) acc h =
    count_all-frames ss (count_frame s.uptime s.n s.tracker acc)
      (unfold count_frame in ground (arith, h))
    ∙ (unfold count_frame in ground (arith, h))

count_all-occ :
    (ss : List Seen) (acc : Acc)
    → acc.occ_frames + length ss < 2 ^ 16
    → (count_all ss acc).occ_frames ≡ acc.occ_frames + occupied ss
count_all-occ [] acc h = omega arith
count_all-occ (s ∷ ss) acc h =
    count_all-occ ss (count_frame s.uptime s.n s.tracker acc)
      (unfold count_frame in ground (arith, h))
    ∙ (unfold count_frame in ground (arith, h))

or-false : (b : Bool) → b ≡ b || false
or-false true = refl
or-false false = refl

or_then : (a b c : Bool) → (if a then true else b) || c ≡ b || (a || c)
or_then true true c = refl
or_then true false c = refl
or_then false b c = refl

count_all-tracker :
    (ss : List Seen) (acc : Acc)
    → (count_all ss acc).any_tracker ≡ acc.any_tracker || any_tracker ss
count_all-tracker [] acc = or-false acc.any_tracker
count_all-tracker (s ∷ ss) acc =
    count_all-tracker ss (count_frame s.uptime s.n s.tracker acc)
    ∙ (unfold count_frame in or_then s.tracker acc.any_tracker (any_tracker ss))

occ_s-le : (n k : ℕ) → n ≤ k → n * period_s / k ≤ period_s
occ_s-le n k h = div-le_of_le-mul k (omega arith)

-- What the take makes of the counters.
summary :
    (ss : List Seen) (t : ℕ) (acc : Acc)
    → length ss < 2 ^ 16
    → acc.frames ≡ length ss
    → acc.occ_frames ≡ occupied ss
    → acc.max_count ≡ most ss
    → acc.any_tracker ≡ any_tracker ss
    → IsSummary ss (window_take t acc).0
unfolding window_take
summary ss t acc few frames occ top tracker = (
  ap (λ (n : ℕ). ltb 0 n) frames,
  top,
  rw (frames, occ) (ground (arith, occ_s-le (occupied ss) (length ss) (occupied-le ss))),
  rw (frames, occ) (ground (arith, occ_s-le (occupied ss) (length ss) (occupied-le ss))),
  tracker,
)

-- A window that is taken after another one, with fewer than 65536 frames in between whose counts fit
-- a byte, says of those frames: is there one, the largest count, the seconds of the period in
-- proportion to the frames that were occupied (at most the period, 0 without a frame), and was the
-- tracker seen.
pub window_take-count_all :
    (ss : List Seen) (before : Acc) (t0 t : ℕ)
    → AreCounts ss
    → length ss < 2 ^ 16
    → IsSummary ss (window_take t (count_all ss (window_take t0 before).1)).0
window_take-count_all ss before t0 t h few =
    let acc : Acc = (window_take t0 before).1 in
    summary ss t (count_all ss acc) few
      (count_all-frames ss acc (unfold window_take in omega (arith, few))
        ∙ (unfold window_take in omega arith))
      (count_all-occ ss acc (unfold window_take in omega (arith, few))
        ∙ (unfold window_take in omega arith))
      (count_all-max ss acc h ∙ (unfold window_take in omega arith))
      (count_all-tracker ss acc ∙ (unfold window_take in refl))

-- Every frame of the list is occupied.
abbrev pub AreOccupied : List Seen → Type 0
AreOccupied [] = Unit {0}
AreOccupied (s ∷ ss) = (0 < s.n) × AreOccupied ss

count_all-since :
    (ss : List Seen) (acc : Acc)
    → AreOccupied ss
    → 0 < acc.occ_since
    → (count_all ss acc).occ_since ≡ acc.occ_since
count_all-since [] acc h running = refl
count_all-since (s ∷ ss) acc h running =
    let same : (count_frame s.uptime s.n s.tracker acc).occ_since ≡ acc.occ_since =
      unfold count_frame in ground (arith, h.0, running) in
    count_all-since ss (count_frame s.uptime s.n s.tracker acc) h.1 (omega (arith, same)) ∙ same

count_all-append :
    (xs ys : List Seen) (acc : Acc) → count_all (xs ++ ys) acc ≡ count_all ys (count_all xs acc)
count_all-append [] ys acc = refl
count_all-append (x ∷ xs) ys acc = count_all-append xs ys (count_frame x.uptime x.n x.tracker acc)

-- The occupancy clock after an empty frame, and occupied ones from `first` on.
since_lem :
    (front : List Seen) (gap first : Seen) (rest : List Seen) (acc : Acc)
    → gap.n ≡ 0
    → AreOccupied (first ∷ rest)
    → 0 < first.uptime
    → (count_all (front ++ gap ∷ first ∷ rest) acc).occ_since ≡ first.uptime
since_lem front gap first rest acc empty occ up =
    let c0 : Acc = count_frame gap.uptime gap.n gap.tracker (count_all front acc) in
    let c : Acc = count_frame first.uptime first.n first.tracker c0 in
    let started : c.occ_since ≡ first.uptime = unfold count_frame in ground (arith, empty, occ.0) in
    ap (λ (a : Acc). a.occ_since) (count_all-append front (gap ∷ first ∷ rest) acc)
    ∙ count_all-since rest c occ.1 (omega (arith, started))
    ∙ started

take_since : (t : ℕ) (acc : Acc) → 0 < acc.frames → (window_take t acc).1.occ_since ≡ acc.occ_since
unfolding window_take
take_since t acc some_frame = ground (arith, some_frame)

take_dwell :
    (t : ℕ) (acc : Acc)
    → 0 < acc.frames
    → 0 < acc.occ_since
    → acc.occ_since ≤ t
    → (window_take t acc).0.dwell_s ≡ min 0xFFFF ((t - acc.occ_since) / 1000)
unfolding window_take dwell
take_dwell t acc some_frame running past = ground (arith, some_frame, running, past)

-- The dwell of a window is the time since the first frame of the unbroken occupancy, in seconds and
-- capped at 65535, though another window was taken in between: the room was empty in `gap`, and
-- occupied in each frame from `first` on. The uptimes are after boot and the counters do not
-- overflow.
pub window_take-dwell :
    (front : List Seen) (gap first : Seen) (rest : List Seen) (s : Seen) (later : List Seen)
    (acc : Acc) (t0 t : ℕ)
    → gap.n ≡ 0
    → AreOccupied (first ∷ rest)
    → AreOccupied (s ∷ later)
    → 0 < first.uptime
    → first.uptime ≤ t
    → acc.frames + length (front ++ gap ∷ first ∷ rest) < 2 ^ 16
    → length (s ∷ later) < 2 ^ 16
    → (window_take t (
        count_all
          (s ∷ later)
          (window_take t0 (count_all (front ++ gap ∷ first ∷ rest) acc)).1)).0.dwell_s
      ≡ min 0xFFFF ((t - first.uptime) / 1000)
window_take-dwell front gap first rest s later acc t0 t empty occ occ' up past few few' =
    let c : Acc = count_all (front ++ gap ∷ first ∷ rest) acc in
    let k : Acc = (window_take t0 c).1 in
    let counted : c.frames ≡ acc.frames + length (front ++ gap ∷ first ∷ rest) =
      count_all-frames (front ++ gap ∷ first ∷ rest) acc few in
    let since : k.occ_since ≡ first.uptime =
      take_since t0 c (omega (arith, counted, length-append front (gap ∷ first ∷ rest)))
      ∙ since_lem front gap first rest acc empty occ up in
    let kept : (count_all (s ∷ later) k).occ_since ≡ first.uptime =
      count_all-since (s ∷ later) k occ' (omega (arith, since)) ∙ since in
    let none_yet : k.frames ≡ 0 = unfold window_take in refl in
    let counted' : (count_all (s ∷ later) k).frames ≡ k.frames + length (s ∷ later) =
      count_all-frames (s ∷ later) k (omega (arith, none_yet, few')) in
    take_dwell t (count_all (s ∷ later) k) (omega (arith, counted')) (omega (arith, kept))
      (omega (arith, kept, past))
    ∙ ap (λ (u : ℕ). min 0xFFFF ((t - u) / 1000)) kept
