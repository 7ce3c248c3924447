-- ===== src/Tests/RadioTests.antt =====
-- The radar's stream and its TLVs at concrete inputs.
use n_rf5340_presence_test.Base.{
  ℕ, zero, suc, ◌<◌, ◌≡◌, refl, Bool, false, List, [], ◌∷◌, ◌++◌, some, arith, length, map, drop,
  replicate, length-replicate, length-append, ap, IsBytes,
}
use mathlib.Core.Option
use n_rf5340_presence_test.Tlv.{magic, magic_len, max_frame}
use n_rf5340_presence_test.Tlv.Read.{le32}
use n_rf5340_presence_test.Tlv.Reasm.{Reasm, push}
use n_rf5340_presence_test.Tlv.Reasm.Valid.{After, push_total}
use n_rf5340_presence_test.Tlv.Find.{Found, find}
use n_rf5340_presence_test.Tlv.Find.Bounds.{IsInside, find_total}
use n_rf5340_presence_test.Tlv.Find.Lookup
use n_rf5340_presence_test.Tlv.Find.Lookup.{Tlv, IsTlvFrame, first_value, payload, find-first_value}
use n_rf5340_presence_test.Tlv.Targets.{Target}
use n_rf5340_presence_test.Tlv.Targets.Decode
use n_rf5340_presence_test.Tlv.Targets.Decode.{Track, encode_2d}
use n_rf5340_presence_test.Radar.Window.{Acc}
use n_rf5340_presence_test.Radar.Window.Scene.{Scene}
use n_rf5340_presence_test.Radar.Stream.{pump}
use n_rf5340_presence_test.Radar.Stream.Receive.{IsFrame, hunting}
use n_rf5340_presence_test.Radar.Stream.Noise.{Segment, HasMagic, wire, claimed, receive_stream}

pub IsBytes-zeros : (n : ℕ) → IsBytes (replicate n 0)
IsBytes-zeros zero = tt
IsBytes-zeros (suc n) = (omega arith, IsBytes-zeros n)

abbrev pub zeros : List ℕ
zeros = replicate max_frame 0

-- A header that claims n bytes, with one TLV announced.
abbrev header_of : ℕ → List ℕ
header_of n =
    magic
    ++ (4 ∷ 5 ∷ 3 ∷ 5 ∷ n ∷ 0 ∷ 0 ∷ 0 ∷ 0x32 ∷ 0x64 ∷ 0 ∷ 0 ∷ 9 ∷ 0 ∷ 0 ∷ 0 ∷ 1 ∷ 2 ∷ 3 ∷ 4 ∷ 0 ∷ 0
        ∷ 0 ∷ 0 ∷ 1 ∷ 0 ∷ 0 ∷ 0 ∷ 0 ∷ 0 ∷ 0 ∷ 0 ∷ [])

abbrev pub empty_frame : List ℕ
empty_frame = header_of 40

abbrev noisy : Segment
noisy = record { noise = 2 ∷ 1 ∷ 9 ∷ []; frame = empty_frame }

abbrev silent : Segment
silent = record { noise = []; frame = empty_frame }

too_short : (xs : List ℕ) → length xs < 8 → ¬ HasMagic xs
too_short xs h (before, after, e) =
    omega (arith, ap (length {A = ℕ}) e, length-append before (magic ++ after))

empty_frame-IsFrame : IsFrame empty_frame
empty_frame-IsFrame = record {
  body = drop magic_len empty_frame;
  starts = refl;
  bytes = omega arith;
  least = omega arith;
  most = omega arith;
  claimed = refl;
}

receive_stream_example :
    (frames : List (List ℕ)) × (last : List ℕ) × (pump
        (hunting zeros 0)
        (wire (noisy ∷ silent ∷ []))
      ≡ some (frames, hunting last 0))
    × (map claimed frames ≡ map (λ s. s.frame) (noisy ∷ silent ∷ []))
receive_stream_example =
    receive_stream (noisy ∷ silent ∷ []) zeros
      (
        too_short (2 ∷ 1 ∷ 9 ∷ []) (omega arith),
        empty_frame-IsFrame,
        (too_short [] (omega arith), empty_frame-IsFrame, tt),
      )
      (length-replicate {A = ℕ} max_frame 0) (IsBytes-zeros max_frame)

push_total_example : (out : Bool × Reasm) × (push (hunting zeros 0) 2 ≡ some out) × After out
push_total_example =
    push_total (hunting zeros 0) 2
      (record {
        room = length-replicate {A = ℕ} max_frame 0;
        bytes = IsBytes-zeros max_frame;
        matched = omega arith;
        unread = λ _. omega arith;
        enough = λ h. absurd (h refl);
        unfinished = λ h. absurd (h refl);
        bounded = omega arith;
        claimed = λ h. absurd (h refl);
      })
      (omega arith)

abbrev zone_tlv : Tlv
zone_tlv = record { tag = 315; value = 2 ∷ 9 ∷ [] }

abbrev front : List ℕ
front = header_of 50

abbrev pub zone_frame : List ℕ
zone_frame = front ++ (Lookup.encode_all (zone_tlv ∷ []) ++ [])

find_total_example :
    (found : Found) × (find zone_frame 315 ≡ some found)
    × IsInside zone_frame 315 (le32 zone_frame 12) found
find_total_example =
    find_total zone_frame 315 (omega arith) (omega arith) (omega arith) (omega arith)

zone_frame-IsTlvFrame : IsTlvFrame front (zone_tlv ∷ []) []
zone_frame-IsTlvFrame = record {
  header = refl;
  tags = omega arith;
  bytes = omega arith;
  claimed = refl;
  small = omega arith;
}

find-first_value_example :
    (found : Found) × (find zone_frame 315 ≡ some found)
    × (Option.map (payload zone_frame) found ≡ first_value 315 (zone_tlv ∷ []))
find-first_value_example = find-first_value 315 front (zone_tlv ∷ []) [] zone_frame-IsTlvFrame

abbrev empty_room : Acc
empty_room = record {
  max_count = 0;
  frames = 7;
  occ_frames = 0;
  any_tracker = false;
  occ_since = 0;
}

abbrev person : Target
person = record { tid = 7; x = 0x3F800000; y = 0x40000000; z = 0 }

-- Two people in the 2D layout.
abbrev walker : ℕ → Track
walker tid = record { target = record person { tid = tid }; others = replicate 64 0 }

abbrev flat_tlv : Tlv
flat_tlv = record { tag = 308; value = Decode.encode_all encode_2d (walker 7 ∷ walker 8 ∷ []) }

abbrev crowd_front : List ℕ
crowd_front = header_of 200
