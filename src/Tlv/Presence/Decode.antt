-- ===== src/Tlv/Presence/Decode.antt =====
-- `tlv_presence` decodes the packed states, and is safe on any payload.
use n_rf5340_presence_test.Base.{
  ℕ, zero, suc, ◌+◌, ◌*◌, ◌/◌, ◌%◌, ◌^◌, ◌≤◌, ◌<◌, ◌≡◌, refl, ◌∙◌, ap, List, [], ◌∷◌, ◌++◌, some,
  ltb, if◌then◌else◌, arith, min, length, take, take_all, drop, drop-suc, get_or, get_or-past,
  get_elem?-eq-get_or, get_or-append_left, byte_at, length-append,
}
use native.Mathlib.Decide.{dec_lt}
use native.Mathlib.Nat.{zero-div}
use n_rf5340_presence_test.Base.Word.{◌>>>◌}
use n_rf5340_presence_test.Base.Bits.{bit_and_mask}
use n_rf5340_presence_test.Tlv.Presence.{zone, zones, presence}

-- Every state is in range.
abbrev pub AreStates : List ℕ → Type 0
AreStates [] = Unit {0}
AreStates (s ∷ states) = (s < 4) × AreStates states

zone_inside :
    (payload : List ℕ) (len z : ℕ)
    → len ≤ length payload
    → zone payload len z
      ≡ some
          (if ltb (1 + z / 4) len then byte_at payload (1 + z / 4) / 2 ^ (2 * (z % 4)) % 4 else 0)
unfolding zone
zone_inside payload len z held = ground (
  arith,
  get_elem?-eq-get_or payload (1 + z / 4) 0,
  bit_and_mask 2 (byte_at payload (1 + z / 4) >>> (2 * (z % 4))),
)

zones_total :
    (payload : List ℕ) (len left z : ℕ)
    → len ≤ length payload
    → (states : List ℕ) × (zones payload len left z ≡ some states)
      × (length states ≡ left)
      × AreStates states
unfolding zones
zones_total payload len zero z held = ([], refl, refl, tt)
zones_total payload len (suc left) z held =
    let (states, e, l, ok) = zones_total payload len left (suc z) held in
    let state : ℕ =
      if ltb (1 + z / 4) len then byte_at payload (1 + z / 4) / 2 ^ (2 * (z % 4)) % 4 else 0 in
    (state ∷ states, rw (zone_inside payload len z held, e) refl, ap suc l, (ground arith, ok))

-- On any payload of at least `len` bytes `tlv_presence` reads nothing out of range, and writes one
-- state of at most 3 for each zone that the payload announces, up to the room in `out`.
pub presence_total :
    (payload : List ℕ) (len room : ℕ)
    → 2 ≤ len
    → len ≤ length payload
    → (states : List ℕ) × (presence (some payload) len room ≡ some states)
      × (length states ≡ min room (byte_at payload 0))
      × AreStates states
unfolding presence
presence_total payload len room two held =
    let (states, e, l, ok) =
      zones_total payload len (if ltb room (byte_at payload 0) then room else byte_at payload 0) 0
        held in
    (states, ground (arith, get_elem?-eq-get_or payload 0 0, e), l ∙ ground arith, ok)

-- Four states to a byte, the first in the low bits.
abbrev pub pack : List ℕ → List ℕ
pack [] = []
pack (a ∷ []) = a ∷ []
pack (a ∷ b ∷ []) = (a + 4 * b) ∷ []
pack (a ∷ b ∷ c ∷ []) = (a + 4 * b + 16 * c) ∷ []
pack (a ∷ b ∷ c ∷ d ∷ states) = (a + 4 * b + 16 * c + 64 * d) ∷ pack states

next_byte : (z : ℕ) → suc (suc (suc (suc z))) / 4 ≡ suc (z / 4)
next_byte z = omega arith

same_place : (z : ℕ) → suc (suc (suc (suc z))) % 4 ≡ z % 4
same_place z = omega arith

-- A field of two bits of the packed states; past the end both sides are 0.
field :
    (states : List ℕ) (z : ℕ)
    → AreStates states
    → byte_at (pack states) (z / 4) / 2 ^ (2 * (z % 4)) % 4 ≡ get_or states z 0
field [] z h = omega (arith, zero-div (2 ^ (2 * (z % 4))))
field (a ∷ []) zero h = omega arith
field (a ∷ []) (suc zero) h = omega arith
field (a ∷ []) (suc (suc zero)) h = omega arith
field (a ∷ []) (suc (suc (suc zero))) h = omega arith
field (a ∷ []) (suc (suc (suc (suc z)))) h =
    rw (next_byte z) (omega (arith, zero-div (2 ^ (2 * (suc (suc (suc (suc z))) % 4)))))
field (a ∷ b ∷ []) zero h = omega arith
field (a ∷ b ∷ []) (suc zero) h = omega arith
field (a ∷ b ∷ []) (suc (suc zero)) h = omega arith
field (a ∷ b ∷ []) (suc (suc (suc zero))) h = omega arith
field (a ∷ b ∷ []) (suc (suc (suc (suc z)))) h =
    rw (next_byte z) (omega (arith, zero-div (2 ^ (2 * (suc (suc (suc (suc z))) % 4)))))
field (a ∷ b ∷ c ∷ []) zero h = omega arith
field (a ∷ b ∷ c ∷ []) (suc zero) h = omega arith
field (a ∷ b ∷ c ∷ []) (suc (suc zero)) h = omega arith
field (a ∷ b ∷ c ∷ []) (suc (suc (suc zero))) h = omega arith
field (a ∷ b ∷ c ∷ []) (suc (suc (suc (suc z)))) h =
    rw (next_byte z) (omega (arith, zero-div (2 ^ (2 * (suc (suc (suc (suc z))) % 4)))))
field (a ∷ b ∷ c ∷ d ∷ states) zero h = omega arith
field (a ∷ b ∷ c ∷ d ∷ states) (suc zero) h = omega arith
field (a ∷ b ∷ c ∷ d ∷ states) (suc (suc zero)) h = omega arith
field (a ∷ b ∷ c ∷ d ∷ states) (suc (suc (suc zero))) h = omega arith
field (a ∷ b ∷ c ∷ d ∷ states) (suc (suc (suc (suc z)))) h =
    rw (next_byte z, same_place z) (field states z h.1.1.1.1)

-- A payload as the radar packs it.
abbrev pub announce : List ℕ → List ℕ → List ℕ
announce states more = length states ∷ (pack states ++ more)

zone-pack :
    (states more : List ℕ) (z : ℕ)
    → AreStates states
    → zone (announce states more) (1 + length (pack states)) z ≡ some (get_or states z 0)
zone-pack states more z h =
    zone_inside (announce states more) (1 + length (pack states)) z
      (omega (arith, length-append (pack states) more))
    ∙ ap some (elim (dec_lt (z / 4) (length (pack states))) [
      | yes inside ↦
          rw (one_add (z / 4)) (
            ground
              (arith, get_or-append_left (pack states) more (z / 4) 0 inside, field states z h))
      | no outside ↦ ground (
        arith,
        get_or-past (pack states) (z / 4) 0 (omega arith),
        field states z h,
        zero-div (2 ^ (2 * (z % 4))),
      )
    ])
  where
    one_add : (n : ℕ) → 1 + n ≡ suc n
    one_add n = omega arith

zones-pack :
    (states more : List ℕ) (left z : ℕ)
    → AreStates states
    → z + left ≤ length states
    → zones (announce states more) (1 + length (pack states)) left z
      ≡ some (take left (drop z states))
unfolding zones
zones-pack states more zero z h fits = refl
zones-pack states more (suc left) z h fits =
    rw
      (
        zone-pack states more z h,
        zones-pack states more left (suc z) h (omega arith),
        drop-suc z states 0 (omega arith),
      )
      refl

pack_pos : (states : List ℕ) → 0 < length states → 0 < length (pack states)
pack_pos [] h = h
pack_pos (a ∷ []) h = omega arith
pack_pos (a ∷ b ∷ []) h = omega arith
pack_pos (a ∷ b ∷ c ∷ []) h = omega arith
pack_pos (a ∷ b ∷ c ∷ d ∷ states) h = omega arith

-- The states that the radar packs come back, for one zone at least, as many as `out` has room for.
pub presence_decodes :
    (states more : List ℕ) (room : ℕ)
    → AreStates states
    → 0 < length states
    → presence (some (announce states more)) (1 + length (pack states)) room
      ≡ some (take room states)
unfolding presence
presence_decodes states more room h some_zone = ground (
  arith,
  pack_pos states some_zone,
  zones-pack states more (if ltb room (length states) then room else length states) 0 h
      (ground arith),
  take_all room states,
  take_all (length states) states,
)
