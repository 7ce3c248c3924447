-- ===== src/Tlv/Presence.antt =====
-- `tlv_presence` of tlv.c: one state of two bits for each zone.
pub mod Decode
use n_rf5340_presence_test.Base.{
  ℕ, zero, suc, ◌+◌, ◌*◌, ◌/◌, ◌%◌, List, [], ◌∷◌, Option, none, some, ltb, if◌then◌else◌,
  get_elem?, ◌>>=◌, bit_and,
}
use n_rf5340_presence_test.Base.Word.{◌>>>◌}

-- `out[z]`
unfoldable pub zone : List ℕ → ℕ → ℕ → Option ℕ
zone payload len z =
    let byte_idx = 1 + z / 4 in
    if ltb byte_idx len
    then (do b ← get_elem? payload byte_idx; some (bit_and (b >>> (2 * (z % 4))) 3))
    else some 0

-- The loop over `z`, with `left` rounds to go. The list is what is written.
unfoldable pub zones : List ℕ → ℕ → ℕ → ℕ → Option (List ℕ)
unfolding zone
zones payload len zero z = some []
zones payload len (suc left) z = do
  state ← zone payload len z
  states ← zones payload len left (suc z)
  some (state ∷ states)

-- `payload` is the memory from the pointer on; `none` is NULL. The returned count is the length.
unfoldable pub presence : Option (List ℕ) → ℕ → ℕ → Option (List ℕ)
unfolding zones
presence none len max = some []
presence (some payload) len max =
    if ltb len 2
    then some []
    else (do n ← get_elem? payload 0; zones payload len (if ltb max n then max else n) 0)
