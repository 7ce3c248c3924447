-- ===== src/Radar/Types.antt =====
-- The end of `on_frame` of radar.c, which lists the TLVs of a frame when a type is new.
pub mod Reads
use n_rf5340_presence_test.Base.{
  ℕ, zero, suc, ◌+◌, ◌-◌, ◌^◌, Bool, true, false, not, List, [], ◌∷◌, Option, some, leb, ◌==◌,
  if◌then◌else◌, ◌>>=◌, bit_and, bit_or, bit_xor,
}
use n_rf5340_presence_test.Base.Word.{u32, ◌<<<◌}
use n_rf5340_presence_test.Tlv.{hdr_len, rd_u32, header_get}

-- The types and lengths that a walk meets: `for (i = 0; i < num_tlvs && off + 8 <= total_len; i++)`,
-- with the rounds that are left by `i`. `none` is a read out of range.
unfoldable pub tlv_list : List ℕ → ℕ → ℕ → ℕ → Option (List (ℕ × ℕ))
tlv_list frame total zero off = some []
tlv_list frame total (suc left) off = elim (leb (u32 (off + 8)) total) [
  | false ↦ some []
  | true ↦ do
    t ← rd_u32 frame off
    l ← rd_u32 frame (off + 4)
    more ← tlv_list frame total left (u32 (off + u32 (8 + l)))
    some ((t, l) ∷ more)
]

-- `mask |= BIT((t - 300) & 31)`
abbrev pub type_mask : ℕ → List (ℕ × ℕ) → ℕ
type_mask mask [] = mask
type_mask mask ((t, l) ∷ more) =
    type_mask (bit_or mask (1 <<< bit_and (u32 (t + (2 ^ 32 - 300))) 31)) more

-- `if (mask & ~types_seen)`
abbrev pub is_new : ℕ → ℕ → Bool
is_new mask seen = not (bit_and mask (bit_xor seen 0xFFFFFFFF) == 0)

-- The types that were seen, and what is printed: nothing, or the list of a second walk.
unfoldable pub note_types : List ℕ → ℕ → Option (ℕ × List (ℕ × ℕ))
unfolding tlv_list
note_types frame seen = do
  h ← header_get frame
  met ← tlv_list frame h.total_len h.num_tlvs hdr_len
  if not (is_new (type_mask 0 met) seen) then some (seen, []) else (do
    shown ← tlv_list frame h.total_len h.num_tlvs hdr_len
    some (bit_or seen (type_mask 0 met), shown))
