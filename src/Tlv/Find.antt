-- ===== src/Tlv/Find.antt =====
-- `tlv_find` of tlv.c: the payload of the first TLV of a type.
pub mod Bounds
pub mod Lookup
use n_rf5340_presence_test.Base.{
  ℕ, zero, suc, ◌+◌, Bool, true, false, ◌||◌, List, Option, none, some, ltb, leb, ◌==◌, ◌>>=◌,
}
use n_rf5340_presence_test.Base.Word.{u32}
use n_rf5340_presence_test.Tlv.{hdr_len, rd_u32}

-- A returned pointer is its index in the frame, with the `*len_out` beside it; NULL is `none`.
abbrev pub Found : Type 0
Found = Option (ℕ × ℕ)

-- `while (off + 8 <= total)`, on fuel. The outer `none` is a read out of range, or no fuel left.
unfoldable pub find_loop : List ℕ → ℕ → ℕ → ℕ → ℕ → Option Found
find_loop frame type total zero off = none
find_loop frame type total (suc fuel) off = elim (leb (u32 (off + 8)) total) [
  | false ↦ some none
  | true ↦ do
    t ← rd_u32 frame off
    ln ← rd_u32 frame (off + 4)
    elim (ltb total ln || ltb total (u32 (off + 8 + ln))) [
      | true ↦ some none
      | false ↦ elim (t == type) [
        | true ↦ some (some (off + 8, ln))
        | false ↦ find_loop frame type total fuel (u32 (off + u32 (8 + ln)))
      ]
    ]
]

-- Each round moves `off` by 8 at least, so more rounds than `total` are never needed.
unfoldable pub find : List ℕ → ℕ → Option Found
unfolding find_loop
find frame type = do total ← rd_u32 frame 12; find_loop frame type total (suc total) hdr_len
