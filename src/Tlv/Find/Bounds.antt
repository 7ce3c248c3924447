-- ===== src/Tlv/Find/Bounds.antt =====
-- `tlv_find` ends, reads nothing outside the frame, and answers with a payload inside it.
use n_rf5340_presence_test.Base.{
  ℕ, zero, suc, ◌+◌, ◌-◌, ◌≤◌, ◌<◌, ◌≡◌, ◌≢◌, refl, ◌∙◌, ap, true, false, ◌||◌, inl, inr, List,
  none, some, ltb, leb, ◌==◌, ==_iff, arith, length, IsBytes, Bool-cases,
}
use n_rf5340_presence_test.Base.Word.{u32}
use native.Mathlib.Decide.{dec_le}
use n_rf5340_presence_test.Tlv.{hdr_len, max_frame, rd_u32}
use n_rf5340_presence_test.Tlv.Read.{le32, rd_u32-eq-le32}
use n_rf5340_presence_test.Tlv.Find.{Found, find_loop, find}

-- An answer lies in the frame, behind a TLV header of that type and length.
abbrev pub IsInside : List ℕ → ℕ → ℕ → Found → Type 0
IsInside frame type total none = Unit {0}
IsInside frame type total (some (p, ln)) =
    (hdr_len + 8 ≤ p) × (p + ln ≤ total) × (le32 frame (p - 8) ≡ type) × (le32 frame (p - 4) ≡ ln)

leb_when : (a b : ℕ) → a ≤ b → leb a b ≡ true
leb_when a b k = ground arith

add_sub : (a b : ℕ) → a + b - b ≡ a
add_sub a b = omega arith

module _ (frame : List ℕ) (type total : ℕ) (bytes : IsBytes frame) (held : total ≤ length frame)
    (small : total ≤ max_frame) where
  read_at : (o : ℕ) → o + 3 < total → rd_u32 frame o ≡ some (le32 frame o)
  read_at o h = rd_u32-eq-le32 frame o bytes (omega arith)

  -- One round with both words read.
  find_loop-suc :
      (fuel off : ℕ)
      → off + 8 ≤ total
      → find_loop frame type total (suc fuel) off
        ≡ elim (ltb total (le32 frame (off + 4))
            || ltb total (u32 (off + 8 + le32 frame (off + 4)))) [
              | true ↦ some none
              | false ↦ elim (le32 frame off == type) [
                | true ↦ some (some (off + 8, le32 frame (off + 4)))
                | false ↦
                    find_loop frame type total fuel (u32 (off + u32 (8 + le32 frame (off + 4))))
              ]
            ]
  unfolding find_loop
  find_loop-suc fuel off h =
      rw (leb_when (u32 (off + 8)) total (omega arith), find_loop)
        (rw (read_at off (omega arith), read_at (off + 4) (omega arith)) refl)

  -- A TLV of the type asked for.
  pub find_loop_hit :
      (fuel off ln : ℕ)
      → off + 8 + ln ≤ total
      → le32 frame (off + 4) ≡ ln
      → le32 frame off ≡ type
      → find_loop frame type total (suc fuel) off ≡ some (some (off + 8, ln))
  find_loop_hit fuel off ln fits e hit =
      find_loop-suc fuel off (omega arith) ∙ ground (arith, e, hit)

  -- A TLV of another type.
  pub find_loop_next :
      (fuel off ln : ℕ)
      → off + 8 + ln ≤ total
      → le32 frame (off + 4) ≡ ln
      → le32 frame off ≢ type
      → find_loop frame type total (suc fuel) off ≡ find_loop frame type total fuel (off + 8 + ln)
  find_loop_next fuel off ln fits e miss =
      find_loop-suc fuel off (omega arith)
      ∙ rw
          (
            e,
            stop ln (u32 (off + 8 + ln)) (omega arith) (omega arith),
            differs (le32 frame off) miss,
          )
          (ap (λ (o : ℕ). find_loop frame type total fuel o) (omega arith))
    where
      stop : (a b : ℕ) → a ≤ total → b ≤ total → ltb total a || ltb total b ≡ false
      stop a b h k = ground arith

      differs : (t : ℕ) → t ≢ type → (t == type) ≡ false
      differs t h = ground arith

  find_loop_total :
      (fuel off : ℕ)
      → hdr_len ≤ off
      → off ≤ total
      → total < fuel + off
      → (found : Found) × (find_loop frame type total fuel off ≡ some found)
        × IsInside frame type total found
  find_loop_total zero off low high enough = absurd (omega arith)
  find_loop_total (suc fuel) off low high enough = elim (dec_le (off + 8) total) [
    | no out ↦ (none, unfold find_loop in ground arith, tt)
    | yes inside ↦
        let ln : ℕ = le32 frame (off + 4) in
        elim (Bool-cases (ltb total ln || ltb total (u32 (off + 8 + ln)))) [
          | inl lying ↦ (none, find_loop-suc fuel off inside ∙ rw lying refl, tt)
          | inr fits ↦ elim (Bool-cases (le32 frame off == type)) [
            | inl hit ↦ (
              some (off + 8, ln),
              find_loop-suc fuel off inside ∙ rw (fits, hit) refl,
              (
                omega arith,
                ground arith,
                rw (add_sub off 8) ((==_iff (le32 frame off) type).0 hit),
                ap (λ (o : ℕ). le32 frame o) (omega arith),
              ),
            )
            | inr miss ↦
                let (found, e, ok) =
                  find_loop_total fuel (u32 (off + u32 (8 + ln))) (ground arith) (ground arith)
                    (ground arith) in
                (found, find_loop-suc fuel off inside ∙ rw (fits, miss) e, ok)
          ]
        ]
  ]

-- In a frame whose header claims at most its length, and at most 2048 bytes, `tlv_find` ends and
-- reads nothing out of range; a payload that it answers with lies in the frame behind a TLV header
-- of the type asked for, which claims the answered length.
pub find_total :
    (frame : List ℕ) (type : ℕ)
    → IsBytes frame
    → 16 ≤ length frame
    → le32 frame 12 ≤ length frame
    → le32 frame 12 ≤ max_frame
    → (found : Found) × (find frame type ≡ some found) × IsInside frame type (le32 frame 12) found
unfolding find
find_total frame type bytes some_header held small =
    rw (rd_u32-eq-le32 frame 12 bytes some_header) (elim (dec_le hdr_len total) [
      | yes headed ↦
          find_loop_total frame type total bytes held small (suc total) hdr_len (omega arith) headed
            (omega arith)
      | no short ↦ (none, unfold find_loop in ground arith, tt)
    ])
  where
    total : ℕ
    total = le32 frame 12
