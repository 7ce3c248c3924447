-- ===== src/Radar/Types/Reads.antt =====
-- Where the list of TLV types is read.
use n_rf5340_presence_test.Base.{
  ℕ, zero, suc, ◌+◌, ◌-◌, ◌^◌, ◌≤◌, ◌<◌, ◌≡◌, ◌⊎◌, refl, List, [], ◌∷◌, none, some, arith, length,
  get_elem?, Bool, true, false, inl, inr, bit_or, not, if◌then◌else◌,
}
use native.Mathlib.Decide.{dec_le}
use n_rf5340_presence_test.Base.Word.{u32}
use n_rf5340_presence_test.Tlv.{hdr_len, max_frame, Header, rd_u32, header_get}
use n_rf5340_presence_test.Tlv.Read.{le32, rd_u32-eq-le32}
use n_rf5340_presence_test.Radar.Stream.Total.{IsHeld}
use n_rf5340_presence_test.Radar.Types.{tlv_list, type_mask, is_new, note_types}

-- The walk from an offset, with so many TLVs left, comes to the end of the frame, or its next offset
-- leaves room for the sum with 8 below 2 ^ 32, and so on: of the TLV headers that the walk visits,
-- none has a length that makes it wrap.
abbrev pub StaysBelow : List ℕ → ℕ → ℕ → Type 0
StaysBelow buf zero off = Unit {0}
StaysBelow buf (suc left) off =
    (le32 buf 12 < off + 8)
    ⊎ ((off + 16 + le32 buf (off + 4) < 2 ^ 32)
        × StaysBelow buf left (off + 8 + le32 buf (off + 4)))

-- The walk over the TLVs that the header announces.
abbrev pub NeverWraps : List ℕ → Type 0
NeverWraps buf = StaysBelow buf (le32 buf 32) hdr_len

branch {ℓ} :
    {A : Type ℓ} (x y : A) (b : Bool) → (if b then some x else some y) ≡ some (if b then x else y)
branch x y true = refl
branch x y false = refl

get_elem?-past : (p : List ℕ) (i : ℕ) → length p ≤ i → get_elem? p i ≡ none
get_elem?-past [] i h = refl
get_elem?-past (x ∷ p) zero h = absurd (omega arith)
get_elem?-past (x ∷ p) (suc i) h = get_elem?-past p i (omega arith)

rd_u32-past : (p : List ℕ) (o : ℕ) → length p ≤ o → rd_u32 p o ≡ none
unfolding rd_u32
rd_u32-past p o h = rw (get_elem?-past p o h) refl

module _ (buf : List ℕ) (held : IsHeld buf) where
  list_stop :
      (left off : ℕ)
      → le32 buf 12 < off + 8
      → off + 8 < 2 ^ 32
      → tlv_list buf (le32 buf 12) left off ≡ some []
  unfolding tlv_list
  list_stop zero off h range = refl
  list_stop (suc left) off h range = ground arith

  list_step :
      (left off : ℕ) (more : List (ℕ × ℕ))
      → off + 8 ≤ le32 buf 12
      → off + 16 + le32 buf (off + 4) < 2 ^ 32
      → tlv_list buf (le32 buf 12) left (off + 8 + le32 buf (off + 4)) ≡ some more
      → tlv_list buf (le32 buf 12) (suc left) off ≡ some ((le32 buf off, le32 buf (off + 4)) ∷ more)
  unfolding tlv_list
  list_step left off more h range e = ground (
    arith,
    rd_u32-eq-le32 buf off held.bytes (omega (arith, held.room, held.most)),
    rd_u32-eq-le32 buf (off + 4) held.bytes (omega (arith, held.room, held.most)),
    e,
  )

  list_lem :
      (left off : ℕ)
      → off + 8 < 2 ^ 32
      → StaysBelow buf left off
      → (met : List (ℕ × ℕ)) × (tlv_list buf (le32 buf 12) left off ≡ some met)
  list_lem zero off h below = ([], unfold tlv_list in refl)
  list_lem (suc left) off h (inl past) = ([], list_stop (suc left) off past h)
  list_lem (suc left) off h (inr (range, below)) = elim (dec_le (off + 8) (le32 buf 12)) [
    | no past ↦ ([], list_stop (suc left) off (omega arith) h)
    | yes inside ↦
        let (more, e) = list_lem left (off + 8 + le32 buf (off + 4)) (omega arith) below in
        ((le32 buf off, le32 buf (off + 4)) ∷ more, list_step left off more inside range e)
  ]

  abbrev pub header_of : Header
  header_of = record {
    version = le32 buf 8;
    total_len = le32 buf 12;
    platform = le32 buf 16;
    frame_no = le32 buf 20;
    cpu_cycles = le32 buf 24;
    num_detected = le32 buf 28;
    num_tlvs = le32 buf 32;
    sub_frame = le32 buf 36;
  }

  word_at : (o : ℕ) → o + 3 < max_frame → rd_u32 buf o ≡ some (le32 buf o)
  word_at o h = rd_u32-eq-le32 buf o held.bytes (omega (arith, held.room))

  pub header_read : header_get buf ≡ some header_of
  unfolding header_get
  header_read =
      rw
        (
          word_at 8 (omega arith),
          word_at 12 (omega arith),
          word_at 16 (omega arith),
          word_at 20 (omega arith),
          word_at 24 (omega arith),
          word_at 28 (omega arith),
          word_at 32 (omega arith),
          word_at 36 (omega arith),
        )
        refl

  -- `note_types` of a buffer that the reassembler delivers reads nothing out of range and ends, if
  -- no TLV header that its walk visits takes the next offset past 2 ^ 32.
  pub note_types_lem :
      (seen : ℕ) → NeverWraps buf → (out : ℕ × List (ℕ × ℕ)) × (note_types buf seen ≡ some out)
  unfolding note_types
  note_types_lem seen never =
      let (met, e) = list_lem (le32 buf 32) hdr_len (omega arith) never in
      (
        if not (is_new (type_mask 0 met) seen)
            then (seen, [])
            else (bit_or seen (type_mask 0 met), met),
        rw (header_read, e) (branch _ _ (not (is_new (type_mask 0 met) seen))),
      )

  -- An offset 8 below 2 ^ 32 passes the test, and is far outside the buffer.
  past : (left off : ℕ) → off ≡ 2 ^ 32 - 8 → tlv_list buf (le32 buf 12) (suc left) off ≡ none
  unfolding tlv_list
  past left off e = ground (arith, rd_u32-past buf off (omega (arith, held.room)))

  list_fault :
      (left off next : ℕ)
      → off + 8 ≤ le32 buf 12
      → u32 (off + u32 (8 + le32 buf (off + 4))) ≡ next
      → tlv_list buf (le32 buf 12) left next ≡ none
      → tlv_list buf (le32 buf 12) (suc left) off ≡ none
  unfolding tlv_list
  list_fault left off next h to e = ground (
    arith,
    rd_u32-eq-le32 buf off held.bytes (omega (arith, held.room, held.most)),
    rd_u32-eq-le32 buf (off + 4) held.bytes (omega (arith, held.room, held.most)),
    held.most,
    e,
  )

  -- Such a length makes it read out of range: with two TLVs in the header and the first length 56
  -- below 2 ^ 32, the second offset is 8 below, and its sum with 8 wraps to 0 and passes the test.
  pub note_types_wraps :
      (seen left : ℕ)
      → 48 ≤ le32 buf 12
      → le32 buf 32 ≡ suc (suc left)
      → le32 buf 44 ≡ 2 ^ 32 - 56
      → note_types buf seen ≡ none
  unfolding note_types
  note_types_wraps seen left room two length =
      rw
        (
          header_read,
          two,
          list_fault (suc left) hdr_len (2 ^ 32 - 8) room (omega (arith, length))
              (past left (2 ^ 32 - 8) refl),
        )
        refl
