-- ===== src/Ble/Dump/Whole.antt =====
-- A dump as a whole: the notifications, put together, are one frame.
use n_rf5340_presence_test.Base.{
  ℕ, suc, ◌+◌, ◌/◌, ◌%◌, ◌^◌, ◌≤◌, ◌<◌, ◌≡◌, refl, sym, ◌∙◌, ap, ap₂, Bool, true, false, not, inl,
  inr, List, [], ◌∷◌, ◌++◌, Option, none, some, arith, length, length-append, append_assoc, bit_and,
  Bool-cases, Option-cases,
}
use mathlib.Core.Path.{subst}
use n_rf5340_presence_test.Base.Int.{ℤ, is_neg}
use n_rf5340_presence_test.Base.Bits.{bit_and_mask}
use n_rf5340_presence_test.Base.Word.{u8, u32, ◌>>>◌}
use n_rf5340_presence_test.Frame.Crc.{crc16, crc16-append, crc16-lt}
use n_rf5340_presence_test.Frame.Record.{Record, crc_size, encode_header}
use n_rf5340_presence_test.Frame.Record.Roundtrip.{length-encode_header}
use n_rf5340_presence_test.Ble.Dump.{buf_size, make_room, dump_loop, dump_end, dump_frame}
use n_rf5340_presence_test.Ble.Dump.Wire.{
  Log, concat, concat-snoc, AllShort, AllShort-snoc, link, limit, records, AllTaken, AllTaken-snoc,
  IsRefused, IsAdded, make_room_lem, write_bytes_lem, loop_lem,
}

-- The CRC on the wire, low byte first.
abbrev pub crc_bytes : ℕ → List ℕ
crc_bytes crc = crc % 256 ∷ crc / 256 ∷ []

crc_split :
    (crc : ℕ)
    → crc < 2 ^ 16
    → ◌≡◌ {A = List ℕ} (u8 (bit_and crc 0xFF) ∷ u8 (crc >>> 8) ∷ []) (crc_bytes crc)
crc_split crc h = ap₂ (λ (a b : ℕ). a ∷ b ∷ []) (omega (arith, bit_and_mask 8 crc)) (omega arith)

module _ (answer : Log → List ℕ → ℤ) (fetch : ℕ → Option Record) (chunk : ℕ)
    (fits : chunk ≤ buf_size) where
  abbrev pub IsEnded : List ℕ → Log × Bool → Type 0
  IsEnded whole (w, true) = (concat w ≡ whole) × AllTaken answer [] w
  IsEnded whole (w, false) = IsRefused answer w

  end_stop :
      (w : Log) (buf : List ℕ) (crc : ℕ)
      → (make_room Log (link answer) fetch chunk w buf crc_size).1 ≡ none
      → dump_end Log (link answer) fetch chunk w buf crc
        ≡ some ((make_room Log (link answer) fetch chunk w buf crc_size).0, false)
  unfolding dump_end
  end_stop w buf crc e = ground (arith, e)

  end_more :
      (w : Log) (buf buf' : List ℕ) (crc : ℕ)
      → (make_room Log (link answer) fetch chunk w buf crc_size).1 ≡ some buf'
      → length buf' + crc_size ≤ limit chunk
      → crc < 2 ^ 16
      → let w' = (make_room Log (link answer) fetch chunk w buf crc_size).0 in
        let last = buf' ++ crc_bytes crc in
        dump_end Log (link answer) fetch chunk w buf crc
        ≡ some (w' ++ last ∷ [], not (is_neg (answer w' last)))
  unfolding dump_end
  end_more w buf buf' crc e k range =
      ground (
        arith,
        e,
        crc_split crc range,
        write_bytes_lem answer fetch chunk fits buf' (crc_bytes crc),
      )

  IsEnded-snoc :
      (whole : List ℕ) (w : Log) (last : List ℕ)
      → concat (w ++ last ∷ []) ≡ whole
      → AllTaken answer [] w
      → IsEnded whole (w ++ last ∷ [], not (is_neg (answer w last)))
  IsEnded-snoc whole w last e taken = elim (Bool-cases (is_neg (answer w last))) [
    | inl failed ↦ rw failed (w, last, refl, taken, failed)
    | inr sent ↦ rw sent (e, AllTaken-snoc answer [] w last taken sent)
  ]

  dump_end_lem :
      (w : Log) (buf : List ℕ) (crc : ℕ)
      → crc < 2 ^ 16
      → AllShort (limit chunk) w
      → AllTaken answer [] w
      → length buf ≤ limit chunk
      → (out : Log × Bool) × (dump_end Log (link answer) fetch chunk w buf crc ≡ some out)
        × AllShort (limit chunk) out.0
        × IsEnded ((concat w ++ buf) ++ crc_bytes crc) out
  dump_end_lem w buf crc range short taken small =
      let (w', room) = make_room Log (link answer) fetch chunk w buf crc_size in
      let (short', roomy) =
        make_room_lem answer fetch chunk fits w buf crc_size short taken small (omega arith) in
      elim (Option-cases room) [
        | inl stop ↦ ((w', false), end_stop w buf crc stop, short', rw stop at roomy)
        | inr (buf', e) ↦
            let (same, k, taken') = rw e at roomy in
            let last : List ℕ = buf' ++ crc_bytes crc in
            (
              (w' ++ last ∷ [], not (is_neg (answer w' last))),
              end_more w buf buf' crc e k range,
              AllShort-snoc (limit chunk) w' last short'
                  (omega (arith, length-append buf' (crc_bytes crc))),
              IsEnded-snoc ((concat w ++ buf) ++ crc_bytes crc) w' last
                  (concat-snoc w' last
                    ∙ sym (append_assoc (concat w') buf' (crc_bytes crc))
                    ∙ ap (λ (t : List ℕ). t ++ crc_bytes crc) same)
                  taken',
            )
      ]

  -- A frame: header, records, and the CRC of both.
  abbrev pub frame : List ℕ → ℕ → ℕ → List ℕ
  frame device_id count start =
      let payload = encode_header count device_id ++ records answer fetch chunk fits count start in
      payload ++ crc_bytes (crc16 0xFFFF payload)

  frame_end :
      (device_id : List ℕ) (count start : ℕ) (out : Log × Option (List ℕ × ℕ))
      → dump_loop Log
          (link answer)
          fetch
          chunk
          (suc count)
          start
          (u32 (start + count))
          []
          (encode_header count device_id)
          (crc16 0xFFFF (encode_header count device_id))
        ≡ some out
      → AllShort (limit chunk) out.0
      → IsAdded answer fetch chunk fits
          (encode_header count device_id)
          (crc16 0xFFFF (encode_header count device_id))
          (records answer fetch chunk fits count start)
          out
      → (result : Log × Bool) × (dump_frame Log (link answer) fetch chunk device_id count start []
          ≡ some result)
        × AllShort (limit chunk) result.0
        × IsEnded (frame device_id count start) result
  frame_end device_id count start (w, none) run short added =
      ((w, false), unfold dump_frame in rw run refl, short, added)
  frame_end device_id count start (w, some (buf, crc)) run short added =
      let header = encode_header count device_id in
      let same =
        added.1 ∙ sym (crc16-append header (records answer fetch chunk fits count start) 0xFFFF) in
      let (result, ends, short', ended) =
        dump_end_lem w buf crc
          (rw added.1 (
            crc16-lt (records answer fetch chunk fits count start) (crc16 0xFFFF header)
              (crc16-lt header 0xFFFF (omega arith))))
          short added.3 added.2 in
      (
        result,
        unfold dump_frame in rw run ends,
        short',
        subst (λ (t : List ℕ). IsEnded t result)
            (ap₂ (λ (a : List ℕ) (c : ℕ). a ++ crc_bytes c) added.0 same) ended,
      )

  -- A frame for given numbers ends, in notifications of the size that they may have; it is sent
  -- whole or its last notification was refused.
  pub dump_frame_lem :
      (device_id : List ℕ) (count start : ℕ)
      → start + count < 2 ^ 32
      → (out : Log × Bool) × (dump_frame Log (link answer) fetch chunk device_id count start []
          ≡ some out)
        × AllShort (limit chunk) out.0
        × IsEnded (frame device_id count start) out
  dump_frame_lem device_id count start range =
      let header = encode_header count device_id in
      let size = length-encode_header count device_id in
      let (out, run, short, added) =
        loop_lem answer fetch chunk fits (suc count) count start (u32 (start + count)) [] header
          (crc16 0xFFFF header) (omega arith) (omega arith) (omega arith) tt tt
          (omega (arith, size)) in
      frame_end device_id count start out run short added
