-- ===== src/Ble/Dump/Wire.antt =====
-- What goes over the air: the header and the records, in notifications, and which of them the link
-- takes.
use n_rf5340_presence_test.Base.{
  ℕ, zero, suc, ◌+◌, ◌^◌, ◌≤◌, ◌<◌, ◌≡◌, refl, sym, ◌∙◌, ap, true, false, inl, inr, List, [], ◌∷◌,
  ◌++◌, Option, none, some, ltb, arith, length, length-append, append_assoc, append-nil, max,
  Bool-cases, Option-cases,
}
use n_rf5340_presence_test.Base.Int.{ℤ, is_neg}
use n_rf5340_presence_test.Base.Word.{u32}
use n_rf5340_presence_test.Frame.Crc.{crc16, crc16-append}
use n_rf5340_presence_test.Frame.Record.{Record, record_size, encode_record}
use n_rf5340_presence_test.Frame.Record.Roundtrip.{length-encode_record}
use n_rf5340_presence_test.Ble.Dump.{buf_size, write_bytes, record_of, make_room, dump_loop}

abbrev pub Log : Type 0
Log = List (List ℕ)

-- The bytes of the notifications, one after the other: what the app puts together.
abbrev pub concat : Log → List ℕ
concat [] = []
concat (c ∷ cs) = c ++ concat cs

abbrev pub AllShort : ℕ → Log → Type 0
AllShort limit [] = Unit {0}
AllShort limit (c ∷ cs) = (length c ≤ limit) × AllShort limit cs

pub concat-snoc : (cs : Log) (c : List ℕ) → concat (cs ++ c ∷ []) ≡ concat cs ++ c
concat-snoc [] c = append-nil c
concat-snoc (x ∷ cs) c =
    ap (λ (t : List ℕ). x ++ t) (concat-snoc cs c) ∙ sym (append_assoc x (concat cs) c)

pub AllShort-snoc :
    (limit : ℕ) (cs : Log) (c : List ℕ)
    → AllShort limit cs
    → length c ≤ limit
    → AllShort limit (cs ++ c ∷ [])
AllShort-snoc limit [] c h k = (k, tt)
AllShort-snoc limit (x ∷ cs) c h k = (h.0, AllShort-snoc limit cs c h.1 k)

-- A link that keeps what it is given, taken or not, and answers by `answer`, from what it was given
-- before.
abbrev pub link : (Log → List ℕ → ℤ) → Log → List ℕ → ℤ × Log
link answer sent bytes = (answer sent bytes, sent ++ bytes ∷ [])

-- The link takes every one of these notifications, given what it took before them.
abbrev pub AllTaken : (Log → List ℕ → ℤ) → Log → Log → Type 0
AllTaken answer before [] = Unit {0}
AllTaken answer before (c ∷ cs) =
    (is_neg (answer before c) ≡ false) × AllTaken answer (before ++ c ∷ []) cs

pub AllTaken-snoc :
    (answer : Log → List ℕ → ℤ) (before cs : Log) (c : List ℕ)
    → AllTaken answer before cs
    → is_neg (answer (before ++ cs) c) ≡ false
    → AllTaken answer before (cs ++ c ∷ [])
AllTaken-snoc answer before [] c h k =
    (ap (λ (w : Log). is_neg (answer w c)) (sym (append-nil before)) ∙ k, tt)
AllTaken-snoc answer before (x ∷ cs) c h k = (
  h.0,
  AllTaken-snoc answer (before ++ x ∷ []) cs c h.1
      (ap (λ (w : Log). is_neg (answer w c)) (append_assoc before (x ∷ []) cs) ∙ k),
)

-- What was given to the link ends with a notification that it refused, the first one.
abbrev pub IsRefused : (Log → List ℕ → ℤ) → Log → Type 0
IsRefused answer w =
    (before : Log) × (last : List ℕ) × (w ≡ before ++ last ∷ [])
    × AllTaken answer [] before
    × (is_neg (answer before last) ≡ true)

-- No notification is longer than the chunk, but a record goes out whole where the chunk is smaller.
abbrev pub limit : ℕ → ℕ
limit chunk = max chunk record_size

module _ (answer : Log → List ℕ → ℤ) (fetch : ℕ → Option Record) (chunk : ℕ)
    (fits : chunk ≤ buf_size) where
  -- The records from `seq` on, as they go over the air.
  unfoldable pub records : ℕ → ℕ → List ℕ
  records zero seq = []
  records (suc left) seq =
      encode_record (record_of Log (link answer) fetch chunk seq) ++ records left (seq + 1)

  abbrev pub IsRoomy : List ℕ → ℕ → Log → Option (List ℕ) → Type 0
  IsRoomy whole extra w none = IsRefused answer w
  IsRoomy whole extra w (some buf) =
      (concat w ++ buf ≡ whole) × (length buf + extra ≤ limit chunk) × AllTaken answer [] w

  pub make_room_lem :
      (w : Log) (buf : List ℕ) (extra : ℕ)
      → AllShort (limit chunk) w
      → AllTaken answer [] w
      → length buf ≤ limit chunk
      → extra ≤ record_size
      → let out = make_room Log (link answer) fetch chunk w buf extra in
        AllShort (limit chunk) out.0 × IsRoomy (concat w ++ buf) extra out.0 out.1
  unfolding make_room
  make_room_lem w buf extra short taken small tail =
      elim (Bool-cases (ltb chunk (length buf + extra))) [
        | inr room ↦ rw room (short, (refl, ground arith, taken))
        | inl full ↦ rw full (elim (Bool-cases (is_neg (answer w buf))) [
          | inl failed ↦
              rw failed
                (AllShort-snoc (limit chunk) w buf short small, (w, buf, refl, taken, failed))
          | inr sent ↦ rw sent (
            AllShort-snoc (limit chunk) w buf short small,
            (
              append-nil (concat (w ++ buf ∷ [])) ∙ concat-snoc w buf,
              omega arith,
              AllTaken-snoc answer [] w buf taken sent,
            ),
          )
        ])
      ]

  -- What a round or the whole loop leaves, when `more` bytes were to be added.
  abbrev pub IsAdded : List ℕ → ℕ → List ℕ → Log × Option (List ℕ × ℕ) → Type 0
  IsAdded whole crc more (w, none) = IsRefused answer w
  IsAdded whole crc more (w, some (buf, crc')) =
      (concat w ++ buf ≡ whole ++ more)
      × (crc' ≡ crc16 crc more)
      × (length buf ≤ limit chunk)
      × AllTaken answer [] w

  pub write_bytes_lem :
      (buf bytes : List ℕ)
      → length buf + length bytes ≤ limit chunk
      → write_bytes buf bytes ≡ some (buf ++ bytes)
  unfolding write_bytes
  write_bytes_lem buf bytes h = ground arith

  abbrev bytes_of : ℕ → List ℕ
  bytes_of seq = encode_record (record_of Log (link answer) fetch chunk seq)

  step_stop :
      (fuel seq end : ℕ) (w : Log) (buf : List ℕ) (crc : ℕ)
      → seq < end
      → (make_room Log (link answer) fetch chunk w buf record_size).1 ≡ none
      → dump_loop Log (link answer) fetch chunk (suc fuel) seq end w buf crc
        ≡ some ((make_room Log (link answer) fetch chunk w buf record_size).0, none)
  unfolding dump_loop
  step_stop fuel seq end w buf crc h e = ground (arith, e)

  step_more :
      (fuel seq end : ℕ) (w : Log) (buf buf' : List ℕ) (crc : ℕ)
      → seq < end
      → (make_room Log (link answer) fetch chunk w buf record_size).1 ≡ some buf'
      → length buf' + record_size ≤ limit chunk
      → dump_loop Log (link answer) fetch chunk (suc fuel) seq end w buf crc
        ≡ dump_loop Log
            (link answer)
            fetch
            chunk
            fuel
            (u32 (seq + 1))
            end
            (make_room Log (link answer) fetch chunk w buf record_size).0
            (buf' ++ bytes_of seq)
            (crc16 crc (bytes_of seq))
  unfolding dump_loop
  step_more fuel seq end w buf buf' crc h e k = ground (
    arith,
    e,
    length-encode_record (record_of Log (link answer) fetch chunk seq),
    write_bytes_lem buf' (bytes_of seq),
  )

  IsAdded-step :
      (whole sent buf' bytes more : List ℕ) (crc : ℕ) (out : Log × Option (List ℕ × ℕ))
      → sent ++ buf' ≡ whole
      → IsAdded (sent ++ (buf' ++ bytes)) (crc16 crc bytes) more out
      → IsAdded whole crc (bytes ++ more) out
  IsAdded-step whole sent buf' bytes more crc (w, none) same added = added
  IsAdded-step whole sent buf' bytes more crc (w, some (buf, crc')) same added = (
    added.0
        ∙ ap (λ (t : List ℕ). t ++ more)
            (sym (append_assoc sent buf' bytes) ∙ ap (λ (t : List ℕ). t ++ bytes) same)
        ∙ append_assoc whole bytes more,
    added.1 ∙ sym (crc16-append bytes more crc),
    added.2,
    added.3,
  )

  pub loop_lem :
      (fuel left seq end : ℕ) (w : Log) (buf : List ℕ) (crc : ℕ)
      → seq + left ≡ end
      → end < 2 ^ 32
      → left < fuel
      → AllShort (limit chunk) w
      → AllTaken answer [] w
      → length buf ≤ limit chunk
      → (out : Log × Option (List ℕ × ℕ)) × (dump_loop Log
            (link answer)
            fetch
            chunk
            fuel
            seq
            end
            w
            buf
            crc
          ≡ some out)
        × AllShort (limit chunk) out.0
        × IsAdded (concat w ++ buf) crc (records left seq) out
  unfolding records
  loop_lem zero left seq end w buf crc total range enough short taken small = absurd (omega arith)
  loop_lem (suc fuel) zero seq end w buf crc total range enough short taken small = (
    (w, some (buf, crc)),
    unfold dump_loop in ground arith,
    short,
    (sym (append-nil (concat w ++ buf)), unfold crc16 in refl, small, taken),
  )
  loop_lem (suc fuel) (suc left) seq end w buf crc total range enough short taken small =
      let (w', room) = make_room Log (link answer) fetch chunk w buf record_size in
      let (short', roomy) = make_room_lem w buf record_size short taken small (omega arith) in
      elim (Option-cases room) [
        | inl stop ↦ (
          (w', none),
          step_stop fuel seq end w buf crc (omega arith) stop,
          short',
          rw stop at roomy,
        )
        | inr (buf', e) ↦
            let (same, k, taken') = rw e at roomy in
            let size = length-encode_record (record_of Log (link answer) fetch chunk seq) in
            let (out, run, short'', added) =
              loop_lem fuel left (seq + 1) end w' (buf' ++ bytes_of seq) (crc16 crc (bytes_of seq))
                (omega arith) range (omega arith) short' taken'
                (omega (arith, length-append buf' (bytes_of seq), size)) in
            (
              out,
              step_more fuel seq end w buf buf' crc (omega arith) e k
                  ∙ ap
                      (λ (t : ℕ).
                        dump_loop Log (link answer) fetch chunk fuel t end w' (buf' ++ bytes_of seq)
                          (crc16 crc (bytes_of seq)))
                      {y = seq + 1} (omega arith)
                  ∙ run,
              short'',
              IsAdded-step (concat w ++ buf) (concat w') buf' (bytes_of seq)
                  (records left (seq + 1)) crc out same added,
            )
      ]
