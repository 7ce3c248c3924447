-- ===== src/Sen5x/Transfer.antt =====
-- A transfer on the bus as a whole: what `read_words` answers when every read is as long as asked.
use n_rf5340_presence_test.Base.{
  ℕ, ◌*◌, ◌^◌, ◌<◌, ◌≡◌, refl, sym, ◌∙◌, ap, true, false, List, [], ◌∷◌, Option, none, some, arith,
  if◌then◌else◌, length, IsBytes, Bool-cases, inl, inr,
}
use mathlib.Core.Path.{subst}
use n_rf5340_presence_test.Base.Int.{ℤ, is_zero}
use n_rf5340_presence_test.Sen5x.{Answer, eio, send_cmd, read_words, words_of}
use n_rf5340_presence_test.Sen5x.Words.{
  encode_words, decode_words, words_of-decode, decode-IsChecked,
}

-- Words of sixteen bits.
abbrev pub AreWords16 : List ℕ → Type 0
AreWords16 [] = Unit {0}
AreWords16 (w ∷ ws) = (w < 2 ^ 16) × AreWords16 ws

length-encode_words : (ws : List ℕ) → length (encode_words ws) ≡ 3 * length ws
length-encode_words [] = refl
length-encode_words (w ∷ ws) = omega (arith, length-encode_words ws)

encode_words-AreWords16 : (ws : List ℕ) → IsBytes (encode_words ws) → AreWords16 ws
encode_words-AreWords16 [] h = tt
encode_words-AreWords16 (w ∷ ws) h = (omega (arith, h.0), encode_words-AreWords16 ws h.1.1.1)

some_not_none : (ws : List ℕ) → none ≡ some ws → ⊥
some_not_none ws e = cc

module _ (B : Type 0) (i2c_write : B → List ℕ → ℤ × B) (i2c_read : B → ℕ → ℤ × (List ℕ × B)) where
  -- A read gives as many bytes as it was asked for.
  pub record IsFilling : Type 0 where
    pub full : (bus : B) (n : ℕ) → length (i2c_read bus n).1.0 ≡ n
    pub bytes : (bus : B) (n : ℕ) → IsBytes (i2c_read bus n).1.0

  -- The words that the sensor gives, if the transfer works and their CRCs are right.
  abbrev pub reading : B → ℕ → ℕ → Option (List ℕ)
  reading bus c count =
      let (err, bus') = send_cmd B i2c_write i2c_read bus c in
      let (err', (raw, bus'')) = i2c_read bus' (count * 3) in
      if is_zero err then (if is_zero err' then decode_words raw else none) else none

  -- The bus after that: there is no read if the command was refused.
  abbrev pub bus_after : B → ℕ → ℕ → B
  bus_after bus c count =
      let (err, bus') = send_cmd B i2c_write i2c_read bus c in
      if is_zero err then (i2c_read bus' (count * 3)).1.1 else bus'

  abbrev pub words_in : Answer → Option (List ℕ)
  words_in (Answer.failed err) = none
  words_in (Answer.words ws) = some ws

  abbrev answer_of : Option (List ℕ) → Answer
  answer_of ws = elim ws [ none ↦ Answer.failed eio | some out ↦ Answer.words out ]

  words_in-answer_of : (ws : Option (List ℕ)) → words_in (answer_of ws) ≡ ws
  words_in-answer_of none = refl
  words_in-answer_of (some ws) = refl

  module _ (fills : IsFilling) (bus : B) (c count : ℕ) where
    abbrev asked : ℤ × B
    asked = send_cmd B i2c_write i2c_read bus c

    abbrev given : ℤ × (List ℕ × B)
    given = i2c_read asked.1 (count * 3)

    decoded : words_of given.1.0 count 0 ≡ some (decode_words given.1.0)
    decoded =
        words_of-decode count 0 [] given.1.0 refl (fills.full asked.1 (count * 3))
          (fills.bytes asked.1 (count * 3))

    read_refused :
        is_zero asked.0 ≡ false
        → read_words B i2c_write i2c_read bus c count ≡ some (Answer.failed asked.0, asked.1)
    unfolding read_words
    read_refused e = rw e refl

    read_failed :
        is_zero asked.0 ≡ true
        → is_zero given.0 ≡ false
        → read_words B i2c_write i2c_read bus c count ≡ some (Answer.failed given.0, given.1.1)
    unfolding read_words
    read_failed e e' = rw (e, e') refl

    read_done :
        is_zero asked.0 ≡ true
        → is_zero given.0 ≡ true
        → read_words B i2c_write i2c_read bus c count
          ≡ some (answer_of (decode_words given.1.0), given.1.1)
    unfolding read_words
    read_done e e' = rw (e, e', decoded) refl

    -- `read_words` answers the reading, or a failure where there is none.
    pub read_words_lem :
        (answer : Answer) × (bus' : B) × (read_words B i2c_write i2c_read bus c count
          ≡ some (answer, bus'))
        × (words_in answer ≡ reading bus c count)
        × (bus' ≡ bus_after bus c count)
    read_words_lem = elim (Bool-cases (is_zero asked.0)) [
      | inr e ↦ (Answer.failed asked.0, asked.1, read_refused e, rw e refl, rw e refl)
      | inl e ↦ elim (Bool-cases (is_zero given.0)) [
        | inr e' ↦ (Answer.failed given.0, given.1.1, read_failed e e', rw (e, e') refl, rw e refl)
        | inl e' ↦ (
          answer_of (decode_words given.1.0),
          given.1.1,
          read_done e e',
          words_in-answer_of (decode_words given.1.0) ∙ rw (e, e') refl,
          rw e refl,
        )
      ]
    ]

    reading-decode :
        (ws : List ℕ) → reading bus c count ≡ some ws → decode_words given.1.0 ≡ some ws
    reading-decode ws e = elim (Bool-cases (is_zero asked.0)) [
      | inr f ↦ absurd (some_not_none ws (rw f at e))
      | inl f ↦ elim (Bool-cases (is_zero given.0)) [
        | inr g ↦ absurd (some_not_none ws (rw (f, g) at e))
        | inl g ↦ rw (f, g) at e
      ]
    ]

    -- A reading has as many words as were asked for, of sixteen bits each.
    pub reading_words :
        (ws : List ℕ) → reading bus c count ≡ some ws → (length ws ≡ count) × AreWords16 ws
    reading_words ws e =
        let full = fills.full asked.1 (count * 3) in
        let bytes = fills.bytes asked.1 (count * 3) in
        let same = decode-IsChecked count given.1.0 (some ws) full bytes (reading-decode ws e) in
        (
          omega (arith, length-encode_words ws, ap (length {A = ℕ}) same, full),
          encode_words-AreWords16 ws (subst IsBytes (sym same) bytes),
        )
