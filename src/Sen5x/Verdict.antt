-- ===== src/Sen5x/Verdict.antt =====
-- What the end of a window says of the sensor: the status register decides whether it was alive.
use n_rf5340_presence_test.Base.{
  ℕ, ◌*◌, ◌/◌, ◌%◌, ◌^◌, ◌<◌, ◌≡◌, refl, sym, ◌∙◌, ap, Bool, true, false, not, ◌&&◌, List, [], ◌∷◌,
  Option, none, some, arith, ◌==◌, length, bit_and, bit_or, Bool-cases, inl, inr,
}
use mathlib.Core.Path.{subst}
use n_rf5340_presence_test.Base.Int.{ℤ}
use n_rf5340_presence_test.Base.Bits.{bit_and_step, bit_and_mask, bit_or_high}
use n_rf5340_presence_test.Base.Word.{◌<<<◌}
use n_rf5340_presence_test.Sen5x.{
  Window, Sensor, Answer, acc_reset, status_fatal, read_status, read_words, check_status,
  window_take,
}
use n_rf5340_presence_test.Sen5x.Transfer.{
  AreWords16, IsFilling, reading, words_in, bus_after, read_words_lem, reading_words,
}

-- Bits 4 and 5 of the register's low word: the fan and the laser.
abbrev pub fault : List ℕ → Bool
fault (hi ∷ lo ∷ []) = not (lo / 16 % 4 == 0)
fault ws = false

-- Without a fault in the words, or with none to be read.
abbrev pub fine : Option (List ℕ) → Bool
fine none = true
fine (some ws) = not (fault ws)

fatal_bits : (x : ℕ) → bit_and x status_fatal ≡ x / 16 % 4 * 16
fatal_bits x = omega (
  arith,
  bit_and_step x 48,
  bit_and_step (x / 2) 24,
  bit_and_step (x / 2 / 2) 12,
  bit_and_step (x / 2 / 2 / 2) 6,
  bit_and_mask 2 (x / 2 / 2 / 2 / 2),
)

register_lem :
    (hi lo : ℕ)
    → lo < 2 ^ 16
    → (bit_and (bit_or (hi <<< 16) lo) status_fatal == 0) ≡ (lo / 16 % 4 == 0)
register_lem hi lo h =
    let word = bit_or_high 16 hi lo h in ground (arith, word, fatal_bits (bit_or (hi <<< 16) lo))

pair_of : (ws : List ℕ) → length ws ≡ 2 → (hi : ℕ) × (lo : ℕ) × (ws ≡ hi ∷ lo ∷ [])
pair_of (hi ∷ lo ∷ []) e = (hi, lo, refl)
pair_of [] e = absurd (omega arith)
pair_of (w ∷ []) e = absurd (omega arith)
pair_of (w ∷ v ∷ u ∷ ws) e = absurd (omega arith)

not_twice : (b : Bool) → b ≡ not (not b)
not_twice true = refl
not_twice false = refl

module _ (B : Type 0) (i2c_write : B → List ℕ → ℤ × B) (i2c_read : B → ℕ → ℤ × (List ℕ × B)) where
  -- The status words, if the transfer works and their CRCs are right.
  abbrev pub status_of : B → Option (List ℕ)
  status_of bus = reading B i2c_write i2c_read bus read_status 2

  module _ (fills : IsFilling B i2c_write i2c_read) (bus : B) where
    -- The words that are read are two.
    status_words :
        (ws : List ℕ)
        → status_of bus ≡ some ws
        → (hi : ℕ) × (lo : ℕ) × (ws ≡ hi ∷ lo ∷ []) × (lo < 2 ^ 16)
    status_words ws e =
        let (l, short) = reading_words B i2c_write i2c_read fills bus read_status 2 ws e in
        let (hi, lo, same) = pair_of ws l in
        let short' = subst AreWords16 same short in (hi, lo, same, short'.1.0)

    check_words :
        (acc : Window) (ws : List ℕ) (bus' : B)
        → acc.alive ≡ true
        → read_words B i2c_write i2c_read bus read_status 2 ≡ some (Answer.words ws, bus')
        → status_of bus ≡ some ws
        → check_status B i2c_write i2c_read bus acc ≡ some (not (fault ws), bus')
    unfolding check_status
    check_words acc ws bus' live e same =
        let (hi, lo, two, range) = status_words ws same in
        rw (live, e, two)
          (ap (λ (ok : Bool). some (ok, bus'))
            (register_lem hi lo range ∙ not_twice (lo / 16 % 4 == 0)))

    check_failed :
        (acc : Window) (err : ℤ) (bus' : B)
        → acc.alive ≡ true
        → read_words B i2c_write i2c_read bus read_status 2 ≡ some (Answer.failed err, bus')
        → check_status B i2c_write i2c_read bus acc ≡ some (true, bus')
    unfolding check_status
    check_failed acc err bus' live e = rw (live, e) refl

    check_status_lem :
        (acc : Window)
        → (bus' : B) × (check_status B i2c_write i2c_read bus acc
            ≡ some (acc.alive && fine (status_of bus), bus'))
    check_status_lem acc = elim (Bool-cases acc.alive) [
      | inr dead ↦ (bus, unfold check_status in rw dead refl)
      | inl live ↦
          let (bus', e) =
            check_live acc live (read_words_lem B i2c_write i2c_read fills bus read_status 2) in
          (bus', e ∙ ap (λ (ok : Bool). some (ok && fine (status_of bus), bus')) (sym live))
    ]
      where
        check_live :
            (acc : Window)
            → acc.alive ≡ true
            → ((answer : Answer) × (bus' : B) × (read_words B i2c_write i2c_read bus read_status 2
                  ≡ some (answer, bus'))
                × (words_in B i2c_write i2c_read answer ≡ status_of bus)
                × (bus' ≡ bus_after B i2c_write i2c_read bus read_status 2))
            → (bus' : B) × (check_status B i2c_write i2c_read bus acc
                ≡ some (fine (status_of bus), bus'))
        check_live acc live (Answer.failed err, bus', e, same, _) =
            (bus', rw (← same) (check_failed acc err bus' live e))
        check_live acc live (Answer.words ws, bus', e, same, _) =
            (bus', rw (← same) (check_words acc ws bus' live e (sym same)))

  -- If a read of the bus gives as many bytes as it was asked for: a window is taken whatever the
  -- sensor answers. It is alive just if a sample came and the status register was not read with
  -- right CRCs as showing a fault of the fan or the laser; its values are those of the samples, and
  -- the next window starts with nothing known.
  pub window_take_lem :
      (bus : B) (s : Sensor)
      → IsFilling B i2c_write i2c_read
      → (bus' : B) × (window_take B i2c_write i2c_read bus s
          ≡ some (
            record s.acc { alive = s.acc.alive && fine (status_of bus) },
            (record s { acc = acc_reset }, bus'),
          ))
  unfolding window_take
  window_take_lem bus s fills =
      let (bus', e) = check_status_lem fills bus s.acc in (bus', rw e refl)
