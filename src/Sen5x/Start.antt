-- ===== src/Sen5x/Start.antt =====
-- `sen5x_start` over the bus.
use n_rf5340_presence_test.Base.{
  ◌≡◌, refl, Bool, true, false, ◌||◌, List, ℕ, some, Bool-cases, inl, inr, arith,
}
use n_rf5340_presence_test.Base.Int.{ℤ, is_zero}
use n_rf5340_presence_test.Sen5x.{
  Sensor, Answer, acc_reset, enodev, start, send_cmd, read_words, read_product_name, max_words,
  start_measurement,
}
use n_rf5340_presence_test.Sen5x.Transfer.{IsFilling, read_words_lem}

module _ (B : Type 0) (i2c_write : B → List ℕ → ℤ × B) (i2c_read : B → ℕ → ℤ × (List ℕ × B))
    (fills : IsFilling B i2c_write i2c_read) where
  -- What `sen5x_start` leaves: nothing known, and a sensor that measures if it answered 0.
  abbrev pub IsStarted : Sensor → ℤ → Sensor → Type 0
  IsStarted s code s' = (s'.acc ≡ acc_reset) × (s'.running ≡ (is_zero code || s.running))

  start_asked :
      (bus bus' : B) (s : Sensor) {answer : Answer}
      → read_words B i2c_write i2c_read bus read_product_name max_words ≡ some (answer, bus')
      → (code : ℤ) × (s' : Sensor) × (bus'' : B) × (start B i2c_write i2c_read true bus s
          ≡ some (code, (s', bus'')))
        × IsStarted s code s'
  unfolding start
  start_asked bus bus' s e =
      let (err, bus'') = send_cmd B i2c_write i2c_read bus' start_measurement in
      elim (Bool-cases (is_zero err)) [
        | inl begun ↦ (
          ℤ.pos 0,
          record { running = true; acc = acc_reset },
          bus'',
          rw e (ground (arith, begun)),
          (refl, refl),
        )
        | inr refused ↦ (
          err,
          record s { acc = acc_reset },
          bus'',
          rw e (ground (arith, refused)),
          (refl, rw refused refl),
        )
      ]

  pub start_lem :
      (ready : Bool) (bus : B) (s : Sensor)
      → (code : ℤ) × (s' : Sensor) × (bus' : B) × (start B i2c_write i2c_read ready bus s
          ≡ some (code, (s', bus')))
        × IsStarted s code s'
  start_lem false bus s =
      (enodev, record s { acc = acc_reset }, bus, unfold start in refl, (refl, refl))
  start_lem true bus s =
      let (answer, bus', e, _, _) =
        read_words_lem B i2c_write i2c_read fills bus read_product_name max_words in
      start_asked bus bus' s e
