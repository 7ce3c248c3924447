-- ===== src/Sen5x/Period.antt =====
-- The polls of a period and the window that is taken after them, as they go over the bus.
use n_rf5340_presence_test.Base.{
  ℕ, zero, suc, ◌^◌, ◌<◌, ◌≡◌, refl, sym, ◌∙◌, ap, true, false, ◌&&◌, List, [], ◌∷◌, Option, none,
  some, arith, ◌>>=◌, length, map,
}
use mathlib.Core.Path.{subst}
use n_rf5340_presence_test.Base.Int.{ℤ, to_i16, halve}
use n_rf5340_presence_test.Frame.Record.{unknown_s}
use n_rf5340_presence_test.Sen5x.{
  Window, Sensor, Answer, acc_reset, read_measured, read_words, fold_sample, poll, window_take,
}
use n_rf5340_presence_test.Sen5x.Peak.{
  Sample, sample_words, fold_all, fold_all_lem, AreWords, or_unknown, highest, latest, converted,
}
use n_rf5340_presence_test.Sen5x.Transfer.{
  AreWords16, IsFilling, reading, bus_after, words_in, read_words_lem, reading_words,
}
use n_rf5340_presence_test.Sen5x.Verdict.{status_of, fine, window_take_lem}

-- The words that were read, as a sample.
abbrev sample_of : List ℕ → Option Sample
sample_of (pm1 ∷ pm25 ∷ pm4 ∷ pm10 ∷ rh ∷ temp ∷ voc ∷ nox ∷ []) = some (record {
  pm1 = pm1;
  pm4 = pm4;
  nox = nox;
  pm25 = pm25;
  pm10 = pm10;
  rh = rh;
  temp = temp;
  voc = voc;
})
sample_of ws = none

sample_of_eight :
    (ws : List ℕ) → length ws ≡ 8 → (s : Sample) × (sample_of ws ≡ some s) × (ws ≡ sample_words s)
sample_of_eight (a ∷ b ∷ c ∷ d ∷ e ∷ f ∷ g ∷ h ∷ []) l = (
  record { pm1 = a; pm4 = c; nox = h; pm25 = b; pm10 = d; rh = e; temp = f; voc = g },
  refl,
  refl,
)
sample_of_eight ws l = absurd (omega arith)

abbrev with_sample : Option Sample → List Sample → List Sample
with_sample none more = more
with_sample (some s) more = s ∷ more

-- What a window says of samples.
abbrev pub seen_in : List Sample → Window
seen_in ss = record {
  pm25 = or_unknown (highest (map (λ s. s.pm25) ss));
  pm10 = or_unknown (highest (map (λ s. s.pm10) ss));
  temp = converted (λ w. halve (to_i16 w)) unknown_s (latest (map (λ s. s.temp) ss));
  rh = converted to_i16 unknown_s (latest (map (λ s. s.rh) ss));
  voc = converted to_i16 unknown_s (latest (map (λ s. s.voc) ss));
  alive = elim ss [ [] ↦ false | _ ∷ _ ↦ true ];
}

abbrev pub AreSamples : List Sample → Type 0
AreSamples [] = Unit {0}
AreSamples (s ∷ ss) = AreWords16 (sample_words s) × AreSamples ss

-- A field of samples is words of 16 bits.
pub field-AreWords :
    (field : Sample → ℕ) (ss : List Sample)
    → ((s : Sample) → AreWords16 (sample_words s) → field s < 2 ^ 16)
    → AreSamples ss
    → AreWords (map field ss)
field-AreWords field [] short h = tt
field-AreWords field (s ∷ ss) short h =
    (omega (arith, short s h.0), field-AreWords field ss short h.1)

fold_all-seen_in : (ss : List Sample) → AreSamples ss → fold_all ss acc_reset ≡ some (seen_in ss)
fold_all-seen_in [] h = refl
fold_all-seen_in (s ∷ ss) h =
    fold_all_lem s ss (field-AreWords (λ s. s.pm25) (s ∷ ss) (λ s k. k.1.0) h)
      (field-AreWords (λ s. s.pm10) (s ∷ ss) (λ s k. k.1.1.1.0) h)

-- A sensor that measures.
abbrev pub on : Window → Sensor
on acc = record { running = true; acc = acc }

module _ (B : Type 0) (i2c_write : B → List ℕ → ℤ × B) (i2c_read : B → ℕ → ℤ × (List ℕ × B)) where
  -- The sample that a poll reads: none if the transfer fails or a CRC is wrong.
  abbrev sampled : B → Option Sample
  sampled bus = reading B i2c_write i2c_read bus read_measured 8 >>= sample_of

  abbrev polled : B → B
  polled bus = bus_after B i2c_write i2c_read bus read_measured 8

  -- What `n` polls in a row read, and the bus after them.
  abbrev pub samples : ℕ → B → List Sample × B
  samples zero bus = ([], bus)
  samples (suc n) bus =
      let (more, bus') = samples n (polled bus) in (with_sample (sampled bus) more, bus')

  abbrev pub polls : ℕ → B → Sensor → Option (Sensor × B)
  polls zero bus s = some (s, bus)
  polls (suc n) bus s = do (s', bus') ← poll B i2c_write i2c_read bus s; polls n bus' s'

  -- `n` polls and the end of the window.
  abbrev pub period : ℕ → B → Sensor → Option (Window × (Sensor × B))
  period n bus s = do (s', bus') ← polls n bus s; window_take B i2c_write i2c_read bus' s'

  poll_failed :
      (bus bus' : B) (acc : Window) (err : ℤ)
      → read_words B i2c_write i2c_read bus read_measured 8 ≡ some (Answer.failed err, bus')
      → poll B i2c_write i2c_read bus (on acc) ≡ some (on acc, bus')
  unfolding poll
  poll_failed bus bus' acc err e = rw e refl

  poll_read :
      (bus bus' : B) (acc : Window) (ws : List ℕ)
      → read_words B i2c_write i2c_read bus read_measured 8 ≡ some (Answer.words ws, bus')
      → poll B i2c_write i2c_read bus (on acc)
        ≡ (fold_sample acc ws >>= λ acc'. some (on acc', bus'))
  unfolding poll
  poll_read bus bus' acc ws e = rw e refl

  fold_sample_eight :
      (acc : Window) (s : Sample) → (acc' : Window) × (fold_sample acc (sample_words s) ≡ some acc')
  unfolding fold_sample
  fold_sample_eight acc s = (_, refl)

  -- What a poll makes of what it reads.
  abbrev after : Option Sample → Window → Option Window
  after none acc = some acc
  after (some s) acc = fold_sample acc (sample_words s)

  abbrev IsRead : Option Sample → Type 0
  IsRead none = Unit {0}
  IsRead (some s) = AreWords16 (sample_words s)

  module _ (fills : IsFilling B i2c_write i2c_read) where
    read_sample :
        (bus : B) (ws : List ℕ)
        → reading B i2c_write i2c_read bus read_measured 8 ≡ some ws
        → (s : Sample) × (sampled bus ≡ some s)
          × (ws ≡ sample_words s)
          × AreWords16 (sample_words s)
    read_sample bus ws e =
        let (l, words) = reading_words B i2c_write i2c_read fills bus read_measured 8 ws e in
        let (s, found, same) = sample_of_eight ws l in
        (s, rw e found, same, subst AreWords16 same words)

    -- A poll keeps the window if it reads no sample, and folds the one it reads.
    poll_lem :
        (bus : B) (acc : Window)
        → (o : Option Sample) × (acc' : Window) × (sampled bus ≡ o)
          × IsRead o
          × (after o acc ≡ some acc')
          × (poll B i2c_write i2c_read bus (on acc) ≡ some (on acc', polled bus))
    poll_lem bus acc = go (read_words_lem B i2c_write i2c_read fills bus read_measured 8)
      where
        go :
            ((answer : Answer) × (bus' : B) × (read_words B i2c_write i2c_read bus read_measured 8
                ≡ some (answer, bus'))
              × (words_in B i2c_write i2c_read answer
                  ≡ reading B i2c_write i2c_read bus read_measured 8)
              × (bus' ≡ polled bus))
            → (o : Option Sample) × (acc' : Window) × (sampled bus ≡ o)
              × IsRead o
              × (after o acc ≡ some acc')
              × (poll B i2c_write i2c_read bus (on acc) ≡ some (on acc', polled bus))
        go (Answer.failed err, bus', e, same, to) =
            (none, acc, rw (← same) refl, tt, refl, rw (← to) (poll_failed bus bus' acc err e))
        go (Answer.words ws, bus', e, same, to) =
            let (s, found, eight, words) = read_sample bus ws (sym same) in
            let (acc', folded) = fold_sample_eight acc s in
            (
              some s,
              acc',
              found,
              words,
              folded,
              rw (← to) (poll_read bus bus' acc ws e ∙ rw (eight, folded) refl),
            )

    fold_after :
        (o : Option Sample) (acc : Window) (more : List Sample) {acc' : Window}
        → after o acc ≡ some acc'
        → fold_all (with_sample o more) acc ≡ fold_all more acc'
    fold_after none acc more done = ap (λ (w : Option Window). w >>= fold_all more) done
    fold_after (some s) acc more done = rw done refl

    polls_step :
        (n : ℕ) (bus : B) (acc : Window) {o : Option Sample} {acc' : Window}
        → sampled bus ≡ o
        → after o acc ≡ some acc'
        → fold_all (samples (suc n) bus).0 acc ≡ fold_all (samples n (polled bus)).0 acc'
    polls_step n bus acc {o} found done =
        ap (λ (x : Option Sample). fold_all (with_sample x (samples n (polled bus)).0) acc) found
        ∙ fold_after o acc (samples n (polled bus)).0 done

    AreSamples-with_sample :
        (o : Option Sample) (more : List Sample)
        → IsRead o
        → AreSamples more
        → AreSamples (with_sample o more)
    AreSamples-with_sample none more h rest = rest
    AreSamples-with_sample (some s) more h rest = (h, rest)

    more_samples :
        (n : ℕ) (bus : B) {o : Option Sample}
        → sampled bus ≡ o
        → IsRead o
        → AreSamples (samples n (polled bus)).0
        → AreSamples (samples (suc n) bus).0
    more_samples n bus {o} found h more =
        subst (λ (x : Option Sample). AreSamples (with_sample x (samples n (polled bus)).0))
          (sym found) (AreSamples-with_sample o (samples n (polled bus)).0 h more)

    -- The polls fold the samples that they read.
    polls_lem :
        (n : ℕ) (bus : B) (acc : Window)
        → (acc' : Window) × (fold_all (samples n bus).0 acc ≡ some acc')
          × (polls n bus (on acc) ≡ some (on acc', (samples n bus).1))
          × AreSamples (samples n bus).0
    polls_lem zero bus acc = (acc, refl, refl, tt)
    polls_lem (suc n) bus acc =
        let (o, acc', found, read, done, e) = poll_lem bus acc in
        let (acc'', folded, rest, are) = polls_lem n (polled bus) acc' in
        (
          acc'',
          polls_step n bus acc found done ∙ folded,
          rw e rest,
          more_samples n bus found read are,
        )

    -- The polls leave what a window says of the samples that they read.
    pub polls-seen_in :
        (n : ℕ) (bus : B)
        → polls n bus (on acc_reset) ≡ some (on (seen_in (samples n bus).0), (samples n bus).1)
    polls-seen_in n bus =
        let (acc, folded, e, are) = polls_lem n bus acc_reset in
        let same : acc ≡ seen_in (samples n bus).0 =
          cc (folded, fold_all-seen_in (samples n bus).0 are) in
        e ∙ ap (λ (w : Window). some (on w, (samples n bus).1)) same

    pub samples-AreSamples : (n : ℕ) (bus : B) → AreSamples (samples n bus).0
    samples-AreSamples n bus = (polls_lem n bus acc_reset).3

    -- A period of the sensor that measures, over a bus whose reads give as many bytes as they are
    -- asked for: whichever of its polls fail, by the transfer or by a CRC, the window says of the
    -- samples that were read, in order, the largest value of each particle field and the last value
    -- of the others, and "unknown" where nothing was measured. It is alive just if a sample was read
    -- and the status register was not read as showing a fault.
    pub period_lem :
        (n : ℕ) (bus : B)
        → let (ss, bus') = samples n bus in
          (bus'' : B) × (period n bus (on acc_reset)
            ≡ some (
              record (seen_in ss) {
                alive = (seen_in ss).alive && fine (status_of B i2c_write i2c_read bus');
              },
              (on acc_reset, bus''),
            ))
    period_lem n bus =
        let (ss, bus') = samples n bus in
        let (bus'', taken) = window_take_lem B i2c_write i2c_read bus' (on (seen_in ss)) fills in
        (bus'', rw (polls-seen_in n bus) taken)
