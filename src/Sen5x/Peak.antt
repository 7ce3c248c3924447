-- ===== src/Sen5x/Peak.antt =====
-- What the window of the air sensor holds after the samples of its period.
use n_rf5340_presence_test.Base.{
  ℕ, ◌≤◌, ◌<◌, ◌≡◌, refl, sym, ◌∙◌, ap, Bool, true, false, not, List, [], ◌∷◌, Option, none, some,
  ◌==◌, if◌then◌else◌, ◌>>=◌, arith, max, inl, inr, Bool-cases, map,
}
use native.Mathlib.Decide.{dec_lt}
use n_rf5340_presence_test.Base.Int.{ℤ, to_i16, halve}
use n_rf5340_presence_test.Frame.Record.{unknown_u, unknown_s}
use n_rf5340_presence_test.Sen5x.{Window, acc_reset, peak, fold_sample}

-- The eight words of a sample.
pub record Sample : Type 0 where
  pub pm1 : ℕ
  pub pm4 : ℕ
  pub nox : ℕ
  pub pm25 : ℕ
  pub pm10 : ℕ
  pub rh : ℕ
  pub temp : ℕ
  pub voc : ℕ

abbrev pub sample_words : Sample → List ℕ
sample_words s = s.pm1 ∷ s.pm25 ∷ s.pm4 ∷ s.pm10 ∷ s.rh ∷ s.temp ∷ s.voc ∷ s.nox ∷ []

-- A word that the sensor measured: 0xFFFF is "not measured".
abbrev pub measured : ℕ → Bool
measured w = not (w == 0xFFFF)

-- The largest of the words that were measured.
abbrev pub highest : List ℕ → Option ℕ
highest [] = none
highest (w ∷ ws) = elim (measured w) [
  | false ↦ highest ws
  | true ↦ elim (highest ws) [ none ↦ some w | some top ↦ some (max w top) ]
]

-- The last of the words that were measured.
abbrev pub latest : List ℕ → Option ℕ
latest [] = none
latest (w ∷ ws) = elim (latest ws) [
  | some last ↦ some last
  | none ↦ if measured w then some w else none
]

abbrev pub AreWords : List ℕ → Type 0
AreWords [] = Unit {0}
AreWords (w ∷ ws) = (w ≤ 0xFFFF) × AreWords ws

abbrev pub peak_all : List ℕ → ℕ → ℕ
peak_all [] old = old
peak_all (w ∷ ws) old = peak_all ws (peak old w)

-- The field of the window for a peak.
abbrev pub or_unknown : Option ℕ → ℕ
or_unknown none = unknown_u
or_unknown (some w) = w

peak_unknown : (w : ℕ) → peak unknown_u w ≡ w
unfolding peak
peak_unknown w = ground arith

peak_running : (w old : ℕ) → w < 0xFFFF → old < unknown_u → peak old w ≡ max old w
unfolding peak
peak_running w old h k = ground (arith, h, k)

peak_missing : (w old : ℕ) → w ≡ 0xFFFF → peak old w ≡ old
unfolding peak
peak_missing w old e = ground (arith, e)

-- A peak that was there before the words.
abbrev raised : ℕ → Option ℕ → ℕ
raised old none = old
raised old (some top) = max old top

raised-raised :
    (old w : ℕ) (o : Option ℕ)
    → raised (max old w) o ≡ raised old (elim o [ none ↦ some w | some top ↦ some (max w top) ])
raised-raised old w none = refl
raised-raised old w (some top) = omega arith

or_unknown-raised :
    (w : ℕ) (o : Option ℕ)
    → raised w o ≡ or_unknown (elim o [ none ↦ some w | some top ↦ some (max w top) ])
or_unknown-raised w none = refl
or_unknown-raised w (some top) = refl

highest_measured :
    (w : ℕ) (ws : List ℕ)
    → w < 0xFFFF
    → highest (w ∷ ws) ≡ elim (highest ws) [ none ↦ some w | some top ↦ some (max w top) ]
highest_measured w ws h = ground (arith, h)

highest_missing : (w : ℕ) (ws : List ℕ) → w ≡ 0xFFFF → highest (w ∷ ws) ≡ highest ws
highest_missing w ws e = ground (arith, e)

peak_all-running :
    (ws : List ℕ) (old : ℕ)
    → AreWords ws
    → old < unknown_u
    → peak_all ws old ≡ raised old (highest ws)
peak_all-running [] old h running = refl
peak_all-running (w ∷ ws) old h running = elim (dec_lt w 0xFFFF) [
  | yes here ↦
      ap (peak_all ws) (peak_running w old here running)
      ∙ peak_all-running ws (max old w) h.1 (omega arith)
      ∙ raised-raised old w (highest ws)
      ∙ ap (raised old) (sym (highest_measured w ws here))
  | no missing ↦
      let e : w ≡ 0xFFFF = omega (arith, h.0) in
      ap (peak_all ws) (peak_missing w old e)
      ∙ peak_all-running ws old h.1 running
      ∙ ap (raised old) (sym (highest_missing w ws e))
]

peak_all-highest : (ws : List ℕ) → AreWords ws → peak_all ws unknown_u ≡ or_unknown (highest ws)
peak_all-highest [] h = refl
peak_all-highest (w ∷ ws) h = elim (dec_lt w 0xFFFF) [
  | yes here ↦
      ap (peak_all ws) (peak_unknown w)
      ∙ peak_all-running ws w h.1 here
      ∙ or_unknown-raised w (highest ws)
      ∙ ap or_unknown (sym (highest_measured w ws here))
  | no missing ↦
      let e : w ≡ 0xFFFF = omega (arith, h.0) in
      ap (peak_all ws) (peak_missing w unknown_u e)
      ∙ peak_all-highest ws h.1
      ∙ ap or_unknown (sym (highest_missing w ws e))
]

-- The field of the window for a last value.
abbrev pub converted : (ℕ → ℤ) → ℤ → Option ℕ → ℤ
converted f old none = old
converted f old (some w) = f w

abbrev keep_all : (ℕ → ℤ) → List ℕ → ℤ → ℤ
keep_all f [] old = old
keep_all f (w ∷ ws) old = keep_all f ws (if w == 0xFFFF then old else f w)

keep_step :
    (f : ℕ → ℤ) (w : ℕ) (old : ℤ) (o : Option ℕ)
    → converted f (if w == 0xFFFF then old else f w) o
      ≡ converted f old
          (elim o [ some last ↦ some last | none ↦ if measured w then some w else none ])
keep_step f w old (some last) = refl
keep_step f w old none = elim (Bool-cases (w == 0xFFFF)) [ inl e ↦ rw e refl | inr e ↦ rw e refl ]

keep_all-latest :
    (f : ℕ → ℤ) (ws : List ℕ) (old : ℤ) → keep_all f ws old ≡ converted f old (latest ws)
keep_all-latest f [] old = refl
keep_all-latest f (w ∷ ws) old =
    keep_all-latest f ws (if w == 0xFFFF then old else f w) ∙ keep_step f w old (latest ws)

-- The polls of a window, one after the other.
abbrev pub fold_all : List Sample → Window → Option Window
fold_all [] acc = some acc
fold_all (s ∷ ss) acc = do acc' ← fold_sample acc (sample_words s); fold_all ss acc'

-- The window after a sample, and after samples, field by field.
abbrev after : Sample → Window → Window
after s acc = record {
  pm25 = peak acc.pm25 s.pm25;
  pm10 = peak acc.pm10 s.pm10;
  temp = if s.temp == 0xFFFF then acc.temp else halve (to_i16 s.temp);
  rh = if s.rh == 0xFFFF then acc.rh else to_i16 s.rh;
  voc = if s.voc == 0xFFFF then acc.voc else to_i16 s.voc;
  alive = true;
}

folded :
    (s : Sample) (ss : List Sample) (acc : Window)
    → fold_all (s ∷ ss) acc
      ≡ some (record {
        pm25 = peak_all (map (λ s. s.pm25) (s ∷ ss)) acc.pm25;
        pm10 = peak_all (map (λ s. s.pm10) (s ∷ ss)) acc.pm10;
        temp = keep_all (λ w. halve (to_i16 w)) (map (λ s. s.temp) (s ∷ ss)) acc.temp;
        rh = keep_all to_i16 (map (λ s. s.rh) (s ∷ ss)) acc.rh;
        voc = keep_all to_i16 (map (λ s. s.voc) (s ∷ ss)) acc.voc;
        alive = true;
      })
unfolding fold_sample
folded s [] acc = refl
folded s (s' ∷ ss) acc = folded s' ss (after s acc)

-- After the samples of a window, at least one, whose words have 16 bits, the particle fields hold
-- the largest value that was measured and the others the last one, in the record's units; a field
-- is "unknown" just if nothing was measured.
pub fold_all_lem :
    (s : Sample) (ss : List Sample)
    → AreWords (map (λ s. s.pm25) (s ∷ ss))
    → AreWords (map (λ s. s.pm10) (s ∷ ss))
    → fold_all (s ∷ ss) acc_reset
      ≡ some (record {
        pm25 = or_unknown (highest (map (λ s. s.pm25) (s ∷ ss)));
        pm10 = or_unknown (highest (map (λ s. s.pm10) (s ∷ ss)));
        temp = converted (λ w. halve (to_i16 w)) unknown_s (latest (map (λ s. s.temp) (s ∷ ss)));
        rh = converted to_i16 unknown_s (latest (map (λ s. s.rh) (s ∷ ss)));
        voc = converted to_i16 unknown_s (latest (map (λ s. s.voc) (s ∷ ss)));
        alive = true;
      })
fold_all_lem s ss h25 h10 =
    folded s ss acc_reset
    ∙ rw
        (
          peak_all-highest (map (λ s. s.pm25) (s ∷ ss)) h25,
          peak_all-highest (map (λ s. s.pm10) (s ∷ ss)) h10,
          keep_all-latest (λ w. halve (to_i16 w)) (map (λ s. s.temp) (s ∷ ss)) unknown_s,
          keep_all-latest to_i16 (map (λ s. s.rh) (s ∷ ss)) unknown_s,
          keep_all-latest to_i16 (map (λ s. s.voc) (s ∷ ss)) unknown_s,
        )
        refl
