-- ===== src/Node/Period/Typed.antt =====
-- What the record of a period says over the air. It fits the fields of `struct sntl_record`, so it
-- comes back from the wire.
use n_rf5340_presence_test.Base.{
  ℕ, ◌≡◌, List, [], ◌∷◌, ◌++◌, Option, none, some, ◌==◌, if◌then◌else◌, map, length, ◌*◌, ◌/◌,
}
use n_rf5340_presence_test.Base.Int.{ℤ, to_i16, halve}
use n_rf5340_presence_test.Frame.Record.{Record, unknown_s}
use n_rf5340_presence_test.Radar
use n_rf5340_presence_test.Radar.Window.{Acc}
use n_rf5340_presence_test.Radar.Window.Summary.{most, occupied}
use n_rf5340_presence_test.Sen5x
use n_rf5340_presence_test.Sen5x.Peak.{highest, latest, or_unknown, converted}
use n_rf5340_presence_test.Sen5x.Transfer.{IsFilling}
use n_rf5340_presence_test.Sen5x.Period.{samples}
use n_rf5340_presence_test.Store.{Store, period_s, now}
use n_rf5340_presence_test.Store.Nvs.{Nvs, IsNvs}
use n_rf5340_presence_test.Node.Period.{Round, all_seen}
use n_rf5340_presence_test.Node.Period.Recorded.{summary}

abbrev word_or_zero : Option ℕ → ℕ
word_or_zero none = 0
word_or_zero (some w) = w

module _ (nvs : Nvs) (laws : IsNvs nvs) (B : Type 0) (i2c_write : B → List ℕ → ℤ × B)
    (i2c_read : B → ℕ → ℤ × (List ℕ × B)) (fills : IsFilling B i2c_write i2c_read) where
  -- The record of a period as it is numbered and stored.
  abbrev pub stored : List Round → Round → Acc → B → Store nvs.Fs → Record
  stored rs last acc bus store =
      record (summary nvs laws B i2c_write i2c_read fills rs last acc bus) {
        seq = store.meta.next_seq;
        ts = now nvs store last.written;
      }

  -- A record that says what a period's frames and samples were, by their descriptions.
  abbrev pub Says : List Round → Round → B → Store nvs.Fs → Record → Type 0
  Says rs last bus store r =
      let seen = all_seen (rs ++ last ∷ []) in
      let ss = (samples B i2c_write i2c_read period_s bus).0 in
      (r.seq ≡ store.meta.next_seq)
      × (r.ts ≡ now nvs store last.written)
      × (r.headcount ≡ most seen)
      × (r.occ_s ≡ (if length seen == 0 then 0 else occupied seen * period_s / length seen))
      × (r.pm25 ≡ or_unknown (highest (map (λ s. s.pm25) ss)))
      × (r.pm10 ≡ or_unknown (highest (map (λ s. s.pm10) ss)))
      × (r.temp ≡ converted (λ w. halve (to_i16 w)) unknown_s (latest (map (λ s. s.temp) ss)))
      × (r.rh ≡ converted to_i16 unknown_s (latest (map (λ s. s.rh) ss)))
      × (r.voc ≡ converted to_i16 unknown_s (latest (map (λ s. s.voc) ss)))
