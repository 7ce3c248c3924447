-- ===== src/Node/Period/Recorded.antt =====
-- What the record of a period says, from the bus and the frames to the store.
use n_rf5340_presence_test.Base.{
  ℕ, suc, ◌+◌, ◌^◌, ◌<◌, ◌≡◌, refl, sym, ◌∙◌, ap, true, ◌&&◌, List, [], ◌∷◌, ◌++◌, none, some, ltb,
  ◌==◌, if◌then◌else◌, arith, length,
}
use mathlib.Core.Path.{subst}
use n_rf5340_presence_test.Base.Int.{ℤ, is_zero}
use n_rf5340_presence_test.Frame.Record.{Record}
use n_rf5340_presence_test.Radar
use n_rf5340_presence_test.Radar.Window.{Acc}
use n_rf5340_presence_test.Radar.Window.Summary.{count_all}
use n_rf5340_presence_test.Sen5x.{acc_reset}
use n_rf5340_presence_test.Sen5x.Transfer.{IsFilling}
use n_rf5340_presence_test.Sen5x.Verdict.{status_of, fine}
use n_rf5340_presence_test.Sen5x.Period.{samples, seen_in, on, polls, polls-seen_in}
use n_rf5340_presence_test.Store.{Store, period_s, oldest_seq, now, get, append}
use n_rf5340_presence_test.Store.Nvs.{Nvs, IsNvs}
use n_rf5340_presence_test.Store.Ring.{Log, IsRing, get-append, append-rec}
use n_rf5340_presence_test.Node.{State, record_of}
use n_rf5340_presence_test.Node.Flush.{flush_lem}
use n_rf5340_presence_test.Node.Period.{Round, all_seen, rounds, rounds_lem}

module _ (nvs : Nvs) (laws : IsNvs nvs) (B : Type 0) (i2c_write : B → List ℕ → ℤ × B)
    (i2c_read : B → ℕ → ℤ × (List ℕ × B)) (fills : IsFilling B i2c_write i2c_read) where
  -- The record of the samples that the polls of a period read, and of the frames that were counted.
  abbrev pub summary : List Round → Round → Acc → B → Record
  summary rs last acc bus =
      let (ss, bus') = samples B i2c_write i2c_read period_s bus in
      record_of (Radar.Window.window_take last.taken (count_all (all_seen (rs ++ last ∷ [])) acc)).0
        (record (seen_in ss) {
          alive = (seen_in ss).alive && fine (status_of B i2c_write i2c_read bus');
        })

  -- A period of `main`: its rounds are as many as a period has seconds, the first one with the
  -- counter at 0; the radar's thread may count frames before each of them. If a read of the bus
  -- gives as many bytes as it was asked for, the air sensor measures, the store is in step with a
  -- log, the numbers have not run out at 2 ^ 32, and the store takes the record: the rounds run,
  -- whichever transfers fail, and the next number reads the one record of this period, of all
  -- frames that were counted and all samples that were read in it. Other numbers read what they did
  -- before, but for one that fell out of the ring; and the next period starts with the counter at 0
  -- and nothing known of the air.
  pub rounds-recorded :
      (rs : List Round) (last : Round) (acc : Acc) (store : Store nvs.Fs) (bus : B) (log : Log)
      (q : ℕ)
      → suc (length rs) ≡ period_s
      → IsRing nvs laws store log
      → store.meta.next_seq + 1 < 2 ^ 32
      → is_zero (append nvs store last.written (summary rs last acc bus)).code ≡ true
      → let s : State nvs.Fs = record { acc = acc; air = on acc_reset; store = store } in
        (t : State nvs.Fs) × (bus' : B) × (rounds nvs B i2c_write i2c_read
            (rs ++ last ∷ [])
            (0, (s, bus))
          ≡ some (0, (t, bus')))
        × (t.air ≡ on acc_reset)
        × (get nvs t.store q ≡ (
            if q == store.meta.next_seq
            then some (record (summary rs last acc bus) {
              seq = store.meta.next_seq;
              ts = now nvs store last.written;
            })
            else if ltb q (oldest_seq nvs t.store)
            then none
            else get nvs store q))
  rounds-recorded rs last acc store bus log q whole ring room stored =
      let (ss, bus') = samples B i2c_write i2c_read period_s bus in
      let s : State nvs.Fs = record { acc = acc; air = on acc_reset; store = store } in
      let s' : State nvs.Fs = record {
        acc = count_all (all_seen (rs ++ last ∷ [])) acc;
        air = on (seen_in ss);
        store = store;
      } in
      let rec = summary rs last acc bus in
      let out = append nvs store last.written rec in
      let (bus'', flushed) =
        flush_lem nvs laws B i2c_write i2c_read fills last.taken last.written bus' s' in
      (
        record {
          acc = (Radar.Window.window_take last.taken s'.acc).1;
          air = on acc_reset;
          store = out.store;
        },
        bus'',
        rounds_lem nvs B i2c_write i2c_read rs last 0 s bus {air = on (seen_in ss)} {bus' = bus'}
              (omega (arith, whole))
              (subst
                (λ (n : ℕ).
                  polls B i2c_write i2c_read n bus (on acc_reset) ≡ some (on (seen_in ss), bus'))
                (sym whole) (polls-seen_in B i2c_write i2c_read fills period_s bus))
            ∙ rw flushed refl,
        refl,
        get-append nvs laws store log last.written rec q ring room stored
            ∙ ap
                (λ (r : Record).
                  if q == store.meta.next_seq
                  then some r
                  else if ltb q (oldest_seq nvs out.store)
                  then none
                  else get nvs store q)
                (append-rec nvs laws store last.written rec stored),
      )
