-- ===== src/Node/Flush.antt =====
-- A window from the sensors into the store.
use n_rf5340_presence_test.Base.{
  ℕ, ◌+◌, ◌^◌, ◌<◌, ◌≡◌, refl, ◌∙◌, ap, true, ◌&&◌, List, none, some, ltb, ◌==◌, if◌then◌else◌,
}
use n_rf5340_presence_test.Base.Int.{ℤ, is_zero}
use n_rf5340_presence_test.Frame.Record.{Record}
use n_rf5340_presence_test.Radar
use n_rf5340_presence_test.Sen5x.{acc_reset}
use n_rf5340_presence_test.Sen5x.Transfer.{IsFilling}
use n_rf5340_presence_test.Sen5x.Verdict.{status_of, fine, window_take_lem}
use n_rf5340_presence_test.Store
use n_rf5340_presence_test.Store.{oldest_seq, now, get}
use n_rf5340_presence_test.Store.Nvs.{Nvs, IsNvs}
use n_rf5340_presence_test.Store.Ring.{Log, IsRing, get-append, append-rec}
use n_rf5340_presence_test.Node.{State, record_of, window_flush}

module _ (nvs : Nvs) (laws : IsNvs nvs) (B : Type 0) (i2c_write : B → List ℕ → ℤ × B)
    (i2c_read : B → ℕ → ℤ × (List ℕ × B)) (fills : IsFilling B i2c_write i2c_read) where
  -- The record of what the two sensors have seen since the last window.
  abbrev pub seen : ℕ → B → State nvs.Fs → Record
  seen taken bus s =
      record_of (Radar.Window.window_take taken s.acc).0
        (record s.air.acc { alive = s.air.acc.alive && fine (status_of B i2c_write i2c_read bus) })

  pub flush_lem :
      (taken written : ℕ) (bus : B) (s : State nvs.Fs)
      → let out = Store.append nvs s.store written (seen taken bus s) in
        (bus' : B) × (window_flush nvs B i2c_write i2c_read taken written bus s
          ≡ some (
            out.code,
            (
              record {
                acc = (Radar.Window.window_take taken s.acc).1;
                air = record s.air { acc = acc_reset };
                store = out.store;
              },
              bus',
            ),
          ))
  unfolding window_flush
  flush_lem taken written bus s =
      let (bus', e) = window_take_lem B i2c_write i2c_read bus s.air fills in (bus', rw e refl)

  -- If a read of the bus gives as many bytes as it was asked for, the store is in step with a log,
  -- and the numbers have not run out at 2 ^ 32: a window is flushed whatever the sensors say. If
  -- the store takes it, its number reads back the record of what both sensors have seen, with that
  -- number and the time; a number that fell out of the ring reads nothing, and every other number
  -- what it did before.
  pub window_flush-get :
      (taken written : ℕ) (bus : B) (s : State nvs.Fs) (log : Log) (q : ℕ)
      → IsRing nvs laws s.store log
      → s.store.meta.next_seq + 1 < 2 ^ 32
      → is_zero (Store.append nvs s.store written (seen taken bus s)).code ≡ true
      → (code : ℤ) × (t : State nvs.Fs) × (bus' : B) × (window_flush nvs B i2c_write i2c_read taken
            written bus s
          ≡ some (code, (t, bus')))
        × (get nvs t.store q ≡ (
            if q == s.store.meta.next_seq
            then some (record (seen taken bus s) {
              seq = s.store.meta.next_seq;
              ts = now nvs s.store written;
            })
            else if ltb q (oldest_seq nvs t.store)
            then none
            else get nvs s.store q))
  window_flush-get taken written bus s log q ring room stored =
      let rec = seen taken bus s in
      let out = Store.append nvs s.store written rec in
      let (bus', e) = flush_lem taken written bus s in
      (
        out.code,
        record {
          acc = (Radar.Window.window_take taken s.acc).1;
          air = record s.air { acc = acc_reset };
          store = out.store;
        },
        bus',
        e,
        get-append nvs laws s.store log written rec q ring room stored
            ∙ ap
                (λ (r : Record).
                  if q == s.store.meta.next_seq
                  then some r
                  else if ltb q (oldest_seq nvs out.store)
                  then none
                  else get nvs s.store q)
                (append-rec nvs laws s.store written rec stored),
      )
