-- ===== src/Ble/Serve/Answered.antt =====
-- From the writes of a client to the frame that answers them.
use n_rf5340_presence_test.Base.{
  ℕ, ◌^◌, ◌<◌, ◌≡◌, refl, Bool, true, false, List, [], Option, none, some, length,
}
use n_rf5340_presence_test.Base.Int.{ℤ}
use n_rf5340_presence_test.Frame.Record.{Record}
use n_rf5340_presence_test.Frame.Command.{dump_range}
use n_rf5340_presence_test.Store.Nvs.{Nvs, IsNvs}
use n_rf5340_presence_test.Store.{Store, oldest_seq}
use n_rf5340_presence_test.Store.Ring
use n_rf5340_presence_test.Store.Ring.{IsRing}
use n_rf5340_presence_test.Store.Ring.Later.{Later}
use n_rf5340_presence_test.Ble.Dump.{chunk_size}
use n_rf5340_presence_test.Ble.Dump.Run.{chunk_size-le}
use n_rf5340_presence_test.Ble.Dump.Wire.{Log, AllShort, link, limit}
use n_rf5340_presence_test.Ble.Dump.Whole.{IsEnded}
use n_rf5340_presence_test.Ble.Dump.Live.{AreRows, frame_of, fetch, dump_run-rows}
use n_rf5340_presence_test.Ble.Link.{Link, dump_take}
use n_rf5340_presence_test.Ble.Link.Events.Requests.{
  Write, AreBytes, last_asked, writes, pending, serves, dump_take-writes,
}
use n_rf5340_presence_test.Ble.Serve.{dump_round}

module _ (nvs : Nvs) (answer : ℕ → Log → List ℕ → ℤ) (s : Store nvs.Fs)
    (checked stores : ℕ → Store nvs.Fs) (mtu : ℕ → ℕ) (device_id : List ℕ) where
  -- What goes over the air for a request, by the connection and the subscription.
  abbrev pub IsServed : Ring.Log → Option ℕ → Bool → ℕ → Option Bool × Log → Type 0
  IsServed log none notify first out = out ≡ (none, [])
  IsServed log (some conn) false first out = out ≡ (none, [])
  IsServed log (some conn) true first out =
      let (count, start) = dump_range first (oldest_seq nvs s) s.meta.next_seq in
      (ended : Log × Bool) × (rows : List Record) × (out ≡ (some ended.1, ended.0))
      × AllShort (limit (chunk_size (mtu conn))) ended.0
      × (length rows ≡ count)
      × AreRows log start rows
      × IsEnded (answer conn) (fetch nvs checked stores) (chunk_size (mtu conn))
          (chunk_size-le (mtu conn)) (frame_of device_id count rows) ended

  -- A round on this store.
  abbrev pub round : (P : Type 0) → Link P → Option ((Option Bool × Log) × Link P)
  round P =
      dump_round P Log (λ conn. link (answer conn)) (fetch nvs checked stores) mtu device_id
        (oldest_seq nvs s) s.meta.next_seq []

module _ (nvs : Nvs) (laws : IsNvs nvs) (answer : ℕ → Log → List ℕ → ℤ) (s : Store nvs.Fs)
    (log : Ring.Log) (ring : IsRing nvs laws s log) (checked stores : ℕ → Store nvs.Fs)
    (early : (q : ℕ) → Later nvs laws s (checked q))
    (later : (q : ℕ) → Later nvs laws (checked q) (stores q)) (mtu : ℕ → ℕ) (device_id : List ℕ)
    (P : Type 0) where
  round_lem :
      (conn : Option ℕ) (notify : Bool) (first : ℕ) (t : Link P)
      → s.meta.next_seq < 2 ^ 32
      → (dump_take P t).0 ≡ serves P conn notify first
      → (out : Option Bool × Log) × (round nvs answer s checked stores mtu device_id P t
          ≡ some (out, (dump_take P t).1))
        × IsServed nvs answer s checked stores mtu device_id log conn notify first out
  unfolding dump_round dump_take
  round_lem none notify first t range e = ((none, []), rw e refl, refl)
  round_lem (some conn) false first t range e = ((none, []), rw e refl, refl)
  round_lem (some conn) true first t range e =
      let (ended, rows, run, short, l, are, whole) =
        dump_run-rows nvs laws (answer conn) s log ring checked stores early later (mtu conn)
          device_id first range in
      ((some ended.1, ended.0), rw (e, run) refl, (ended, rows, refl, short, l, are, whole))

  -- A client that is connected and subscribed, or not, writes any bytes at any offsets to the
  -- control characteristic, accepted or not, and the next round of the dump thread runs; records
  -- may be appended during it, also between the test and the read of a `store_get`. If one of the
  -- writes, or a request before them, asks for a number, and the store is in step with a log and
  -- holds numbers below 2 ^ 32, the round ends and the request is used up. Without a connection or
  -- a subscription nothing is sent. Otherwise the last number asked for is served, whatever the
  -- link answers, and no notification is longer than the chunk for the MTU, or than one record
  -- where that chunk is smaller. If the dump reports success, the link took every notification, and
  -- put together they are one frame with a row for each number that the request covered when the
  -- dump began: the logged record, or the mark that it is lost. If it gives up, the link took all
  -- notifications of this dump but the last one, which it refused.
  pub dump_round-writes :
      (ws : List Write) (l : Link P) (first : ℕ)
      → AreBytes ws
      → last_asked (pending P l) ws ≡ some first
      → s.meta.next_seq < 2 ^ 32
      → (t t' : Link P) × (out : Option Bool × Log) × (writes P ws l ≡ some t)
        × (round nvs answer s checked stores mtu device_id P t ≡ some (out, t'))
        × (pending P t' ≡ none)
        × IsServed nvs answer s checked stores mtu device_id log l.current_conn l.notify_enabled
            first out
  dump_round-writes ws l first h last range =
      let (t, e, served, used) = dump_take-writes P ws l first h last in
      let (out, run, air) = round_lem l.current_conn l.notify_enabled first t range served in
      (t, (dump_take P t).1, out, e, run, used, air)
