-- ===== src/Ble/Dump/Run.antt =====
-- What `dump_run` sends for a request.
use n_rf5340_presence_test.Base.{ℕ, ◌^◌, ◌≤◌, ◌<◌, ◌≡◌, Bool, List, [], Option, some, arith}
use n_rf5340_presence_test.Base.Int.{ℤ}
use n_rf5340_presence_test.Frame.Record.{Record}
use n_rf5340_presence_test.Frame.Command.{dump_range}
use n_rf5340_presence_test.Frame.Command.Laws.{dump_range_lem}
use n_rf5340_presence_test.Ble.Dump.{buf_size, chunk_size, dump_run}
use n_rf5340_presence_test.Ble.Dump.Wire.{Log, AllShort, link, limit}
use n_rf5340_presence_test.Ble.Dump.Whole.{IsEnded, frame, dump_frame_lem}

pub chunk_size-le : (mtu : ℕ) → chunk_size mtu ≤ buf_size
unfolding chunk_size
chunk_size-le mtu = ground arith

-- Whatever the link answers, a dump of numbers below 2 ^ 32 ends and never writes past its buffer,
-- and no notification is longer than the chunk for the MTU, or than one record where that chunk is
-- smaller. If the dump reports success, the link took every notification, and put together they are
-- exactly one frame for the range that was asked for: header, records and the CRC of both. If it
-- gives up, the link took all notifications of this dump but the last one, which it refused.
pub dump_run_lem :
    (answer : Log → List ℕ → ℤ) (fetch : ℕ → Option Record) (mtu : ℕ) (device_id : List ℕ)
    (first oldest next : ℕ)
    → next < 2 ^ 32
    → let count = (dump_range first oldest next).0 in
      let start = (dump_range first oldest next).1 in
      let chunk = chunk_size mtu in
      (out : Log × Bool) × (dump_run Log (link answer) fetch mtu device_id first oldest next []
        ≡ some out)
      × AllShort (limit chunk) out.0
      × IsEnded answer fetch chunk
          (chunk_size-le mtu)
          (frame answer fetch chunk (chunk_size-le mtu) device_id count start)
          out
unfolding dump_run
dump_run_lem answer fetch mtu device_id first oldest next range =
    dump_frame_lem answer fetch (chunk_size mtu) (chunk_size-le mtu) device_id
      (dump_range first oldest next).0 (dump_range first oldest next).1
      (omega (arith, dump_range_lem first oldest next))
