-- ===== src/Ble/Dump/Held.antt =====
-- The dump and the store together: what goes over the air is the log of the records.
use n_rf5340_presence_test.Base.{
  ℕ, zero, suc, ◌+◌, ◌-◌, ◌^◌, ◌≤◌, ◌<◌, ◌≡◌, refl, ◌∙◌, ap, ap₂, Bool, List, [], ◌++◌, some, arith,
  max, min,
}
use mathlib.Core.Path.{subst}
use native.Mathlib.Decide.{dec_le}
use n_rf5340_presence_test.Base.Int.{ℤ}
use n_rf5340_presence_test.Frame.Crc.{crc16}
use n_rf5340_presence_test.Frame.Record.{Record, encode_record, encode_header}
use n_rf5340_presence_test.Frame.Command.{dump_range}
use n_rf5340_presence_test.Frame.Command.Laws.{dump_range_lem}
use n_rf5340_presence_test.Store.Nvs.{Nvs, IsNvs}
use n_rf5340_presence_test.Store.{Store, capacity, oldest_seq, get}
use n_rf5340_presence_test.Store.Ring
use n_rf5340_presence_test.Store.Ring.{IsRing, get_lem}
use n_rf5340_presence_test.Ble.Dump.{chunk_size, dump_run, record_of}
use n_rf5340_presence_test.Ble.Dump.Run.{chunk_size-le, dump_run_lem}
use n_rf5340_presence_test.Ble.Dump.Wire.{Log, AllShort, link, limit, records}
use n_rf5340_presence_test.Ble.Dump.Whole.{crc_bytes, IsEnded, frame}

-- The records of a log from `seq` on, as they go over the air.
abbrev pub log_records : Ring.Log → ℕ → ℕ → List ℕ
log_records log zero seq = []
log_records log (suc left) seq = encode_record (log seq) ++ log_records log left (seq + 1)

-- The frame that a request for the numbers from `first` on is owed.
abbrev pub log_frame : List ℕ → Ring.Log → ℕ → ℕ → ℕ → List ℕ
log_frame device_id log first oldest next =
    let start = max first oldest in
    let payload = encode_header (next - start) device_id ++ log_records log (next - start) start in
    payload ++ crc_bytes (crc16 0xFFFF payload)

module _ (nvs : Nvs) (laws : IsNvs nvs) (answer : Log → List ℕ → ℤ) (s : Store nvs.Fs)
    (log : Ring.Log) (ring : IsRing nvs laws s log) (mtu : ℕ) where
  held_record :
      (seq : ℕ)
      → oldest_seq nvs s ≤ seq
      → seq < s.meta.next_seq
      → record_of Log (link answer) (get nvs s) (chunk_size mtu) seq ≡ log seq
  unfolding record_of
  held_record seq low high = ground (arith, get_lem nvs laws s log seq ring)

  records-log_records :
      (left seq : ℕ)
      → oldest_seq nvs s ≤ seq
      → seq + left ≤ s.meta.next_seq
      → records answer (get nvs s) (chunk_size mtu) (chunk_size-le mtu) left seq
        ≡ log_records log left seq
  unfolding records
  records-log_records zero seq low high = refl
  records-log_records (suc left) seq low high =
      ap₂ (λ (r : Record) (t : List ℕ). encode_record r ++ t) (held_record seq low (omega arith))
        (records-log_records left (seq + 1) (omega arith) (omega arith))

  oldest_seq-near : s.meta.next_seq ≤ oldest_seq nvs s + capacity
  unfolding oldest_seq
  oldest_seq-near = ground arith

  same_records :
      (count start begin : ℕ)
      → count ≡ s.meta.next_seq - begin
      → start ≡ min s.meta.next_seq begin
      → oldest_seq nvs s ≤ begin
      → records answer (get nvs s) (chunk_size mtu) (chunk_size-le mtu) count start
        ≡ log_records log (s.meta.next_seq - begin) begin
  unfolding records
  same_records count start begin same from low = elim (dec_le begin s.meta.next_seq) [
    | yes inside ↦
        rw (same, from ∙ ap (λ (q : ℕ). q) {y = begin} (omega arith))
          (records-log_records (s.meta.next_seq - begin) begin low (omega arith))
    | no past ↦
        rw (same, ap (λ (q : ℕ). q) {x = s.meta.next_seq - begin} {y = 0} (omega arith)) refl
  ]

  frame-log_frame :
      (device_id : List ℕ) (first : ℕ)
      → let (count, start) = dump_range first (oldest_seq nvs s) s.meta.next_seq in
        frame answer (get nvs s) (chunk_size mtu) (chunk_size-le mtu) device_id count start
        ≡ log_frame device_id log first (oldest_seq nvs s) s.meta.next_seq
  frame-log_frame device_id first =
      let oldest = oldest_seq nvs s in
      let (count, start) = dump_range first oldest s.meta.next_seq in
      let (counted, from) = dump_range_lem first oldest s.meta.next_seq in
      let same : count ≡ s.meta.next_seq - max first oldest =
        omega (arith, counted, oldest_seq-near) in
      ap (λ (payload : List ℕ). payload ++ crc_bytes (crc16 0xFFFF payload))
        (ap₂ (λ (n : ℕ) (t : List ℕ). encode_header n device_id ++ t) same
          (same_records count start (max first oldest) same from (omega arith)))

  -- When the store is in step with a log of its records, holds numbers below 2 ^ 32 only, and does
  -- not change during the dump: whatever the link answers, a dump ends, and no notification is
  -- longer than the chunk for the MTU, or than one record where that chunk is smaller. If it
  -- reports success, the link took every notification, and put together they are the frame of the
  -- logged records from the number asked for, or the oldest that is held, up to the newest. If it
  -- gives up, the link took all notifications of this dump but the last one, which it refused.
  pub dump_run-log_frame :
      (device_id : List ℕ) (first : ℕ)
      → s.meta.next_seq < 2 ^ 32
      → let oldest = oldest_seq nvs s in
        (out : Log × Bool) × (dump_run Log
            (link answer)
            (get nvs s)
            mtu
            device_id
            first
            oldest
            s.meta.next_seq
            []
          ≡ some out)
        × AllShort (limit (chunk_size mtu)) out.0
        × IsEnded answer
            (get nvs s)
            (chunk_size mtu)
            (chunk_size-le mtu)
            (log_frame device_id log first oldest s.meta.next_seq)
            out
  dump_run-log_frame device_id first range =
      let (out, run, short, ended) =
        dump_run_lem answer (get nvs s) mtu device_id first (oldest_seq nvs s) s.meta.next_seq
          range in
      (
        out,
        run,
        short,
        subst
            (λ (whole : List ℕ).
              IsEnded answer (get nvs s) (chunk_size mtu) (chunk_size-le mtu) whole out)
            (frame-log_frame device_id first) ended,
      )
