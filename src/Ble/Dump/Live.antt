-- ===== src/Ble/Dump/Live.antt =====
-- A dump that runs while records are appended.
use n_rf5340_presence_test.Base.{
  ℕ, zero, suc, ◌+◌, ◌^◌, ◌≤◌, ◌<◌, ◌≡◌, ◌⊎◌, refl, ap, Bool, List, [], ◌∷◌, ◌++◌, Option, none,
  some, inl, inr, length, leb, if◌then◌else◌, Bool-cases, arith,
}
use mathlib.Core.Path.{subst}
use n_rf5340_presence_test.Base.Int.{ℤ}
use n_rf5340_presence_test.Frame.Crc.{crc16}
use n_rf5340_presence_test.Frame.Record.{Record, encode_record, encode_header}
use n_rf5340_presence_test.Frame.Command.{dump_range}
use n_rf5340_presence_test.Frame.Command.Laws.{dump_range_lem}
use n_rf5340_presence_test.Store.Nvs.{Nvs, IsNvs}
use n_rf5340_presence_test.Store.{Store, oldest_seq, get_check, get_read}
use n_rf5340_presence_test.Store.Ring
use n_rf5340_presence_test.Store.Ring.{IsRing}
use n_rf5340_presence_test.Store.Ring.Later.{Later, later_log, get_read-later}
use n_rf5340_presence_test.Ble.Dump.{chunk_size, lost, dump_run, record_of}
use n_rf5340_presence_test.Ble.Dump.Run.{chunk_size-le, dump_run_lem}
use n_rf5340_presence_test.Ble.Dump.Wire.{Log, AllShort, link, limit, records}
use n_rf5340_presence_test.Ble.Dump.Whole.{crc_bytes, IsEnded}

-- Rows as they go over the air, and the frame of a header and rows.
abbrev pub encode_rows : List Record → List ℕ
encode_rows [] = []
encode_rows (r ∷ rs) = encode_record r ++ encode_rows rs

abbrev pub frame_of : List ℕ → ℕ → List Record → List ℕ
frame_of device_id count rows =
    let payload = encode_header count device_id ++ encode_rows rows in
    payload ++ crc_bytes (crc16 0xFFFF payload)

-- A row for each number from `seq` on: the logged record, or the mark of a lost one.
abbrev pub AreRows : Ring.Log → ℕ → List Record → Type 0
AreRows log seq [] = Unit {0}
AreRows log seq (r ∷ rs) = ((r ≡ log seq) ⊎ (r ≡ lost seq)) × AreRows log (seq + 1) rs

module _ (send : Log → List ℕ → ℤ × Log) (fetch : ℕ → Option Record) (chunk seq : ℕ) where
  held_row : (rec : Record) → fetch seq ≡ some rec → record_of Log send fetch chunk seq ≡ rec
  unfolding record_of
  held_row rec e = ground (arith, e)

  lost_row : fetch seq ≡ none → record_of Log send fetch chunk seq ≡ lost seq
  unfolding record_of
  lost_row e = ground (arith, e)

-- What `store_get` answers when the dump has come to a number, with appends between its test and
-- its read.
abbrev pub fetch : (nvs : Nvs) → (ℕ → Store nvs.Fs) → (ℕ → Store nvs.Fs) → ℕ → Option Record
fetch nvs checked stores q = if get_check nvs (checked q) q then get_read nvs (stores q) q else none

module _ (nvs : Nvs) (laws : IsNvs nvs) (answer : Log → List ℕ → ℤ) (s : Store nvs.Fs)
    (log : Ring.Log) (ring : IsRing nvs laws s log) (checked stores : ℕ → Store nvs.Fs)
    (early : (q : ℕ) → Later nvs laws s (checked q))
    (later : (q : ℕ) → Later nvs laws (checked q) (stores q)) (mtu : ℕ) where
  fetch_lem :
      (seq : ℕ)
      → seq < s.meta.next_seq
      → (fetch nvs checked stores seq ≡ some (log seq)) ⊎ (fetch nvs checked stores seq ≡ none)
  fetch_lem seq h =
      let (log', ring', same, le) = later_log nvs laws log ring (early seq) in
      elim (Bool-cases (get_check nvs (checked seq) seq)) [
        | inr refused ↦ inr (rw refused refl)
        | inl passed ↦ rw passed (
            rw
              (get_read-later nvs laws (checked seq) (stores seq) log' seq ring' (later seq) passed)
              (elim (Bool-cases (leb (oldest_seq nvs (stores seq)) seq)) [
                | inl held ↦ inl (rw (held, same seq h) refl)
                | inr gone ↦ inr (rw gone refl)
              ]))
      ]

  row_of :
      (seq : ℕ)
      → seq < s.meta.next_seq
      → (record_of Log (link answer) (fetch nvs checked stores) (chunk_size mtu) seq ≡ log seq)
        ⊎ (record_of Log (link answer) (fetch nvs checked stores) (chunk_size mtu) seq ≡ lost seq)
  row_of seq h = elim (fetch_lem seq h) [
    | inl held ↦
        inl (held_row (link answer) (fetch nvs checked stores) (chunk_size mtu) seq (log seq) held)
    | inr gone ↦ inr (lost_row (link answer) (fetch nvs checked stores) (chunk_size mtu) seq gone)
  ]

  rows_lem :
      (left seq : ℕ)
      → seq + left ≤ s.meta.next_seq
      → (rows : List Record) × (records answer
            (fetch nvs checked stores)
            (chunk_size mtu)
            (chunk_size-le mtu)
            left
            seq
          ≡ encode_rows rows)
        × (length rows ≡ left)
        × AreRows log seq rows
  unfolding records
  rows_lem zero seq h = ([], refl, refl, tt)
  rows_lem (suc left) seq h =
      let (rows, e, l, are) = rows_lem left (seq + 1) (omega arith) in
      let r = record_of Log (link answer) (fetch nvs checked stores) (chunk_size mtu) seq in
      (
        r ∷ rows,
        ap (λ (t : List ℕ). encode_record r ++ t) e,
        ap suc l,
        (row_of seq (omega arith), are),
      )

  -- A dump while records are appended, whose flash writes may fail, and which may overwrite records
  -- that the dump has yet to come to, also between the test and the read of a `store_get`: from a
  -- store that is in step with a log and holds numbers below 2 ^ 32, whatever the link answers, the
  -- dump ends, and no notification is longer than the chunk for the MTU, or than one record where
  -- that chunk is smaller. If it reports success, the link took every notification, and put
  -- together they are one frame with a row for each number that the request covered when it began,
  -- in order: the logged record of that number, or the mark that it is lost, and never another
  -- record. If it gives up, the link took all notifications of this dump but the last one, which it
  -- refused.
  pub dump_run-rows :
      (device_id : List ℕ) (first : ℕ)
      → s.meta.next_seq < 2 ^ 32
      → let (count, start) = dump_range first (oldest_seq nvs s) s.meta.next_seq in
        (out : Log × Bool) × (rows : List Record) × (dump_run Log
            (link answer)
            (fetch nvs checked stores)
            mtu
            device_id
            first
            (oldest_seq nvs s)
            s.meta.next_seq
            []
          ≡ some out)
        × AllShort (limit (chunk_size mtu)) out.0
        × (length rows ≡ count)
        × AreRows log start rows
        × IsEnded answer
            (fetch nvs checked stores)
            (chunk_size mtu)
            (chunk_size-le mtu)
            (frame_of device_id count rows)
            out
  dump_run-rows device_id first range =
      let oldest = oldest_seq nvs s in
      let (count, start) = dump_range first oldest s.meta.next_seq in
      let (counted, from) = dump_range_lem first oldest s.meta.next_seq in
      let (out, run, short, ended) =
        dump_run_lem answer (fetch nvs checked stores) mtu device_id first oldest s.meta.next_seq
          range in
      let (rows, e, l, are) = rows_lem count start (omega (arith, counted, from)) in
      (
        out,
        rows,
        run,
        short,
        l,
        are,
        subst
            (λ (t : List ℕ).
              IsEnded answer (fetch nvs checked stores) (chunk_size mtu) (chunk_size-le mtu)
                (let payload = encode_header count device_id ++ t in
                  payload ++ crc_bytes (crc16 0xFFFF payload))
                out)
            e ended,
      )
