-- ===== src/Ble/Dump.antt =====
-- `dump_run` of ble.c: one frame, streamed in notifications.
--
-- The link is a parameter: `send` is `notify_chunk`, which answers a code and may change what the
-- model calls the world `W`. `fetch` is what `store_get` answers when it is asked for a number; each
-- number is asked for once, so this covers a store that changes during the dump.
pub mod Wire
pub mod Whole
pub mod Run
pub mod Held
pub mod Live
use n_rf5340_presence_test.Base.{
  ℕ, zero, suc, ◌+◌, ◌-◌, ◌/◌, ◌%◌, Bool, true, false, not, List, [], ◌∷◌, ◌++◌, Option, none, some,
  ltb, leb, if◌then◌else◌, ◌>>=◌, length, bit_and, bit_or,
}
use n_rf5340_presence_test.Base.Int.{ℤ, is_neg}
use n_rf5340_presence_test.Base.Word.{u8, u16, u32, ◌>>>◌}
use n_rf5340_presence_test.Frame.Crc.{crc16}
use n_rf5340_presence_test.Frame.Command.{dump_range}
use n_rf5340_presence_test.Frame.Record.{
  Record, record_size, crc_size, unknown_u, unknown_s, sensor_fault, aq_fault, encode_record,
  encode_header,
}

-- `uint8_t buf[244]`
abbrev pub buf_size : ℕ
buf_size = 244

-- What is sent for a number whose record is gone.
unfoldable pub lost : ℕ → Record
lost seq = record {
  seq = seq;
  ts = 0;
  headcount = 0;
  occ_s = 0;
  dwell_s = 0;
  flags = bit_or sensor_fault aq_fault;
  batt = 0;
  pm25 = unknown_u;
  pm10 = unknown_u;
  temp = unknown_s;
  rh = unknown_s;
  voc = unknown_s;
}

-- The size that a notification is filled up to.
unfoldable pub chunk_size : ℕ → ℕ
chunk_size mtu =
    let chunk = if ltb 3 mtu then u16 (mtu - 3) else 20 in
    if ltb buf_size chunk then buf_size else chunk

-- Writing behind `buf[fill]`; `none` is a write past the buffer. The list is `buf[0..fill)`.
unfoldable pub write_bytes : List ℕ → List ℕ → Option (List ℕ)
write_bytes buf bytes =
    if leb (length buf + length bytes) buf_size then some (buf ++ bytes) else none

module _ (W : Type 0) (send : W → List ℕ → ℤ × W) (fetch : ℕ → Option Record) (chunk : ℕ) where
  -- The record that goes out for a number.
  unfoldable pub record_of : ℕ → Record
  unfolding lost
  record_of seq = elim (fetch seq) [ some rec ↦ rec | none ↦ lost seq ]

  -- `if (fill + extra > chunk) { notify; fill = 0; }`; no buffer is the early return.
  unfoldable pub make_room : W → List ℕ → ℕ → W × Option (List ℕ)
  make_room w buf extra =
      if ltb chunk (length buf + extra)
      then (let (err, w') = send w buf in (w', if is_neg err then none else some []))
      else (w, some buf)

  -- `for (seq = start; seq < start + count; seq++)` on fuel, with the buffer and the running CRC.
  -- The outer `none` is a write past the buffer, or no fuel left.
  unfoldable pub dump_loop : ℕ → ℕ → ℕ → W → List ℕ → ℕ → Option (W × Option (List ℕ × ℕ))
  dump_loop zero seq end w buf crc = none
  dump_loop (suc fuel) seq end w buf crc = elim (ltb seq end) [
    | false ↦ some (w, some (buf, crc))
    | true ↦
        let bytes = encode_record (record_of seq) in
        let (w', room) = make_room w buf record_size in
        elim room [
          | none ↦ some (w', none)
          | some buf' ↦ do
            buf'' ← write_bytes buf' bytes
            dump_loop fuel (u32 (seq + 1)) end w' buf'' (crc16 crc bytes)
        ]
  ]

  -- The trailing CRC, and the last notification; true is a dump that was sent whole.
  unfoldable pub dump_end : W → List ℕ → ℕ → Option (W × Bool)
  dump_end w buf crc =
      let (w', room) = make_room w buf crc_size in
      elim room [
        | none ↦ some (w', false)
        | some buf' ↦ do
          buf'' ← write_bytes buf' (u8 (bit_and crc 0xFF) ∷ u8 (crc >>> 8) ∷ [])
          let (err, w'') = send w' buf''
          some (w'', not (is_neg err))
      ]

  -- The frame for `count` records from `start`.
  unfoldable pub dump_frame : List ℕ → ℕ → ℕ → W → Option (W × Bool)
  dump_frame device_id count start w = do
    let header = encode_header count device_id
    (w', left) ← dump_loop (suc count) start (u32 (start + count)) w header (crc16 0xFFFF header)
    elim left [ none ↦ some (w', false) | some (buf, crc) ↦ dump_end w' buf crc ]

-- `dump_run`, from what the store and the connection say when it starts.
unfoldable pub dump_run :
    (W : Type 0)
    → (W → List ℕ → ℤ × W)
    → (ℕ → Option Record)
    → ℕ
    → List ℕ
    → ℕ
    → ℕ
    → ℕ
    → W
    → Option (W × Bool)
dump_run W send fetch mtu device_id first_seq oldest_seq next_seq w =
    let (count, start) = dump_range first_seq oldest_seq next_seq in
    dump_frame W send fetch (chunk_size mtu) device_id count start w
