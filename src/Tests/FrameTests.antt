-- ===== src/Tests/FrameTests.antt =====
-- The wire format and a dump at concrete inputs.
use n_rf5340_presence_test.Base.{
  ℕ, ◌≡◌, ◌≢◌, refl, Bool, List, [], ◌∷◌, ◌++◌, Option, none, some, arith,
}
use n_rf5340_presence_test.Base.Int.{ℤ}
use n_rf5340_presence_test.Frame.Crc.{crc16, crc16_detects}
use n_rf5340_presence_test.Frame.Record.{Record, unknown_s, encode_record}
use n_rf5340_presence_test.Frame.Record.Roundtrip.{IsRecord, decode_record, decode-encode_record}
use n_rf5340_presence_test.Frame.Command.{dump_range}
use n_rf5340_presence_test.Ble.Dump.{chunk_size, dump_run}
use n_rf5340_presence_test.Ble.Dump.Wire.{Log, AllShort, link, limit}
use n_rf5340_presence_test.Ble.Dump.Whole.{IsEnded, frame}
use n_rf5340_presence_test.Ble.Dump.Run.{chunk_size-le, dump_run_lem}

crc16_detects_example :
    crc16 0xFFFF ((1 ∷ 2 ∷ []) ++ 3 ∷ 4 ∷ []) ≢ crc16 0xFFFF ((1 ∷ 2 ∷ []) ++ 5 ∷ 4 ∷ [])
crc16_detects_example =
    crc16_detects (1 ∷ 2 ∷ []) (4 ∷ []) 3 5 0xFFFF (omega arith) (omega arith) (omega arith)
      (λ e. omega (arith, e))

abbrev cold : Record
cold = record {
  seq = 70000;
  ts = 123456;
  headcount = 2;
  occ_s = 30;
  dwell_s = 300;
  flags = 4;
  batt = 100;
  pm25 = 120;
  pm10 = 140;
  temp = ℤ.negsuc 42;
  rh = ℤ.pos 4500;
  voc = unknown_s;
}

cold-IsRecord : IsRecord cold
cold-IsRecord = record {
  seq = omega arith;
  ts = omega arith;
  headcount = omega arith;
  occ_s = omega arith;
  dwell_s = omega arith;
  flags = omega arith;
  batt = omega arith;
  pm25 = omega arith;
  pm10 = omega arith;
  temp = omega arith;
  rh = omega arith;
  voc = omega arith;
}

decode-encode_record_example : decode_record (encode_record cold ++ []) ≡ cold
decode-encode_record_example = decode-encode_record cold [] cold-IsRecord

abbrev id : List ℕ
id = b'N' ∷ b'1' ∷ []

-- A link that takes everything, and a store that has lost all records.
abbrev takes : Log → List ℕ → ℤ
takes sent bytes = ℤ.pos 0

abbrev nothing : ℕ → Option Record
nothing seq = none

dump_run_lem_example :
    let count = (dump_range 1 0 3).0 in
    let start = (dump_range 1 0 3).1 in
    let chunk = chunk_size 23 in
    (out : Log × Bool) × (dump_run Log (link takes) nothing 23 id 1 0 3 [] ≡ some out)
    × AllShort (limit chunk) out.0
    × IsEnded takes nothing chunk
        (chunk_size-le 23)
        (frame takes nothing chunk (chunk_size-le 23) id count start)
        out
dump_run_lem_example = dump_run_lem takes nothing 23 id 1 0 3 (omega arith)

-- The check value of CRC-16/CCITT-FALSE, over "123456789".
crc16_check :
    crc16 0xFFFF (0x31 ∷ 0x32 ∷ 0x33 ∷ 0x34 ∷ 0x35 ∷ 0x36 ∷ 0x37 ∷ 0x38 ∷ 0x39 ∷ []) ≡ 0x29B1
unfolding crc16
crc16_check = refl
