-- ===== src/Frame/Record.antt =====
-- `struct sntl_record`, `sntl_encode_record`, `sntl_encode_header` and `sntl_frame_size` of frame.c.
pub mod Roundtrip
use n_rf5340_presence_test.Base.{
  ℕ, zero, suc, ◌+◌, ◌*◌, List, [], ◌∷◌, ◌++◌, if◌then◌else◌, ◌==◌, bit_and,
}
use n_rf5340_presence_test.Base.Int.{ℤ, of_i16}
use n_rf5340_presence_test.Base.Word.{u8, ◌>>>◌}

pub record Record : Type 0 where
  pub seq : ℕ  -- uint32_t
  pub ts : ℕ  -- uint32_t, seconds
  pub headcount : ℕ  -- uint8_t
  pub occ_s : ℕ  -- uint8_t
  pub dwell_s : ℕ  -- uint16_t
  pub flags : ℕ  -- uint8_t
  pub batt : ℕ  -- uint8_t
  pub pm25 : ℕ  -- uint16_t
  pub pm10 : ℕ  -- uint16_t
  pub temp : ℤ  -- int16_t
  pub rh : ℤ  -- int16_t
  pub voc : ℤ  -- int16_t

abbrev pub version : ℕ
version = 3

abbrev pub record_size : ℕ
record_size = 24

abbrev pub header_size : ℕ
header_size = 16

abbrev pub crc_size : ℕ
crc_size = 2

abbrev pub device_id_len : ℕ
device_id_len = 8

-- `SNTL_AQ_UNKNOWN_U` and `SNTL_AQ_UNKNOWN_S`
abbrev pub unknown_u : ℕ
unknown_u = 0xFFFF

abbrev pub unknown_s : ℤ
unknown_s = ℤ.pos 0x7FFF

-- The record flags.
abbrev pub sensor_fault : ℕ
sensor_fault = 0x01

abbrev pub rtc_unset : ℕ
rtc_unset = 0x04

abbrev pub no_tracker : ℕ
no_tracker = 0x20

abbrev pub aq_fault : ℕ
aq_fault = 0x40

-- `sntl_encode_record`: the bytes `out[0]` to `out[23]`.
unfoldable pub encode_record : Record → List ℕ
unfolding of_i16
encode_record rec =
    u8 rec.seq
    ∷ u8 (rec.seq >>> 8)
    ∷ u8 (rec.seq >>> 16)
    ∷ u8 (rec.seq >>> 24)
    ∷ u8 rec.ts
    ∷ u8 (rec.ts >>> 8)
    ∷ u8 (rec.ts >>> 16)
    ∷ u8 (rec.ts >>> 24)
    ∷ rec.headcount
    ∷ rec.occ_s
    ∷ u8 rec.dwell_s
    ∷ u8 (rec.dwell_s >>> 8)
    ∷ rec.flags
    ∷ rec.batt
    ∷ u8 rec.pm25
    ∷ u8 (rec.pm25 >>> 8)
    ∷ u8 rec.pm10
    ∷ u8 (rec.pm10 >>> 8)
    ∷ u8 (of_i16 rec.temp)
    ∷ u8 (of_i16 rec.temp >>> 8)
    ∷ u8 (of_i16 rec.rh)
    ∷ u8 (of_i16 rec.rh >>> 8)
    ∷ u8 (of_i16 rec.voc)
    ∷ u8 (of_i16 rec.voc >>> 8)
    ∷ []

-- `for (i = 0; i < 8 && device_id[i] != '\0'; i++)` over bytes cleared by `memset`, with the rounds
-- left. The list is the text up to its NUL.
unfoldable pub id_field : ℕ → List ℕ → List ℕ
id_field zero id = []
id_field (suc left) [] = 0 ∷ id_field left []
id_field (suc left) (c ∷ id) = u8 c ∷ id_field left id

-- `sntl_encode_header`: "SNTL", the version, the record size, the count and the device id.
unfoldable pub encode_header : ℕ → List ℕ → List ℕ
unfolding id_field
encode_header record_count device_id =
    (b'S'
      ∷ b'N'
      ∷ b'T'
      ∷ b'L'
      ∷ version
      ∷ record_size
      ∷ u8 (bit_and record_count 0xFF)
      ∷ u8 (record_count >>> 8)
      ∷ [])
    ++ id_field device_id_len device_id

-- `sntl_frame_size`
unfoldable pub frame_size : ℕ → ℕ
frame_size record_count = header_size + record_count * record_size + crc_size
