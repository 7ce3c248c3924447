-- ===== src/Frame/Record/Roundtrip.antt =====
-- What a reader of the wire format gets back from `sntl_encode_record` and `sntl_encode_header`.
use n_rf5340_presence_test.Base.{
  ℕ, zero, suc, ◌+◌, ◌-◌, ◌*◌, ◌^◌, ◌≤◌, ◌<◌, ◌≡◌, refl, ◌∙◌, ap, ap₂, List, [], ◌∷◌, ◌++◌, arith,
  length, replicate, byte_at, take, drop, IsBytes,
}
use n_rf5340_presence_test.Base.Word.{u8, ◌>>>◌}
use n_rf5340_presence_test.Base.Bits.{bit_and_mask}
use n_rf5340_presence_test.Base.Int.{ℤ, of_i16, to_i16, IsI16, to_i16-of_i16, of_i16-lt}
use n_rf5340_presence_test.Tlv.Read.{le32}
use n_rf5340_presence_test.Frame.Record.{
  Record, version, record_size, header_size, device_id_len, encode_record, id_field, encode_header,
}

abbrev pub le16 : List ℕ → ℕ → ℕ
le16 p o = byte_at p o + byte_at p (o + 1) * 2 ^ 8

-- The record that the 24 bytes stand for, by the layout of frame.h.
abbrev pub decode_record : List ℕ → Record
decode_record p = record {
  seq = le32 p 0;
  ts = le32 p 4;
  headcount = byte_at p 8;
  occ_s = byte_at p 9;
  dwell_s = le16 p 10;
  flags = byte_at p 12;
  batt = byte_at p 13;
  pm25 = le16 p 14;
  pm10 = le16 p 16;
  temp = to_i16 (le16 p 18);
  rh = to_i16 (le16 p 20);
  voc = to_i16 (le16 p 22);
}

-- Every field is in the range of its C type.
pub record IsRecord (r : Record) : Type 0 where
  pub seq : r.seq < 2 ^ 32
  pub ts : r.ts < 2 ^ 32
  pub headcount : r.headcount < 256
  pub occ_s : r.occ_s < 256
  pub dwell_s : r.dwell_s < 2 ^ 16
  pub flags : r.flags < 256
  pub batt : r.batt < 256
  pub pm25 : r.pm25 < 2 ^ 16
  pub pm10 : r.pm10 < 2 ^ 16
  pub temp : IsI16 r.temp
  pub rh : IsI16 r.rh
  pub voc : IsI16 r.voc

join16 : (w : ℕ) → w < 2 ^ 16 → u8 w + u8 (w >>> 8) * 2 ^ 8 ≡ w
join16 w h = omega arith

join32 :
    (w : ℕ)
    → w < 2 ^ 32
    → u8 w + u8 (w >>> 8) * 2 ^ 8 + u8 (w >>> 16) * 2 ^ 16 + u8 (w >>> 24) * 2 ^ 24 ≡ w
join32 w h = omega arith

join_i16 : (v : ℤ) → IsI16 v → to_i16 (u8 (of_i16 v) + u8 (of_i16 v >>> 8) * 2 ^ 8) ≡ v
join_i16 v h = ap to_i16 (join16 (of_i16 v) (of_i16-lt v)) ∙ to_i16-of_i16 v h

-- A record whose fields are in the range of their C types survives the wire: every field comes
-- back, negative temperatures included.
pub decode-encode_record :
    (r : Record) (more : List ℕ) → IsRecord r → decode_record (encode_record r ++ more) ≡ r
unfolding encode_record
decode-encode_record r more h = λ i. record {
  seq = join32 r.seq h.seq i;
  ts = join32 r.ts h.ts i;
  headcount = r.headcount;
  occ_s = r.occ_s;
  dwell_s = join16 r.dwell_s h.dwell_s i;
  flags = r.flags;
  batt = r.batt;
  pm25 = join16 r.pm25 h.pm25 i;
  pm10 = join16 r.pm10 h.pm10 i;
  temp = join_i16 r.temp h.temp i;
  rh = join_i16 r.rh h.rh i;
  voc = join_i16 r.voc h.voc i;
}

pub length-encode_record : (r : Record) → length (encode_record r) ≡ record_size
unfolding encode_record
length-encode_record r = refl

pub IsBytes-encode_record : (r : Record) → IsRecord r → IsBytes (encode_record r)
unfolding encode_record
IsBytes-encode_record r h = ground arith

id_field_lem :
    (left : ℕ) (id : List ℕ)
    → IsBytes id
    → length id ≤ left
    → id_field left id ≡ id ++ replicate (left - length id) 0
unfolding id_field
id_field_lem zero [] h fits = refl
id_field_lem zero (c ∷ id) h fits = absurd (omega arith)
id_field_lem (suc left) [] h fits =
    ap (λ (l : List ℕ). 0 ∷ l) (id_field_lem left [] h (omega arith))
    ∙ ap (λ (n : ℕ). 0 ∷ replicate n 0) {y = left} (omega arith)
    ∙ ap (λ (n : ℕ). replicate n 0) {x = suc left} {y = suc left - 0} (omega arith)
id_field_lem (suc left) (c ∷ id) h fits = ap₂ ◌∷◌ (omega arith) (
    id_field_lem left id h.1 (omega arith)
    ∙ ap (λ (n : ℕ). id ++ replicate n 0) {y = suc left - suc (length id)} (omega arith))

pub length-id_field : (left : ℕ) (id : List ℕ) → length (id_field left id) ≡ left
unfolding id_field
length-id_field zero id = refl
length-id_field (suc left) [] = ap suc (length-id_field left [])
length-id_field (suc left) (c ∷ id) = ap suc (length-id_field left id)

pub length-encode_header : (count : ℕ) (id : List ℕ) → length (encode_header count id) ≡ header_size
unfolding encode_header
length-encode_header count id = omega (arith, length-id_field device_id_len id)

-- The header, for a count of 16 bits and an id of at most eight bytes: magic, version and record
-- size, then the count in little-endian order, then the id padded with zeros to eight bytes.
pub encode_header_lem :
    (count : ℕ) (id : List ℕ)
    → count < 2 ^ 16
    → IsBytes id
    → length id ≤ device_id_len
    → (take 6 (encode_header count id) ≡ b'S' ∷ b'N' ∷ b'T' ∷ b'L' ∷ version ∷ record_size ∷ [])
      × (le16 (encode_header count id) 6 ≡ count)
      × (drop 8 (encode_header count id) ≡ id ++ replicate (device_id_len - length id) 0)
unfolding encode_header
encode_header_lem count id h bytes fits =
    (refl, omega (arith, bit_and_mask 8 count), id_field_lem device_id_len id bytes fits)
