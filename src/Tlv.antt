-- ===== src/Tlv.antt =====
-- The radar's binary output: tlv.h and tlv.c, the constants, the word reader and the header.
-- A pointer into a buffer is the buffer and an index; a read out of range is `none`.
pub mod Read
pub mod Reasm
pub mod Find
pub mod Targets
pub mod Presence
use n_rf5340_presence_test.Base.{ℕ, ◌+◌, List, [], ◌∷◌, Option, some, bit_or, get_elem?, ◌>>=◌}
use n_rf5340_presence_test.Base.Word.{◌<<<◌}

abbrev pub magic_len : ℕ
magic_len = 8

abbrev pub hdr_len : ℕ
hdr_len = 40

abbrev pub max_frame : ℕ
max_frame = 2048

abbrev pub target_list : ℕ
target_list = 308

abbrev pub enhanced_presence : ℕ
enhanced_presence = 315

-- `tlv_magic`
abbrev pub magic : List ℕ
magic = 2 ∷ 1 ∷ 4 ∷ 3 ∷ 6 ∷ 5 ∷ 8 ∷ 7 ∷ []

-- `rd_u32(p + o)`
unfoldable pub rd_u32 : List ℕ → ℕ → Option ℕ
rd_u32 p o = do
  b0 ← get_elem? p o
  b1 ← get_elem? p (o + 1)
  b2 ← get_elem? p (o + 2)
  b3 ← get_elem? p (o + 3)
  some (bit_or (bit_or (bit_or b0 (b1 <<< 8)) (b2 <<< 16)) (b3 <<< 24))

-- `rd_f32(p + o)`: a float is the 32-bit pattern that `memcpy` moves into it.
unfoldable pub rd_f32 : List ℕ → ℕ → Option ℕ
unfolding rd_u32
rd_f32 p o = do v ← rd_u32 p o; some v

-- `struct tlv_header`
pub record Header : Type 0 where
  pub version : ℕ
  pub total_len : ℕ
  pub platform : ℕ
  pub frame_no : ℕ
  pub cpu_cycles : ℕ
  pub num_detected : ℕ
  pub num_tlvs : ℕ
  pub sub_frame : ℕ

-- `tlv_header_get`
unfoldable pub header_get : List ℕ → Option Header
header_get frame = do
  a ← rd_u32 frame 8
  b ← rd_u32 frame 12
  c ← rd_u32 frame 16
  d ← rd_u32 frame 20
  e ← rd_u32 frame 24
  f ← rd_u32 frame 28
  g ← rd_u32 frame 32
  h ← rd_u32 frame 36
  some (record {
    version = a;
    total_len = b;
    platform = c;
    frame_no = d;
    cpu_cycles = e;
    num_detected = f;
    num_tlvs = g;
    sub_frame = h;
  })
