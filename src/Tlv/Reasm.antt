-- ===== src/Tlv/Reasm.antt =====
-- `struct tlv_reasm`, `tlv_reset` and `tlv_push` of tlv.c: the streaming reassembler.
pub mod Valid
use n_rf5340_presence_test.Base.{
  ℕ, ◌+◌, ◌%◌, ◌^◌, Bool, true, false, ◌||◌, List, ◌++◌, Option, none, some, ltb, ◌==◌,
  if◌then◌else◌, get_elem?, get_or, drop, put, ◌>>=◌,
}
use n_rf5340_presence_test.Base.Word.{u8, u32}
use n_rf5340_presence_test.Tlv.{magic, magic_len, hdr_len, max_frame, rd_u32}

pub record Reasm : Type 0 where
  pub buf : List ℕ  -- uint8_t[TLV_MAX_FRAME]
  pub len : ℕ  -- bytes in buf
  pub want : ℕ  -- full frame length once the header is in, else 0
  pub match : ℕ  -- magic bytes matched so far while hunting

-- `tlv_reset`: the buffer keeps its bytes.
unfoldable pub reset : Reasm → Reasm
reset r = record r { len = 0; want = 0; match = 0 }

-- The magic word is complete: `memcpy(r->buf, tlv_magic, TLV_MAGIC_LEN)` and the counters.
unfoldable pub lock : Reasm → Reasm
lock r = record { buf = magic ++ drop magic_len r.buf; len = magic_len; want = 0; match = 0 }

-- The branch `r->len == 0`, hunting for the magic word; `m` is `tlv_magic[r->match]`.
unfoldable pub hunted : Reasm → ℕ → ℕ → Reasm
unfolding lock
hunted r byte m =
    if byte == m
    then (if u8 (r.match + 1) == magic_len then lock r else record r { match = u8 (r.match + 1) })
    else record r { match = if byte == get_or magic 0 0 then 1 else 0 }

unfoldable pub hunt : Reasm → ℕ → Option (Bool × Reasm)
hunt r byte = do m ← get_elem? magic r.match; some (false, hunted r byte m)

-- The end of `tlv_push`: is the frame complete?
unfoldable pub finish : Reasm → Bool × Reasm
finish r = if ltb r.len r.want then (false, r) else (true, record r { len = r.want; want = 0 })

-- The header is in: take `totalPacketLen`, or resync on a bogus one.
unfoldable pub header : Reasm → Option (Bool × Reasm)
unfolding finish reset
header r = do
  w ← rd_u32 r.buf 12
  some (
      if ltb w hdr_len || ltb max_frame w
      then (false, reset (record r { want = w }))
      else finish (record r { want = w }))

-- The rest of `tlv_push`: store the byte, then look at the lengths.
unfoldable pub collect : Reasm → ℕ → Option (Bool × Reasm)
unfolding header finish
collect r byte = do
  stored ← put r.buf r.len byte
  let r' = record r { buf = stored; len = u32 (r.len + 1) }
  if r'.want == 0
      then (if ltb r'.len hdr_len then some (false, r') else header r')
      else some (finish r')

-- `tlv_push`: true is its 1, a complete frame in `buf`.
unfoldable pub push : Reasm → ℕ → Option (Bool × Reasm)
unfolding hunt collect
push r byte = if r.len == 0 then hunt r byte else collect r byte
