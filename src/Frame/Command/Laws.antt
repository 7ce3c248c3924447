-- ===== src/Frame/Command/Laws.antt =====
-- What a dump command means, and which records it selects.
use n_rf5340_presence_test.Base.{
  ℕ, ◌+◌, ◌-◌, ◌≤◌, ◌<◌, ◌≡◌, ◌↔◌, List, Option, none, some, arith, length, byte_at, byte_at-lt,
  IsBytes, min, max, if◌then◌else◌, ◌==◌, ◌&&◌, get_elem?-eq-get_or,
}
use n_rf5340_presence_test.Tlv.Read.{le32, or_bytes}
use n_rf5340_presence_test.Frame.Command.{cmd_dump, cmd_len, u16_max, parse_cmd, dump_range}

-- The number that a write asks for, if it is a dump command.
abbrev pub asked : List ℕ → Option ℕ
asked buf = if length buf == cmd_len && byte_at buf 0 == cmd_dump then some (le32 buf 1) else none

pub parse_cmd-asked : (buf : List ℕ) → IsBytes buf → parse_cmd buf ≡ some (asked buf)
unfolding parse_cmd
parse_cmd-asked buf h = ground (
  arith,
  get_elem?-eq-get_or buf 0 0,
  get_elem?-eq-get_or buf 1 0,
  get_elem?-eq-get_or buf 2 0,
  get_elem?-eq-get_or buf 3 0,
  get_elem?-eq-get_or buf 4 0,
  or_bytes (byte_at buf 1) (byte_at buf 2) (byte_at buf 3) (byte_at buf 4) (byte_at-lt buf 1 h)
      (byte_at-lt buf 2 h) (byte_at-lt buf 3 h),
)

asked_iff :
    (buf : List ℕ) (seq : ℕ)
    → (asked buf ≡ some seq)
      ↔ ((length buf ≡ cmd_len) × (byte_at buf 0 ≡ cmd_dump) × (le32 buf 1 ≡ seq))
asked_iff buf seq = (λ e. ground arith, λ e. ground arith)

-- `sntl_parse_cmd` reads nothing out of range on any write; it accepts exactly the writes of five
-- bytes that begin with the dump code, and takes the number that the other four stand for.
pub parse_cmd_total :
    (buf : List ℕ)
    → IsBytes buf
    → (answer : Option ℕ) × (parse_cmd buf ≡ some answer)
      × ((seq : ℕ)
          → (answer ≡ some seq)
            ↔ ((length buf ≡ cmd_len) × (byte_at buf 0 ≡ cmd_dump) × (le32 buf 1 ≡ seq)))
parse_cmd_total buf h = (asked buf, parse_cmd-asked buf h, asked_iff buf)

-- The count is what lies between the later of the two bounds and the next number, cut to 16 bits,
-- and the start never lies beyond the next number.
pub dump_range_lem :
    (first oldest next : ℕ)
    → let (count, start) = dump_range first oldest next in
      (count ≡ min u16_max (next - max first oldest)) × (start ≡ min next (max first oldest))
unfolding dump_range
dump_range_lem first oldest next = ground arith

-- The numbers that a dump covers are exactly those that are held and not below the first one asked
-- for, both ends right, when the ring holds no more than the 16-bit count can say.
pub dump_range_selects :
    (first oldest next seq : ℕ)
    → next ≤ oldest + u16_max
    → let (count, start) = dump_range first oldest next in
      ((start ≤ seq) × (seq < start + count)) ↔ ((first ≤ seq) × (oldest ≤ seq) × (seq < next))
dump_range_selects first oldest next seq h = (
  λ e. omega (arith, dump_range_lem first oldest next),
  λ e. omega (arith, dump_range_lem first oldest next),
)
