-- ===== src/Frame/Command.antt =====
-- `sntl_parse_cmd` and `sntl_dump_range` of frame.c.
pub mod Laws
use n_rf5340_presence_test.Base.{
  ℕ, ◌+◌, ◌-◌, Bool, true, false, ◌||◌, not, List, Option, none, some, ltb, leb, ◌==◌,
  if◌then◌else◌, get_elem?, ◌>>=◌, bit_or, length,
}
use n_rf5340_presence_test.Base.Word.{u16, ◌<<<◌}

abbrev pub cmd_dump : ℕ
cmd_dump = 0x01

abbrev pub cmd_len : ℕ
cmd_len = 5

abbrev pub u16_max : ℕ
u16_max = 0xFFFF

-- `buf` is the list of the `len` bytes written. `some (some seq)` is a return of 1 with
-- `*first_seq`, `some none` a return of 0, and `none` a read out of range.
unfoldable pub parse_cmd : List ℕ → Option (Option ℕ)
parse_cmd buf = if not (length buf == cmd_len) then some none else (do
  c ← get_elem? buf 0
  if not (c == cmd_dump) then some none else (do
    b1 ← get_elem? buf 1
    b2 ← get_elem? buf 2
    b3 ← get_elem? buf 3
    b4 ← get_elem? buf 4
    some (some (bit_or (bit_or (bit_or b1 (b2 <<< 8)) (b3 <<< 16)) (b4 <<< 24)))))

-- The count, and `*start_seq`.
unfoldable pub dump_range : ℕ → ℕ → ℕ → ℕ × ℕ
dump_range first_seq oldest_seq next_seq =
    let start = if ltb oldest_seq first_seq then first_seq else oldest_seq in
    if leb next_seq start
    then (0, next_seq)
    else (u16 (if ltb u16_max (next_seq - start) then u16_max else next_seq - start), start)
