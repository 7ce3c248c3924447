-- ===== src/Radar/Cli.antt =====
-- `cli_wait` of radar.c: listening for the prompt of the radar's command line.
--
-- `polls` is what the rounds of its loop find before the deadline: a byte from the receive ring, or
-- no byte and the level of the RX pin. The list ends at the deadline.
pub mod Search
pub mod Bounds
pub mod Reply
pub mod Drain
use n_rf5340_presence_test.Base.{
  ℕ, ◌+◌, ◌-◌, Bool, true, false, ◌&&◌, ◌||◌, List, [], ◌∷◌, ◌++◌, Option, none, some, ltb, leb,
  ◌==◌, if◌then◌else◌, ◌>>=◌, length, take, drop, bit_or,
}
use n_rf5340_presence_test.Base.Word.{u8, u32}
use Search.{strstr}

-- `char buf[96]` and `cli_rx_head[129]`
abbrev pub buf_size : ℕ
buf_size = 96

abbrev pub head_size : ℕ
head_size = 129

-- What is kept when the window slides.
abbrev pub tail_len : ℕ
tail_len = 16

-- "Done" and `RADAR_PROMPT`
abbrev pub done_word : List ℕ
done_word = b'D' ∷ b'o' ∷ b'n' ∷ b'e' ∷ []

abbrev pub prompt : List ℕ
prompt = b'm' ∷ b'm' ∷ b'w' ∷ b'D' ∷ b'e' ∷ b'm' ∷ b'o' ∷ b':' ∷ b'/' ∷ b'>' ∷ []

pub data Poll : Type 0 where
  byte : ℕ → Poll
  idle : Bool → Poll

-- The variables of the loop, and the counters of the last wait: `buf` and `head` are the texts
-- before their terminating NUL.
pub record Wait : Type 0 where
  pub buf : List ℕ
  pub done : Bool
  pub rx_n : ℕ  -- cli_rx_n
  pub head : List ℕ  -- cli_rx_head
  pub lvl : ℕ  -- cli_rx_lvl

abbrev pub wait_start : Wait
wait_start = record { buf = []; done = false; rx_n = 0; head = []; lvl = 0 }

-- `text[at] = c; text[at + 1] = '\0';` in an array of `size`; `none` is a write past the array.
abbrev pub put_char : ℕ → List ℕ → ℕ → ℕ → Option (List ℕ)
put_char size text at c = if ltb (at + 1) size then some (take at text ++ c ∷ []) else none

-- What is noted for a character.
abbrev pub shown : ℕ → ℕ
shown b = if leb 0x20 b && ltb b 0x7F then b else b'.'

-- The bring-up diagnostics: the first characters that were heard.
unfoldable pub note_head : Wait → ℕ → Option (List ℕ)
note_head w b =
    if ltb w.rx_n (head_size - 1) then put_char head_size w.head w.rx_n (shown b) else some w.head

-- The end of the round: a full window slides, with its last characters kept.
unfoldable pub slide : List ℕ → List ℕ
slide buf = if leb (buf_size - 1) (length buf) then drop (length buf - tail_len) buf else buf

-- One byte; the flag says whether `cli_wait` returns.
unfoldable pub hear : Wait → ℕ → Option (Bool × Wait)
unfolding note_head slide strstr
hear w b = do
  head ← note_head w b
  buf ← put_char buf_size w.buf (length w.buf) b
  let done = if w.done then true else strstr buf done_word
  let found = strstr buf prompt
  some (
    found,
    record {
      buf = if found then buf else slide buf;
      done = done;
      rx_n = u32 (w.rx_n + 1);
      head = head;
      lvl = w.lvl;
    },
  )

-- A round without a byte: the level of the pin is noted.
abbrev pub watch : Wait → Bool → Wait
watch w level = record w { lvl = u8 (bit_or w.lvl (if level then 2 else 1)) }

-- The rounds up to the return: the state, `done` in it being the answer, and the polls that are
-- left.
unfoldable pub listen : Wait → List Poll → Option (Wait × List Poll)
unfolding hear
listen w [] = some (w, [])
listen w (idle level ∷ polls) = listen (watch w level) polls
listen w (byte b ∷ polls) = do
  (found, w') ← hear w b
  elim found [ true ↦ some (w', polls) | false ↦ listen w' polls ]

unfoldable pub cli_wait : List Poll → Option (Wait × List Poll)
unfolding listen
cli_wait polls = listen wait_start polls
