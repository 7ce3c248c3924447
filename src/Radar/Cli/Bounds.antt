-- ===== src/Radar/Cli/Bounds.antt =====
-- `cli_wait` writes nothing past its arrays, whatever it hears.
use n_rf5340_presence_test.Base.{
  ℕ, ◌+◌, ◌-◌, ◌<◌, ◌≡◌, refl, ◌∙◌, ap, Bool, true, false, List, [], ◌∷◌, ◌++◌, some, ltb,
  if◌then◌else◌, arith, length, length-append, length-take, length-drop, take_all, take, lt→ltb,
  inl, inr, Bool-cases,
}
use n_rf5340_presence_test.Base.Word.{u32}
use n_rf5340_presence_test.Radar.Cli.Search.{strstr}
use n_rf5340_presence_test.Radar.Cli.{
  Poll, byte, idle, Wait, wait_start, buf_size, head_size, tail_len, done_word, prompt, note_head,
  shown, slide, watch, hear, listen, cli_wait,
}

-- The texts leave room for their NUL.
pub record HasRoom (w : Wait) : Type 0 where
  pub buf : length w.buf < buf_size
  pub head : length w.head < head_size

pub note_head_total :
    (w : Wait) (b : ℕ)
    → length w.head < head_size
    → (head : List ℕ) × (note_head w b ≡ some head) × (length head < head_size)
unfolding note_head
note_head_total w b h = elim (Bool-cases (ltb w.rx_n (head_size - 1))) [
  | inr full ↦ (w.head, rw full refl, h)
  | inl more ↦ (
    take w.rx_n w.head ++ shown b ∷ [],
    rw more (ground (arith, more)),
    ground
        (arith, more, length-append (take w.rx_n w.head) (shown b ∷ []), length-take w.rx_n w.head),
  )
]

slide_room : (buf : List ℕ) → length buf < buf_size → length (slide buf) < buf_size - 1
unfolding slide
slide_room buf h = ground (arith, length-drop (length buf - tail_len) buf)

-- The state after a byte, in which `head` was noted.
abbrev pub after : Wait → ℕ → List ℕ → Wait
after w b head =
    let buf = w.buf ++ b ∷ [] in
    record {
      buf = if strstr buf prompt then buf else slide buf;
      done = if w.done then true else strstr buf done_word;
      rx_n = u32 (w.rx_n + 1);
      head = head;
      lvl = w.lvl;
    }

pub hear_lem :
    (w : Wait) (b : ℕ) (head : List ℕ)
    → length w.buf < buf_size - 1
    → note_head w b ≡ some head
    → hear w b ≡ some (strstr (w.buf ++ b ∷ []) prompt, after w b head)
unfolding hear
hear_lem w b head h e =
    rw
      (
        e,
        take_all (length w.buf) w.buf (omega arith),
        lt→ltb (length w.buf + 1) buf_size (omega arith),
      )
      refl

after_room :
    (w : Wait) (b : ℕ) (head : List ℕ)
    → length w.buf < buf_size - 1
    → length (after w b head).buf < buf_size
after_room w b head h = ground (arith, length-append w.buf (b ∷ []), slide_room (w.buf ++ b ∷ []))

after_more :
    (w : Wait) (b : ℕ) (head : List ℕ)
    → length w.buf < buf_size - 1
    → strstr (w.buf ++ b ∷ []) prompt ≡ false
    → length (after w b head).buf < buf_size - 1
after_more w b head h e =
    rw e (slide_room (w.buf ++ b ∷ []) (omega (arith, length-append w.buf (b ∷ []))))

pub listen_found :
    (w : Wait) (b : ℕ) (polls : List Poll) {w' : Wait}
    → hear w b ≡ some (true, w')
    → listen w (byte b ∷ polls) ≡ some (w', polls)
unfolding listen
listen_found w b polls e = rw e refl

pub listen_more :
    (w : Wait) (b : ℕ) (polls : List Poll) {w' : Wait}
    → hear w b ≡ some (false, w')
    → listen w (byte b ∷ polls) ≡ listen w' polls
unfolding listen
listen_more w b polls e = rw e refl

pub listen_silence :
    (w : Wait) (level : Bool) (polls : List Poll)
    → listen w (idle level ∷ polls) ≡ listen (watch w level) polls
unfolding listen
listen_silence w level polls = refl

listen_total :
    (polls : List Poll) (w : Wait)
    → length w.buf < buf_size - 1
    → length w.head < head_size
    → (out : Wait × List Poll) × (listen w polls ≡ some out) × HasRoom out.0
listen_total [] w h k =
    ((w, []), unfold listen in refl, record { buf = omega (arith, h); head = k })
listen_total (idle level ∷ polls) w h k =
    let (out, e, room) = listen_total polls (watch w level) h k in
    (out, listen_silence w level polls ∙ e, room)
listen_total (byte b ∷ polls) w h k =
    let (head, noted, room) = note_head_total w b k in
    elim (Bool-cases (strstr (w.buf ++ b ∷ []) prompt)) [
      | inl found ↦ (
        (after w b head, polls),
        listen_found w b polls
            (hear_lem w b head h noted ∙ ap (λ (t : Bool). some (t, after w b head)) found),
        record { buf = after_room w b head h; head = room },
      )
      | inr more ↦
          let (out, e, roomy) =
            listen_total polls (after w b head) (after_more w b head h more) room in
          (
            out,
            listen_more w b polls
                  (hear_lem w b head h noted ∙ ap (λ (t : Bool). some (t, after w b head)) more)
                ∙ e,
            roomy,
          )
    ]

-- Whatever bytes come, NULs included, `cli_wait` ends by its deadline at the latest, writes nothing
-- past its two arrays, and leaves texts in them that have room for their NUL.
pub cli_wait_total :
    (polls : List Poll) → (out : Wait × List Poll) × (cli_wait polls ≡ some out) × HasRoom out.0
unfolding cli_wait
cli_wait_total polls = listen_total polls wait_start (omega arith) (omega arith)
