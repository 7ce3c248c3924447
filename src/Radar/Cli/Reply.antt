-- ===== src/Radar/Cli/Reply.antt =====
-- The answer of `cli_wait` does not depend on its window: it is what a search of all that was heard
-- would say.
use n_rf5340_presence_test.Base.{
  ℕ, zero, suc, ◌-◌, ◌≤◌, ◌<◌, ◌≡◌, ◌≢◌, refl, sym, ◌∙◌, ap, ap₂, Bool, true, false, ◌||◌, List, [],
  ◌∷◌, ◌++◌, some, if◌then◌else◌, arith, length, length-append, length-drop, take, drop,
  take-append-drop, append_assoc, inl, inr, Bool-cases, ◌⊎◌,
}
use mathlib.Core.Path.{subst}
use native.Mathlib.Decide.{dec_lt}
use n_rf5340_presence_test.Radar.Cli.Search.{
  strstr, contains, IsText, c_string_text, contains_window, contains_window_start,
}
use n_rf5340_presence_test.Radar.Cli.{
  Poll, byte, idle, Wait, wait_start, buf_size, head_size, tail_len, done_word, prompt, slide,
  watch, hear, listen, cli_wait,
}
use n_rf5340_presence_test.Radar.Cli.Bounds.{
  note_head_total, after, hear_lem, listen_found, listen_more, listen_silence,
}

-- The bytes of the polls.
abbrev pub heard : List Poll → List ℕ
heard [] = []
heard (byte b ∷ polls) = b ∷ heard polls
heard (idle level ∷ polls) = heard polls

-- The answer to a reply, when `seen` came before: is "Done" in it, up to the end of the first
-- prompt?
abbrev pub answer : List ℕ → List ℕ → Bool
answer seen [] = contains done_word seen
answer seen (b ∷ bs) =
    let rest = answer (seen ++ b ∷ []) bs in
    if contains prompt (seen ++ b ∷ []) then contains done_word (seen ++ b ∷ []) else rest

-- The window shows the end of what was seen, and enough of it.
record IsWindow (seen : List ℕ) (w : Wait) : Type 0 where
  front : List ℕ
  whole : seen ≡ front ++ w.buf
  long : (front ≡ []) ⊎ (tail_len ≤ length w.buf)
  room : length w.buf < buf_size - 1
  head : length w.head < head_size
  text : IsText w.buf
  done : w.done ≡ contains done_word seen
  waiting : contains prompt seen ≡ false

grow :
    (word seen : List ℕ) (w : Wait) (b : ℕ)
    → length word ≤ tail_len
    → IsWindow seen w
    → contains word (seen ++ b ∷ []) ≡ contains word seen || contains word (w.buf ++ b ∷ [])
grow word seen w b h v =
    rw v.whole (ap (contains word) (append_assoc v.front w.buf (b ∷ [])) ∙ split v.front v.long)
  where
    split :
        (front : List ℕ)
        → (front ≡ []) ⊎ (tail_len ≤ length w.buf)
        → contains word (front ++ (w.buf ++ b ∷ []))
          ≡ contains word (front ++ w.buf) || contains word (w.buf ++ b ∷ [])
    split front (inl e) = rw e (contains_window_start word w.buf b)
    split front (inr long) = contains_window word front w.buf b (omega (arith, h, long))

IsText-snoc : (cs : List ℕ) (c : ℕ) → IsText cs → c ≢ 0 → IsText (cs ++ c ∷ [])
IsText-snoc [] c h k = (k, tt)
IsText-snoc (x ∷ cs) c h k = (h.0, IsText-snoc cs c h.1 k)

IsText-drop : (n : ℕ) (cs : List ℕ) → IsText cs → IsText (drop n cs)
IsText-drop zero cs h = h
IsText-drop (suc n) [] h = tt
IsText-drop (suc n) (c ∷ cs) h = IsText-drop n cs h.1

strstr_text : (cs word : List ℕ) → IsText cs → strstr cs word ≡ contains word cs
unfolding strstr
strstr_text cs word h = ap (contains word) (c_string_text cs h)

-- What one byte finds.
found_lem :
    (seen : List ℕ) (w : Wait) (b : ℕ)
    → IsWindow seen w
    → b ≢ 0
    → strstr (w.buf ++ b ∷ []) prompt ≡ contains prompt (seen ++ b ∷ [])
found_lem seen w b v h =
    strstr_text (w.buf ++ b ∷ []) prompt (IsText-snoc w.buf b v.text h)
    ∙ sym (
        grow prompt seen w b (omega arith) v
        ∙ ap (λ (t : Bool). t || contains prompt (w.buf ++ b ∷ [])) v.waiting)

done_lem :
    (seen : List ℕ) (w : Wait) (b : ℕ) (head : List ℕ)
    → IsWindow seen w
    → b ≢ 0
    → (after w b head).done ≡ contains done_word (seen ++ b ∷ [])
done_lem seen w b head v h =
    pick w.done (strstr (w.buf ++ b ∷ []) done_word)
    ∙ ap₂ ◌||◌ v.done (strstr_text (w.buf ++ b ∷ []) done_word (IsText-snoc w.buf b v.text h))
    ∙ sym (grow done_word seen w b (omega arith) v)
  where
    pick : (a c : Bool) → (if a then true else c) ≡ a || c
    pick true c = refl
    pick false c = refl

-- The window before it slides, and after.
kept-IsWindow :
    (seen : List ℕ) (w : Wait) (b : ℕ) (w' : Wait)
    → IsWindow seen w
    → b ≢ 0
    → contains prompt (seen ++ b ∷ []) ≡ false
    → w'.done ≡ contains done_word (seen ++ b ∷ [])
    → length w'.head < head_size
    → w'.buf ≡ slide (w.buf ++ b ∷ [])
    → IsWindow (seen ++ b ∷ []) w'
kept-IsWindow seen w b w' v h quiet done head e = elim (dec_lt (length buf) (buf_size - 1)) [
  | yes short ↦
      let same : w'.buf ≡ buf = e ∙ (unfold slide in ground (arith, short)) in
      record {
        front = v.front;
        whole = joined ∙ ap (λ (t : List ℕ). v.front ++ t) (sym same);
        long = longer v.front v.long same;
        room = omega (arith, ap (length {A = ℕ}) same, short);
        head = head;
        text = subst IsText (sym same) text;
        done = done;
        waiting = quiet;
      }
  | no full ↦
      let n : ℕ = length buf - tail_len in
      let same : w'.buf ≡ drop n buf = e ∙ (unfold slide in ground (arith, full)) in
      let kept : length w'.buf ≡ tail_len =
        omega (arith, full, ap (length {A = ℕ}) same, length-drop n buf) in
      record {
        front = v.front ++ take n buf;
        whole =
            joined
            ∙ ap (λ (t : List ℕ). v.front ++ t) (sym (take-append-drop n buf))
            ∙ sym (append_assoc v.front (take n buf) (drop n buf))
            ∙ ap (λ (t : List ℕ). (v.front ++ take n buf) ++ t) (sym same);
        long = inr (omega (arith, kept));
        room = omega (arith, kept);
        head = head;
        text = subst IsText (sym same) (IsText-drop n buf text);
        done = done;
        waiting = quiet;
      }
]
  where
    buf : List ℕ
    buf = w.buf ++ b ∷ []

    joined : seen ++ b ∷ [] ≡ v.front ++ buf
    joined = ap (λ (t : List ℕ). t ++ b ∷ []) v.whole ∙ append_assoc v.front w.buf (b ∷ [])

    text : IsText buf
    text = IsText-snoc w.buf b v.text h

    longer :
        (front : List ℕ)
        → (front ≡ []) ⊎ (tail_len ≤ length w.buf)
        → w'.buf ≡ buf
        → (front ≡ []) ⊎ (tail_len ≤ length w'.buf)
    longer front (inl empty) same = inl empty
    longer front (inr long) same =
        inr (omega (arith, long, ap (length {A = ℕ}) same, length-append w.buf (b ∷ [])))

listen-answer :
    (polls : List Poll) (seen : List ℕ) (w : Wait)
    → IsText (heard polls)
    → IsWindow seen w
    → (out : Wait × List Poll) × (listen w polls ≡ some out)
      × (out.0.done ≡ answer seen (heard polls))
listen-answer [] seen w h v = ((w, []), unfold listen in refl, v.done)
listen-answer (idle level ∷ polls) seen w h v =
    let (out, e, same) = listen-answer polls seen (watch w level) h (record {
      front = v.front;
      whole = v.whole;
      long = v.long;
      room = v.room;
      head = v.head;
      text = v.text;
      done = v.done;
      waiting = v.waiting;
    }) in
    (out, listen_silence w level polls ∙ e, same)
listen-answer (byte b ∷ polls) seen w h v =
    let (head, noted, room) = note_head_total w b v.head in
    let w' : Wait = after w b head in
    let heard_one : hear w b ≡ some (contains prompt (seen ++ b ∷ []), w') =
      hear_lem w b head v.room noted ∙ ap (λ (t : Bool). some (t, w')) (found_lem seen w b v h.0) in
    elim (Bool-cases (contains prompt (seen ++ b ∷ []))) [
      | inl found ↦ (
        (w', polls),
        listen_found w b polls (heard_one ∙ ap (λ (t : Bool). some (t, w')) found),
        done_lem seen w b head v h.0 ∙ rw found refl,
      )
      | inr quiet ↦
          let slid : w'.buf ≡ slide (w.buf ++ b ∷ []) =
            rw (found_lem seen w b v h.0 ∙ quiet) refl in
          let (out, e, same) =
            listen-answer polls (seen ++ b ∷ []) w' h.1
              (kept-IsWindow seen w b w' v h.0 quiet (done_lem seen w b head v h.0) room slid) in
          (
            out,
            listen_more w b polls (heard_one ∙ ap (λ (t : Bool). some (t, w')) quiet) ∙ e,
            same ∙ rw quiet refl,
          )
    ]

-- On a reply without NUL bytes `cli_wait` answers what a search of the whole reply would: 1 just if
-- "Done" came before the end of the first prompt, or before the deadline if there is no prompt. The
-- window of 96 bytes loses no word, wherever it slides.
pub cli_wait-answer :
    (polls : List Poll)
    → IsText (heard polls)
    → (out : Wait × List Poll) × (cli_wait polls ≡ some out)
      × (out.0.done ≡ answer [] (heard polls))
unfolding cli_wait
cli_wait-answer polls h = listen-answer polls [] wait_start h (record {
  front = [];
  whole = refl;
  long = inl refl;
  room = omega arith;
  head = omega arith;
  text = tt;
  done = unfold contains in refl;
  waiting = unfold contains in refl;
})
