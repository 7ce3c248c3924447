-- ===== src/Radar/Bringup/Order.antt =====
-- What `radar_configure` does to a radar, in which order, and what its answer says.
use Prim.Native.String.{String}
use n_rf5340_presence_test.Base.{
  ℕ, ◌≡◌, refl, sym, ◌∙◌, ap, Bool, true, false, not, ◌&&◌, List, [], ◌∷◌, ◌++◌, if◌then◌else◌,
  append_assoc, append-nil,
}
use n_rf5340_presence_test.Base.Int.{ℤ}
use n_rf5340_presence_test.Radar.Bringup.{
  Action, drain, out, sleep, wait, nrst, codes, eio, cfg_lines, is_start, line_timeout, cli_write,
  cli_line, radar_reset, send_lines, radar_configure,
}

abbrev pub Log : Type 0
Log = List Action

-- A radar that keeps what is done to it, and answers by what has been done.
abbrev pub radar : (Log → Bool) → Log → Action → Bool × Log
radar answer log a = (answer (log ++ a ∷ []), log ++ a ∷ [])

-- The actions for a text, for a line, and for lines.
abbrev pub text_log : List ℕ → Log
text_log [] = []
text_log (c ∷ cs) = out c ∷ sleep 1 ∷ text_log cs

abbrev pub line_log : List ℕ → ℕ → Log
line_log line timeout = drain ∷ text_log line ++ (text_log (codes "\n") ++ wait timeout ∷ [])

abbrev pub lines_log : List (List ℕ) → Log
lines_log [] = []
lines_log (ln ∷ lines) = line_log ln (line_timeout ln) ++ lines_log lines

abbrev pub reset_log : Log
reset_log =
    line_log (codes "sensorStop 0") 2000
    ++ (line_log (codes "sensorWarmRst 0") 2000
        ++ (nrst true ∷ sleep 20 ∷ nrst false ∷ sleep 2000 ∷ drain ∷ line_log [] 500))

-- The start command is the last of the lines, and no other.
abbrev pub starts_last : List (List ℕ) → Bool
starts_last [] = false
starts_last (ln ∷ []) = is_start ln
starts_last (ln ∷ more ∷ lines) = not (is_start ln) && starts_last (more ∷ lines)

both : (a b : Bool) → not a && b ≡ true → (a ≡ false) × (b ≡ true)
both false b h = (refl, h)
both true b h = cc

module _ (answer : Log → Bool) where
  cli_write_lem :
      (cs : List ℕ) (log : Log) → cli_write Log (radar answer) cs log ≡ log ++ text_log cs
  unfolding cli_write
  cli_write_lem [] log = sym (append-nil log)
  cli_write_lem (c ∷ cs) log =
      cli_write_lem cs ((log ++ out c ∷ []) ++ sleep 1 ∷ [])
      ∙ append_assoc (log ++ out c ∷ []) (sleep 1 ∷ []) (text_log cs)
      ∙ append_assoc log (out c ∷ []) (sleep 1 ∷ text_log cs)

  cli_line_lem :
      (line : List ℕ) (timeout : ℕ) (log : Log)
      → cli_line Log (radar answer) line timeout log
        ≡ (answer (log ++ line_log line timeout), log ++ line_log line timeout)
  unfolding cli_line
  cli_line_lem line timeout log =
      ap (λ (t : Log). (answer (t ++ wait timeout ∷ []), t ++ wait timeout ∷ []))
        (cli_write_lem (codes "\n") (cli_write Log (radar answer) line (log ++ drain ∷ []))
          ∙ ap (λ (t : Log). t ++ text_log (codes "\n")) (cli_write_lem line (log ++ drain ∷ [])))
      ∙ ap (λ (t : Log). (answer t, t)) (simp append_assoc)

  radar_reset_lem : (log : Log) → radar_reset Log (radar answer) log ≡ log ++ reset_log
  unfolding radar_reset
  radar_reset_lem log =
      ap (λ (t : Log). booted (line t "sensorWarmRst 0")) (line_lem log "sensorStop 0")
      ∙ ap booted (line_lem (log ++ line_log (codes "sensorStop 0") 2000) "sensorWarmRst 0")
      ∙ ap (λ (p : Bool × Log). p.1)
          (cli_line_lem [] 500 (
            pulsed (
              (log ++ line_log (codes "sensorStop 0") 2000)
              ++ line_log (codes "sensorWarmRst 0") 2000)))
      ∙ simp append_assoc
    where
      line : Log → String → Log
      line t text = (cli_line Log (radar answer) (codes text) 2000 t).1

      line_lem : (t : Log) (text : String) → line t text ≡ t ++ line_log (codes text) 2000
      line_lem t text = ap (λ (p : Bool × Log). p.1) (cli_line_lem (codes text) 2000 t)

      pulsed : Log → Log
      pulsed t =
          ((((t ++ nrst true ∷ []) ++ sleep 20 ∷ []) ++ nrst false ∷ []) ++ sleep 2000 ∷ [])
          ++ drain ∷ []

      booted : Log → Log
      booted t = (cli_line Log (radar answer) [] 500 (pulsed t)).1

  -- One line, which is not the start command or is accepted; and the last line.
  send_next :
      (ln : List ℕ) (lines : List (List ℕ)) (log : Log) {ok : Bool} {w : Log}
      → cli_line Log (radar answer) ln (line_timeout ln) log ≡ (ok, w)
      → is_start ln ≡ false
      → send_lines Log (radar answer) (ln ∷ lines) log ≡ send_lines Log (radar answer) lines w
  unfolding send_lines
  send_next ln lines log {ok = true} e plain = rw e refl
  send_next ln lines log {ok = false} e plain = rw (e, plain) refl

  send_last :
      (ln : List ℕ) (log : Log) {ok : Bool} {w : Log}
      → cli_line Log (radar answer) ln (line_timeout ln) log ≡ (ok, w)
      → is_start ln ≡ true
      → send_lines Log (radar answer) (ln ∷ []) log ≡ (if ok then ℤ.pos 0 else eio, w)
  unfolding send_lines
  send_last ln log {ok = true} e start = rw e refl
  send_last ln log {ok = false} e start = rw (e, start) refl

  -- The lines are sent in order, whatever is answered before the start command.
  send_lines_lem :
      (lines : List (List ℕ)) (log : Log)
      → starts_last lines ≡ true
      → send_lines Log (radar answer) lines log
        ≡ (if answer (log ++ lines_log lines) then ℤ.pos 0 else eio, log ++ lines_log lines)
  send_lines_lem [] log h = cc
  send_lines_lem (ln ∷ []) log h =
      send_last ln log (cli_line_lem ln (line_timeout ln) log) h
      ∙ ap (λ (t : Log). (if answer t then ℤ.pos 0 else eio, t))
          (ap (λ (t : Log). log ++ t) (sym (append-nil (line_log ln (line_timeout ln)))))
  send_lines_lem (ln ∷ more ∷ lines) log h =
      let (plain, rest) = both (is_start ln) (starts_last (more ∷ lines)) h in
      let here : Log = line_log ln (line_timeout ln) in
      send_next ln (more ∷ lines) log (cli_line_lem ln (line_timeout ln) log) plain
      ∙ send_lines_lem (more ∷ lines) (log ++ here) rest
      ∙ ap (λ (t : Log). (if answer t then ℤ.pos 0 else eio, t))
          (append_assoc log here (lines_log (more ∷ lines)))

  -- `radar_configure` resets the radar and sends every line of the configuration in order, the
  -- start command last, whatever is refused on the way. It answers 0 just if the start command was
  -- accepted, and -EIO otherwise.
  pub radar_configure_lem :
      (log : Log)
      → let whole = (log ++ reset_log) ++ lines_log cfg_lines in
        radar_configure Log (radar answer) log ≡ (if answer whole then ℤ.pos 0 else eio, whole)
  unfolding radar_configure
  radar_configure_lem log =
      ap (send_lines Log (radar answer) cfg_lines) (radar_reset_lem log)
      ∙ send_lines_lem cfg_lines (log ++ reset_log) (unfold is_start in refl)
