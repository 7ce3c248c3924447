-- ===== src/Radar/Thread/Recover.antt =====
-- The radar's thread comes back from a radar that stalls or refuses its configuration.
use n_rf5340_presence_test.Base.{
  ℕ, zero, suc, ◌<◌, ◌≡◌, refl, ◌∙◌, if◌then◌else◌, Bool, true, false, List, [], ◌∷◌, ◌++◌, some,
  arith, length, IsBytes, Bool-cases, inl, inr,
}
use n_rf5340_presence_test.Base.Int.{ℤ}
use n_rf5340_presence_test.Tlv.{max_frame}
use n_rf5340_presence_test.Tlv.Reasm.{Reasm, reset}
use n_rf5340_presence_test.Radar.Bringup.{Action, eio, cfg_lines, radar_configure}
use n_rf5340_presence_test.Radar.Bringup.Order.{
  Log, radar, reset_log, lines_log, radar_configure_lem,
}
use n_rf5340_presence_test.Radar.Thread.{Session, Visit, session, bring_up, radar_thread}
use n_rf5340_presence_test.Radar.Thread.Stall.{AreChunks, IsSession, session_lem}

-- What is done to the radar by a configuration, and by those that it refused before.
abbrev pub attempt : Log → Log
attempt log = (log ++ reset_log) ++ lines_log cfg_lines

abbrev pub after_refusals : ℕ → Log → Log
after_refusals zero log = log
after_refusals (suc k) log = after_refusals k (attempt log ++ Action.sleep 5000 ∷ [])

abbrev pub AreVisits : List Visit → Type 0
AreVisits [] = Unit {0}
AreVisits (v ∷ visits) = AreChunks v.rounds × AreVisits visits

module _ (answer : Log → Bool) where
  -- The radar refuses so many configurations, and accepts the next one.
  abbrev pub AcceptsAfter : ℕ → Log → Type 0
  AcceptsAfter zero log = answer (attempt log) ≡ true
  AcceptsAfter (suc k) log =
      (answer (attempt log) ≡ false) × AcceptsAfter k (attempt log ++ Action.sleep 5000 ∷ [])

  bring_up-accepted :
      (fuel : ℕ) (log : Log) (ok : Bool) {log' : Log}
      → radar_configure Log (radar answer) log ≡ (if ok then ℤ.pos 0 else eio, log')
      → bring_up Log (radar answer) (suc fuel) log ≡ (
          if ok
          then some log'
          else bring_up Log (radar answer) fuel (log' ++ Action.sleep 5000 ∷ []))
  unfolding bring_up
  bring_up-accepted fuel log true e = rw e refl
  bring_up-accepted fuel log false e = rw e refl

  -- The radar is configured again every five seconds until it accepts that, and no longer.
  bring_up_lem :
      (fuel k : ℕ) (log : Log)
      → k < fuel
      → AcceptsAfter k log
      → bring_up Log (radar answer) fuel log ≡ some (attempt (after_refusals k log))
  bring_up_lem zero k log h accepts = absurd (omega arith)
  bring_up_lem (suc fuel) zero log h accepts =
      bring_up-accepted fuel log (answer (attempt log)) (radar_configure_lem answer log)
      ∙ rw accepts refl
  bring_up_lem (suc fuel) (suc k) log h (refused, accepts) =
      bring_up-accepted fuel log (answer (attempt log)) (radar_configure_lem answer log)
      ∙ rw refused
          (bring_up_lem fuel k (attempt log ++ Action.sleep 5000 ∷ []) (omega arith) accepts)

  -- Sessions, each after a configuration that the radar accepted; the thread goes on after a stall.
  pub data Sessions : Reasm → Log → List Visit → List (List ℕ) → Reasm → Log → Type 0 where
    none_left : {re : Reasm} {log : Log} → Sessions re log [] [] re log
    lasting :
        {re : Reasm} {log : Log} {v : Visit} {visits : List Visit} (k : ℕ) (s : Session)
        → AcceptsAfter k log
        → IsSession (reset re) v.start v.rounds s
        → s.stalled ≡ false
        → Sessions re log (v ∷ visits) s.frames s.re (attempt (after_refusals k log))
    stalled :
        {re re' : Reasm} {log log' : Log} {v : Visit} {visits : List Visit} {frames : List (List ℕ)}
        (k : ℕ) (s : Session)
        → AcceptsAfter k log
        → IsSession (reset re) v.start v.rounds s
        → s.stalled ≡ true
        → Sessions s.re (attempt (after_refusals k log)) visits frames re' log'
        → Sessions re log (v ∷ visits) (s.frames ++ frames) re' log'

  thread_lasting :
      (fuel : ℕ) (v : Visit) (visits : List Visit) (re : Reasm) (log : Log) {log' : Log}
      {s : Session}
      → bring_up Log (radar answer) fuel log ≡ some log'
      → session re v.start v.rounds ≡ some s
      → s.stalled ≡ false
      → radar_thread Log (radar answer) fuel (v ∷ visits) re log ≡ some (s.frames, (s.re, log'))
  unfolding radar_thread
  thread_lasting fuel v visits re log up e on = rw (up, e, on) refl

  thread_stalled :
      (fuel : ℕ) (v : Visit) (visits : List Visit) (re : Reasm) (log : Log) {log' : Log}
      {s : Session} {frames : List (List ℕ)} {rest : Reasm × Log}
      → bring_up Log (radar answer) fuel log ≡ some log'
      → session re v.start v.rounds ≡ some s
      → s.stalled ≡ true
      → radar_thread Log (radar answer) fuel visits s.re log' ≡ some (frames, rest)
      → radar_thread Log (radar answer) fuel (v ∷ visits) re log ≡ some (s.frames ++ frames, rest)
  unfolding radar_thread
  thread_stalled fuel v visits re log up e over more = rw (up, e, over, more) refl

  -- The radar's thread over any sessions and bytes, with a radar that accepts its configuration
  -- after fewer refusals than the fuel, whatever was done to it before: no access is out of range;
  -- each session begins with a fresh reassembler, after a configuration that was tried again every
  -- five seconds until it was accepted, and delivers the frames of its stream; and after a stall
  -- the thread goes on with the next configuration, with all frames delivered in order.
  pub radar_thread_lem :
      (fuel : ℕ) (visits : List Visit) (re : Reasm) (log : Log)
      → ((log : Log) → (k : ℕ) × (k < fuel) × AcceptsAfter k log)
      → length re.buf ≡ max_frame
      → IsBytes re.buf
      → AreVisits visits
      → (frames : List (List ℕ)) × (re' : Reasm) × (log' : Log) × (radar_thread Log
            (radar answer)
            fuel
            visits
            re
            log
          ≡ some (frames, (re', log')))
        × Sessions re log visits frames re' log'
  radar_thread_lem fuel [] re log recovers room bytes h =
      ([], re, log, unfold radar_thread in refl, Sessions.none_left)
  radar_thread_lem fuel (v ∷ visits) re log recovers room bytes (chunks, h) =
      let (k, within, accepts) = recovers log in
      let up = bring_up_lem fuel k log within accepts in
      let (s, e, is) = session_lem re v.start v.rounds room bytes chunks in
      elim (Bool-cases s.stalled) [
        | inr on ↦ (
          s.frames,
          s.re,
          attempt (after_refusals k log),
          thread_lasting fuel v visits re log up e on,
          Sessions.lasting k s accepts is on,
        )
        | inl over ↦
            let (frames, re', log', rest, more) =
              radar_thread_lem fuel visits s.re (attempt (after_refusals k log)) recovers
                is.valid.room is.valid.bytes h in
            (
              s.frames ++ frames,
              re',
              log',
              thread_stalled fuel v visits re log up e over rest,
              Sessions.stalled k s accepts is over more,
            )
      ]
