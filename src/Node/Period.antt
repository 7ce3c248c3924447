-- ===== src/Node/Period.antt =====
-- The rounds of `main` from one record to the next, with the radar's thread in between.
pub mod Recorded
pub mod Typed
use n_rf5340_presence_test.Base.{
  ℕ, zero, suc, ◌+◌, ◌^◌, ◌<◌, ◌≡◌, refl, sym, ◌∙◌, ap, true, false, ◌&&◌, List, [], ◌∷◌, ◌++◌,
  Option, none, some, arith, ◌>>=◌, length, append-nil, Option-cases, inl, inr,
}
use n_rf5340_presence_test.Base.Int.{ℤ, is_zero}
use n_rf5340_presence_test.Frame.Record.{Record}
use n_rf5340_presence_test.Radar
use n_rf5340_presence_test.Radar.Window.Summary.{Seen, count_all}
use n_rf5340_presence_test.Sen5x
use n_rf5340_presence_test.Sen5x.{Sensor, acc_reset}
use n_rf5340_presence_test.Sen5x.Transfer.{IsFilling}
use n_rf5340_presence_test.Sen5x.Period.{polls, samples, on}
use n_rf5340_presence_test.Store.{period_s}
use n_rf5340_presence_test.Store
use n_rf5340_presence_test.Store.Nvs.{Nvs, IsNvs}
use n_rf5340_presence_test.Node.{State, Main, main_round, finish_round, window_flush, tick}

-- A round: the frames that the radar's thread counts before it, and its times.
pub record Round : Type 0 where
  pub seen : List Seen
  pub taken : ℕ
  pub written : ℕ

-- All frames that were counted.
abbrev pub all_seen : List Round → List Seen
all_seen [] = []
all_seen (r ∷ rs) = r.seen ++ all_seen rs

count_all-append :
    (xs ys : List Seen) (acc : Radar.Window.Acc)
    → count_all (xs ++ ys) acc ≡ count_all ys (count_all xs acc)
count_all-append [] ys acc = refl
count_all-append (x ∷ xs) ys acc =
    count_all-append xs ys (Radar.Window.count_frame x.uptime x.n x.tracker acc)

tick_quiet : (sec : ℕ) → sec + 1 < period_s → tick sec ≡ (sec + 1, false)
unfolding tick
tick_quiet sec h = ground (arith, h)

tick_due : (sec : ℕ) → sec + 1 ≡ period_s → tick sec ≡ (0, true)
unfolding tick
tick_due sec h = ground (arith, h)

bind_some {ℓ} : {A : Type ℓ} (o : Option A) → (o >>= λ x. some x) ≡ o
bind_some none = refl
bind_some (some x) = refl

module _ (nvs : Nvs) (B : Type 0) (i2c_write : B → List ℕ → ℤ × B)
    (i2c_read : B → ℕ → ℤ × (List ℕ × B)) where
  abbrev hear : List Seen → Main nvs B i2c_write i2c_read → Main nvs B i2c_write i2c_read
  hear seen (sec, (s, bus)) = (sec, (record s { acc = count_all seen s.acc }, bus))

  -- The rounds, one after the other.
  abbrev pub rounds :
      List Round → Main nvs B i2c_write i2c_read → Option (Main nvs B i2c_write i2c_read)
  rounds [] m = some m
  rounds (r ∷ rs) m = do
    m' ← main_round nvs B i2c_write i2c_read r.taken r.written (hear r.seen m)
    rounds rs m'

  finish_quiet :
      (taken written sec : ℕ) (s : State nvs.Fs) (bus : B)
      → sec + 1 < period_s
      → finish_round nvs B i2c_write i2c_read taken written sec s bus ≡ some (sec + 1, (s, bus))
  unfolding finish_round
  finish_quiet taken written sec s bus h = rw (tick_quiet sec h) refl

  finish_due :
      (taken written sec : ℕ) (s : State nvs.Fs) (bus : B)
      → sec + 1 ≡ period_s
      → finish_round nvs B i2c_write i2c_read taken written sec s bus
        ≡ (window_flush nvs B i2c_write i2c_read taken written bus s >>= λ out. some (0, out.1))
  unfolding finish_round
  finish_due taken written sec s bus h = rw (tick_due sec h) refl

  main_round_lem :
      (taken written sec : ℕ) (s : State nvs.Fs) (bus : B) {air : Sensor} {bus' : B}
      → Sen5x.poll B i2c_write i2c_read bus s.air ≡ some (air, bus')
      → main_round nvs B i2c_write i2c_read taken written (sec, (s, bus))
        ≡ finish_round nvs B i2c_write i2c_read taken written sec (record s { air = air }) bus'
  unfolding main_round
  main_round_lem taken written sec s bus e = rw e refl

  -- What the sensor has after polls that begin with one that is done.
  polls-suc :
      (n : ℕ) (bus : B) (air : Sensor) {p : Sensor × B}
      → Sen5x.poll B i2c_write i2c_read bus air ≡ some p
      → polls B i2c_write i2c_read (suc n) bus air ≡ polls B i2c_write i2c_read n p.1 p.0
  polls-suc n bus air e = rw e refl

  polls_broken :
      (n : ℕ) (bus : B) (air : Sensor) {out : Sensor × B}
      → Sen5x.poll B i2c_write i2c_read bus air ≡ none
      → polls B i2c_write i2c_read (suc n) bus air ≡ some out
      → ⊥
  polls_broken n bus air broken e = cc (rw broken at e)

  -- The last round of a period flushes what the polls and the frames of all its rounds have left.
  pub rounds_lem :
      (rs : List Round) (last : Round) (sec : ℕ) (s : State nvs.Fs) (bus : B) {air : Sensor}
      {bus' : B}
      → sec + suc (length rs) ≡ period_s
      → polls B i2c_write i2c_read (suc (length rs)) bus s.air ≡ some (air, bus')
      → rounds (rs ++ last ∷ []) (sec, (s, bus)) ≡ (
          window_flush nvs B i2c_write i2c_read last.taken last.written bus'
            (record s { acc = count_all (all_seen (rs ++ last ∷ [])) s.acc; air = air })
          >>= λ out. some (0, out.1))
  rounds_lem [] last sec s bus {air} {bus'} h e =
      let s' : State nvs.Fs = record s { acc = count_all last.seen s.acc; air = air } in
      let done : Sen5x.poll B i2c_write i2c_read bus s.air ≡ some (air, bus') =
        sym (bind_some (Sen5x.poll B i2c_write i2c_read bus s.air)) ∙ e in
      bind_some (
        main_round nvs B i2c_write i2c_read last.taken last.written
          (hear last.seen (sec, (s, bus))))
      ∙ main_round_lem last.taken last.written sec (record s { acc = count_all last.seen s.acc })
          bus done
      ∙ finish_due last.taken last.written sec s' bus' h
      ∙ rw (append-nil last.seen) refl
  rounds_lem (r ∷ rs) last sec s bus {air} {bus'} h e =
      elim (Option-cases (Sen5x.poll B i2c_write i2c_read bus s.air)) [
        | inl broken ↦ absurd (polls_broken (suc (length rs)) bus s.air broken e)
        | inr (p, done) ↦
            let heard : State nvs.Fs = record s { acc = count_all r.seen s.acc } in
            let s' : State nvs.Fs = record heard { air = p.0 } in
            let rest = sym (polls-suc (suc (length rs)) bus s.air done) ∙ e in
            ap (λ (o : Option (Main nvs B i2c_write i2c_read)). o >>= rounds (rs ++ last ∷ []))
              (main_round_lem r.taken r.written sec heard bus done
                ∙ finish_quiet r.taken r.written sec s' p.1 (omega (arith, h)))
            ∙ rounds_lem rs last (sec + 1) s' p.1 (omega (arith, h)) rest
            ∙ rw (count_all-append r.seen (all_seen (rs ++ last ∷ [])) s.acc) refl
      ]
