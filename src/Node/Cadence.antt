-- ===== src/Node/Cadence.antt =====
-- How often a record is written, and when the rounds of `main` begin.
use n_rf5340_presence_test.Base.{
  ℕ, zero, suc, ◌+◌, ◌*◌, ◌/◌, ◌%◌, ◌≤◌, ◌≡◌, ◌==◌, refl, List, [], ◌∷◌, length, if◌then◌else◌,
  arith,
}
use n_rf5340_presence_test.Store.{period_s}
use n_rf5340_presence_test.Node.{tick, pause}

-- A tick, with the windows that were flushed so far.
abbrev step : ℕ × ℕ → ℕ × ℕ
step s = ((tick s.0).0, if (tick s.0).1 then suc s.1 else s.1)

-- The ticks of `main`, one a second: the counter, and how many windows were flushed.
abbrev pub ticks : ℕ → ℕ × ℕ
ticks zero = (0, 0)
ticks (suc n) = step (ticks n)

ticks_sec : (n : ℕ) → (step (n % period_s, n / period_s)).0 ≡ suc n % period_s
unfolding tick
ticks_sec n = ground arith

ticks_flushed : (n : ℕ) → (step (n % period_s, n / period_s)).1 ≡ suc n / period_s
unfolding tick
ticks_flushed n = ground arith

-- After n ticks exactly n / 30 windows have been flushed, and the counter is n % 30: one record each
-- 30 s.
pub ticks_lem : (n : ℕ) → ((ticks n).0 ≡ n % period_s) × ((ticks n).1 ≡ n / period_s)
ticks_lem zero = (refl, refl)
ticks_lem (suc n) = rw ((ticks_lem n).0, (ticks_lem n).1) (ticks_sec n, ticks_flushed n)

-- A round: how long its work takes, and how much longer than asked for its sleep.
abbrev pub Round : Type 0
Round = ℕ × ℕ

-- The uptime when a round ends, and `next_tick` then.
abbrev pub round_end : Round → ℕ × ℕ → ℕ × ℕ
round_end (work, late) (now, next_tick) =
    let slept = pause next_tick (now + work) in
    (now + work + slept + (if slept == 0 then 0 else late), next_tick + 1000)

abbrev pub rounds_end : List Round → ℕ × ℕ → ℕ × ℕ
rounds_end [] at = at
rounds_end (r ∷ rs) at = rounds_end rs (round_end r at)

-- Every sleep is late by `most` at most, and leaves the work its part of the second.
abbrev pub AreSteady : ℕ → List Round → Type 0
AreSteady most [] = Unit {0}
AreSteady most ((work, late) ∷ rs) = (work + most ≤ 1000) × (late ≤ most) × AreSteady most rs

round_end-next : (r : Round) (at : ℕ × ℕ) → (round_end r at).1 ≡ at.1 + 1000
round_end-next (work, late) (now, next_tick) = refl

round_end-steady :
    (most work late now next_tick : ℕ)
    → work + most ≤ 1000
    → late ≤ most
    → next_tick ≤ now + 1000
    → now + 1000 ≤ next_tick + most
    → (next_tick ≤ (round_end (work, late) (now, next_tick)).0)
      × ((round_end (work, late) (now, next_tick)).0 ≤ next_tick + most)
unfolding pause
round_end-steady most work late now next_tick h k low high = ground arith

-- When no round works for longer than a second less the greatest lateness of a sleep, the lateness
-- does not add up: after any number of rounds the next one begins as many whole seconds after the
-- first as there were rounds, and that lateness later at most.
pub rounds_end_lem :
    (most : ℕ) (rs : List Round) (now next_tick : ℕ)
    → AreSteady most rs
    → next_tick ≤ now + 1000
    → now + 1000 ≤ next_tick + most
    → let at = rounds_end rs (now, next_tick) in
      (at.1 ≡ next_tick + 1000 * length rs) × (at.1 ≤ at.0 + 1000) × (at.0 + 1000 ≤ at.1 + most)
rounds_end_lem most [] now next_tick h low high = (omega arith, low, high)
rounds_end_lem most ((work, late) ∷ rs) now next_tick (short, soon, rest) low high =
    let (begun, in_time) = round_end-steady most work late now next_tick short soon low high in
    let (ticks, low', high') =
      rounds_end_lem most rs (round_end (work, late) (now, next_tick)).0 (next_tick + 1000) rest
        (omega (arith, begun)) (omega (arith, in_time)) in
    (omega (arith, ticks), low', high')
