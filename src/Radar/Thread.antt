-- ===== src/Radar/Thread.antt =====
-- `radar_thread` of radar.c: the radar is configured until it accepts that, and then bytes are taken
-- until no frame has come for ten seconds; and so on.
pub mod Stall
pub mod Recover
use n_rf5340_presence_test.Base.{
  ℕ, zero, suc, ◌+◌, Bool, true, false, List, [], ◌∷◌, ◌++◌, Option, none, some, ltb, if◌then◌else◌,
  ◌>>=◌,
}
use n_rf5340_presence_test.Base.Int.{is_zero}
use n_rf5340_presence_test.Tlv.Reasm.{Reasm, reset}
use n_rf5340_presence_test.Radar.Stream.{pump}
use n_rf5340_presence_test.Radar.Bringup.{Action, radar_configure}

-- `RADAR_STALL_MS`
abbrev pub stall_ms : ℕ
stall_ms = 10000

-- A round of the loop: the uptime at its test, the bytes that `ring_buf_get` has (none is a sleep),
-- and the uptime when the last frame that they complete was handled.
pub record Round : Type 0 where
  pub now : ℕ
  pub chunk : List ℕ
  pub handled : ℕ

-- What a session has delivered to `on_frame`, and how it stands: `stalled` is the loop's end, by a
-- test that fails in the first of the rounds that are left.
pub record Session : Type 0 where
  pub frames : List (List ℕ)
  pub re : Reasm
  pub last_frame : ℕ
  pub stalled : Bool
  pub left : List Round

abbrev pub last_of : List (List ℕ) → ℕ → ℕ → ℕ
last_of [] last handled = last
last_of (f ∷ fs) last handled = handled

-- `while (k_uptime_get() - last_frame < RADAR_STALL_MS)`
unfoldable pub take_rounds : Reasm → ℕ → List Round → Option Session
take_rounds re last [] =
    some (record { frames = []; re = re; last_frame = last; stalled = false; left = [] })
take_rounds re last (r ∷ rounds) = elim (ltb r.now (last + stall_ms)) [
  | false ↦
      some (record { frames = []; re = re; last_frame = last; stalled = true; left = r ∷ rounds })
  | true ↦ do
    (frames, re') ← pump re r.chunk
    s ← take_rounds re' (last_of frames last r.handled) rounds
    some (record s { frames = frames ++ s.frames })
]

-- From an accepted configuration, at the uptime `start`. The reassembler is static: it holds what
-- the session before left, and is reset.
unfoldable pub session : Reasm → ℕ → List Round → Option Session
unfolding take_rounds
session re start rounds = take_rounds (reset re) start rounds

-- What the hardware does in a session: when it starts, and its rounds.
pub record Visit : Type 0 where
  pub start : ℕ
  pub rounds : List Round

module _ (W : Type 0) (act : W → Action → Bool × W) where
  -- `while (radar_configure() != 0) k_msleep(5000)`, on fuel
  unfoldable pub bring_up : ℕ → W → Option W
  bring_up zero w = none
  bring_up (suc fuel) w =
      let (err, w') = radar_configure W act w in
      let again = bring_up fuel (act w' (Action.sleep 5000)).1 in
      if is_zero err then some w' else again

  -- The outer loop over the sessions that the hardware gives, with the fuel of each `bring_up`: what
  -- `on_frame` was given, and what is left.
  unfoldable pub radar_thread : ℕ → List Visit → Reasm → W → Option (List (List ℕ) × (Reasm × W))
  radar_thread fuel [] re w = some ([], (re, w))
  radar_thread fuel (v ∷ visits) re w = do
    w' ← bring_up fuel w
    s ← session re v.start v.rounds
    elim s.stalled [
      | false ↦ some (s.frames, (s.re, w'))
      | true ↦ do (frames, rest) ← radar_thread fuel visits s.re w'; some (s.frames ++ frames, rest)
    ]
