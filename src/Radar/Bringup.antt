-- ===== src/Radar/Bringup.antt =====
-- `cli_write`, `cli_line`, `radar_reset` and `radar_configure` of radar.c: how the sensor is reset
-- and given its configuration.
--
-- The hardware is a parameter: the state `W`, and what an action on it answers and leaves. Only a
-- wait answers something, which is what `cli_wait` returns. Console output is left out.
pub mod Order
use Prim.Native.Char.{code}
use Prim.Native.String.{String}
use n_rf5340_presence_test.Base.{ℕ, Bool, true, false, List, [], ◌∷◌, if◌then◌else◌}
use n_rf5340_presence_test.Base.Int.{ℤ}
use n_rf5340_presence_test.Radar.Cli.Search.{starts_with}

pub data Action : Type 0 where
  drain : Action  -- cli_drain
  out : ℕ → Action  -- uart_poll_out
  sleep : ℕ → Action  -- k_msleep
  wait : ℕ → Action  -- cli_wait
  nrst : Bool → Action  -- gpio_pin_set_dt(&nrst)

abbrev pub codes : String → List ℕ
codes String.[] = []
codes (String.◌∷◌ c s) = code c ∷ codes s

-- The error code of errno.h that radar.c returns.
abbrev pub eio : ℤ
eio = ℤ.negsuc 4

abbrev pub start_word : List ℕ
start_word = codes "sensorStart"

-- `cfg_lines`
abbrev pub cfg_lines : List (List ℕ)
cfg_lines =
    codes "sensorStop 0"
    ∷ codes "channelCfg 7 3 0"
    ∷ codes "chirpComnCfg 8 0 0 256 4 23 2"
    ∷ codes "chirpTimingCfg 6 24 0 75 60.5"
    ∷ codes "frameCfg 2 4 600 4 250 0"
    ∷ codes "guiMonitor 2 0 0 0 0 1 1 0 1 0 0 0"
    ∷ codes "sigProcChainCfg 64 4 3 2 4 4 0 0.5"
    ∷ codes "cfarCfg 2 8 4 3 0 15 0 0.5 0 1 1 1"
    ∷ codes "aoaFovCfg -70 70 -60 60"
    ∷ codes "rangeSelCfg 0.25 7.5"
    ∷ codes "clutterRemoval 1"
    ∷ codes
        "compRangeBiasAndRxChanPhase 0.0 1.00000 0.00000 -1.00000 0.00000 1.00000 0.00000 -1.00000 0.00000 1.00000 0.00000 -1.00000 0.00000"
    ∷ codes "adcDataSource 0 adc_data_0001_CtestAdc6Ant.bin"
    ∷ codes "adcLogging 0"
    ∷ codes "lowPowerCfg 0"
    ∷ codes "factoryCalibCfg 1 0 36 3 0x1ff000"
    ∷ codes "sensorPosition 0 0 1.5 0 0"
    ∷ codes "mpdBoundaryBox 1 -3.5 3.5 0 7 0 3"
    ∷ codes "minorStateCfg 4 3 12 8 5 20 4 20"
    ∷ codes "clusterCfg 1 1 2"
    ∷ codes "trackingCfg 1 2 100 3 61.4 191.8 250"
    ∷ codes "sensorStart 0 0 0 0"
    ∷ []

-- `strncmp(ln, "sensorStart", 11) == 0`
unfoldable pub is_start : List ℕ → Bool
unfolding starts_with
is_start ln = starts_with start_word ln

abbrev pub line_timeout : List ℕ → ℕ
line_timeout ln = if is_start ln then 15000 else 3000

module _ (W : Type 0) (act : W → Action → Bool × W) where
  abbrev tell : W → Action → W
  tell w a = (act w a).1

  -- `cli_write`: one character per millisecond
  unfoldable pub cli_write : List ℕ → W → W
  cli_write [] w = w
  cli_write (c ∷ cs) w = cli_write cs (tell (tell w (out c)) (sleep 1))

  unfoldable pub cli_line : List ℕ → ℕ → W → Bool × W
  unfolding cli_write
  cli_line line timeout w =
      act (cli_write (codes "\n") (cli_write line (tell w drain))) (wait timeout)

  -- `radar_reset`: both resets; the answers are not looked at.
  unfoldable pub radar_reset : W → W
  radar_reset w =
      let w1 = (cli_line (codes "sensorStop 0") 2000 w).1 in
      let w2 = (cli_line (codes "sensorWarmRst 0") 2000 w1).1 in
      let w3 = tell (tell (tell w2 (nrst true)) (sleep 20)) (nrst false) in
      let w4 = tell (tell w3 (sleep 2000)) drain in (cli_line [] 500 w4).1

  -- The loop of `radar_configure` over the lines left.
  unfoldable pub send_lines : List (List ℕ) → W → ℤ × W
  send_lines [] w = (ℤ.pos 0, w)
  send_lines (ln ∷ lines) w =
      let (ok, w') = cli_line ln (line_timeout ln) w in
      let rest = send_lines lines w' in
      if ok then rest else (if is_start ln then (eio, w') else rest)

  unfoldable pub radar_configure : W → ℤ × W
  radar_configure w = send_lines cfg_lines (radar_reset w)
