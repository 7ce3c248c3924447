-- ===== src/Radar/Start.antt =====
-- `radar_start` of radar.c.
use n_rf5340_presence_test.Base.{◌≡◌, List, [], ◌∷◌, if◌then◌else◌, not, arith}
use n_rf5340_presence_test.Base.Int.{ℤ, is_zero}
use n_rf5340_presence_test.Base.Driver.{
  Call, Device, Pin, Mode, Verdict, Log, enodev, must_be_ready, must_be_zero, ignored, board,
  in_order,
}

module _ (W : Type 0) (ask : W → Call → ℤ × W) where
  -- The name of the thread is left out.
  unfoldable pub radar_start : W → ℤ × W
  radar_start w =
      let (uart_ready, w1) = ask w (Call.device_is_ready Device.uart1) in
      if is_zero uart_ready
      then (enodev, w1)
      else (let (nrst_ready, w2) = ask w1 (Call.gpio_is_ready Pin.nrst) in
          if is_zero nrst_ready
          then (enodev, w2)
          else (let (err, w3) =
                ask w2 (Call.gpio_pin_configure Pin.nrst Mode.output_inactive_open_drain) in
              if not (is_zero err)
              then (err, w3)
              else (let w4 = (ask w3 Call.uart_irq_callback_set).1 in
                  let w5 = (ask w4 Call.uart_irq_rx_enable).1 in
                  (ℤ.pos 0, (ask w5 Call.thread_create).1))))

abbrev pub radar_steps : List (Call × Verdict)
radar_steps =
    (Call.device_is_ready Device.uart1, must_be_ready)
    ∷ (Call.gpio_is_ready Pin.nrst, must_be_ready)
    ∷ (Call.gpio_pin_configure Pin.nrst Mode.output_inactive_open_drain, must_be_zero)
    ∷ (Call.uart_irq_callback_set, ignored)
    ∷ (Call.uart_irq_rx_enable, ignored)
    ∷ (Call.thread_create, ignored)
    ∷ []

-- The first call that fails ends the start, and its code is what is returned; so the interrupt is
-- enabled and the thread made only on a board whose UART and reset pin are ready.
pub radar_start_lem :
    (answer : Call → ℤ) (log : Log)
    → radar_start Log (board answer) log ≡ in_order answer radar_steps log
unfolding radar_start
radar_start_lem answer log = ground arith
