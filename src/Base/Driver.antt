-- ===== src/Base/Driver.antt =====
-- The calls of Zephyr's drivers that the start of the firmware is made of. The drivers are not part
-- of the repository: what a call answers, and what it leaves, is a parameter.
use Prim.Native.Nat.{ℕ}
use mathlib.Core.List.{List, [], ◌∷◌}
use mathlib.Core.Option.{Option, none, some}
use n_rf5340_presence_test.Base.Int.{ℤ, is_zero}
use n_rf5340_presence_test.Base.Tests.{if◌then◌else◌}

pub data Device : Type 0 where
  uart1 : Device
  gpio1 : Device

pub data Pin : Type 0 where
  nrst : Pin
  adv_btn : Pin
  probe_btn : Pin
  probe_pin : Pin

-- The flags of a pin's configuration.
pub data Mode : Type 0 where
  input : Mode
  input_pull_down : Mode
  output_inactive_open_drain : Mode

pub data Call : Type 0 where
  device_is_ready : Device → Call
  gpio_is_ready : Pin → Call
  gpio_pin_configure : Pin → Mode → Call
  gpio_pin_get : Pin → Call
  gpio_interrupt_edge : Pin → Call  -- gpio_pin_interrupt_configure_dt, GPIO_INT_EDGE_TO_ACTIVE
  gpio_init_callback : Pin → Call
  gpio_add_callback : Pin → Call
  uart_irq_callback_set : Call
  uart_irq_rx_enable : Call
  thread_create : Call
  bt_enable : Call
  bt_set_name : List ℕ → Call
  sleep : ℕ → Call

-- ENODEV of errno.h.
abbrev pub enodev : ℤ
enodev = ℤ.negsuc 18

-- What a start-up does after a call, by its answer: it goes on, or returns a code.
abbrev pub Verdict : Type 0
Verdict = ℤ → Option ℤ

abbrev pub must_be_ready : Verdict
must_be_ready answer = if is_zero answer then some enodev else none

abbrev pub must_be_zero : Verdict
must_be_zero answer = if is_zero answer then none else some answer

abbrev pub ignored : Verdict
ignored answer = none

-- A board that keeps its calls, the last one first, and answers each call in one way.
abbrev pub Log : Type 0
Log = List Call

abbrev pub board : (Call → ℤ) → Log → Call → ℤ × Log
board answer log c = (answer c, c ∷ log)

-- The calls one after the other, up to the first whose answer ends them.
abbrev pub in_order : (Call → ℤ) → List (Call × Verdict) → Log → ℤ × Log
in_order answer [] log = (ℤ.pos 0, log)
in_order answer ((c, verdict) ∷ steps) log = elim (verdict (answer c)) [
  | some code ↦ (code, c ∷ log)
  | none ↦ in_order answer steps (c ∷ log)
]
