-- ===== src/Radar/Uart.antt =====
-- `uart_isr` of radar.c: bytes from the UART into the ring buffer.
--
-- The UART driver and the ring buffer are Zephyr's, and parameters: `update` and `ready` are
-- `uart_irq_update` and `uart_irq_rx_ready`, `fifo_read` is what `uart_fifo_read` returns with the
-- bytes that it leaves, and `put` is `ring_buf_put`, which returns how many bytes it took.
pub mod Loss
use n_rf5340_presence_test.Base.{
  ℕ, zero, suc, ◌+◌, Bool, true, false, not, List, Option, none, some, ltb, if◌then◌else◌, take,
}
use n_rf5340_presence_test.Base.Int.{ℤ}
use n_rf5340_presence_test.Base.Word.{u32}

-- `sizeof(b)`
abbrev pub chunk_size : ℕ
chunk_size = 64

-- `rx_rb` and the counters.
pub record Rx (R : Type 0) : Type 0 where
  pub ring : R
  pub rx_total : ℕ
  pub rx_dropped : ℕ

module _ (U : Type 0) (update : U → Bool) (ready : U → Bool) (fifo_read : U → ℕ → ℤ × (List ℕ × U))
    (R : Type 0) (put : R → List ℕ → ℕ × R) where
  -- `n` bytes of `b`, as a round of the loop handles them.
  unfoldable pub take_bytes : ℕ → List ℕ → Rx R → Rx R
  take_bytes n b s =
      let (stored, ring) = put s.ring (take n b) in
      record {
        ring = ring;
        rx_total = u32 (s.rx_total + n);
        rx_dropped = if ltb stored n then u32 (s.rx_dropped + 1) else s.rx_dropped;
      }

  -- `while (uart_irq_rx_ready(dev))`, on fuel.
  unfoldable pub isr_loop : ℕ → U → Rx R → Option (U × Rx R)
  isr_loop zero u s = none
  isr_loop (suc fuel) u s = elim (ready u) [
    | false ↦ some (u, s)
    | true ↦
        let (n, (b, u')) = fifo_read u chunk_size in
        elim n [
          | ℤ.negsuc err ↦ some (u', s)
          | ℤ.pos zero ↦ some (u', s)
          | ℤ.pos (suc m) ↦ isr_loop fuel u' (take_bytes (suc m) b s)
        ]
  ]

  unfoldable pub uart_isr : ℕ → U → Rx R → Option (U × Rx R)
  unfolding isr_loop
  uart_isr fuel u s = if not (update u) then some (u, s) else isr_loop fuel u s
