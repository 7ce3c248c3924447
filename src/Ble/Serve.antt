-- ===== src/Ble/Serve.antt =====
-- `dump_thread` of ble.c: a request that was taken and the dump that serves it.
pub mod Answered
use n_rf5340_presence_test.Base.{ℕ, Bool, List, Option, none, some, ◌>>=◌}
use n_rf5340_presence_test.Base.Int.{ℤ}
use n_rf5340_presence_test.Frame.Record.{Record}
use n_rf5340_presence_test.Ble.Dump.{dump_run}
use n_rf5340_presence_test.Ble.Link.{Link, dump_take}

-- `send` and `mtu` are those of a connection; what other handlers do to the link while the dump
-- runs are steps of their own. The result has what `dump_run` ended with, if it was called.
module _ (P W : Type 0) (send : ℕ → W → List ℕ → ℤ × W) (fetch : ℕ → Option Record)
    (mtu : ℕ → ℕ) where
  -- A round of the loop, once the semaphore is taken.
  unfoldable pub dump_round : List ℕ → ℕ → ℕ → W → Link P → Option ((Option Bool × W) × Link P)
  dump_round device_id oldest_seq next_seq w s =
      let (job, s') = dump_take P s in
      elim job [
        | none ↦ some ((none, w), s')
        | some (conn, first_seq) ↦ do
          (w', sent) ←
              dump_run W (send conn) fetch (mtu conn) device_id first_seq oldest_seq next_seq w
          some ((some sent, w'), s')
      ]
