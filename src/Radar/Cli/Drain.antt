-- ===== src/Radar/Cli/Drain.antt =====
-- `cli_drain` of radar.c: the receive ring is emptied before a line is sent. `get` is `ring_buf_get`
-- for one byte, which is none when the ring has none.
use n_rf5340_presence_test.Base.{
  ℕ, zero, suc, ◌<◌, ◌≡◌, refl, List, [], ◌∷◌, Option, none, some, length, arith,
}

module _ (R : Type 0) (get : R → Option ℕ × R) where
  -- `while (ring_buf_get(&rx_rb, &b, 1) == 1)`, on fuel
  unfoldable pub cli_drain : ℕ → R → Option R
  cli_drain zero r = none
  cli_drain (suc fuel) r =
      let (b, r') = get r in elim b [ none ↦ some r' | some _ ↦ cli_drain fuel r' ]

  -- A ring that holds bytes, and gives the first one.
  pub record IsQueue : Type 0 where
    pub held : R → List ℕ
    pub empty : (r : R) → held r ≡ [] → ((get r).0 ≡ none) × (held (get r).1 ≡ [])
    pub first :
        (r : R) (b : ℕ) (bs : List ℕ)
        → held r ≡ b ∷ bs
        → ((get r).0 ≡ some b) × (held (get r).1 ≡ bs)

  -- The loop takes one round more than the ring has bytes, and leaves it empty.
  pub cli_drain_lem :
      (queue : IsQueue) (bs : List ℕ) (fuel : ℕ) (r : R)
      → queue.held r ≡ bs
      → length bs < fuel
      → (r' : R) × (cli_drain fuel r ≡ some r') × (queue.held r' ≡ [])
  unfolding cli_drain
  cli_drain_lem queue bs zero r e h = absurd (omega arith)
  cli_drain_lem queue [] (suc fuel) r e h =
      let (stop, empty) = queue.empty r e in ((get r).1, rw (stop, cli_drain) refl, empty)
  cli_drain_lem queue (b ∷ bs) (suc fuel) r e h =
      let (more, rest) = queue.first r b bs e in
      let (r', run, empty) = cli_drain_lem queue bs fuel (get r).1 rest (omega arith) in
      (r', rw (more, cli_drain) run, empty)
