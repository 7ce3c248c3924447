-- ===== src/Radar/Uart/Loss.antt =====
-- What the interrupt loses, it counts.
use n_rf5340_presence_test.Base.{
  ℕ, suc, ◌+◌, ◌^◌, ◌≤◌, ◌<◌, ◌≡◌, ◌⊎◌, refl, sym, ◌∙◌, ap, Bool, true, false, List, [], ◌∷◌, ◌++◌,
  Option, some, take, take_all, length, arith, inl, inr, append_assoc, length-append, append-nil,
}
use native.Mathlib.Decide.{dec_lt}
use native.Mathlib.Nat.{le_refl}
use n_rf5340_presence_test.Base.Int.{ℤ}
use n_rf5340_presence_test.Base.Word.{u32}
use n_rf5340_presence_test.Radar.Uart.{Rx, chunk_size, take_bytes, isr_loop, uart_isr}

-- A UART that has chunks of bytes for the reads to come.
abbrev pub Fifo : Type 0
Fifo = List (List ℕ)

abbrev pub ready : Fifo → Bool
ready [] = false
ready (c ∷ cs) = true

abbrev pub fifo_read : Fifo → ℕ → ℤ × (List ℕ × Fifo)
fifo_read [] room = (ℤ.pos 0, ([], []))
fifo_read (c ∷ cs) room = (ℤ.pos (length c), (c, cs))

abbrev pub joined : Fifo → List ℕ
joined [] = []
joined (c ∷ cs) = c ++ joined cs

-- Each read gives some bytes.
abbrev pub AreFull : Fifo → Type 0
AreFull [] = Unit {0}
AreFull (c ∷ cs) = (1 ≤ length c) × (length c ≤ chunk_size) × AreFull cs

-- A ring buffer adds as many bytes as it returns, the first ones, behind those that it holds, as
-- documented of `ring_buf_put`.
pub record IsRing (R : Type 0) (put : R → List ℕ → ℕ × R) : Type 0 where
  pub held : R → List ℕ
  pub holds : (r : R) (bs : List ℕ) → held (put r bs).1 ≡ held r ++ take (put r bs).0 bs

module _ (R : Type 0) (put : R → List ℕ → ℕ × R) (ring : IsRing R put) where
  abbrev pub isr : ℕ → Fifo → Rx R → Option (Fifo × Rx R)
  isr fuel cs s = uart_isr Fifo (λ u. true) ready fifo_read R put fuel cs s

  abbrev loop : ℕ → Fifo → Rx R → Option (Fifo × Rx R)
  loop fuel cs s = isr_loop Fifo (λ u. true) ready fifo_read R put fuel cs s

  -- A chunk is held whole, or it is counted as dropped.
  abbrev pub IsKept : List ℕ → Rx R → Rx R → Type 0
  IsKept bytes s t =
      (s.rx_dropped < t.rx_dropped)
      ⊎ ((t.rx_dropped ≡ s.rx_dropped) × (ring.held t.ring ≡ ring.held s.ring ++ bytes))

  abbrev taken : List ℕ → Rx R → Rx R
  taken c s = take_bytes Fifo (λ u. true) ready fifo_read R put (length c) c s

  all_taken : (c : List ℕ) (n : ℕ) → length c ≤ n → take n (take (length c) c) ≡ c
  all_taken c n h = rw (take_all (length c) c (le_refl (length c))) (take_all n c h)

  dropped_le : (c : List ℕ) (s : Rx R) → (taken c s).rx_dropped ≤ s.rx_dropped + 1
  unfolding take_bytes
  dropped_le c s = ground arith

  total_lem : (c : List ℕ) (s : Rx R) → (taken c s).rx_total ≡ u32 (s.rx_total + length c)
  unfolding take_bytes
  total_lem c s = refl

  taken-IsKept : (c : List ℕ) (s : Rx R) → s.rx_dropped + 1 < 2 ^ 32 → IsKept c s (taken c s)
  unfolding take_bytes
  taken-IsKept c s range = elim (dec_lt (put s.ring (take (length c) c)).0 (length c)) [
    | yes full ↦ inl (ground (arith, full))
    | no whole ↦ inr (
      ground (arith, whole),
      ring.holds s.ring (take (length c) c)
          ∙ ap (λ (t : List ℕ). ring.held s.ring ++ t)
              (all_taken c (put s.ring (take (length c) c)).0 (omega arith)),
    )
  ]

  loop_step :
      (fuel : ℕ) (c : List ℕ) (cs : Fifo) (s : Rx R)
      → 1 ≤ length c
      → loop (suc fuel) (c ∷ cs) s ≡ loop fuel cs (taken c s)
  unfolding isr_loop
  loop_step fuel [] cs s h = absurd (omega arith)
  loop_step fuel (b ∷ c) cs s h = refl

  IsKept-append :
      (c cs : List ℕ) (s t u : Rx R)
      → IsKept c s t
      → s.rx_dropped ≤ t.rx_dropped
      → t.rx_dropped ≤ u.rx_dropped
      → IsKept cs t u
      → IsKept (c ++ cs) s u
  IsKept-append c cs s t u (inl lost) low high rest = inl (omega arith)
  IsKept-append c cs s t u (inr (same, held)) low high (inl lost) = inl (omega arith)
  IsKept-append c cs s t u (inr (same, held)) low high (inr (same', held')) = inr (
    same' ∙ same,
    held' ∙ ap (λ (r : List ℕ). r ++ cs) held ∙ append_assoc (ring.held s.ring) c cs,
  )

  IsKept-le : (c : List ℕ) (s t : Rx R) → IsKept c s t → s.rx_dropped ≤ t.rx_dropped
  IsKept-le c s t (inl lost) = omega arith
  IsKept-le c s t (inr (same, held)) = omega arith

  loop_lem :
      (cs : Fifo) (s : Rx R)
      → AreFull cs
      → s.rx_dropped + length cs < 2 ^ 32
      → (t : Rx R) × (loop (suc (length cs)) cs s ≡ some ([], t))
        × (u32 t.rx_total ≡ u32 (s.rx_total + length (joined cs)))
        × IsKept (joined cs) s t
  loop_lem [] s h range =
      (s, unfold isr_loop in refl, omega arith, inr (refl, sym (append-nil (ring.held s.ring))))
  loop_lem (c ∷ cs) s (some_bytes, fits, rest) range =
      let s' = taken c s in
      let (t, e, total, kept) = loop_lem cs s' rest (omega (arith, dropped_le c s)) in
      let first = taken-IsKept c s (omega arith) in
      (
        t,
        loop_step (suc (length cs)) c cs s some_bytes ∙ e,
        omega (arith, total, total_lem c s, length-append c (joined cs)),
        IsKept-append c (joined cs) s s' t first (IsKept-le c s s' first)
            (IsKept-le (joined cs) s' t kept) kept,
      )

  -- When the UART has chunks for so many reads, and the counter of drops does not run over: the
  -- interrupt reads them all and ends, counts every byte modulo 2 ^ 32, and either the ring buffer
  -- then holds all of them, in order, behind what it held, or the counter of drops has grown.
  pub uart_isr_lem :
      (cs : Fifo) (s : Rx R)
      → AreFull cs
      → s.rx_dropped + length cs < 2 ^ 32
      → (t : Rx R) × (isr (suc (length cs)) cs s ≡ some ([], t))
        × (u32 t.rx_total ≡ u32 (s.rx_total + length (joined cs)))
        × IsKept (joined cs) s t
  unfolding uart_isr
  uart_isr_lem cs s h range = loop_lem cs s h range
