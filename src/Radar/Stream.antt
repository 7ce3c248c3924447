-- ===== src/Radar/Stream.antt =====
-- The inner loop of `radar_thread` of radar.c: the bytes of a chunk go through the reassembler, and
-- each complete frame goes to `on_frame`.
pub mod Receive
pub mod Noise
pub mod Total
use n_rf5340_presence_test.Base.{
  ℕ, Bool, true, false, List, [], ◌∷◌, ◌++◌, Option, none, some, if◌then◌else◌, ◌>>=◌, ◌≡◌, refl,
  arith, inl, inr, Option-cases,
}
use n_rf5340_presence_test.Tlv.Reasm.{Reasm, reset, push}

-- The state after one byte: `tlv_reset` follows a complete frame.
unfoldable pub settle : Bool × Reasm → Reasm
settle (done, r) = if done then reset r else r

-- `for (i = 0; i < n; i++) if (tlv_push(&re, chunk[i])) { on_frame(re.buf); tlv_reset(&re); }`:
-- the buffers that `on_frame` is given, in order, and the state after the chunk.
unfoldable pub pump : Reasm → List ℕ → Option (List (List ℕ) × Reasm)
unfolding settle
pump r [] = some ([], r)
pump r (b ∷ bs) = do
  (done, r') ← push r b
  (frames, r'') ← pump (settle (done, r')) bs
  some (if done then r'.buf ∷ frames else frames, r'')

pump_cons :
    (r : Reasm) (b : ℕ) (bs : List ℕ) {p : Bool × Reasm}
    → push r b ≡ some p
    → pump r (b ∷ bs) ≡ (pump (settle p) bs >>= λ c. some (if p.0 then p.1.buf ∷ c.0 else c.0, c.1))
unfolding pump
pump_cons r b bs e = rw e refl

-- A byte that completes nothing.
pub pump_quiet :
    (r : Reasm) (b : ℕ) (bs : List ℕ) {r' : Reasm}
    → push r b ≡ some (false, r')
    → pump r (b ∷ bs) ≡ pump r' bs
unfolding pump
pump_quiet r b bs {r'} e = rw e (bind_some (pump r' bs))
  where
    bind_some : (o : Option (List (List ℕ) × Reasm)) → (o >>= λ x. some (x.0, x.1)) ≡ o
    bind_some none = refl
    bind_some (some x) = refl

-- A byte that completes a frame.
pub pump_frame :
    (r : Reasm) (b : ℕ) (bs : List ℕ) {r' r'' : Reasm} {frames : List (List ℕ)}
    → push r b ≡ some (true, r')
    → pump (reset r') bs ≡ some (frames, r'')
    → pump r (b ∷ bs) ≡ some (r'.buf ∷ frames, r'')
unfolding pump
pump_frame r b bs e h = rw (e, h) refl

-- More bytes after what `a` has delivered.
abbrev pub resume : List ℕ → List (List ℕ) × Reasm → Option (List (List ℕ) × Reasm)
resume ys a = pump a.1 ys >>= λ b. some (a.0 ++ b.0, b.1)

abbrev emit : Bool × Reasm → List (List ℕ) × Reasm → Option (List (List ℕ) × Reasm)
emit p c = some (if p.0 then p.1.buf ∷ c.0 else c.0, c.1)

resume-emit :
    (ys : List ℕ) (p : Bool × Reasm) (o : Option (List (List ℕ) × Reasm))
    → ((o >>= resume ys) >>= emit p) ≡ ((o >>= emit p) >>= resume ys)
resume-emit ys p none = refl
resume-emit ys (done, r') (some (fs, r)) = elim (Option-cases (pump r ys)) [
  | inl e ↦ rw e refl
  | inr (x, e) ↦ rw e (ground arith)
]

-- Chunks are handled as one stream: where the bytes are cut makes no difference.
pub pump-append : (xs ys : List ℕ) (r : Reasm) → pump r (xs ++ ys) ≡ (pump r xs >>= resume ys)
pump-append [] ys r = elim (Option-cases (pump r ys)) [
  | inl e ↦ unfold pump in rw e refl
  | inr (x, e) ↦ unfold pump in rw e refl
]
pump-append (x ∷ xs) ys r = elim (Option-cases (push r x)) [
  | inl e ↦ unfold pump in rw e refl
  | inr (p, e) ↦
      rw (pump_cons r x (xs ++ ys) e, pump_cons r x xs e, pump-append xs ys (settle p))
        (resume-emit ys p (pump (settle p) xs))
]
