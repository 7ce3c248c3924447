-- ===== src/Radar/Stream/Noise.antt =====
-- Noise before a frame, and whole streams of noise and frames.
use n_rf5340_presence_test.Base.{
  ℕ, suc, ◌<◌, ◌≡◌, refl, sym, ◌∙◌, ap, false, inl, inr, List, [], ◌∷◌, ◌++◌, some, arith, map,
  ◌==◌, ==_iff, if◌then◌else◌, length, get_or, take, take-append, drop, IsBytes, length-append,
  length-drop, append_assoc, take-suc, Bool-cases, ap₂, get_elem?-eq-get_or, IsBytes-append,
  IsBytes-drop,
}
use native.Mathlib.Decide.{dec_lt}
use n_rf5340_presence_test.Tlv.{magic, magic_len, max_frame}
use n_rf5340_presence_test.Tlv.Read.{le32, le32-append_left}
use n_rf5340_presence_test.Tlv.Reasm.{push, hunt, hunted}
use n_rf5340_presence_test.Radar.Stream.{pump, pump_quiet, pump-append}
use n_rf5340_presence_test.Radar.Stream.Receive.{IsFrame, hunting, overlay, receive}

-- The magic word occurs in `xs`.
abbrev pub HasMagic : List ℕ → Type 0
HasMagic xs = (before : List ℕ) × (after : List ℕ) × (xs ≡ before ++ (magic ++ after))

-- The magic bytes matched after one more byte of noise.
abbrev next : ℕ → ℕ → ℕ
next m b = if b == get_or magic m 0 then suc m else if b == 2 then 1 else 0

abbrev progress : ℕ → List ℕ → ℕ
progress m [] = m
progress m (b ∷ g) = progress (next m b) g

HasMagic-append : (xs ys : List ℕ) → HasMagic ys → HasMagic (xs ++ ys)
HasMagic-append xs ys (before, after, e) =
    (xs ++ before, after, ap (λ t. xs ++ t) e ∙ sym (append_assoc xs before (magic ++ after)))

HasMagic-next :
    (m b : ℕ) (g : List ℕ)
    → m < magic_len
    → HasMagic (take (next m b) magic ++ g)
    → HasMagic (take m magic ++ b ∷ g)
HasMagic-next m b g h = elim (Bool-cases (b == get_or magic m 0)) [
  | inl e ↦ rw e λ found.
      rw ((==_iff b (get_or magic m 0)).0 e)
        (rw (← append_assoc (take m magic) (get_or magic m 0 ∷ []) g, ← take-suc m magic 0 h) found)
  | inr e ↦ rw e (elim (Bool-cases (b == 2)) [
    | inl two ↦
        rw two λ found. rw ((==_iff b 2).0 two) (HasMagic-append (take m magic) (2 ∷ g) found)
    | inr other ↦ rw other λ found.
        rw (← append_assoc (take m magic) (b ∷ []) g)
          (HasMagic-append (take m magic ++ b ∷ []) g found)
  ])
]

push_noise :
    (buf : List ℕ) (m b : ℕ)
    → m < magic_len
    → next m b < magic_len
    → push (hunting buf m) b ≡ some (false, hunting buf (next m b))
unfolding push hunt hunted
push_noise buf m b h k = rw (get_elem?-eq-get_or magic m 0 h) (ground arith)

next-lt :
    (m b : ℕ) (g : List ℕ)
    → m < magic_len
    → ¬ HasMagic (take m magic ++ b ∷ g)
    → next m b < magic_len
next-lt m b g h clean = elim (dec_lt (next m b) magic_len) [
  | yes k ↦ k
  | no k ↦ absurd (
      clean (
        HasMagic-next m b g h
          ([], g, ap (λ (t : ℕ). take t magic ++ g) {x = next m b} {y = magic_len} (ground arith))))
]

-- Noise without the magic word delivers nothing and leaves the hunt going.
pump_noise :
    (g : List ℕ) (buf : List ℕ) (m : ℕ)
    → m < magic_len
    → ¬ HasMagic (take m magic ++ g)
    → (m' : ℕ) × (m' < magic_len) × (pump (hunting buf m) g ≡ some ([], hunting buf m'))
pump_noise [] buf m h clean = (m, h, unfold pump in refl)
pump_noise (b ∷ g) buf m h clean =
    let inside = next-lt m b g h clean in
    let (m', h', e) =
      pump_noise g buf (next m b) inside (λ found. clean (HasMagic-next m b g h found)) in
    (m', h', pump_quiet (hunting buf m) b g (push_noise buf m b h inside) ∙ e)

-- A frame, and the bytes that come before it.
pub record Segment : Type 0 where
  pub noise : List ℕ
  pub frame : List ℕ

-- What is on the wire.
abbrev pub wire : List Segment → List ℕ
wire [] = []
wire (s ∷ segments) = s.noise ++ (s.frame ++ wire segments)

abbrev pub IsWire : List Segment → Type 0
IsWire [] = Unit {0}
IsWire (s ∷ segments) = (¬ HasMagic s.noise) × IsFrame s.frame × IsWire segments

-- The part of a buffer that the header in it claims.
abbrev pub claimed : List ℕ → List ℕ
claimed buf = take (le32 buf 12) buf

claimed-overlay : (f buf : List ℕ) → IsFrame f → claimed (overlay f buf) ≡ f
claimed-overlay f buf h =
    ap (λ (t : ℕ). take t (overlay f buf))
      (le32-append_left f (drop (length f) buf) 12 (omega (arith, h.least)) ∙ h.claimed)
    ∙ take-append f (drop (length f) buf)

length-overlay :
    (f buf : List ℕ) → IsFrame f → length buf ≡ max_frame → length (overlay f buf) ≡ max_frame
length-overlay f buf h room =
    omega (arith, length-append f (drop (length f) buf), length-drop (length f) buf, h.most)

IsBytes-overlay : (f buf : List ℕ) → IsFrame f → IsBytes buf → IsBytes (overlay f buf)
IsBytes-overlay f buf h old =
    IsBytes-append f (drop (length f) buf) h.bytes (IsBytes-drop (length f) buf old)

-- A stream of frames, with noise that does not hold the magic word before each, is delivered frame
-- by frame: every frame once, in order, and the header in the buffer delimits just that frame.
pub receive_stream :
    (segments : List Segment) (buf : List ℕ)
    → IsWire segments
    → length buf ≡ max_frame
    → IsBytes buf
    → (frames : List (List ℕ)) × (last : List ℕ) × (pump (hunting buf 0) (wire segments)
        ≡ some (frames, hunting last 0))
      × (map claimed frames ≡ map (λ s. s.frame) segments)
receive_stream [] buf h room old = ([], buf, unfold pump in refl, refl)
receive_stream (s ∷ segments) buf (clean, good, more) room old =
    let (m, hm, quiet) = pump_noise s.noise buf 0 (omega arith) clean in
    let buf' = overlay s.frame buf in
    let (frames, last, e, same) =
      receive_stream segments buf' more (length-overlay s.frame buf good room)
        (IsBytes-overlay s.frame buf good old) in
    (
      buf' ∷ frames,
      last,
      pump-append s.noise (s.frame ++ wire segments) (hunting buf 0)
          ∙ rw
              (
                quiet,
                pump-append s.frame (wire segments) (hunting buf m),
                receive s.frame buf m good hm room old,
                e,
              )
              refl,
      ap₂ ◌∷◌ (claimed-overlay s.frame buf good) same,
    )
