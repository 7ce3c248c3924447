-- ===== src/Radar/Stream/Total.antt =====
-- Any bytes at all go through the reassembler with no access out of range, and what `on_frame` gets
-- is a buffer with a complete frame.
use n_rf5340_presence_test.Base.{
  ℕ, ◌≤◌, ◌≡◌, refl, ◌∙◌, Bool, true, false, List, [], ◌∷◌, some, length, IsBytes, arith,
}
use n_rf5340_presence_test.Tlv.{hdr_len, max_frame}
use n_rf5340_presence_test.Tlv.Read.{le32}
use n_rf5340_presence_test.Tlv.Reasm.{Reasm, push}
use n_rf5340_presence_test.Tlv.Reasm.Valid.{IsValid, After, push_total, reset-IsValid}
use n_rf5340_presence_test.Radar.Stream.{settle, pump, pump_quiet, pump_frame}

-- A buffer whose header claims a length that a frame can have.
pub record IsHeld (buf : List ℕ) : Type 0 where
  pub room : length buf ≡ max_frame
  pub bytes : IsBytes buf
  pub least : hdr_len ≤ le32 buf 12
  pub most : le32 buf 12 ≤ max_frame

abbrev pub AreHeld : List (List ℕ) → Type 0
AreHeld [] = Unit {0}
AreHeld (buf ∷ bufs) = IsHeld buf × AreHeld bufs

abbrev pub Pumped : Reasm → List ℕ → Type 0
Pumped r bs = (out : List (List ℕ) × Reasm) × (pump r bs ≡ some out) × AreHeld out.0 × IsValid out.1

settle-IsValid : (p : Bool × Reasm) → After p → IsValid (settle p)
unfolding settle
settle-IsValid (true, r) h = reset-IsValid r h
settle-IsValid (false, r) h = h

pump_step :
    (r : Reasm) (b : ℕ) (bs : List ℕ) (p : Bool × Reasm)
    → push r b ≡ some p
    → After p
    → Pumped (settle p) bs
    → Pumped r (b ∷ bs)
unfolding settle
pump_step r b bs (false, r') e h (out, run, held, v) = (out, pump_quiet r b bs e ∙ run, held, v)
pump_step r b bs (true, r') e h (out, run, held, v) = (
  (r'.buf ∷ out.0, out.1),
  pump_frame r b bs e run,
  (
    record {
      room = h.room;
      bytes = h.bytes;
      least = omega (arith, h.claimed, h.least);
      most = omega (arith, h.claimed, h.most);
    },
    held,
  ),
  v,
)

-- From a valid state any bytes go through the loop with no access out of range; the state is valid
-- again, and every buffer that `on_frame` is given holds a frame of 40 to 2048 bytes.
pub pump_total : (bs : List ℕ) (r : Reasm) → IsBytes bs → IsValid r → Pumped r bs
pump_total [] r h v = (([], r), unfold pump in refl, tt, v)
pump_total (b ∷ bs) r h v =
    let (p, e, after) = push_total r b v h.0 in
    pump_step r b bs p e after (pump_total bs (settle p) h.1 (settle-IsValid p after))
