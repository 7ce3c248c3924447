-- ===== src/Tlv/Targets.antt =====
-- `tlv_targets` of tlv.c: the tracker's output, in either of its two layouts.
pub mod Decode
pub mod Bounds
use n_rf5340_presence_test.Base.{
  ℕ, zero, suc, ◌+◌, ◌%◌, Bool, true, false, List, [], ◌∷◌, Option, none, some, leb, ◌==◌,
  if◌then◌else◌, ◌>>=◌,
}
use n_rf5340_presence_test.Base.Word.{u32}
use n_rf5340_presence_test.Tlv.{rd_u32, rd_f32}

-- `struct tlv_target`; a float is its 32-bit pattern, and 0.0f has the pattern 0.
pub record Target : Type 0 where
  pub tid : ℕ
  pub x : ℕ
  pub y : ℕ
  pub z : ℕ

abbrev pub size_3d : ℕ
size_3d = 112

abbrev pub size_2d : ℕ
size_2d = 76

-- One element of `out`, from the structure at `off`.
unfoldable pub target_at : List ℕ → ℕ → ℕ → Option Target
target_at payload size off = do
  tid ← rd_u32 payload off
  x ← rd_f32 payload (off + 4)
  y ← rd_f32 payload (off + 8)
  z ← if size == size_3d then rd_f32 payload (off + 12) else some 0
  some (record { tid = tid; x = x; y = y; z = z })

-- The loop, with `left` elements of `out` still free (`max - n`). The list is what is written.
unfoldable pub targets_loop : List ℕ → ℕ → ℕ → ℕ → ℕ → Option (List Target)
targets_loop payload size len zero off = some []
targets_loop payload size len (suc left) off = elim (leb (u32 (off + size)) len) [
  | false ↦ some []
  | true ↦ do
    t ← target_at payload size off
    ts ← targets_loop payload size len left (u32 (off + size))
    some (t ∷ ts)
]

-- `payload` is the memory from the pointer on; `none` is NULL. The returned count is the length.
unfoldable pub targets : Option (List ℕ) → ℕ → ℕ → Option (List Target)
targets none len max = some []
targets (some payload) len max =
    if len == 0
    then some []
    else if len % size_3d == 0
    then targets_loop payload size_3d len max 0
    else if len % size_2d == 0
    then targets_loop payload size_2d len max 0
    else some []
