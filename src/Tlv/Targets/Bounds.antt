-- ===== src/Tlv/Targets/Bounds.antt =====
-- `tlv_targets` reads nothing outside its payload and writes nothing past `out`.
use n_rf5340_presence_test.Base.{
  ℕ, zero, suc, ◌+◌, ◌%◌, ◌≤◌, ◌<◌, ◌≡◌, refl, List, [], ◌∷◌, some, ◌==◌, if◌then◌else◌, arith,
  length, IsBytes, inl, inr, Bool-cases,
}
use native.Mathlib.Decide.{dec_le}
use n_rf5340_presence_test.Base.Word.{u32}
use n_rf5340_presence_test.Tlv.{rd_f32, max_frame}
use n_rf5340_presence_test.Tlv.Read.{le32, rd_u32-eq-le32}
use n_rf5340_presence_test.Tlv.Targets.Decode.{loop_step}
use n_rf5340_presence_test.Tlv.Targets.{Target, size_3d, size_2d, target_at, targets_loop, targets}

target_at_total :
    (payload : List ℕ) (size off : ℕ)
    → IsBytes payload
    → off + 15 < length payload
    → (t : Target) × (target_at payload size off ≡ some t)
unfolding target_at rd_f32
target_at_total payload size off bytes h =
    let z : ℕ = if size == size_3d then le32 payload (off + 12) else 0 in
    (
      record {
        tid = le32 payload off;
        x = le32 payload (off + 4);
        y = le32 payload (off + 8);
        z = z;
      },
      rw
          (
            rd_u32-eq-le32 payload off bytes (omega arith),
            rd_u32-eq-le32 payload (off + 4) bytes (omega arith),
            rd_u32-eq-le32 payload (off + 8) bytes (omega arith),
            rd_u32-eq-le32 payload (off + 12) bytes (omega arith),
          )
          (ground arith),
    )

loop_full : (payload : List ℕ) (size len off : ℕ) → targets_loop payload size len zero off ≡ some []
unfolding targets_loop
loop_full payload size len off = refl

loop_over :
    (payload : List ℕ) (size len left off : ℕ)
    → len < u32 (off + size)
    → targets_loop payload size len (suc left) off ≡ some []
unfolding targets_loop
loop_over payload size len left off h = ground (arith, h)

loop_total :
    (payload : List ℕ) (size len left off : ℕ)
    → IsBytes payload
    → len ≤ length payload
    → len ≤ max_frame
    → 15 < size
    → size ≤ 112
    → off ≤ len
    → (ts : List Target) × (targets_loop payload size len left off ≡ some ts) × (length ts ≤ left)
loop_total payload size len zero off bytes held small big bound inside =
    ([], loop_full payload size len off, omega arith)
loop_total payload size len (suc left) off bytes held small big bound inside =
    elim (dec_le (off + size) len) [
      | no over ↦ ([], loop_over payload size len left off (omega (arith, over)), omega arith)
      | yes fits ↦
          let (t, e) = target_at_total payload size off bytes (omega arith) in
          let (ts, e', l) =
            loop_total payload size len left (u32 (off + size)) bytes held small big bound
              (omega arith) in
          (t ∷ ts, loop_step payload size len left off (omega (arith, fits)) e e', omega (arith, l))
    ]

-- On any payload of a frame `tlv_targets` ends, reads nothing outside it, and writes at most as many
-- targets as `out` has room for.
pub targets_total :
    (payload : List ℕ) (len room : ℕ)
    → IsBytes payload
    → len ≤ length payload
    → len ≤ max_frame
    → (ts : List Target) × (targets (some payload) len room ≡ some ts) × (length ts ≤ room)
unfolding targets
targets_total payload len room bytes held small =
    let (t3, e3, l3) =
      loop_total payload size_3d len room 0 bytes held small (omega arith) (omega arith)
        (omega arith) in
    let (t2, e2, l2) =
      loop_total payload size_2d len room 0 bytes held small (omega arith) (omega arith)
        (omega arith) in
    elim (Bool-cases (len == 0)) [
      | inl none_there ↦ ([], rw none_there refl, omega arith)
      | inr some_there ↦ rw some_there (elim (Bool-cases (len % size_3d == 0)) [
        | inl three ↦ rw three (t3, e3, l3)
        | inr other ↦ rw other (elim (Bool-cases (len % size_2d == 0)) [
          | inl two ↦ rw two (t2, e2, l2)
          | inr neither ↦ rw neither ([], refl, omega arith)
        ])
      ])
    ]
