-- ===== src/Tlv/Targets/Decode.antt =====
-- `tlv_targets` decodes what the tracker encodes, in both layouts.
use n_rf5340_presence_test.Base.{
  ℕ, zero, suc, ◌+◌, ◌*◌, ◌≤◌, ◌<◌, ◌^◌, ◌≡◌, refl, sym, ◌∙◌, ap, List, [], ◌∷◌, ◌++◌, some, arith,
  map, length, take, take-nil, length-append, append_assoc, IsBytes,
}
use n_rf5340_presence_test.Base.Word.{u32}
use n_rf5340_presence_test.Tlv.{rd_u32, rd_f32, max_frame}
use n_rf5340_presence_test.Tlv.Read.{
  le32, le_bytes, le32-le_bytes, le32-append_right, rd_u32-eq-le32,
}
use n_rf5340_presence_test.Tlv.Targets.{Target, size_3d, size_2d, target_at, targets_loop, targets}

-- A target as the tracker has it: the words, and what the structure holds behind them.
pub record Track : Type 0 where
  pub target : Target
  pub others : List ℕ

abbrev pub AreWords : Target → Type 0
AreWords t = (t.tid < 2 ^ 32) × (t.x < 2 ^ 32) × (t.y < 2 ^ 32) × (t.z < 2 ^ 32)

-- GTRACK_3D: four words, then 24 floats.
abbrev pub encode_3d : Track → List ℕ
encode_3d k =
    le_bytes k.target.tid
    ++ (le_bytes k.target.x ++ (le_bytes k.target.y ++ (le_bytes k.target.z ++ k.others)))

-- GTRACK_2D: three words, then 16 floats.
abbrev pub encode_2d : Track → List ℕ
encode_2d k = le_bytes k.target.tid ++ (le_bytes k.target.x ++ (le_bytes k.target.y ++ k.others))

abbrev pub flat : Track → Target
flat k = record { tid = k.target.tid; x = k.target.x; y = k.target.y; z = 0 }

-- Tracks whose other floats fill the structure.
abbrev pub AreTracks : ℕ → List Track → Type 0
AreTracks n [] = Unit {0}
AreTracks n (k ∷ ks) = (length k.others ≡ n) × AreWords k.target × AreTracks n ks

abbrev pub encode_all : (Track → List ℕ) → List Track → List ℕ
encode_all enc [] = []
encode_all enc (k ∷ ks) = enc k ++ encode_all enc ks

-- One round of the loop.
pub loop_step :
    (payload : List ℕ) (size len left off : ℕ) {t : Target} {ts : List Target}
    → u32 (off + size) ≤ len
    → target_at payload size off ≡ some t
    → targets_loop payload size len left (u32 (off + size)) ≡ some ts
    → targets_loop payload size len (suc left) off ≡ some (t ∷ ts)
unfolding targets_loop
loop_step payload size len left off h e e' = ground arith

regroup : (front x xs more : List ℕ) → front ++ ((x ++ xs) ++ more) ≡ (front ++ x) ++ (xs ++ more)
regroup front x xs more =
    ap (λ (l : List ℕ). front ++ l) (append_assoc x xs more)
    ∙ sym (append_assoc front x (xs ++ more))

-- The loop over structures of one size, from how one of them is read.
module _ (n size : ℕ) (enc : Track → List ℕ) (view : Track → Target)
    (sized : (k : Track) → length k.others ≡ n → length (enc k) ≡ size)
    (read : (k : Track) (front more : List ℕ)
      → length k.others ≡ n
      → AreWords k.target
      → IsBytes (front ++ (enc k ++ more))
      → target_at (front ++ (enc k ++ more)) size (length front) ≡ some (view k)) where
  length-encode_all :
      (ks : List Track) → AreTracks n ks → length (encode_all enc ks) ≡ size * length ks
  length-encode_all [] h = omega arith
  length-encode_all (k ∷ ks) h =
      omega
        (arith, length-append (enc k) (encode_all enc ks), sized k h.0, length-encode_all ks h.2)

  loop_decodes :
      (ks : List Track) (front more : List ℕ) (len left : ℕ)
      → 0 < size
      → AreTracks n ks
      → IsBytes (front ++ (encode_all enc ks ++ more))
      → length front + size * length ks ≡ len
      → len ≤ max_frame
      → size ≤ max_frame
      → targets_loop (front ++ (encode_all enc ks ++ more)) size len left (length front)
        ≡ some (take left (map view ks))
  loop_decodes ks front more len zero pos h bytes whole small sm = unfold targets_loop in refl
  loop_decodes [] front more len (suc left) pos h bytes whole small sm =
      unfold targets_loop in ground arith
  loop_decodes (k ∷ ks) front more len (suc left) pos h bytes whole small sm =
      let xs = encode_all enc ks in
      let grown : length (front ++ enc k) ≡ length front + size =
        omega (arith, length-append front (enc k), sized k h.0) in
      let off : u32 (length front + size) ≡ length (front ++ enc k) = omega (arith, grown) in
      let here : target_at (front ++ ((enc k ++ xs) ++ more)) size (length front) ≡ some (view k) =
        rw (append_assoc (enc k) xs more)
          (read k front (xs ++ more) h.0 h.1 (rw (append_assoc (enc k) xs more) at bytes)) in
      let there : targets_loop (front ++ ((enc k ++ xs) ++ more)) size len left
            (u32 (length front + size))
          ≡ some (take left (map view ks)) =
        rw (regroup front (enc k) xs more, off)
          (loop_decodes ks (front ++ enc k) more len left pos h.2
            (rw (regroup front (enc k) xs more) at bytes) (omega (arith, grown)) small sm) in
      loop_step (front ++ ((enc k ++ xs) ++ more)) size len left (length front) (omega arith) here
        there

-- A word of a structure behind `front`.
word_at :
    (front : List ℕ) (skip w : ℕ) (q : List ℕ)
    → IsBytes (front ++ q)
    → skip + 3 < length q
    → le32 q skip ≡ w
    → rd_u32 (front ++ q) (length front + skip) ≡ some w
word_at front skip w q bytes inside e =
    rd_u32-eq-le32 (front ++ q) (length front + skip) bytes (omega (arith, length-append front q))
    ∙ ap some (le32-append_right front q skip ∙ e)

first_word :
    (front : List ℕ) (w : ℕ) (q : List ℕ)
    → IsBytes (front ++ (le_bytes w ++ q))
    → w < 2 ^ 32
    → rd_u32 (front ++ (le_bytes w ++ q)) (length front) ≡ some w
first_word front w q bytes h =
    ap (λ (o : ℕ). rd_u32 (front ++ (le_bytes w ++ q)) o) (omega arith)
    ∙ word_at front 0 w (le_bytes w ++ q) bytes (omega arith) (le32-le_bytes w q h)

read_3d :
    (k : Track) (front more : List ℕ)
    → length k.others ≡ 96
    → AreWords k.target
    → IsBytes (front ++ (encode_3d k ++ more))
    → target_at (front ++ (encode_3d k ++ more)) size_3d (length front) ≡ some k.target
unfolding target_at rd_f32
read_3d k front more e words bytes =
    rw
      (
        first_word front k.target.tid (le_bytes x ++ (le_bytes y ++ (le_bytes z ++ rest))) bytes
            words.0,
        word_at front 4 x q bytes (omega arith)
            (le32-le_bytes x (le_bytes y ++ (le_bytes z ++ rest)) words.1),
        word_at front 8 y q bytes (omega arith) (le32-le_bytes y (le_bytes z ++ rest) words.2),
        word_at front 12 z q bytes (omega arith) (le32-le_bytes z rest words.3),
      )
      refl
  where
    open k.target use {x, y, z}

    rest : List ℕ
    rest = k.others ++ more

    q : List ℕ
    q = encode_3d k ++ more

read_2d :
    (k : Track) (front more : List ℕ)
    → length k.others ≡ 64
    → AreWords k.target
    → IsBytes (front ++ (encode_2d k ++ more))
    → target_at (front ++ (encode_2d k ++ more)) size_2d (length front) ≡ some (flat k)
unfolding target_at rd_f32
read_2d k front more e words bytes =
    rw
      (
        first_word front k.target.tid (le_bytes x ++ (le_bytes y ++ rest)) bytes words.0,
        word_at front 4 x q bytes (omega arith) (le32-le_bytes x (le_bytes y ++ rest) words.1),
        word_at front 8 y q bytes (omega arith) (le32-le_bytes y rest words.2),
      )
      refl
  where
    open k.target use {x, y}

    rest : List ℕ
    rest = k.others ++ more

    q : List ℕ
    q = encode_2d k ++ more

pub length-encode_3d :
    (ks : List Track) → AreTracks 96 ks → length (encode_all encode_3d ks) ≡ size_3d * length ks
length-encode_3d =
    length-encode_all 96 size_3d encode_3d (λ k. k.target) (λ k e. omega arith) read_3d

pub length-encode_2d :
    (ks : List Track) → AreTracks 64 ks → length (encode_all encode_2d ks) ≡ size_2d * length ks
length-encode_2d = length-encode_all 64 size_2d encode_2d flat (λ k e. omega arith) read_2d

-- A GTRACK_3D payload that fits a frame decodes to the targets that it encodes, as many as `out`
-- has room for.
pub targets_3d :
    (ks : List Track) (more : List ℕ) (room : ℕ)
    → AreTracks 96 ks
    → IsBytes (encode_all encode_3d ks ++ more)
    → size_3d * length ks ≤ max_frame
    → targets (some (encode_all encode_3d ks ++ more)) (size_3d * length ks) room
      ≡ some (take room (map (λ k. k.target) ks))
unfolding targets
targets_3d [] more room h bytes small = rw (take-nil {A = Target} room) (ground arith)
targets_3d (k ∷ ks) more room h bytes small = ground (
  arith,
  loop_decodes 96 size_3d encode_3d (λ k. k.target) (λ k e. omega arith) read_3d (k ∷ ks) [] more
      (size_3d * length (k ∷ ks)) room (omega arith) h bytes (omega arith) small (omega arith),
)

-- A GTRACK_2D payload that fits a frame decodes to the targets that it encodes, with z at 0: its
-- length is never a multiple of the 3D size.
pub targets_2d :
    (ks : List Track) (more : List ℕ) (room : ℕ)
    → AreTracks 64 ks
    → IsBytes (encode_all encode_2d ks ++ more)
    → size_2d * length ks ≤ max_frame
    → targets (some (encode_all encode_2d ks ++ more)) (size_2d * length ks) room
      ≡ some (take room (map flat ks))
unfolding targets
targets_2d [] more room h bytes small = rw (take-nil {A = Target} room) (ground arith)
targets_2d (k ∷ ks) more room h bytes small = ground (
  arith,
  loop_decodes 64 size_2d encode_2d flat (λ k e. omega arith) read_2d (k ∷ ks) [] more
      (size_2d * length (k ∷ ks)) room (omega arith) h bytes (omega arith) small (omega arith),
)
