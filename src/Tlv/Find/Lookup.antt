-- ===== src/Tlv/Find/Lookup.antt =====
-- `tlv_find` against the list of TLVs that a frame encodes: the first of the type.
use n_rf5340_presence_test.Base.{
  ℕ, zero, suc, ◌+◌, ◌≤◌, ◌<◌, ◌^◌, ◌≡◌, refl, sym, ◌∙◌, ap, ap₂, inl, inr, List, [], ◌∷◌, ◌++◌,
  Option, none, some, ◌==◌, if◌then◌else◌, arith, length, take, drop, take-append, length-append,
  append_assoc, IsBytes, Bool-cases,
}
use mathlib.Core.Option
use native.Mathlib.Decide.{ℕ_discrete}
use n_rf5340_presence_test.Tlv.{hdr_len, max_frame}
use n_rf5340_presence_test.Tlv.Read.{
  le32, le_bytes, le32-le_bytes, le32-append_left, le32-append_right, rd_u32-eq-le32,
}
use n_rf5340_presence_test.Tlv.Find.{Found, find_loop, find}
use n_rf5340_presence_test.Tlv.Find.Bounds.{find_loop_hit, find_loop_next}

pub record Tlv : Type 0 where
  pub tag : ℕ
  pub value : List ℕ

-- A TLV on the wire: type, length, payload.
abbrev pub encode : Tlv → List ℕ
encode t = le_bytes t.tag ++ (le_bytes (length t.value) ++ t.value)

abbrev pub encode_all : List Tlv → List ℕ
encode_all [] = []
encode_all (t ∷ ts) = encode t ++ encode_all ts

abbrev pub AreTags : List Tlv → Type 0
AreTags [] = Unit {0}
AreTags (t ∷ ts) = (t.tag < 2 ^ 32) × AreTags ts

-- The payload of the first TLV of a type.
abbrev pub first_value : ℕ → List Tlv → Option (List ℕ)
first_value type [] = none
first_value type (t ∷ ts) = if t.tag == type then some t.value else first_value type ts

-- Where it lies, when the TLVs start at `o`.
abbrev pub locate : ℕ → ℕ → List Tlv → Found
locate type o [] = none
locate type o (t ∷ ts) =
    if t.tag == type then some (o + 8, length t.value) else locate type (o + 8 + length t.value) ts

abbrev pub payload : List ℕ → ℕ × ℕ → List ℕ
payload buf (p, ln) = take ln (drop p buf)

length-encode : (t : Tlv) → length (encode t) ≡ 8 + length t.value
length-encode t = omega arith

regroup :
    (front : List ℕ) (t : Tlv) (xs rest : List ℕ)
    → front ++ ((encode t ++ xs) ++ rest) ≡ (front ++ encode t) ++ (xs ++ rest)
regroup front t xs rest =
    ap (λ (l : List ℕ). front ++ l) (append_assoc (encode t) xs rest)
    ∙ sym (append_assoc front (encode t) (xs ++ rest))

grown : (front : List ℕ) (t : Tlv) → length (front ++ encode t) ≡ length front + 8 + length t.value
grown front t = omega (arith, length-append front (encode t), length-encode t)

module _ (type total : ℕ) (small : total ≤ max_frame) where
  -- The words of the TLV header behind `front`.
  tag_at :
      (front : List ℕ) (t : Tlv) (more : List ℕ)
      → t.tag < 2 ^ 32
      → le32 (front ++ (encode t ++ more)) (length front) ≡ t.tag
  tag_at front t more h =
      ap (λ (o : ℕ). le32 (front ++ (encode t ++ more)) o) (omega arith)
      ∙ le32-append_right front (encode t ++ more) 0
      ∙ le32-le_bytes t.tag (le_bytes (length t.value) ++ (t.value ++ more)) h

  len_at :
      (front : List ℕ) (t : Tlv) (more : List ℕ)
      → length t.value < 2 ^ 32
      → le32 (front ++ (encode t ++ more)) (length front + 4) ≡ length t.value
  len_at front t more h =
      le32-append_right front (encode t ++ more) 4
      ∙ le32-le_bytes (length t.value) (t.value ++ more) h

  locate_loop :
      (ts : List Tlv) (front rest : List ℕ) (fuel : ℕ)
      → AreTags ts
      → IsBytes (front ++ (encode_all ts ++ rest))
      → length front + length (encode_all ts) ≡ total
      → total < fuel + length front
      → find_loop (front ++ (encode_all ts ++ rest)) type total fuel (length front)
        ≡ some (locate type (length front) ts)
  locate_loop ts front rest zero tags bytes whole enough = absurd (omega arith)
  locate_loop [] front rest (suc fuel) tags bytes whole enough = unfold find_loop in ground arith
  locate_loop (t ∷ ts) front rest (suc fuel) tags bytes whole enough =
      let xs = encode_all ts in
      let buf = front ++ (encode_all (t ∷ ts) ++ rest) in
      let ln : ℕ = length t.value in
      let fits : length front + 8 + ln ≤ total =
        omega (arith, length-append (encode t) xs, length-encode t) in
      let held : total ≤ length buf = omega (
        arith,
        length-append front (encode_all (t ∷ ts) ++ rest),
        length-append (encode_all (t ∷ ts)) rest,
      ) in
      let tag : le32 buf (length front) ≡ t.tag =
        rw (append_assoc (encode t) xs rest) (tag_at front t (xs ++ rest) tags.0) in
      let len : le32 buf (length front + 4) ≡ ln =
        rw (append_assoc (encode t) xs rest) (len_at front t (xs ++ rest) (omega arith)) in
      let more : find_loop buf type total fuel (length front + 8 + ln)
          ≡ some (locate type (length front + 8 + ln) ts) =
        rw (regroup front t xs rest, ← grown front t)
          (locate_loop ts (front ++ encode t) rest fuel tags.1
            (rw (← regroup front t xs rest) bytes)
            (omega (arith, length-append (encode t) xs, length-encode t, grown front t))
            (omega (arith, grown front t))) in
      elim (ℕ_discrete t.tag type) [
        | yes hit ↦
            find_loop_hit buf type total bytes held small fuel (length front) ln fits len
              (tag ∙ hit)
            ∙ ground arith
        | no miss ↦
            find_loop_next buf type total bytes held small fuel (length front) ln fits len
              (λ e. miss (sym tag ∙ e))
            ∙ more
            ∙ ground arith
      ]

drop-append : (xs ys : List ℕ) → drop (length xs) (xs ++ ys) ≡ ys
drop-append [] ys = refl
drop-append (x ∷ xs) ys = drop-append xs ys

payload-first :
    (front : List ℕ) (t : Tlv) (xs rest : List ℕ)
    → payload (front ++ ((encode t ++ xs) ++ rest)) (length front + 8, length t.value) ≡ t.value
payload-first front t xs rest =
    ap (λ (l : List ℕ). take (length t.value) l)
      (ap₂ (λ (n : ℕ) (l : List ℕ). drop n l) (omega (arith, length-append front head)) regrouped
        ∙ drop-append (front ++ head) ((t.value ++ xs) ++ rest))
    ∙ ap (λ (l : List ℕ). take (length t.value) l) (append_assoc t.value xs rest)
    ∙ take-append t.value (xs ++ rest)
  where
    head : List ℕ
    head = le_bytes t.tag ++ le_bytes (length t.value)

    regrouped : front ++ ((encode t ++ xs) ++ rest) ≡ (front ++ head) ++ ((t.value ++ xs) ++ rest)
    regrouped = sym (append_assoc front head ((t.value ++ xs) ++ rest))

-- What `locate` points at is the payload itself.
pub payload-locate :
    (type : ℕ) (ts : List Tlv) (front rest : List ℕ)
    → Option.map (payload (front ++ (encode_all ts ++ rest))) (locate type (length front) ts)
      ≡ first_value type ts
payload-locate type [] front rest = refl
payload-locate type (t ∷ ts) front rest = elim (Bool-cases (t.tag == type)) [
  | inl hit ↦ rw (hit, payload-first front t (encode_all ts) rest) refl
  | inr miss ↦
      rw (miss, regroup front t (encode_all ts) rest, ← grown front t)
        (payload-locate type ts (front ++ encode t) rest)
]

-- A frame holds a header, then TLVs; the buffer may hold stale bytes behind it.
pub record IsTlvFrame (front : List ℕ) (ts : List Tlv) (stale : List ℕ) : Type 0 where
  pub header : length front ≡ hdr_len
  pub tags : AreTags ts
  pub bytes : IsBytes (front ++ (encode_all ts ++ stale))
  pub claimed : le32 front 12 ≡ length front + length (encode_all ts)
  pub small : le32 front 12 ≤ max_frame

pub find-locate :
    (type : ℕ) (front : List ℕ) (ts : List Tlv) (stale : List ℕ)
    → IsTlvFrame front ts stale
    → find (front ++ (encode_all ts ++ stale)) type ≡ some (locate type (length front) ts)
unfolding find
find-locate type front ts stale h =
    rw
      (
        rd_u32-eq-le32 buf 12 h.bytes
            (omega (arith, length-append front (encode_all ts ++ stale), h.header)),
        total,
      )
      (ap (λ (o : ℕ). find_loop buf type (le32 front 12) (suc (le32 front 12)) o) (sym h.header)
        ∙ locate_loop type (le32 front 12) h.small ts front stale (suc (le32 front 12)) h.tags
            h.bytes (sym h.claimed) (omega arith))
  where
    buf : List ℕ
    buf = front ++ (encode_all ts ++ stale)

    total : le32 buf 12 ≡ le32 front 12
    total = le32-append_left front (encode_all ts ++ stale) 12 (omega (arith, h.header))

-- `tlv_find` answers with the payload of the first TLV of the type, its place and its length, and
-- with NULL when the frame holds none of that type. Stale bytes behind the frame are not seen.
pub find-first_value :
    (type : ℕ) (front : List ℕ) (ts : List Tlv) (stale : List ℕ)
    → IsTlvFrame front ts stale
    → (found : Found) × (find (front ++ (encode_all ts ++ stale)) type ≡ some found)
      × (Option.map (payload (front ++ (encode_all ts ++ stale))) found ≡ first_value type ts)
find-first_value type front ts stale h = (
  locate type (length front) ts,
  find-locate type front ts stale h,
  payload-locate type ts front stale,
)
