-- ===== src/Sen5x/Words.antt =====
-- The words that `read_words` accepts: just those whose CRC is right.
use n_rf5340_presence_test.Base.{
  ℕ, zero, suc, ◌+◌, ◌*◌, ◌/◌, ◌%◌, ◌<◌, ◌≡◌, ◌≢◌, refl, sym, ◌∙◌, ap, Bool, true, false, List, [],
  ◌∷◌, ◌++◌, Option, none, some, ◌==◌, ==_iff, get_elem?, length, length-append, append_assoc,
  bit_or, arith, inl, inr, Bool-cases, IsBytes, ◌>>=◌,
}
use mathlib.Core.Path.{subst}
use mathlib.Core.Option
use n_rf5340_presence_test.Base.Word.{u16, ◌<<<◌}
use n_rf5340_presence_test.Base.Bits.{bit_or_high}
use n_rf5340_presence_test.Sen5x.Crc.{crc8}
use n_rf5340_presence_test.Sen5x.{words_of}

-- What the sensor sends: each word, high byte first, and its CRC.
abbrev pub encode_words : List ℕ → List ℕ
encode_words [] = []
encode_words (w ∷ ws) = w / 256 ∷ w % 256 ∷ crc8 (w / 256) (w % 256) ∷ encode_words ws

-- A word before the words of the rest, if its CRC is right.
abbrev pub joined : ℕ → Bool → Option (List ℕ) → Option (List ℕ)
joined w false rest = none
joined w true rest = Option.map (λ more. w ∷ more) rest

-- The words of bytes that come in threes.
abbrev pub decode_words : List ℕ → Option (List ℕ)
decode_words (a ∷ b ∷ c ∷ raw) = joined (a * 256 + b) (crc8 a b == c) (decode_words raw)
decode_words _ = some []

get_elem?_behind : (xs ys : List ℕ) (k : ℕ) → get_elem? (xs ++ ys) (length xs + k) ≡ get_elem? ys k
get_elem?_behind [] ys k = ap (get_elem? ys) (omega arith)
get_elem?_behind (x ∷ xs) ys k =
    ap (get_elem? (x ∷ xs ++ ys)) {y = suc (length xs + k)} (omega arith) ∙ get_elem?_behind xs ys k

word_lem : (a b : ℕ) → a < 256 → b < 256 → bit_or (u16 (a <<< 8)) b ≡ a * 256 + b
word_lem a b ha hb = ap (λ (t : ℕ). bit_or t b) {y = a <<< 8} (omega arith) ∙ bit_or_high 8 a b hb

words_good :
    (all : List ℕ) (left i a b c : ℕ)
    → get_elem? all (i * 3) ≡ some a
    → get_elem? all (i * 3 + 1) ≡ some b
    → get_elem? all (i * 3 + 2) ≡ some c
    → (crc8 a b == c) ≡ true
    → words_of all (suc left) i
      ≡ words_of all left (suc i)
        >>= (λ ws. some (Option.map (λ more. bit_or (u16 (a <<< 8)) b ∷ more) ws))
unfolding words_of
words_good all left i a b c e0 e1 e2 good =
    rw (e0, e1, e2)
      (ap
        (λ (ok : Bool). elim ok as (λ _. Option (Option (List ℕ))) [
          | false ↦ some none
          | true ↦
              words_of all left (suc i)
              >>= (λ ws. some (Option.map (λ more. bit_or (u16 (a <<< 8)) b ∷ more) ws))
        ])
        good)

words_bad :
    (all : List ℕ) (left i a b c : ℕ)
    → get_elem? all (i * 3) ≡ some a
    → get_elem? all (i * 3 + 1) ≡ some b
    → get_elem? all (i * 3 + 2) ≡ some c
    → (crc8 a b == c) ≡ false
    → words_of all (suc left) i ≡ some none
unfolding words_of
words_bad all left i a b c e0 e1 e2 bad =
    rw (e0, e1, e2)
      (ap
        (λ (ok : Bool). elim ok as (λ _. Option (Option (List ℕ))) [
          | false ↦ some none
          | true ↦
              words_of all left (suc i)
              >>= (λ ws. some (Option.map (λ more. bit_or (u16 (a <<< 8)) b ∷ more) ws))
        ])
        bad)

words_step :
    (front : List ℕ) (a b c : ℕ) (raw : List ℕ) (left i : ℕ)
    → length front ≡ i * 3
    → a < 256
    → b < 256
    → (rest : Option (List ℕ)) → words_of (front ++ a ∷ b ∷ c ∷ raw) left (suc i) ≡ some rest
    → words_of (front ++ a ∷ b ∷ c ∷ raw) (suc left) i
      ≡ some (joined (a * 256 + b) (crc8 a b == c) rest)
words_step front a b c raw left i e ha hb rest run =
    let all : List ℕ = front ++ a ∷ b ∷ c ∷ raw in
    let e0 : get_elem? all (i * 3) ≡ some a =
      ap (get_elem? all) {y = length front + 0} (omega (arith, e))
      ∙ get_elem?_behind front (a ∷ b ∷ c ∷ raw) 0 in
    let e1 : get_elem? all (i * 3 + 1) ≡ some b =
      ap (get_elem? all) {y = length front + 1} (omega (arith, e))
      ∙ get_elem?_behind front (a ∷ b ∷ c ∷ raw) 1 in
    let e2 : get_elem? all (i * 3 + 2) ≡ some c =
      ap (get_elem? all) {y = length front + 2} (omega (arith, e))
      ∙ get_elem?_behind front (a ∷ b ∷ c ∷ raw) 2 in
    elim (Bool-cases (crc8 a b == c)) [
      | inl good ↦
          words_good all left i a b c e0 e1 e2 good ∙ rw (run, word_lem a b ha hb, good) refl
      | inr bad ↦ words_bad all left i a b c e0 e1 e2 bad ∙ rw bad refl
    ]

pub words_of-decode :
    (left i : ℕ) (front raw : List ℕ)
    → length front ≡ i * 3
    → length raw ≡ left * 3
    → IsBytes raw
    → words_of (front ++ raw) left i ≡ some (decode_words raw)
words_of-decode zero i front [] e l h = unfold words_of in refl
words_of-decode (suc left) i front (a ∷ b ∷ c ∷ raw) e l h =
    words_step front a b c raw left i e h.0 h.1.0 (decode_words raw) (
      ap (λ (t : List ℕ). words_of t left (suc i)) (sym (append_assoc front (a ∷ b ∷ c ∷ []) raw))
      ∙ words_of-decode left (suc i) (front ++ a ∷ b ∷ c ∷ []) raw
          (omega (arith, length-append front (a ∷ b ∷ c ∷ []))) (omega (arith, l)) h.1.1.1)
words_of-decode zero i front (a ∷ raw) e l h = absurd (omega arith)
words_of-decode (suc left) i front [] e l h = absurd (omega arith)
words_of-decode (suc left) i front (a ∷ []) e l h = absurd (omega arith)
words_of-decode (suc left) i front (a ∷ b ∷ []) e l h = absurd (omega arith)

decode-encode : (ws : List ℕ) → decode_words (encode_words ws) ≡ some ws
decode-encode [] = refl
decode-encode (w ∷ ws) =
    rw ((==_iff (crc8 (w / 256) (w % 256)) (crc8 (w / 256) (w % 256))).1 refl, decode-encode ws)
      (ap (λ (t : ℕ). some (t ∷ ws)) (omega arith))

joined-some :
    (w : ℕ) (ok : Bool) (rest : Option (List ℕ)) (ws : List ℕ)
    → joined w ok rest ≡ some ws
    → (more : List ℕ) × (ok ≡ true) × (rest ≡ some more) × (w ∷ more ≡ ws)
joined-some w true (some more) ws e = (more, refl, refl, cc)
joined-some w true none ws e = cc
joined-some w false rest ws e = cc

encode-decode :
    (left : ℕ) (raw ws : List ℕ)
    → length raw ≡ left * 3
    → IsBytes raw
    → decode_words raw ≡ some ws
    → encode_words ws ≡ raw
encode-decode left [] ws l h e = let same : ws ≡ [] = cc in rw same refl
encode-decode left (a ∷ []) ws l h e = absurd (omega arith)
encode-decode left (a ∷ b ∷ []) ws l h e = absurd (omega arith)
encode-decode zero (a ∷ b ∷ c ∷ raw) ws l h e = absurd (omega arith)
encode-decode (suc left) (a ∷ b ∷ c ∷ raw) ws l h e =
    let (more, good, rest, split) =
      joined-some (a * 256 + b) (crc8 a b == c) (decode_words raw) ws e in
    let hi : (a * 256 + b) / 256 ≡ a = omega (arith, h.1.0) in
    let lo : (a * 256 + b) % 256 ≡ b = omega (arith, h.1.0) in
    let crc : crc8 a b ≡ c = (==_iff (crc8 a b) c).0 good in
    subst (λ (t : List ℕ). encode_words t ≡ a ∷ b ∷ c ∷ raw) split
      (rw (hi, lo, crc, encode-decode left raw more (omega (arith, l)) h.1.1.1 rest) refl)

-- The answer of the loop for the bytes that came.
abbrev pub IsChecked : List ℕ → Option (List ℕ) → Type 0
IsChecked raw (some ws) = encode_words ws ≡ raw
IsChecked raw none = (ws : List ℕ) → encode_words ws ≢ raw

some_ne_none : (ws : List ℕ) → some ws ≢ none
some_ne_none ws e = cc

pub decode-IsChecked :
    (left : ℕ) (raw : List ℕ) (answer : Option (List ℕ))
    → length raw ≡ left * 3
    → IsBytes raw
    → decode_words raw ≡ answer
    → IsChecked raw answer
decode-IsChecked left raw (some ws) l h e = encode-decode left raw ws l h e
decode-IsChecked left raw none l h e =
    λ ws same. some_ne_none ws (sym (decode-encode ws) ∙ ap decode_words same ∙ e)

-- Given all the bytes that it asked for, `read_words` accepts them just if they are words that each
-- carry the right CRC, and then it returns those words.
pub words_of_lem :
    (raw : List ℕ) (count : ℕ)
    → IsBytes raw
    → length raw ≡ count * 3
    → (answer : Option (List ℕ)) × (words_of raw count 0 ≡ some answer) × IsChecked raw answer
words_of_lem raw count h l = (
  decode_words raw,
  words_of-decode count 0 [] raw refl l h,
  decode-IsChecked count raw (decode_words raw) l h refl,
)
