-- ===== src/Radar/Cli/Search.antt =====
-- `strstr` on the text in a buffer, and what one more character changes.
use n_rf5340_presence_test.Base.{
  ℕ, ◌≤◌, ◌≡◌, ◌≢◌, refl, sym, ◌∙◌, ap, ap₂, Bool, true, false, ◌&&◌, ◌||◌, List, [], ◌∷◌, ◌++◌,
  ◌==◌, if◌then◌else◌, arith, length, length-append, append_assoc,
}

-- The text before the first NUL.
unfoldable pub c_string : List ℕ → List ℕ
c_string [] = []
c_string (c ∷ cs) = if c == 0 then [] else c ∷ c_string cs

unfoldable pub starts_with : List ℕ → List ℕ → Bool
starts_with [] text = true
starts_with (p ∷ ps) [] = false
starts_with (p ∷ ps) (c ∷ cs) = c == p && starts_with ps cs

-- Does the word occur in the text?
unfoldable pub contains : List ℕ → List ℕ → Bool
unfolding starts_with
contains word [] = starts_with word []
contains word (c ∷ cs) = starts_with word (c ∷ cs) || contains word cs

-- `strstr(buf, word) != NULL`
unfoldable pub strstr : List ℕ → List ℕ → Bool
unfolding c_string contains
strstr buf word = contains word (c_string buf)

-- No NUL in it.
abbrev pub IsText : List ℕ → Type 0
IsText [] = Unit {0}
IsText (c ∷ cs) = (c ≢ 0) × IsText cs

pub c_string_text : (cs : List ℕ) → IsText cs → c_string cs ≡ cs
unfolding c_string
c_string_text [] h = refl
c_string_text (c ∷ cs) h = ground (arith, h.0, c_string_text cs h.1)

starts_with-snoc :
    (word text : List ℕ) (c : ℕ)
    → length word ≤ length text
    → starts_with word (text ++ c ∷ []) ≡ starts_with word text
unfolding starts_with
starts_with-snoc [] text c h = refl
starts_with-snoc (p ∷ ps) [] c h = absurd (omega arith)
starts_with-snoc (p ∷ ps) (x ∷ xs) c h =
    ap (λ (t : Bool). x == p && t) (starts_with-snoc ps xs c (omega arith))

starts_with_grow :
    (word text : List ℕ) (c : ℕ)
    → starts_with word text ≡ true
    → starts_with word (text ++ c ∷ []) ≡ true
unfolding starts_with
starts_with_grow [] text c h = refl
starts_with_grow (p ∷ ps) [] c h = cc
starts_with_grow (p ∷ ps) (x ∷ xs) c h = ground (arith, h, starts_with_grow ps xs c)

contains_cons :
    (word : List ℕ) (c : ℕ) (cs : List ℕ)
    → contains word (c ∷ cs) ≡ starts_with word (c ∷ cs) || contains word cs
unfolding contains
contains_cons word c cs = refl

or_true : (b : Bool) → b || true ≡ true
or_true true = refl
or_true false = refl

or_mono :
    (a b a' b' : Bool)
    → (a ≡ true → a' ≡ true)
    → (b ≡ true → b' ≡ true)
    → a || b ≡ true
    → a' || b' ≡ true
or_mono true b a' b' f g h = rw (f refl)
or_mono false true true b' f g h = refl
or_mono false true false b' f g h = g refl
or_mono false false a' b' f g h = cc

contains_grow :
    (word text : List ℕ) (c : ℕ) → contains word text ≡ true → contains word (text ++ c ∷ []) ≡ true
contains_grow word [] c h = rw (contains_cons word c []) (nil_grow word c h)
  where
    nil_grow :
        (w : List ℕ) (k : ℕ) → contains w [] ≡ true → starts_with w (k ∷ []) || contains w [] ≡ true
    nil_grow w k e = rw e (or_true (starts_with w (k ∷ [])))
contains_grow word (x ∷ xs) c h =
    contains_cons word x (xs ++ c ∷ [])
    ∙ or_mono (starts_with word (x ∷ xs)) (contains word xs) (starts_with word (x ∷ (xs ++ c ∷ [])))
        (contains word (xs ++ c ∷ [])) (starts_with_grow word (x ∷ xs) c) (contains_grow word xs c)
        (sym (contains_cons word x xs) ∙ h)

or_absorb : (a b : Bool) → (a ≡ true → b ≡ true) → b ≡ a || b
or_absorb true b h = h refl
or_absorb false b h = refl

or_regroup : (a b c : Bool) → a || (b || c) ≡ (a || b) || c
or_regroup true b c = refl
or_regroup false b c = refl

-- A new occurrence ends at the new character, so a window that is as long as the word shows it.
pub contains_window_start :
    (word buf : List ℕ) (c : ℕ)
    → contains word (buf ++ c ∷ []) ≡ contains word buf || contains word (buf ++ c ∷ [])
contains_window_start word buf c =
    or_absorb (contains word buf) (contains word (buf ++ c ∷ [])) (contains_grow word buf c)

pub contains_window :
    (word front buf : List ℕ) (c : ℕ)
    → length word ≤ length buf
    → contains word (front ++ (buf ++ c ∷ []))
      ≡ contains word (front ++ buf) || contains word (buf ++ c ∷ [])
contains_window word [] buf c h = contains_window_start word buf c
contains_window word (x ∷ front) buf c h =
    contains_cons word x (front ++ (buf ++ c ∷ []))
    ∙ ap₂ ◌||◌
        (ap (λ (t : List ℕ). starts_with word (x ∷ t)) (sym (append_assoc front buf (c ∷ [])))
          ∙ starts_with-snoc word (x ∷ (front ++ buf)) c (omega (arith, length-append front buf)))
        (contains_window word front buf c h)
    ∙ or_regroup (starts_with word (x ∷ (front ++ buf))) (contains word (front ++ buf))
        (contains word (buf ++ c ∷ []))
    ∙ ap (λ (t : Bool). t || contains word (buf ++ c ∷ []))
        (sym (contains_cons word x (front ++ buf)))
