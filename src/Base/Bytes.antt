-- ===== src/Base/Bytes.antt =====
-- Arrays of bytes: reads and writes that fault out of range, and their laws.
use Prim.Native.Nat.{ℕ, zero, suc, ◌+◌, ◌<◌}
use mathlib.Core.Path.{◌≡◌, refl, ap}
use mathlib.Core.List.{List, [], ◌∷◌, ◌++◌}
use mathlib.Core.Option.{Option, none, some}
use native.Mathlib.Omega.{arith}
use n_rf5340_presence_test.Base.Tests.{ltb, if◌then◌else◌}
use n_rf5340_presence_test.Base.Lists.{length, get_elem?, get_or, set, take, drop, length-append}

-- `p[i] = v`; `none` is a write out of range.
abbrev pub put : List ℕ → ℕ → ℕ → Option (List ℕ)
put p i v = if ltb i (length p) then some (set p i v) else none

-- `p[i]` where it is in range.
abbrev pub byte_at : List ℕ → ℕ → ℕ
byte_at p i = get_or p i 0

-- Every element is a `uint8_t`.
abbrev pub IsBytes : List ℕ → Type 0
IsBytes [] = Unit {0}
IsBytes (x ∷ xs) = (x < 256) × IsBytes xs

pub byte_at-lt : (p : List ℕ) (i : ℕ) → IsBytes p → byte_at p i < 256
byte_at-lt [] i h = omega arith
byte_at-lt (x ∷ xs) zero h = h.0
byte_at-lt (x ∷ xs) (suc i) h = byte_at-lt xs i h.1

pub IsBytes-set : (p : List ℕ) (i v : ℕ) → IsBytes p → v < 256 → IsBytes (set p i v)
IsBytes-set [] i v h k = h
IsBytes-set (x ∷ xs) zero v h k = (k, h.1)
IsBytes-set (x ∷ xs) (suc i) v h k = (h.0, IsBytes-set xs i v h.1 k)

pub IsBytes-append : (p q : List ℕ) → IsBytes p → IsBytes q → IsBytes (p ++ q)
IsBytes-append [] q h k = k
IsBytes-append (x ∷ xs) q h k = (h.0, IsBytes-append xs q h.1 k)

pub IsBytes-append_left : (p q : List ℕ) → IsBytes (p ++ q) → IsBytes p
IsBytes-append_left [] q h = tt
IsBytes-append_left (x ∷ xs) q h = (h.0, IsBytes-append_left xs q h.1)

pub IsBytes-append_right : (p q : List ℕ) → IsBytes (p ++ q) → IsBytes q
IsBytes-append_right [] q h = h
IsBytes-append_right (x ∷ xs) q h = IsBytes-append_right xs q h.1

pub IsBytes-drop : (n : ℕ) (xs : List ℕ) → IsBytes xs → IsBytes (drop n xs)
IsBytes-drop zero xs h = h
IsBytes-drop (suc n) [] h = h
IsBytes-drop (suc n) (x ∷ xs) h = IsBytes-drop n xs h.1

pub IsBytes-take : (n : ℕ) (xs : List ℕ) → IsBytes xs → IsBytes (take n xs)
IsBytes-take zero xs h = tt
IsBytes-take (suc n) [] h = h
IsBytes-take (suc n) (x ∷ xs) h = (h.0, IsBytes-take n xs h.1)

module _ {ℓ} {A : Type ℓ} where
  pub get_elem?-eq-get_or :
      (xs : List A) (i : ℕ) (d : A) → i < length xs → get_elem? xs i ≡ some (get_or xs i d)
  get_elem?-eq-get_or [] i d h = absurd (omega arith)
  get_elem?-eq-get_or (x ∷ xs) zero d h = refl
  get_elem?-eq-get_or (x ∷ xs) (suc i) d h = get_elem?-eq-get_or xs i d (omega arith)

  pub get_or-append_left :
      (xs ys : List A) (i : ℕ) (d : A) → i < length xs → get_or (xs ++ ys) i d ≡ get_or xs i d
  get_or-append_left [] ys i d h = absurd (omega arith)
  get_or-append_left (x ∷ xs) ys zero d h = refl
  get_or-append_left (x ∷ xs) ys (suc i) d h = get_or-append_left xs ys i d (omega arith)

  pub get_or-append_right :
      (xs ys : List A) (i : ℕ) (d : A) → get_or (xs ++ ys) (length xs + i) d ≡ get_or ys i d
  get_or-append_right [] ys i d = ap (λ n. get_or ys n d) (omega arith)
  get_or-append_right (x ∷ xs) ys i d = rw (shift (length xs) i) (get_or-append_right xs ys i d)
    where
      shift : (n m : ℕ) → suc n + m ≡ suc (n + m)
      shift n m = omega arith

  pub set-append :
      (xs : List A) (y : A) (ys : List A) (v : A) → set (xs ++ y ∷ ys) (length xs) v ≡ xs ++ v ∷ ys
  set-append [] y ys v = refl
  set-append (x ∷ xs) y ys v = ap (λ t. x ∷ t) (set-append xs y ys v)

  pub get_or-set_ne :
      (xs : List A) (i j : ℕ) (v d : A) → j < i → get_or (set xs i v) j d ≡ get_or xs j d
  get_or-set_ne [] i j v d h = refl
  get_or-set_ne (x ∷ xs) zero j v d h = absurd (omega arith)
  get_or-set_ne (x ∷ xs) (suc i) zero v d h = refl
  get_or-set_ne (x ∷ xs) (suc i) (suc j) v d h = get_or-set_ne xs i j v d (omega arith)

-- A write just past `xs` fills the next cell.
pub put-append :
    (xs : List ℕ) (y : ℕ) (ys : List ℕ) (v : ℕ)
    → put (xs ++ y ∷ ys) (length xs) v ≡ some (xs ++ v ∷ ys)
put-append xs y ys v = ground (arith, length-append xs (y ∷ ys), set-append xs y ys v)
