-- ===== src/Integration/Descent.antt =====
-- `filepath.Dir` comes to an end: it shortens a path, or the path has at most one character.
use Prim.Native.Char.{Char, code}
use inferencia.Common.{
  ℕ, ◌+◌, ◌-◌, ◌≤◌, ◌≡◌, refl, ◌⊎◌, inl, inr, String, Bool, true, false, List, [], ◌∷◌, ◌==◌,
  eq_iff, eqb, if◌then◌else◌, arith, split, join_text, is_rooted, go_up, walk, slashed,
  behind_first, render, clean, to_last_slash, dir, extend, size, Bool-cases,
}

-- The characters of the elements, with a slash for each.
weight : List String → ℕ
weight [] = 0
weight (e ∷ es) = size e + 1 + weight es

-- As `weight`, without the empty elements.
filled : List String → ℕ
filled [] = 0
filled (e ∷ es) = (if e == "" then 0 else size e + 1) + filled es

-- As `filled`, but with the first element, also if it is empty.
led : List String → ℕ
led [] = 1
led (e ∷ es) = size e + 1 + filled es

filled-le_led : (es : List String) → filled es ≤ led es
unfolding filled led
filled-le_led [] = omega arith
filled-le_led (e ∷ es) = ground arith

weight-go_up :
    (rooted : Bool) (stack : List String) → weight (go_up rooted stack) ≤ weight stack + 3
unfolding weight
weight-go_up true [] = omega arith
weight-go_up false [] = omega arith
weight-go_up true (e ∷ es) = ground arith
weight-go_up false (e ∷ es) = ground arith

weight-walk :
    (rooted : Bool) (stack es : List String)
    → weight (walk rooted stack es) ≤ weight stack + filled es
unfolding weight filled
weight-walk rooted stack [] = omega arith
weight-walk rooted stack (e ∷ es) = ground (
  arith,
  eq_iff e "..",
  eq_iff e ".",
  eq_iff e "",
  weight-walk rooted stack es,
  weight-walk rooted (e ∷ stack) es,
  weight-walk rooted (go_up rooted stack) es,
  weight-go_up rooted stack,
)

size-join_text : (s t : String) → size (join_text s t) ≡ size s + size t
size-join_text String.[] t = omega arith
size-join_text (String.◌∷◌ c s) t = omega (arith, size-join_text s t)

size-slashed : (es : List String) (t : String) → size (slashed es t) ≡ weight es + size t
unfolding weight
size-slashed [] t = omega arith
size-slashed (e ∷ es) t =
    omega (arith, size-slashed es (String.◌∷◌ "/" (join_text e t)), size-join_text e t)

size-behind_first : (s : String) → size (behind_first s) ≡ size s - 1
size-behind_first String.[] = refl
size-behind_first (String.◌∷◌ c s) = omega arith

-- A rendered path is a single `/` or `.`, or no longer than its elements with their slashes.
size-render :
    (rooted : Bool) (stack : List String)
    → size (render rooted stack)
      ≤ (if rooted then 1 + (weight stack - 1) else 1 + (weight stack - 2))
unfolding weight
size-render true [] = omega arith
size-render false [] = omega arith
size-render true (e ∷ es) = omega (arith, size-slashed (e ∷ es) "")
size-render false (e ∷ es) =
    omega (arith, size-slashed (e ∷ es) "", size-behind_first (slashed (e ∷ es) ""))

led-extend : (c : Char) (es : List String) → led (extend c es) ≡ led es + 1
unfolding led filled
led-extend c [] = omega arith
led-extend c (e ∷ es) = omega arith

led-split : (c : Char) (s : String) → led (split b'/' (String.◌∷◌ c s)) ≤ led (split b'/' s) + 1
unfolding led
led-split c s = ground (arith, led-extend c (split b'/' s), filled-le_led (split b'/' s))

cons-ne_empty : (c : Char) (s : String) → (String.◌∷◌ c s == "") ≡ false
cons-ne_empty c s = elim (Bool-cases (String.◌∷◌ c s == "")) [
  | inl e ↦ absurd (let nil : String.◌∷◌ c s ≡ "" = (eq_iff (String.◌∷◌ c s) "").0 e in cc)
  | inr e ↦ e
]

IsCut : String → Type 0
IsCut s = (s ≡ "") ⊎ (led (split b'/' s) ≤ size s)

slash-IsCut : (c : Char) → IsCut (if eqb (code c) b'/' then "/" else "")
unfolding IsCut led filled
slash-IsCut c = elim (Bool-cases (eqb (code c) b'/')) [
  | inl e ↦ rw e (inr (omega arith))
  | inr e ↦ rw e (inl refl)
]

cons-IsCut :
    (c : Char) (s : String)
    → IsCut s
    → IsCut (if s == "" then (if eqb (code c) b'/' then "/" else "") else String.◌∷◌ c s)
unfolding IsCut
cons-IsCut c String.[] cut = slash-IsCut c
cons-IsCut c (String.◌∷◌ d s) (inl e) = absurd cc
cons-IsCut c (String.◌∷◌ d s) (inr h) =
    rw (cons-ne_empty d s) (inr (omega (arith, led-split c (String.◌∷◌ d s))))

-- A path that ends in a slash has an empty last element.
to_last_slash-IsCut : (s : String) → IsCut (to_last_slash s)
unfolding IsCut
to_last_slash-IsCut String.[] = inl refl
to_last_slash-IsCut (String.◌∷◌ c s) = cons-IsCut c (to_last_slash s) (to_last_slash-IsCut s)

slash-size : (c : Char) → size (if eqb (code c) b'/' then "/" else "") ≤ 1
slash-size c = elim (Bool-cases (eqb (code c) b'/')) [
  | inl e ↦ rw e (omega arith)
  | inr e ↦ rw e (omega arith)
]

size-to_last_slash : (s : String) → size (to_last_slash s) ≤ size s
size-to_last_slash String.[] = omega arith
size-to_last_slash (String.◌∷◌ c s) = elim (Bool-cases (to_last_slash s == "")) [
  | inl e ↦ rw e (omega (arith, slash-size c))
  | inr e ↦ rw e (omega (arith, size-to_last_slash s))
]

-- The elements of a rooted path start with an empty one.
filled-rooted :
    (c : Char) (s : String)
    → filled (split b'/' (String.◌∷◌ c s)) + (if is_rooted (String.◌∷◌ c s) then 1 else 0)
      ≤ led (split b'/' (String.◌∷◌ c s))
unfolding filled led
filled-rooted c s = elim (Bool-cases (eqb (code c) b'/')) [
  | inl e ↦ rw e (omega arith)
  | inr e ↦ rw e (omega (arith, filled-le_led (extend c (split b'/' s))))
]

size-walked :
    (rooted : Bool) (es : List String) (n : ℕ)
    → filled es + (if rooted then 1 else 0) ≤ n
    → size (render rooted (walk rooted [] es)) ≤ 1 + (n - 2)
unfolding weight
size-walked true es n h = omega (arith, size-render true (walk true [] es), weight-walk true [] es)
size-walked false es n h =
    omega (arith, size-render false (walk false [] es), weight-walk false [] es)

size-clean : (s : String) → IsCut s → size (clean s) ≤ 1 + (size s - 2)
unfolding IsCut
size-clean String.[] cut = omega arith
size-clean (String.◌∷◌ c s) (inl e) = absurd cc
size-clean (String.◌∷◌ c s) (inr h) = rw (cons-ne_empty c s) (
    size-walked (is_rooted (String.◌∷◌ c s)) (split b'/' (String.◌∷◌ c s)) (size (String.◌∷◌ c s))
      (omega (arith, h, filled-rooted c s)))

pub size-dir : (s : String) → size (dir s) ≤ 1 + (size s - 2)
size-dir s =
    omega (arith, size-clean (to_last_slash s) (to_last_slash-IsCut s), size-to_last_slash s)

-- The directory of a path of at most one character is its own directory.
pub dir-dir_short : (s : String) → size s ≤ 1 → dir (dir s) ≡ dir s
dir-dir_short String.[] h = refl
dir-dir_short (String.◌∷◌ c String.[]) h = elim (Bool-cases (eqb (code c) b'/')) [
  | inl e ↦ rw e refl
  | inr e ↦ rw e refl
]
dir-dir_short (String.◌∷◌ c (String.◌∷◌ d s)) h = absurd (omega arith)
