-- ===== src/Common/Lists.antt =====
-- Lists measured by native numbers; membership and quantifiers by recursion, which compute.
use Prim.Native.Nat.{ℕ, zero, suc, ◌<◌}
use mathlib.Core.Path.{◌≡◌, refl, ap}
use mathlib.Core.Logic.{◌⊎◌, inl, inr, ◌≢◌}
use mathlib.Core.Bool.{Bool, true, false, ◌||◌}
use mathlib.Core.List.{List, [], ◌∷◌, ◌++◌, map}
use native.Mathlib.Omega.{arith}
use inferencia.Common.Tests.{if◌then◌else◌}

module _ {A : Type 0} where
  abbrev pub length : List A → ℕ
  length [] = 0
  length (x ∷ xs) = suc (length xs)

  -- `xs[i]`; out of range, where Go panics, the answer is `d`.
  abbrev pub get_or : List A → ℕ → A → A
  get_or [] i d = d
  get_or (x ∷ xs) zero d = x
  get_or (x ∷ xs) (suc i) d = get_or xs i d

  abbrev pub In : A → List A → Type 0
  In a [] = ⊥
  In a (x ∷ xs) = (a ≡ x) ⊎ In a xs

  abbrev pub All : (A → Type 0) → List A → Type 0
  All P [] = Unit {0}
  All P (x ∷ xs) = P x × All P xs

  -- The elements that pass a test, in order: Go's `append` under an `if`.
  abbrev pub keep : (A → Bool) → List A → List A
  keep p [] = []
  keep p (x ∷ xs) = if p x then x ∷ keep p xs else keep p xs

  abbrev pub any : (A → Bool) → List A → Bool
  any p [] = false
  any p (x ∷ xs) = p x || any p xs

module _ {A : Type 0} where
  pub List-cases : (xs : List A) → (xs ≡ []) ⊎ (xs ≢ [])
  List-cases [] = inl refl
  List-cases (x ∷ xs) = inr (λ e. cc)

  pub In-get_or : (xs : List A) (i : ℕ) (d : A) → i < length xs → In (get_or xs i d) xs
  In-get_or [] i d h = elim h [ ]
  In-get_or (x ∷ xs) zero d h = inl refl
  In-get_or (x ∷ xs) (suc i) d h = inr (In-get_or xs i d (omega arith))

  pub In-keep : (p : A → Bool) (xs : List A) (a : A) → In a (keep p xs) → In a xs × (p a ≡ true)
  In-keep p [] a h = absurd h
  In-keep p (x ∷ xs) a h = ground (arith, In-keep p xs a)

  pub keep-In : (p : A → Bool) (xs : List A) (a : A) → In a xs → p a ≡ true → In a (keep p xs)
  keep-In p [] a h e = absurd h
  keep-In p (x ∷ xs) a (inl h) e = ground arith
  keep-In p (x ∷ xs) a (inr h) e = ground (arith, keep-In p xs a h e)

  pub All-In : (P : A → Type 0) (xs : List A) → All P xs → (a : A) → In a xs → P a
  All-In P [] h a m = absurd m
  All-In P (x ∷ xs) h a (inl e) = rw e h.0
  All-In P (x ∷ xs) h a (inr m) = All-In P xs h.1 a m

  pub All-intro : (P : A → Type 0) (xs : List A) → ((a : A) → In a xs → P a) → All P xs
  All-intro P [] h = tt
  All-intro P (x ∷ xs) h = (h x (inl refl), All-intro P xs (λ a m. h a (inr m)))

  pub length-pos_of_In : (xs : List A) (a : A) → In a xs → 0 < length xs
  length-pos_of_In [] a m = absurd m
  length-pos_of_In (x ∷ xs) a m = omega arith

  pub In-append : (xs ys : List A) (a : A) → In a (xs ++ ys) → In a xs ⊎ In a ys
  In-append [] ys a h = inr h
  In-append (x ∷ xs) ys a (inl e) = inl (inl e)
  In-append (x ∷ xs) ys a (inr h) = elim (In-append xs ys a h) [
    | inl m ↦ inl (inr m)
    | inr m ↦ inr m
  ]

  pub append-In_left : (xs ys : List A) (a : A) → In a xs → In a (xs ++ ys)
  append-In_left [] ys a h = absurd h
  append-In_left (x ∷ xs) ys a (inl e) = inl e
  append-In_left (x ∷ xs) ys a (inr h) = inr (append-In_left xs ys a h)

  pub append-In_right : (xs ys : List A) (a : A) → In a ys → In a (xs ++ ys)
  append-In_right [] ys a h = h
  append-In_right (x ∷ xs) ys a h = inr (append-In_right xs ys a h)

module _ {A B : Type 0} where
  pub In-map : (f : A → B) (xs : List A) (b : B) → In b (map f xs) → (a : A) × In a xs × (b ≡ f a)
  In-map f [] b h = absurd h
  In-map f (x ∷ xs) b (inl e) = (x, inl refl, e)
  In-map f (x ∷ xs) b (inr h) = let (a, m, e) = In-map f xs b h in (a, inr m, e)

  pub map-In : (f : A → B) (xs : List A) (a : A) → In a xs → In (f a) (map f xs)
  map-In f [] a h = absurd h
  map-In f (x ∷ xs) a (inl e) = inl (ap f e)
  map-In f (x ∷ xs) a (inr h) = inr (map-In f xs a h)
