-- ===== src/Common/Maps.antt =====
-- Go's maps with text keys, as association lists, and the orders in which `range` may visit them.
use Prim.Native.String.{String}
use mathlib.Core.Path.{◌≡◌, refl}
use mathlib.Core.Logic.{◌≢◌}
use mathlib.Core.Option.{Option, none, some}
use mathlib.Core.List.{List, [], ◌∷◌, map}
use native.Mathlib.Omega.{arith}
use text.Mathlib.Text.{◌==◌}
use text.Mathlib.TextEquality.{eq_iff}
use inferencia.Common.Tests.{if◌then◌else◌}
use inferencia.Common.Lists.{In}

abbrev pub Distinct : List String → Type 0
Distinct [] = Unit {0}
Distinct (x ∷ xs) = (¬ In x xs) × Distinct xs

module _ {V : Type 0} where
  -- `m[k]`, with the comma-ok result as `none`.
  abbrev pub get : String → List (String × V) → Option V
  get k [] = none
  get k ((j, v) ∷ m) = if j == k then some v else get k m

  -- `m[k] = v`
  abbrev pub put : String → V → List (String × V) → List (String × V)
  put k v [] = (k, v) ∷ []
  put k v ((j, w) ∷ m) = if j == k then (k, v) ∷ m else (j, w) ∷ put k v m

  -- `m[k]` where a missing key reads as the zero value `z`.
  abbrev pub read : V → String → List (String × V) → V
  read z k m = elim (get k m) [ none ↦ z | some v ↦ v ]

module _ {V : Type 0} where
  pub get-put :
      (k j : String) (v : V) (m : List (String × V))
      → get j (put k v m) ≡ (if k == j then some v else get j m)
  get-put k j v [] = refl
  get-put k j v ((i, w) ∷ m) = ground (arith, eq_iff k j, eq_iff i k, eq_iff i j, get-put k j v m)

  pub get-put_self : (k : String) (v : V) (m : List (String × V)) → get k (put k v m) ≡ some v
  get-put_self k v m = ground (arith, get-put k k v m, eq_iff k k)

  pub get-put_ne :
      (k j : String) (v : V) (m : List (String × V)) → k ≢ j → get j (put k v m) ≡ get j m
  get-put_ne k j v m h = ground (arith, get-put k j v m, eq_iff k j)

  pub put-ne-nil : (k : String) (v : V) (m : List (String × V)) → put k v m ≢ []
  put-ne-nil k v [] e = cc
  put-ne-nil k v ((j, w) ∷ m) e = ground arith

  -- A sequence of entries in which `range` may visit the map: each key once, in any order.
  pub record IsRange (entries m : List (String × V)) : Type 0 where
    pub sound : (k : String) (v : V) → In {A = String × V} (k, v) entries → get k m ≡ some v
    pub complete : (k : String) (v : V) → get k m ≡ some v → In {A = String × V} (k, v) entries
    pub once : Distinct (map (λ (e : String × V). e.0) entries)
