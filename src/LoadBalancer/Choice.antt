-- ===== src/LoadBalancer/Choice.antt =====
-- What `Select` picks.
use inferencia.Common.{
  ℕ, ◌≤◌, ◌<◌, ◌≡◌, refl, sym, ◌⊎◌, inl, inr, ◌≢◌, String, List, [], ◌∷◌, arith, ltb, eqb, length,
  In, In-get_or, In-keep, keep-In, length-pos_of_In, eqb_iff, Bool-cases, if◌then◌else◌, ◌∙◌,
}
use native.Mathlib.Nat.{mod-lt}
use inferencia.LoadBalancer.{LoadBalancer, in_flight, least, min_load, tied, select}

least-le : (load : String → ℕ) (best : ℕ) (names : List String) → least load best names ≤ best
unfolding least
least-le load best [] = omega arith
least-le load best (n ∷ ns) = ground (arith, least-le load best ns, least-le load (load n) ns)

least-lower :
    (load : String → ℕ) (best : ℕ) (names : List String) (name : String)
    → In name names
    → least load best names ≤ load name
unfolding least
least-lower load best [] name h = absurd h
least-lower load best (n ∷ ns) name (inl e) =
    ground (arith, least-le load best ns, least-le load (load n) ns)
least-lower load best (n ∷ ns) name (inr m) =
    ground (arith, least-lower load best ns name m, least-lower load (load n) ns name m)

-- The least load is that of a name.
least_attained :
    (load : String → ℕ) (best : ℕ) (names : List String)
    → (least load best names ≡ best)
      ⊎ ((name : String) × In name names × (least load best names ≡ load name))
unfolding least
least_attained load best [] = inl refl
least_attained load best (n ∷ ns) =
    elim (least_attained load (if ltb (load n) best then load n else best) ns) [
      | inr (name, m, e) ↦ inr (name, inr m, e)
      | inl e ↦ elim (Bool-cases (ltb (load n) best)) [
        | inl less ↦ inr (n, inl refl, e ∙ rw less)
        | inr more ↦ inl (e ∙ rw more)
      ]
    ]

min_load-le :
    (lb : LoadBalancer) (first : String) (rest : List String) (name : String)
    → In name (first ∷ rest)
    → min_load lb first rest ≤ in_flight lb name
unfolding min_load
min_load-le lb first rest name (inl e) =
    ground (arith, least-le (in_flight lb) (in_flight lb first) rest)
min_load-le lb first rest name (inr m) = least-lower (in_flight lb) (in_flight lb first) rest name m

min_load_attained :
    (lb : LoadBalancer) (first : String) (rest : List String)
    → (name : String) × In name (first ∷ rest) × (in_flight lb name ≡ min_load lb first rest)
unfolding min_load
min_load_attained lb first rest = elim (least_attained (in_flight lb) (in_flight lb first) rest) [
  | inl e ↦ (first, inl refl, sym e)
  | inr (name, m, e) ↦ (name, inr m, sym e)
]

-- Some name is tied: the code's `tied[…]` is in range.
tied-pos :
    (lb : LoadBalancer) (first : String) (rest : List String) → 0 < length (tied lb first rest)
unfolding tied
tied-pos lb first rest =
    let (name, m, e) = min_load_attained lb first rest in
    length-pos_of_In _ name (
      keep-In (λ x. eqb (in_flight lb x) (min_load lb first rest)) (first ∷ rest) name m
        ((eqb_iff _ _).1 e))

In-tied :
    (lb : LoadBalancer) (first : String) (rest : List String) (name : String)
    → In name (tied lb first rest)
    → In name (first ∷ rest) × (in_flight lb name ≡ min_load lb first rest)
unfolding tied
In-tied lb first rest name m =
    let (listed, e) =
      In-keep (λ x. eqb (in_flight lb x) (min_load lb first rest)) (first ∷ rest) name m in
    (listed, (eqb_iff _ _).0 e)

abbrev pub IsLeast : LoadBalancer → List String → String → Type 0
IsLeast lb names pick =
    In pick names × ((name : String) → In name names → in_flight lb pick ≤ in_flight lb name)

tied-IsLeast :
    (lb : LoadBalancer) (first : String) (rest : List String) (name : String)
    → In name (tied lb first rest)
    → IsLeast lb (first ∷ rest) name
tied-IsLeast lb first rest name m =
    let (listed, e) = In-tied lb first rest name m in
    (listed, λ other h. rw e (min_load-le lb first rest other h))

-- `Select` on any nonempty list picks one of the names, with the fewest requests in flight, and
-- leaves the counts alone.
pub select-IsLeast :
    (lb : LoadBalancer) (names : List String)
    → names ≢ []
    → IsLeast lb names (select lb names).0 × ((select lb names).1.active ≡ lb.active)
unfolding select
select-IsLeast lb [] h = absurd (h refl)
select-IsLeast lb (name ∷ []) h = ((inl refl, λ other m. only other m), refl)
  where
    only : (other : String) → In other (name ∷ []) → in_flight lb name ≤ in_flight lb other
    only other m = ground arith
select-IsLeast lb (first ∷ second ∷ rest) h =
    let pos = tied-pos lb first (second ∷ rest) in
    (tied-IsLeast lb first (second ∷ rest) _ (In-get_or _ _ "" (mod-lt lb.rr pos)), refl)
