-- ===== src/LoadBalancer/Cycle.antt =====
-- Ties are broken in turn.
use native.Mathlib.Nat.{mod-lt, mod-add-mod, mod-eq_of_lt, mod-eq-sub-mod, add-zero}
use inferencia.Common.{
  ℕ, zero, suc, ◌+◌, ◌-◌, ◌%◌, ◌^◌, ◌≤◌, ◌<◌, ◌≡◌, refl, sym, ap, ◌∙◌, inl, inr, String, List, [],
  ◌∷◌, arith, length, get_or, In, Bool-cases, leb, leb→le,
}
use inferencia.LoadBalancer.{LoadBalancer, in_flight, min_load, tied, select}

-- The names that `n` calls of `Select` in a row pick.
unfoldable pub picks : ℕ → LoadBalancer → List String → List String
picks zero lb names = []
picks (suc n) lb names = (select lb names).0 ∷ picks n (select lb names).1 names

index_of_In :
    (xs : List String) (x : String) → In x xs → (i : ℕ) × (i < length xs) × (get_or xs i "" ≡ x)
index_of_In [] x m = absurd m
index_of_In (y ∷ xs) x (inl e) = (0, omega arith, sym e)
index_of_In (y ∷ xs) x (inr m) = let (i, h, e) = index_of_In xs x m in (suc i, omega arith, e)

add_back : (a b : ℕ) → b ≤ a → b + (a - b) ≡ a
add_back a b h = omega arith

mod-add_self : (j k : ℕ) → j < k → (j + k) % k ≡ j
mod-add_self j k h = grind (arith, mod-eq-sub-mod, mod-eq_of_lt)

-- Within `k` steps from any number the remainders by `k` reach every `j` below it.
reach_remainder : (r k j : ℕ) → j < k → (i : ℕ) × (i < k) × ((r + i) % k ≡ j)
reach_remainder r k j h = elim (Bool-cases (leb (r % k) j)) [
  | inl below ↦
      let le = leb→le (r % k) j below in
      (
        j - r % k,
        omega arith,
        sym (mod-add-mod r k (j - r % k))
            ∙ ap (λ t. t % k) (add_back j (r % k) le)
            ∙ mod-eq_of_lt h,
      )
  | inr above ↦
      let lt = mod-lt r {m = k} (omega arith) in
      (
        j + k - r % k,
        ground arith,
        sym (mod-add-mod r k (j + k - r % k))
            ∙ ap (λ t. t % k) (add_back (j + k) (r % k) (omega arith))
            ∙ mod-add_self j k h,
      )
]

-- The tied names depend on the counts alone.
tied_rr :
    (lb : LoadBalancer) (first : String) (rest : List String) (n : ℕ)
    → tied (record lb { rr = n }) first rest ≡ tied lb first rest
unfolding tied min_load in_flight
tied_rr lb first rest n = refl

module _ (first second : String) (rest : List String) where
  abbrev names : List String
  names = first ∷ second ∷ rest

  -- The i-th of `n` calls in a row picks entry `rr + i` of the tied names, modulo their number.
  picks-In :
      (n i : ℕ) (lb : LoadBalancer)
      → i < n
      → lb.rr + n ≤ 2 ^ 64
      → let ts = tied lb first (second ∷ rest) in
        In (get_or ts ((lb.rr + i) % length ts) "") (picks n lb names)
  unfolding picks select
  picks-In zero i lb h fits = absurd (omega arith)
  picks-In (suc n) zero lb h fits = inl (
      ap
        (λ t.
          get_or (tied lb first (second ∷ rest)) (t % length (tied lb first (second ∷ rest))) "")
        (add-zero lb.rr))
  picks-In (suc n) (suc i) lb h fits =
      let later = picks-In n i (record lb { rr = lb.rr + 1 }) (omega arith) (omega arith) in
      let wrap : (lb.rr + 1) % 2 ^ 64 ≡ lb.rr + 1 = mod-eq_of_lt (omega arith) in
      let shift : lb.rr + 1 + i ≡ lb.rr + suc i = omega arith in
      inr (rw wrap (rw (tied_rr lb first (second ∷ rest) (lb.rr + 1), shift) at later))

-- Names that tie for the fewest requests are served in turn: as long as the counts stay as they are and
-- the counter does not wrap, each tied name is among the next picks, as many as there are tied names.
pub picks_serve_tied :
    (lb : LoadBalancer) (first second : String) (rest : List String) (name : String)
    → In name (tied lb first (second ∷ rest))
    → lb.rr + length (tied lb first (second ∷ rest)) ≤ 2 ^ 64
    → In name (picks (length (tied lb first (second ∷ rest))) lb (first ∷ second ∷ rest))
picks_serve_tied lb first second rest name m fits =
    let ts = tied lb first (second ∷ rest) in
    let (j, below, at_j) = index_of_In ts name m in
    let (i, less, same) = reach_remainder lb.rr (length ts) j below in
    let hit = picks-In first second rest (length ts) i lb less fits in rw (same, at_j) at hit
