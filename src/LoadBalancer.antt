-- ===== src/LoadBalancer.antt =====
-- internal/backend/loadbalancer.go. The mutex makes each method one step on the record. Counts are
-- `int`s that stay far below 2^63; `rr` is a `uint64` and wraps.
pub mod Choice
pub mod Ledger
pub mod Cycle
mod Tests
use inferencia.Common.{
  ℕ, ◌+◌, ◌-◌, ◌%◌, ◌^◌, String, List, [], ◌∷◌, if◌then◌else◌, ltb, eqb, length, get_or, keep, read,
  put,
}

pub record LoadBalancer : Type 0 where
  pub active : List (String × ℕ)
  pub rr : ℕ

unfoldable pub new_load_balancer : LoadBalancer
new_load_balancer = record { active = []; rr = 0 }

unfoldable pub in_flight : LoadBalancer → String → ℕ
in_flight lb name = read 0 name lb.active

unfoldable pub acquire : LoadBalancer → String → LoadBalancer
unfolding in_flight
acquire lb name = record lb { active = put name (in_flight lb name + 1) lb.active }

unfoldable pub release : LoadBalancer → String → LoadBalancer
unfolding in_flight
release lb name =
    if ltb 0 (in_flight lb name)
    then record lb { active = put name (in_flight lb name - 1) lb.active }
    else lb

-- The first loop of `Select`.
least : (String → ℕ) → ℕ → List String → ℕ
least load best [] = best
least load best (name ∷ names) = least load (if ltb (load name) best then load name else best) names

-- The first two statements of `Select` after the lock, over the names `first ∷ rest`.
pub min_load : LoadBalancer → String → List String → ℕ
unfolding least
min_load lb first rest = least (in_flight lb) (in_flight lb first) rest

-- The second loop of `Select`.
pub tied : LoadBalancer → String → List String → List String
unfolding min_load
tied lb first rest = keep (λ name. eqb (in_flight lb name) (min_load lb first rest)) (first ∷ rest)

unfoldable pub select : LoadBalancer → List String → String × LoadBalancer
unfolding tied
select lb [] = ("", lb)
select lb (name ∷ []) = (name, lb)
select lb (first ∷ second ∷ rest) =
    let names = tied lb first (second ∷ rest) in
    (get_or names (lb.rr % length names) "", record lb { rr = (lb.rr + 1) % 2 ^ 64 })
