-- ===== src/LoadBalancer/Ledger.antt =====
-- The in-flight counts against the history of `Acquire` and `Release`.
use inferencia.Common.{
  ℕ, ◌+◌, ◌-◌, ◌<◌, ◌∙◌, ◌≡◌, refl, ap, String, List, [], ◌∷◌, arith, if◌then◌else◌, ◌==◌, eq_iff,
  read, get-put,
}
use inferencia.LoadBalancer.{LoadBalancer, new_load_balancer, in_flight, acquire, release}

-- The counts are read from the map alone.
pub in_flight-active :
    (lb lb' : LoadBalancer) (name : String)
    → lb.active ≡ lb'.active
    → in_flight lb name ≡ in_flight lb' name
unfolding in_flight
in_flight-active lb lb' name e = ap (λ m. read 0 name m) e

pub in_flight-acquire :
    (lb : LoadBalancer) (name other : String)
    → in_flight (acquire lb name) other
      ≡ (if name == other then in_flight lb other + 1 else in_flight lb other)
unfolding acquire
in_flight-acquire lb name other =
    ground (arith, get-put name other (in_flight lb name + 1) lb.active, eq_iff name other)

pub in_flight-release :
    (lb : LoadBalancer) (name other : String)
    → in_flight (release lb name) other
      ≡ (if name == other then in_flight lb other - 1 else in_flight lb other)
unfolding release
in_flight-release lb name other =
    ground (arith, get-put name other (in_flight lb name - 1) lb.active, eq_iff name other)

-- A release undoes an acquire: every count is as before.
pub release-acquire :
    (lb : LoadBalancer) (name other : String)
    → in_flight (release (acquire lb name) name) other ≡ in_flight lb other
release-acquire lb name other =
    ground (arith, in_flight-release (acquire lb name) name other, in_flight-acquire lb name other)

in_flight-new : (name : String) → in_flight new_load_balancer name ≡ 0
unfolding new_load_balancer in_flight
in_flight-new name = refl

-- A call of `Acquire` or `Release`.
pub data Event : Type 0 where
  acquired released : String → Event

unfoldable pub step : LoadBalancer → Event → LoadBalancer
step lb (acquired name) = acquire lb name
step lb (released name) = release lb name

unfoldable pub run : LoadBalancer → List Event → LoadBalancer
unfolding step
run lb [] = lb
run lb (e ∷ es) = run (step lb e) es

-- How often the events acquire `name`, and how often they release it.
unfoldable pub acquires : String → List Event → ℕ
acquires name [] = 0
acquires name (acquired other ∷ es) = acquires name es + (if other == name then 1 else 0)
acquires name (released other ∷ es) = acquires name es

unfoldable pub releases : String → List Event → ℕ
releases name [] = 0
releases name (acquired other ∷ es) = releases name es
releases name (released other ∷ es) = releases name es + (if other == name then 1 else 0)

-- With `n` requests to `name` open before the events, none is released that is not open.
abbrev pub IsBalanced : String → ℕ → List Event → Type 0
IsBalanced name n [] = Unit {0}
IsBalanced name n (acquired other ∷ es) = IsBalanced name (if other == name then n + 1 else n) es
IsBalanced name n (released other ∷ es) =
    ((other ≡ name) → 0 < n) × IsBalanced name (if other == name then n - 1 else n) es

run-balanced :
    (lb : LoadBalancer) (es : List Event) (name : String) (n : ℕ)
    → in_flight lb name ≡ n
    → IsBalanced name n es
    → in_flight (run lb es) name + releases name es ≡ n + acquires name es
unfolding run releases acquires
run-balanced lb [] name n e h = omega arith
run-balanced lb (acquired other ∷ es) name n e h = ground (
  arith,
  run-balanced (acquire lb other) es name (if other == name then n + 1 else n),
  in_flight-acquire lb other name,
)
run-balanced lb (released other ∷ es) name n e h = ground (
  arith,
  run-balanced (release lb other) es name (if other == name then n - 1 else n),
  in_flight-release lb other name,
  eq_iff other name,
)

-- From a new load balancer, whenever no release comes without its acquire, the in-flight count of a
-- name is the number of its acquires less the number of its releases.
pub in_flight-run :
    (es : List Event) (name : String)
    → IsBalanced name 0 es
    → in_flight (run new_load_balancer es) name + releases name es ≡ acquires name es
in_flight-run es name h = run-balanced new_load_balancer es name 0 new_count h ∙ omega arith
  where
    new_count : in_flight new_load_balancer name ≡ 0
    new_count = in_flight-new name
