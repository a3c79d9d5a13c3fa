-- ===== src/LoadBalancer/Tests.antt =====
-- Runs of the load balancer.
use inferencia.Common.{◌≡◌, refl, inl, String, List, [], ◌∷◌, arith, In}
use inferencia.LoadBalancer.{LoadBalancer, in_flight, select, tied}
use inferencia.LoadBalancer.Choice.{IsLeast, select-IsLeast}
use inferencia.LoadBalancer.Cycle.{picks, picks_serve_tied}

abbrev busy_a : LoadBalancer
busy_a = record { active = ("a", 2) ∷ ("b", 1) ∷ ("c", 1) ∷ []; rr = 5 }

abbrev abc : List String
abc = "a" ∷ "b" ∷ "c" ∷ []

picks_in_turn : picks 3 busy_a abc ≡ "c" ∷ "b" ∷ "c" ∷ []
unfolding picks select tied in_flight
picks_in_turn = refl

select-IsLeast_example :
    IsLeast busy_a abc (select busy_a abc).0 × ((select busy_a abc).1.active ≡ busy_a.active)
select-IsLeast_example = select-IsLeast busy_a abc (λ e. cc)

picks_serve_tied_example : In "b" (picks 2 busy_a abc)
unfolding tied in_flight
picks_serve_tied_example = picks_serve_tied busy_a "a" "b" ("c" ∷ []) "b" (inl refl) (omega arith)
