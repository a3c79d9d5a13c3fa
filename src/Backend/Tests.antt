-- ===== src/Backend/Tests.antt =====
-- A registry of two backends, named by themselves.
use inferencia.Common.{◌≡◌, refl, String, some, List, [], ◌∷◌, arith, ◌==◌, eq_iff, IsRange, ok}
use inferencia.LoadBalancer.{new_load_balancer, select, acquire}
use inferencia.Backend.{HealthChecker, Registry, new_registry, register, primary_healthy}
use inferencia.Backend.Consistency.{IsConsistent, register_all, register_all-IsConsistent}

abbrev pub self : String → String
self name = name

abbrev pub two : Registry String
two = record {
  backends = ("mlx", "mlx") ∷ ("ollama", "ollama") ∷ [];
  primary = "mlx";
  lb = record { active = []; rr = 0 };
}

-- The map in the other order.
abbrev pub visits : List (String × String)
visits = ("ollama", "ollama") ∷ ("mlx", "mlx") ∷ []

registered_two : register_all self new_registry ("mlx" ∷ "ollama" ∷ []) ≡ two
unfolding register_all register new_registry new_load_balancer
registered_two = refl

pub two-IsConsistent : IsConsistent self two
two-IsConsistent = rw registered_two at (register_all-IsConsistent self ("mlx" ∷ "ollama" ∷ []))

pub visits-IsRange : IsRange visits two.backends
visits-IsRange = record {
  sound = λ k v m. ground (arith, eq_iff "mlx" k, eq_iff "ollama" k);
  complete = λ k v e. ground (arith, eq_iff "mlx" k, eq_iff "ollama" k);
  once = (λ h. ground (arith, eq_iff "ollama" "mlx"), ((λ h. h), tt));
}

abbrev mlx_down : HealthChecker
mlx_down = some (λ name. name == "ollama")

abbrev after : Registry String
after = record two { lb = record { active = ("ollama", 1) ∷ []; rr = 0 } }

picks_ollama : primary_healthy two mlx_down visits ≡ (ok (some "ollama"), after)
unfolding primary_healthy select acquire
picks_ollama = refl
