-- ===== src/Health/Readiness.antt =====
-- When the readiness check answers 200, and what it leaves in the gauges.
use inferencia.Common.{ℕ, ◌≡◌, ◌≢◌, String, none, some, List, [], ◌∷◌, ◌++◌, All, get}
use inferencia.ApiError.{GoError}
use inferencia.Adapter.Interfaces.{ChatBackend}

abbrev pub IsUp : ChatBackend → Type 0
IsUp b = b.health ≡ none

-- The backends before `b` are up, and `b` is not; its gauge is 0.
abbrev pub IsFirstDown :
    List ChatBackend → (ℕ × List (String × String)) × List (String × ℕ) → Type 0
IsFirstDown bs (answer, gauge) =
    (before : List ChatBackend) × (b : ChatBackend) × (after : List ChatBackend) × (bs
      ≡ before ++ (b ∷ after))
    × All IsUp before
    × (b.health ≢ none)
    × (answer.0 ≡ 503)
    × (get "backend" answer.1 ≡ some b.name)
    × (get b.name gauge ≡ some 0)

module _ (version : String) where
  abbrev failed_answer : ChatBackend → GoError → ℕ × List (String × String)
  failed_answer b e = (
    503,
    ("status", "unavailable") ∷ ("backend", b.name) ∷ ("error", e.text) ∷ ("version", version) ∷ [],
  )
