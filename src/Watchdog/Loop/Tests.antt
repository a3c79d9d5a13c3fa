-- ===== src/Watchdog/Loop/Tests.antt =====
-- A watchdog that starts, ticks, stops, and ticks once more before its goroutine returns.
use inferencia.Common.{
  ◌≡◌, refl, ◌⊎◌, inl, String, Bool, false, none, [], ◌∷◌, ◌++◌, arith, pos, ◌==◌,
}
use inferencia.Backend.Tests.{self}
use inferencia.Watchdog.{Config, new_watchdog, check_backend, is_healthy, probe}
use inferencia.Watchdog.Service.{cycle_checks}
use inferencia.Watchdog.Loop.{
  Monitor, new_monitor, start, stop, tick, return, Step, Reach, here, next, ticks, stops,
}
use inferencia.Watchdog.Loop.Lifetime.{IsLive, checks_of, start-Reach-IsLive, stop-ends}

abbrev two_strikes : Config
two_strikes = record { interval = 30; fail_threshold = pos 2; request_timeout = 5 }

abbrev down : String → Bool
down name = name == "mlx"

abbrev begun : Monitor
begun = start self down down ("mlx" ∷ "ollama" ∷ []) none (new_monitor two_strikes)

abbrev ticked : Monitor
ticked = tick self down down ("ollama" ∷ "mlx" ∷ []) none (stop begun)

loops_begun : begun.loops ≡ 0 ∷ []
unfolding start new_monitor new_watchdog tick
loops_begun = refl

loops_stopped : (stop begun).loops ≡ 0 ∷ []
unfolding start new_monitor new_watchdog tick stop
loops_stopped = refl

Reach-ticked : Reach String self begun ticked
Reach-ticked =
    next (next here stops)
      (ticks 0 down down ("ollama" ∷ "mlx" ∷ []) none (rw loops_stopped (inl refl)))

degraded : is_healthy ticked.watchdog "mlx" ≡ false
unfolding start new_monitor new_watchdog tick stop is_healthy check_backend probe
degraded = refl

start-Reach-IsLive_example :
    IsLive two_strikes
      (cycle_checks self down down ("mlx" ∷ "ollama" ∷ []) none ++ checks_of self Reach-ticked)
      ticked
start-Reach-IsLive_example =
    start-Reach-IsLive self two_strikes down down ("mlx" ∷ "ollama" ∷ []) none (omega arith) ticked
      Reach-ticked

stop-ends_example :
    ((ticked.loops ≡ []) ⊎ Step String self (stop ticked) (return 0 (stop ticked)))
    × ((s' : Monitor)
        → Reach String self (return 0 (stop ticked)) s'
        → (s'.loops ≡ []) × (s'.watchdog ≡ ticked.watchdog))
stop-ends_example =
    stop-ends self two_strikes down down ("mlx" ∷ "ollama" ∷ []) none (omega arith) ticked
      Reach-ticked
