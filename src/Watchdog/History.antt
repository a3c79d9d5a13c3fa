-- ===== src/Watchdog/History.antt =====
-- Health against the history of the checks.
use Prim.Native.Nat.{max}
use inferencia.Common.{
  ℕ, ◌+◌, ◌≡◌, refl, ◌∙◌, inl, inr, String, Bool, true, false, some, List, [], ◌∷◌, arith,
  if◌then◌else◌, ◌==◌, eq_iff, ltb, get, read, get-put, ℤ, pos, negsuc, Bool-cases,
}
use inferencia.Watchdog.{
  Config, BackendState, Watchdog, new_watchdog, is_healthy, fresh_state, judge, check_backend,
}

-- A check of a backend, and whether it failed.
abbrev pub Check : Type 0
Check = String × Bool

unfoldable pub run : Watchdog → List Check → Watchdog
run w [] = w
run w ((name, failed) ∷ cs) = run (check_backend w name failed) cs

-- The failures of `name` since its last success, `n` before the checks.
unfoldable pub streak : String → ℕ → List Check → ℕ
streak name n [] = n
streak name n ((other, failed) ∷ cs) =
    streak name (if other == name then (if failed then n + 1 else 0) else n) cs

-- The failures in a row that degrade a backend: a threshold below 1 acts as 1.
abbrev pub threshold : ℤ → ℕ
threshold (pos n) = max 1 n
threshold (negsuc n) = 1

-- The state of a backend that failed `n` times in a row.
abbrev pub IsState : Config → ℕ → BackendState → Type 0
IsState cfg n st = (st.failures ≡ n) × (st.healthy ≡ ltb n (threshold cfg.fail_threshold))

judge-IsState :
    (cfg : Config) (st : BackendState) (n : ℕ) (failed : Bool)
    → IsState cfg n st
    → IsState cfg (if failed then n + 1 else 0) (judge cfg st failed).0
unfolding judge
judge-IsState cfg st n true h = ground arith
judge-IsState cfg st n false h = ground arith

-- The gauge is set to 1 if the backend is healthy after the check, and to 0 if not.
judge_gauge :
    (cfg : Config) (st : BackendState) (failed : Bool)
    → (judge cfg st failed).1 ≡ (if (judge cfg st failed).0.healthy then 1 else 0)
unfolding judge
judge_gauge cfg st true = ground arith
judge_gauge cfg st false = refl

read-check_backend :
    (w : Watchdog) (name other : String) (failed : Bool)
    → read fresh_state other (check_backend w name failed).states ≡ (
        if name == other
        then (judge w.cfg (read fresh_state other w.states) failed).0
        else read fresh_state other w.states)
unfolding check_backend
read-check_backend w name other failed = ground (
  arith,
  get-put name other (judge w.cfg (read fresh_state name w.states) failed).0 w.states,
  eq_iff name other,
)

check_backend-cfg :
    (w : Watchdog) (name : String) (failed : Bool) → (check_backend w name failed).cfg ≡ w.cfg
unfolding check_backend
check_backend-cfg w name failed = refl

check_backend-IsState :
    (w : Watchdog) (other name : String) (failed : Bool) (n : ℕ)
    → IsState w.cfg n (read fresh_state name w.states)
    → IsState w.cfg
        (if other == name then (if failed then n + 1 else 0) else n)
        (read fresh_state name (check_backend w other failed).states)
check_backend-IsState w other name failed n h = elim (Bool-cases (other == name)) [
  | inl same ↦
      rw (read-check_backend w other name failed, same)
        (judge-IsState w.cfg (read fresh_state name w.states) n failed h)
  | inr different ↦ rw (read-check_backend w other name failed, different) h
]

run-IsState :
    (cfg : Config) (w : Watchdog) (cs : List Check) (name : String) (n : ℕ)
    → w.cfg ≡ cfg
    → IsState w.cfg n (read fresh_state name w.states)
    → IsState cfg (streak name n cs) (read fresh_state name (run w cs).states)
unfolding run streak
run-IsState cfg w [] name n e h = rw (← e) h
run-IsState cfg w ((other, failed) ∷ cs) name n e h =
    let same = check_backend-cfg w other failed in
    run-IsState cfg (check_backend w other failed) cs name
      (if other == name then (if failed then n + 1 else 0) else n) (same ∙ e)
      (rw same (check_backend-IsState w other name failed n h))

is_healthy-read :
    (w : Watchdog) (name : String) → is_healthy w name ≡ (read fresh_state name w.states).healthy
unfolding is_healthy
is_healthy-read w name = ground arith

-- After any sequence of checks, of any backends in any order, a backend is healthy exactly when it
-- failed fewer times in a row, up to its last check, than the threshold, which acts as 1 if it is
-- below 1; one that was never checked is healthy.
pub is_healthy-run :
    (cfg : Config) (cs : List Check) (name : String)
    → is_healthy (run (new_watchdog cfg) cs) name
      ≡ ltb (streak name 0 cs) (threshold cfg.fail_threshold)
unfolding new_watchdog
is_healthy-run cfg cs name =
    is_healthy-read (run (new_watchdog cfg) cs) name
    ∙ (run-IsState cfg (new_watchdog cfg) cs name 0 refl (refl, ground arith)).1

-- The gauge of every backend that was checked shows its health: 1 if healthy, 0 if degraded.
abbrev pub IsShown : Watchdog → Type 0
IsShown w =
    (name : String) (v : ℕ) → get name w.gauge ≡ some v → v ≡ (if is_healthy w name then 1 else 0)

check_backend-IsShown :
    (w : Watchdog) (name : String) (failed : Bool)
    → IsShown w
    → IsShown (check_backend w name failed)
unfolding check_backend is_healthy
check_backend-IsShown w name failed h other v e =
    let st = judge w.cfg (read fresh_state name w.states) failed in
    ground (
      arith,
      get-put name other st.1 w.gauge,
      get-put name other st.0 w.states,
      judge_gauge w.cfg (read fresh_state name w.states) failed,
      h other v,
    )

new_watchdog-IsShown : (cfg : Config) → IsShown (new_watchdog cfg)
unfolding new_watchdog
new_watchdog-IsShown cfg name v e = cc

run-IsShown : (w : Watchdog) (cs : List Check) → IsShown w → IsShown (run w cs)
unfolding run
run-IsShown w [] h = h
run-IsShown w ((name, failed) ∷ cs) h =
    run-IsShown (check_backend w name failed) cs (check_backend-IsShown w name failed h)

-- What the watchdog's own writes leave in a backend's gauge, as long as no readiness check writes it.
gauge-run :
    (cfg : Config) (cs : List Check) (name : String) (v : ℕ)
    → get name (run (new_watchdog cfg) cs).gauge ≡ some v
    → v ≡ (if is_healthy (run (new_watchdog cfg) cs) name then 1 else 0)
gauge-run cfg cs = run-IsShown (new_watchdog cfg) cs (new_watchdog-IsShown cfg)
