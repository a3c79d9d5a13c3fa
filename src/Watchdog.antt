-- ===== src/Watchdog.antt =====
-- internal/watchdog/watchdog.go. A health check is its outcome: whether it returned an error. The
-- lock makes `checkBackend` one step after its check; durations are nanoseconds. The gauge
-- is `BackendHealth` of internal/middleware/metrics.go as the watchdog's writes alone would leave it:
-- it belongs to the process, and the readiness check writes it too. Logging is left out; the goroutine
-- is in Watchdog/Loop.
pub mod History
pub mod Service
pub mod Loop
mod Tests
use inferencia.Common.{
  ℕ, ◌+◌, ◌*◌, ◌^◌, String, Bool, true, false, not, ◌&&◌, Option, none, some, List, [], ◌∷◌,
  if◌then◌else◌, get, put, read, ℤ, pos, leb_ℤ,
}
use inferencia.Router.{BackendInfo}

pub record Config : Type 0 where
  pub interval : ℕ
  pub fail_threshold : ℤ
  pub request_timeout : ℕ

unfoldable pub default_config : Config
default_config = record {
  interval = 30 * 10 ^ 9;
  fail_threshold = pos 3;
  request_timeout = 5 * 10 ^ 9;
}

pub record BackendState : Type 0 where
  pub failures : ℕ
  pub healthy : Bool

pub record Watchdog : Type 0 where
  pub cfg : Config
  pub states : List (String × BackendState)
  pub gauge : List (String × ℕ)

-- `New`, beside a gauge that has no value yet.
unfoldable pub new_watchdog : Config → Watchdog
new_watchdog cfg = record { cfg = cfg; states = []; gauge = [] }

unfoldable pub is_healthy : Watchdog → String → Bool
is_healthy w name = elim (get name w.states) [ none ↦ true | some s ↦ s.healthy ]

abbrev pub fresh_state : BackendState
fresh_state = record { failures = 0; healthy = true }

-- The new state of the backend, and the gauge's value.
judge : Config → BackendState → Bool → BackendState × ℕ
judge cfg st true =
    let failures = st.failures + 1 in
    if leb_ℤ cfg.fail_threshold (pos failures) && st.healthy
    then (record { failures = failures; healthy = false }, 0)
    else if not st.healthy
    then (record { failures = failures; healthy = st.healthy }, 0)
    else (record { failures = failures; healthy = st.healthy }, 1)
judge cfg st false = (record { failures = 0; healthy = true }, 1)

-- `failed` says that the check of the backend returned an error.
unfoldable pub check_backend : Watchdog → String → Bool → Watchdog
unfolding judge
check_backend w name failed =
    let (st, value) = judge w.cfg (read fresh_state name w.states) failed in
    record w { states = put name st w.states; gauge = put name value w.gauge }

module _ {B T : Type 0} (name_of : B → String) (chat_fails : B → Bool) (tts_fails : T → Bool) where
  probe_chat : Watchdog → List B → Watchdog
  probe_chat w [] = w
  probe_chat w (b ∷ bs) = probe_chat (check_backend w (name_of b) (chat_fails b)) bs

  probe_tts : Watchdog → List (BackendInfo B T) → Watchdog
  probe_tts w [] = w
  probe_tts w (info ∷ infos) =
      probe_tts
        (elim info.tts_backend [ none ↦ w | some t ↦ check_backend w info.name (tts_fails t) ])
        infos

  -- One cycle: `backends` is `w.reg.All()`, and `infos` is `w.ttsReg.All()`, unless the registry is nil.
  unfoldable pub probe : Watchdog → List B → Option (List (BackendInfo B T)) → Watchdog
  unfolding probe_chat probe_tts
  probe w backends none = probe_chat w backends
  probe w backends (some infos) = probe_tts (probe_chat w backends) infos
