-- ===== src/Server/Watch.antt =====
-- The watchdog that cmd/inferencia/main.go makes and starts, and its end with that of `main`.
use inferencia.Common.{
  ℕ, zero, suc, ◌<◌, ◌≡◌, ◌↔◌, ◌⊎◌, refl, String, Bool, true, false, Option, List, [], arith, ℤ,
  pos, negsuc, leb_ℤ, ltb_ℤ,
}
use inferencia.Config
use inferencia.Router.{BackendInfo}
use inferencia.Watchdog
use inferencia.Watchdog.{new_watchdog, probe}
use inferencia.Watchdog.Loop.{Monitor, new_monitor, start, spawn, tick, return, Step, Reach}
use inferencia.Watchdog.Loop.Lifetime.{stop-ends}
use inferencia.Server.Ending.{Running, end_main, end_main-stop}

-- A duration that is not positive counts as 0: `time.NewTicker` panics on either.
abbrev whole : ℤ → ℕ
whole (pos n) = n
whole (negsuc n) = 0

unfoldable pub watchdog_config : Config.Config → Watchdog.Config
watchdog_config cfg = record {
  interval = whole cfg.watchdog.interval;
  fail_threshold = cfg.watchdog.fail_threshold;
  request_timeout = whole cfg.watchdog.request_timeout;
}

module _ {B T : Type 0} (name_of : B → String) (chat_fails : B → Bool) (tts_fails : T → Bool)
    (bs : List B) (infos : Option (List (BackendInfo B T))) where
  unfoldable pub watch : Config.Config → Monitor
  watch cfg = start name_of chat_fails tts_fails bs infos (new_monitor (watchdog_config cfg))

crashed-spawn :
    (interval : ℤ) (s : Monitor)
    → s.crashed ≡ false
    → ((spawn (whole interval) s).crashed ≡ true) ↔ (leb_ℤ interval (pos 0) ≡ true)
crashed-spawn (pos zero) s e = ((λ h. ground arith), (λ h. refl))
crashed-spawn (pos (suc n)) s e = ((λ h. absurd cc), (λ h. ground arith))
crashed-spawn (negsuc n) s e = ((λ h. refl), (λ h. refl))

module _ {B T : Type 0} (name_of : B → String) (chat_fails : B → Bool) (tts_fails : T → Bool)
    (bs : List B) (infos : Option (List (BackendInfo B T))) (cfg : Config.Config) where
  -- The start of the watchdog panics exactly if the configured interval is not positive.
  watch-crashed_iff :
      ((watch name_of chat_fails tts_fails bs infos cfg).crashed ≡ true)
      ↔ (leb_ℤ cfg.watchdog.interval (pos 0) ≡ true)
  unfolding watch start new_monitor new_watchdog watchdog_config tick
  watch-crashed_iff = crashed-spawn cfg.watchdog.interval _ refl

  whole-pos : (interval : ℤ) → ltb_ℤ (pos 0) interval ≡ true → 0 < whole interval
  whole-pos (pos n) e = ground (arith, e)
  whole-pos (negsuc n) e = absurd cc

  -- If the configured interval is positive, then at the end of `main`, whatever the watchdog did, its
  -- goroutine has returned or can return, and no check follows its return.
  end_main-watch :
      {P : Type 0} (result : Option String) (s : Running P)
      → ltb_ℤ (pos 0) cfg.watchdog.interval ≡ true
      → Reach T name_of (watch name_of chat_fails tts_fails bs infos cfg) s.monitor
      → ((s.monitor.loops ≡ [])
          ⊎ Step T name_of (end_main result s).monitor (return 0 (end_main result s).monitor))
        × ((m : Monitor)
            → Reach T name_of (return 0 (end_main result s).monitor) m
            → (m.loops ≡ []) × (m.watchdog ≡ s.monitor.watchdog))
  unfolding watch watchdog_config
  end_main-watch result s positive r = rw (end_main-stop result s) (
      stop-ends name_of (watchdog_config cfg) chat_fails tts_fails bs infos
        (whole-pos cfg.watchdog.interval positive) s.monitor r)
