-- ===== src/Watchdog/Loop.antt =====
-- `Start`, `Stop` and the goroutine of internal/watchdog/watchdog.go. A context is the number of the
-- `Start` that made it; a goroutine is known by its context.
pub mod Lifetime
mod Tests
use inferencia.Common.{
  ℕ, zero, suc, String, Bool, true, false, Option, none, some, List, [], ◌∷◌, In, if◌then◌else◌,
  eqb,
}
use inferencia.Router.{BackendInfo}
use inferencia.Watchdog.{Config, Watchdog, new_watchdog, probe}

pub record Monitor : Type 0 where
  pub watchdog : Watchdog
  pub starts : ℕ
  pub cancel : Option ℕ
  pub cancelled : List ℕ
  pub loops : List ℕ
  pub crashed : Bool

unfoldable pub new_monitor : Config → Monitor
new_monitor cfg = record {
  watchdog = new_watchdog cfg;
  starts = 0;
  cancel = none;
  cancelled = [];
  loops = [];
  crashed = false;
}

abbrev pub without : ℕ → List ℕ → List ℕ
without ctx [] = []
without ctx (c ∷ cs) = if eqb c ctx then cs else c ∷ without ctx cs

unfoldable pub stop : Monitor → Monitor
stop s = elim s.cancel [ none ↦ s | some ctx ↦ record s { cancelled = ctx ∷ s.cancelled } ]

-- The goroutine sees that its context is cancelled.
unfoldable pub return : ℕ → Monitor → Monitor
return ctx s = record s { loops = without ctx s.loops }

-- `time.NewTicker` panics on an interval that is not positive, which ends the program.
abbrev pub spawn : ℕ → Monitor → Monitor
spawn zero s = record s { crashed = true }
spawn (suc _) s = record s { starts = suc s.starts; loops = s.starts ∷ s.loops }

module _ {B T : Type 0} (name_of : B → String) where
  -- A probe of the backends `bs` and `infos`, with the outcomes of the checks.
  unfoldable pub tick :
      (B → Bool) → (T → Bool) → List B → Option (List (BackendInfo B T)) → Monitor → Monitor
  tick chat_fails tts_fails bs infos s = record s {
    watchdog = probe name_of chat_fails tts_fails s.watchdog bs infos;
  }

  unfoldable pub start :
      (B → Bool) → (T → Bool) → List B → Option (List (BackendInfo B T)) → Monitor → Monitor
  start chat_fails tts_fails bs infos s =
      spawn s.watchdog.cfg.interval
        (tick chat_fails tts_fails bs infos (record s { cancel = some s.starts }))

module _ {B : Type 0} (T : Type 0) (name_of : B → String) where
  -- What may happen after the start. A tick can be chosen although the context is cancelled, as long
  -- as the goroutine has not returned.
  pub data Step (s : Monitor) : Monitor → Type 0 where
    ticks :
        (ctx : ℕ) (chat_fails : B → Bool) (tts_fails : T → Bool) (bs : List B)
        (infos : Option (List (BackendInfo B T)))
        → In ctx s.loops
        → Step s (tick name_of chat_fails tts_fails bs infos s)
    stops : Step s (stop s)
    returns : (ctx : ℕ) → In ctx s.loops → In ctx s.cancelled → Step s (return ctx s)

  pub data Reach (s : Monitor) : Monitor → Type 0 where
    here : Reach s s
    next : {h k : Monitor} → Reach s h → Step h k → Reach s k
