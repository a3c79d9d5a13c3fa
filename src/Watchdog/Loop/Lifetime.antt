-- ===== src/Watchdog/Loop/Lifetime.antt =====
-- The life of the watchdog's goroutine, and the history that it makes.
use mathlib.Core.List.{append-nil, append_assoc}
use inferencia.Common.{
  ℕ, zero, suc, ◌<◌, ◌≡◌, refl, sym, ap, ◌∙◌, ◌⊎◌, inl, inr, String, Bool, false, Option, some,
  List, [], ◌∷◌, ◌++◌, In, arith, Option-cases,
}
use inferencia.Router.{BackendInfo}
use inferencia.Watchdog.{Config, new_watchdog}
use inferencia.Watchdog.History.{Check, run}
use inferencia.Watchdog.Service.{cycle_checks, probe-run, run-append}
use inferencia.Watchdog.Loop.{
  Monitor, new_monitor, without, stop, return, spawn, tick, start, Step, ticks, stops, returns,
  Reach, here, next,
}

-- One goroutine at most, with the first context, which `Stop` cancels; it has not crashed; and the
-- watchdog has seen the checks `cs` and no others.
pub record IsLive (cfg : Config) (cs : List Check) (s : Monitor) : Type 0 where
  pub single : (s.loops ≡ 0 ∷ []) ⊎ (s.loops ≡ [])
  pub cancels : s.cancel ≡ some 0
  pub stopped : In 0 (stop s).cancelled
  pub running : s.crashed ≡ false
  pub history : s.watchdog ≡ run (new_watchdog cfg) cs

stop-cancelled : (s : Monitor) → s.cancel ≡ some 0 → In 0 (stop s).cancelled
unfolding stop
stop-cancelled s e = rw e (inl refl)

without-single :
    (loops : List ℕ) (ctx : ℕ)
    → (loops ≡ 0 ∷ []) ⊎ (loops ≡ [])
    → In ctx loops
    → without ctx loops ≡ []
without-single loops ctx (inl e) m =
    let member : In ctx (0 ∷ []) = rw e at m in
    rw e (elim member [ inl same ↦ rw same refl | inr nobody ↦ absurd nobody ])
without-single loops ctx (inr e) m = absurd (rw e at m)

-- The parts that `Stop` leaves as they are.
stop-keeps :
    (s : Monitor)
    → ((stop s).loops ≡ s.loops)
      × ((stop s).cancel ≡ s.cancel)
      × ((stop s).crashed ≡ s.crashed)
      × ((stop s).watchdog ≡ s.watchdog)
unfolding stop
stop-keeps s = elim (Option-cases s.cancel) [ inl e ↦ ground arith | inr (ctx, e) ↦ ground arith ]

spawn-IsLive :
    (cfg : Config) (interval : ℕ) (cs : List Check) (s : Monitor)
    → 0 < interval
    → (s.loops ≡ []) × (s.starts ≡ 0) × (s.cancel ≡ some 0) × (s.crashed ≡ false)
    → s.watchdog ≡ run (new_watchdog cfg) cs
    → IsLive cfg cs (spawn interval s)
spawn-IsLive cfg zero cs s h parts seen = absurd (omega arith)
spawn-IsLive cfg (suc n) cs s h (loops, starts, cancel, crashed) seen = record {
  single = inl (rw (loops, starts) refl);
  cancels = cancel;
  stopped = stop-cancelled _ cancel;
  running = crashed;
  history = seen;
}

module _ {B T : Type 0} (name_of : B → String) where
  -- The checks of a step, and of all steps so far, in their order.
  abbrev step_checks : {s s' : Monitor} → Step T name_of s s' → List Check
  step_checks (ticks ctx chat_fails tts_fails bs infos m) =
      cycle_checks name_of chat_fails tts_fails bs infos
  step_checks stops = []
  step_checks (returns ctx m c) = []

  abbrev pub checks_of : {s s' : Monitor} → Reach T name_of s s' → List Check
  checks_of here = []
  checks_of (next r step) = checks_of r ++ step_checks step

module _ {B T : Type 0} (name_of : B → String) (cfg : Config) where
  tick-history :
      (chat_fails : B → Bool) (tts_fails : T → Bool) (bs : List B)
      (infos : Option (List (BackendInfo B T))) (cs : List Check) (s : Monitor)
      → s.watchdog ≡ run (new_watchdog cfg) cs
      → (tick name_of chat_fails tts_fails bs infos s).watchdog
        ≡ run (new_watchdog cfg) (cs ++ cycle_checks name_of chat_fails tts_fails bs infos)
  unfolding tick
  tick-history chat_fails tts_fails bs infos cs s e =
      let more = cycle_checks name_of chat_fails tts_fails bs infos in
      probe-run name_of chat_fails tts_fails s.watchdog bs infos
      ∙ ap (λ w. run w more) e
      ∙ sym (run-append name_of chat_fails tts_fails (new_watchdog cfg) cs more)

  Step-IsLive :
      (cs : List Check) (s s' : Monitor) (step : Step T name_of s s')
      → IsLive cfg cs s
      → IsLive cfg (cs ++ step_checks name_of step) s'
  unfolding tick return
  Step-IsLive cs s s' (ticks ctx chat_fails tts_fails bs infos m) l = record {
    single = l.single;
    cancels = l.cancels;
    stopped = stop-cancelled _ l.cancels;
    running = l.running;
    history = tick-history chat_fails tts_fails bs infos cs s l.history;
  }
  Step-IsLive cs s s' stops l =
      let (loops, cancel, crashed, watchdog) = stop-keeps s in
      record {
        single = rw loops l.single;
        cancels = cancel ∙ l.cancels;
        stopped = stop-cancelled _ (cancel ∙ l.cancels);
        running = crashed ∙ l.running;
        history = rw (watchdog, append-nil cs) l.history;
      }
  Step-IsLive cs s s' (returns ctx m c) l = record {
    single = inr (without-single s.loops ctx l.single m);
    cancels = l.cancels;
    stopped = stop-cancelled _ l.cancels;
    running = l.running;
    history = rw (append-nil cs) l.history;
  }

  Reach-IsLive :
      (cs : List Check) (s s' : Monitor) (r : Reach T name_of s s')
      → IsLive cfg cs s
      → IsLive cfg (cs ++ checks_of name_of r) s'
  Reach-IsLive cs s s' here l = rw (append-nil cs) l
  Reach-IsLive cs s s' (next r step) l =
      rw (← append_assoc cs (checks_of name_of r) (step_checks name_of step))
        (Step-IsLive _ _ _ step (Reach-IsLive cs _ _ r l))

  over-keeps :
      (s s' : Monitor)
      → s.loops ≡ []
      → Reach T name_of s s'
      → (s'.loops ≡ []) × (s'.watchdog ≡ s.watchdog)
  unfolding return
  over-keeps s s' over here = (over, refl)
  over-keeps s s' over (next {h} r step) =
      let (before, same) = over-keeps s h over r in over_step h s' before same step
    where
      over_step :
          (h s' : Monitor)
          → h.loops ≡ []
          → h.watchdog ≡ s.watchdog
          → Step T name_of h s'
          → (s'.loops ≡ []) × (s'.watchdog ≡ s.watchdog)
      over_step h s' before same (ticks ctx _ _ _ _ m) = absurd (rw before at m)
      over_step h s' before same stops =
          let (loops, _, _, watchdog) = stop-keeps h in (loops ∙ before, watchdog ∙ same)
      over_step h s' before same (returns ctx m c) = absurd (rw before at m)

  module _ (chat_fails : B → Bool) (tts_fails : T → Bool) (bs : List B)
      (infos : Option (List (BackendInfo B T))) (positive : 0 < cfg.interval) where
    start-IsLive :
        IsLive cfg
          (cycle_checks name_of chat_fails tts_fails bs infos)
          (start name_of chat_fails tts_fails bs infos (new_monitor cfg))
    unfolding start new_monitor new_watchdog tick run
    start-IsLive =
        let armed : Monitor = record (new_monitor cfg) { cancel = some 0 } in
        spawn-IsLive cfg cfg.interval _ (tick name_of chat_fails tts_fails bs infos armed) positive
          (refl, refl, refl, refl) (tick-history chat_fails tts_fails bs infos [] armed refl)

    -- From the `Start` of a new watchdog with a positive interval on, in any order of ticks, stops and
    -- returns: at most one goroutine runs, with the first context, and `Stop` at that moment leaves
    -- that context cancelled; the program has not crashed; and the watchdog's state is that of the
    -- checks of the first probe and of the ticks so far, in their order, and of nothing else.
    pub start-Reach-IsLive :
        (s : Monitor)
        (r : Reach T name_of (start name_of chat_fails tts_fails bs infos (new_monitor cfg)) s)
        → IsLive cfg (cycle_checks name_of chat_fails tts_fails bs infos ++ checks_of name_of r) s
    start-Reach-IsLive s r = Reach-IsLive _ _ s r start-IsLive

    return_over :
        (s : Monitor)
        → (s.loops ≡ 0 ∷ []) ⊎ (s.loops ≡ [])
        → ((return 0 (stop s)).loops ≡ []) × ((return 0 (stop s)).watchdog ≡ s.watchdog)
    unfolding return
    return_over s (inl e) =
        let (loops, _, _, watchdog) = stop-keeps s in (rw (loops ∙ e) refl, watchdog)
    return_over s (inr e) =
        let (loops, _, _, watchdog) = stop-keeps s in (rw (loops ∙ e) refl, watchdog)

    can_return :
        (cs : List Check) (s : Monitor)
        → IsLive cfg cs s
        → (s.loops ≡ []) ⊎ Step T name_of (stop s) (return 0 (stop s))
    can_return cs s l = elim l.single [
      | inr e ↦ inl e
      | inl e ↦ inr (returns 0 (rw ((stop-keeps s).0 ∙ e) (inl refl)) (stop-cancelled s l.cancels))
    ]

    -- `Stop` ends the watchdog at any such moment: if the goroutine still runs it can return then, and
    -- once it has, whatever happens, no goroutine runs and the state of the watchdog stays as it was.
    pub stop-ends :
        (s : Monitor)
        → Reach T name_of (start name_of chat_fails tts_fails bs infos (new_monitor cfg)) s
        → ((s.loops ≡ []) ⊎ Step T name_of (stop s) (return 0 (stop s)))
          × ((s' : Monitor)
              → Reach T name_of (return 0 (stop s)) s'
              → (s'.loops ≡ []) × (s'.watchdog ≡ s.watchdog))
    stop-ends s r =
        let l = start-Reach-IsLive s r in
        let (over, same) = return_over s l.single in
        (
          can_return _ s l,
          λ s' after.
              let (none_left, kept) = over-keeps (return 0 (stop s)) s' over after in
              (none_left, kept ∙ same),
        )
