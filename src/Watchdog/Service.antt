-- ===== src/Watchdog/Service.antt =====
-- Probe cycles as histories of checks, and what the registry serves when the watchdog judges health.
use mathlib.Core.Option.{some-injective}
use inferencia.Common.{
  ◌<◌, ◌≡◌, refl, sym, ap, ◌∙◌, inl, inr, String, Bool, Option, none, some, List, [], ◌∷◌, ◌++◌,
  arith, map, IsRange, ok, ltb→lt, Option-cases,
}
use inferencia.Router.{BackendInfo}
use inferencia.Backend.{Registry, primary_healthy}
use inferencia.Backend.Consistency.{IsConsistent}
use inferencia.Backend.Selection.{primary_healthy-IsPicked}
use inferencia.Watchdog.{
  Config, Watchdog, new_watchdog, is_healthy, check_backend, probe_chat, probe_tts, probe,
}
use inferencia.Watchdog.History.{Check, run, streak, threshold, is_healthy-run}

module _ {B T : Type 0} (name_of : B → String) (chat_fails : B → Bool) (tts_fails : T → Bool) where
  chat_checks : List B → List Check
  chat_checks = map (λ (b : B). (name_of b, chat_fails b))

  tts_checks : List (BackendInfo B T) → List Check
  tts_checks [] = []
  tts_checks (info ∷ infos) = elim info.tts_backend [
    | none ↦ tts_checks infos
    | some t ↦ (info.name, tts_fails t) ∷ tts_checks infos
  ]

  -- The checks of a cycle: every chat backend, then every entry of the TTS registry with a backend.
  pub cycle_checks : List B → Option (List (BackendInfo B T)) → List Check
  unfolding chat_checks tts_checks
  cycle_checks backends none = chat_checks backends
  cycle_checks backends (some infos) = chat_checks backends ++ tts_checks infos

  pub run-append : (w : Watchdog) (cs ds : List Check) → run w (cs ++ ds) ≡ run (run w cs) ds
  unfolding run
  run-append w [] ds = refl
  run-append w ((name, failed) ∷ cs) ds = run-append (check_backend w name failed) cs ds

  probe_chat-run :
      (w : Watchdog) (bs : List B)
      → probe_chat name_of chat_fails tts_fails w bs ≡ run w (chat_checks bs)
  unfolding probe_chat run chat_checks
  probe_chat-run w [] = refl
  probe_chat-run w (b ∷ bs) = probe_chat-run (check_backend w (name_of b) (chat_fails b)) bs

  probe_tts-run :
      (w : Watchdog) (infos : List (BackendInfo B T))
      → probe_tts name_of chat_fails tts_fails w infos ≡ run w (tts_checks infos)
  unfolding probe_tts run tts_checks
  probe_tts-run w [] = refl
  probe_tts-run w (info ∷ infos) = elim (Option-cases info.tts_backend) [
    | inl e ↦ ground (arith, probe_tts-run w infos)
    | inr (t, e) ↦ ground (arith, probe_tts-run (check_backend w info.name (tts_fails t)) infos)
  ]

  -- A probe cycle makes one check of every chat backend and then of every TTS backend, and nothing else.
  pub probe-run :
      (w : Watchdog) (backends : List B) (infos : Option (List (BackendInfo B T)))
      → probe name_of chat_fails tts_fails w backends infos ≡ run w (cycle_checks backends infos)
  unfolding probe cycle_checks
  probe-run w backends none = probe_chat-run w backends
  probe-run w backends (some infos) =
      probe_tts-run (probe_chat name_of chat_fails tts_fails w backends) infos
      ∙ ap (λ v. run v (tts_checks infos)) (probe_chat-run w backends)
      ∙ sym (run-append w (chat_checks backends) (tts_checks infos))

-- While the watchdog judges health, `PrimaryHealthy` never returns a backend whose failures in a row
-- have reached the threshold.
pub primary_healthy-below_threshold :
    {B : Type 0} (name_of : B → String) (r : Registry B) (entries : List (String × B))
    (cfg : Config) (cs : List Check) (r' : Registry B) (b : B)
    → IsConsistent name_of r
    → IsRange entries r.backends
    → primary_healthy r (some (is_healthy (run (new_watchdog cfg) cs))) entries ≡ (ok (some b), r')
    → streak (name_of b) 0 cs < threshold cfg.fail_threshold
primary_healthy-below_threshold name_of r entries cfg cs r' b c range e =
    let hc = some (is_healthy (run (new_watchdog cfg) cs)) in
    elim (primary_healthy-IsPicked name_of r c hc entries range) [
      | inl (_, e') ↦ absurd (cc)
      | inr (inl (_, _, e')) ↦ absurd (cc)
      | inr (inr (r'', name, b'', e', p)) ↦
          let same : some b'' ≡ some b = ground arith in
          let owner : name_of b ≡ name =
            ap name_of (sym (some-injective b'' b same)) ∙ c.named name b'' p.registered in
          rw owner (ltb→lt _ _ (sym (is_healthy-run cfg cs name) ∙ p.passes))
    ]
