-- ===== src/Audio/Service.antt =====
-- Every outcome of `Audio`, with the registry that it leaves.
use Prim.Native.String.{len}
use inferencia.Common.{
  ◌≤◌, ◌≡◌, ◌≢◌, refl, sym, ap, ◌∙◌, ◌⊎◌, inl, inr, String, Char, List, none, some, arith, eq_iff,
  ◌==◌, ltb, IsRange, ok, trim_space, Bool-cases,
}
use mathlib.Core.Bool.{false≢true}
use inferencia.LoadBalancer.{in_flight}
use inferencia.LoadBalancer.Ledger.{in_flight-release}
use inferencia.ApiError
use inferencia.ApiError.{backend_unavailable, invalid_param}
use inferencia.Backend.{HealthChecker}
use inferencia.Router.{Registry, BackendInfo, cap_tts, select_backend, release_backend}
use inferencia.Router.Candidates.{IsCandidate}
use inferencia.Router.Score.{IsOffered}
use inferencia.Router.Selection.{IsRouted, select_backend-IsRouted}
use inferencia.Handler.{Response, failed}
use inferencia.Adapter.{TtsRequest}
use inferencia.Adapter.Interfaces.{TtsBackend}
use inferencia.Audio.{Speech, model_of, check_input, speak, selected, audio}

-- Not blank, and at most 4096 bytes.
abbrev pub IsInput : String → Type 0
IsInput input = (trim_space input ≢ "") × (len input ≤ 4096)

check_input_cases :
    (req : TtsRequest)
    → ((e : ApiError.Error) × (check_input req ≡ some e) × (e.status ≡ 400) × (¬ IsInput req.input))
      ⊎ ((check_input req ≡ none) × IsInput req.input)
unfolding check_input
check_input_cases req = elim (Bool-cases (trim_space req.input == "")) [
  | inl blank ↦ inl (
    invalid_param "input" "input is required and must not be empty",
    rw blank refl,
    refl,
    λ (set, short). set ((eq_iff (trim_space req.input) "").0 blank),
  )
  | inr set ↦ elim (Bool-cases (ltb 4096 (len req.input))) [
    | inl long ↦ inl (
      invalid_param "input" "input must be at most 4096 characters",
      rw (set, long) refl,
      refl,
      λ (s, short). ground arith,
    )
    | inr short ↦ inr (
      rw (set, short) refl,
      ((λ e. ground (arith, eq_iff (trim_space req.input) "")), ground arith),
    )
  ]
]

model_of-ne-blank : (model : String) → model_of model ≢ ""
model_of-ne-blank model = elim (Bool-cases (trim_space model == "")) [
  | inl blank ↦ rw blank (λ e. cc)
  | inr set ↦ rw set (λ e. ground (arith, eq_iff (trim_space model) "", ap trim_space e))
]

module _ (lower : Char → Char) {B : Type 0} (hc : HealthChecker)
    (entries : List (String × BackendInfo B TtsBackend)) (r : Registry B TtsBackend) where
  -- `info` is a healthy TTS backend that offers the model that the request names, or the default.
  abbrev pub IsChosen : TtsRequest → BackendInfo B TtsBackend → Type 0
  IsChosen req info =
      IsCandidate r cap_tts hc info × IsOffered info.models cap_tts (model_of req.model)

  abbrev pub IsRestored : Registry B TtsBackend → Type 0
  IsRestored r' = (other : String) → in_flight r'.lb other ≡ in_flight r.lb other

  -- An invalid input is a 400; a valid one is a 503 if nothing can be chosen, and otherwise what
  -- the chosen backend makes of the request. The counts are as before.
  abbrev pub IsServed : TtsRequest → Response Speech (Unit {0}) × Registry B TtsBackend → Type 0
  IsServed req result =
      ((e : ApiError.Error) × (e.status ≡ 400) × (¬ IsInput req.input) × (result ≡ (failed e, r)))
      ⊎ (IsInput req.input
          × ((info : BackendInfo B TtsBackend) → ¬ IsChosen req info)
          × (result ≡ (failed (backend_unavailable (model_of req.model)), r)))
      ⊎ (IsInput req.input
          × (info : BackendInfo B TtsBackend) × IsChosen req info
          × (result.0 ≡ speak lower info.name info.tts_backend req)
          × IsRestored result.1)

  released :
      (req : TtsRequest) (r' : Registry B TtsBackend) (info : BackendInfo B TtsBackend)
      → IsRouted r cap_tts (model_of req.model) hc r' info
      → IsRestored (release_backend r' info.name)
  unfolding release_backend
  released req r' info routed other =
      ground (
        arith,
        in_flight-release r'.lb info.name other,
        routed.counted other,
        eq_iff info.name other,
      )

  selected-IsServed :
      (req : TtsRequest)
      → IsRange entries r.backends
      → IsInput req.input
      → IsServed req
          (selected lower hc entries req (select_backend r cap_tts (model_of req.model) hc entries))
  selected-IsServed req range input =
      elim (select_backend-IsRouted r cap_tts (model_of req.model) hc entries range) [
        | inl (e, unsupported) ↦ rw e (
            inr (
              inl (
                input,
                (λ info ((registered, supported, up), offered).
                    false≢true (sym (unsupported info registered) ∙ supported)),
                refl,
              )))
        | inr (inl (e, unoffered)) ↦
            rw e (inr (inl (input, (λ info (c, offered). (unoffered info c).1 offered), refl)))
        | inr (inr (info, r', e, routed)) ↦ rw e (
            inr (
              inr (
                input,
                info,
                (routed.candidate, routed.offered (model_of-ne-blank req.model)),
                refl,
                released req r' info routed,
              )))
      ]

  -- On every registry that `entries` ranges over and every request that decodes, with no other
  -- request meanwhile: an input that is blank or longer than 4096 bytes is answered with a 400 and
  -- the registry is as before; so it is, with a 503, if no healthy TTS backend offers the model;
  -- and otherwise the answer is what such a backend makes of the prepared request, and the
  -- in-flight count of every name is as before.
  pub audio-IsServed :
      (req : TtsRequest)
      → IsRange entries r.backends
      → IsServed req (audio lower hc entries (ok req) r)
  unfolding audio
  audio-IsServed req range = elim (check_input_cases req) [
    | inl (e, refused, status, invalid) ↦ rw refused (inl (e, status, invalid, refl))
    | inr (passed, input) ↦ rw passed (selected-IsServed req range input)
  ]
