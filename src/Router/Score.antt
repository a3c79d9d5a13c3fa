-- ===== src/Router/Score.antt =====
-- What a score says: a backend reaches 50 only by one of its models.
use Prim.Native.String
use Prim.Native.String.{len, slice}
use text.Mathlib.TextEquality.{slice-prefix}
use text.Mathlib.TextPositions.{len-append, slice-append_left}
use mathlib.Core.Path.{subst}
use text.Mathlib.TextLemmas.{append-nil}
use inferencia.Common.{
  ◌≤◌, ◌≡◌, refl, sym, ap, ◌∙◌, ◌⊎◌, inl, inr, ◌↔◌, String, true, List, [], ◌∷◌, arith, eq_iff, leb,
  In,
}
use inferencia.Router.{Capability, ModelInfo, BackendInfo, model_score, models_score, score_backend}

-- The model's identifier begins with the requested name.
abbrev pub IsNamePrefix : String → String → Type 0
IsNamePrefix model id = (rest : String) × (String.◌++◌ model rest ≡ id)

-- `ms` has a model of the kind whose identifier begins with the requested name.
abbrev pub IsOffered : List ModelInfo → Capability → String → Type 0
IsOffered ms kind model = (m : ModelInfo) × In m ms × (m.kind ≡ kind) × IsNamePrefix model m.id

model_score_cases :
    (m : ModelInfo) (kind : Capability) (model : String)
    → (model_score m kind model ≡ 0)
      ⊎ ((50 ≤ model_score m kind model)
          × (m.kind ≡ kind)
          × ((m.id ≡ model) ⊎ (slice m.id 0 (len model) ≡ model)))
unfolding model_score
model_score_cases m kind model =
    ground (arith, eq_iff m.id model, eq_iff (slice m.id 0 (len model)) model)

prefix-leb :
    (m : ModelInfo) (model : String) → IsNamePrefix model m.id → leb (len model) (len m.id) ≡ true
prefix-leb m model (rest, e) = ground (arith, len-append model rest, ap len e)

prefix-slice :
    (m : ModelInfo) (model : String) → IsNamePrefix model m.id → slice m.id 0 (len model) ≡ model
prefix-slice m model (rest, e) = rw (← e) (slice-append_left model rest)

model_score_prefix :
    (m : ModelInfo) (kind : Capability) (model : String)
    → m.kind ≡ kind
    → IsNamePrefix model m.id
    → 50 ≤ model_score m kind model
unfolding model_score
model_score_prefix m kind model e p = ground (
  arith,
  eq_iff m.id model,
  eq_iff (slice m.id 0 (len model)) model,
  prefix-leb m model p,
  prefix-slice m model p,
)

offered_first :
    (m m' : ModelInfo) (kind : Capability) (model : String)
    → m' ≡ m
    → m'.kind ≡ kind
    → IsNamePrefix model m'.id
    → 50 ≤ model_score m kind model
offered_first m m' kind model same e p =
    subst (λ (x : ModelInfo). 50 ≤ model_score x kind model) same
      (model_score_prefix m' kind model e p)

prefix_of_match :
    (m : ModelInfo) (model : String)
    → (m.id ≡ model) ⊎ (slice m.id 0 (len model) ≡ model)
    → IsNamePrefix model m.id
prefix_of_match m model (inl e) = ("", append-nil model ∙ sym e)
prefix_of_match m model (inr e) =
    subst (λ (s : String). IsNamePrefix s m.id) e (slice-prefix m.id (len model))

models_score_offered :
    (ms : List ModelInfo) (kind : Capability) (model : String)
    → IsOffered ms kind model
    → 50 ≤ models_score ms kind model
unfolding models_score
models_score_offered [] kind model (m, listed, _, _) = absurd listed
models_score_offered (m ∷ ms) kind model (m', listed, e, p) = elim listed [
  | inl same ↦ omega (arith, offered_first m m' kind model same e p)
  | inr later ↦ omega (arith, models_score_offered ms kind model (m', later, e, p))
]

IsOffered-of_score :
    (ms : List ModelInfo) (kind : Capability) (model : String)
    → (models_score ms kind model ≡ 0) ⊎ IsOffered ms kind model
unfolding models_score
IsOffered-of_score [] kind model = inl refl
IsOffered-of_score (m ∷ ms) kind model = elim (model_score_cases m kind model) [
  | inr (_, e, p) ↦ inr (m, inl refl, e, prefix_of_match m model p)
  | inl nothing ↦ elim (IsOffered-of_score ms kind model) [
    | inl rest ↦ inl (omega arith)
    | inr (m', listed, e, p) ↦ inr (m', inr listed, e, p)
  ]
]

module _ {B T : Type 0} where
  score-IsOffered :
      (info : BackendInfo B T) (kind : Capability) (model : String)
      → 50 ≤ score_backend info kind model
      → IsOffered info.models kind model
  unfolding score_backend
  score-IsOffered info kind model h = elim (IsOffered-of_score info.models kind model) [
    | inl e ↦ absurd (ground arith)
    | inr o ↦ o
  ]

  -- A backend reaches the threshold of `selectBackend` exactly when one of its models has the
  -- requested kind and an identifier that begins with the requested name.
  pub score_backend-ge_50_iff :
      (info : BackendInfo B T) (kind : Capability) (model : String)
      → (50 ≤ score_backend info kind model) ↔ IsOffered info.models kind model
  unfolding score_backend
  score_backend-ge_50_iff info kind model = (
    λ h. score-IsOffered info kind model h,
    λ o. ground (arith, models_score_offered info.models kind model o),
  )
