-- ===== src/Server/Boot.antt =====
-- What `main` has set up when the server listens, and why it exits otherwise.
use inferencia.Common.{
  ◌≡◌, refl, ap, ◌⊎◌, inl, inr, ◌↔◌, Char, Bool, true, false, none, some, List, [], ◌∷◌, ◌++◌, ◌==◌,
  eq_iff, starts_with, not, ◌&&◌, ◌||◌, All, In, Bool-cases, arith, Result, ok, err,
}
use inferencia.Config
use inferencia.Config.{Config, Float}
use inferencia.Backend.{register}
use inferencia.Backend.Consistency.{register_all}
use inferencia.Adapter.{Network}
use inferencia.Adapter.Mlx.{new_mlx}
use inferencia.Adapter.Ollama.{new_ollama}
use inferencia.Adapter.Interfaces.{ChatBackend, Codecs, mlx_backend, ollama_backend}
use inferencia.Server.{
  HttpServer, HttpHandler, nil, mux, traced, Guard, unguarded, api_limited, tts_limited, Route,
  not_found, look_up, new, new_routes, speech_route, health_routes, register_tts_routes,
  register_health_status_route,
}
use inferencia.Server.Guarded.{IsBehindStack}
use inferencia.Server.Process.{
  ChatRegistry, Exit, unknown_type, name_of, mlx_of, ollama_of, connect, register_backends, set_up,
}

abbrev pub routes_of : HttpHandler → List Route
routes_of nil = []
routes_of (mux routes) = routes
routes_of (traced h) = routes_of h

-- The routes under /v1/ stand behind the stack, and speech is served or not.
abbrev pub IsSetUp : Bool → HttpServer → Type 0
IsSetUp serves srv =
    All IsBehindStack (routes_of srv.handler)
    × ((look_up (routes_of srv.handler) "POST" "/v1/audio/speech" ≡ not_found) ↔ (serves ≡ false))

abbrev is_guarded : Guard → Bool
is_guarded unguarded = false
is_guarded api_limited = true
is_guarded tts_limited = true

abbrev all_behind : List Route → Bool
all_behind [] = true
all_behind (r ∷ rs) = (not (starts_with r.path "/v1/") || is_guarded r.guard) && all_behind rs

all_behind-All : (rs : List Route) → all_behind rs ≡ true → All IsBehindStack rs
all_behind-All [] h = tt
all_behind-All (r ∷ rs) h = (
  (λ v1 e. absurd (let bare : is_guarded r.guard ≡ false = ap is_guarded e in ground arith)),
  all_behind-All rs (ground arith),
)

-- All the routes of `main`, with speech.
pub routes-IsBehindStack :
    All IsBehindStack (new_routes ++ (speech_route tts_limited ∷ health_routes))
routes-IsBehindStack =
    all_behind-All (new_routes ++ (speech_route tts_limited ∷ health_routes)) refl

pub set_up-IsSetUp :
    (cfg : Config) (serves : Bool)
    → (srv : HttpServer) × (set_up cfg serves ≡ some srv) × IsSetUp serves srv
unfolding set_up new register_tts_routes register_health_status_route
set_up-IsSetUp cfg true = (_, refl, (routes-IsBehindStack, ((λ e. cc), (λ e. cc))))
set_up-IsSetUp cfg false =
    (_, refl, (all_behind-All (new_routes ++ health_routes) refl, ((λ e. refl), (λ e. refl))))

abbrev pub IsKnown : Config.Backend → Type 0
IsKnown b = (b.type ≡ "mlx") ⊎ (b.type ≡ "ollama")

module _ (lower : Char → Char) (net : Network) (codecs : Codecs) where
  connect-cases :
      (b : Config.Backend)
      → ((connect lower net codecs b ≡ none) × (¬ IsKnown b))
        ⊎ ((c : ChatBackend) × (connect lower net codecs b ≡ some c)
            × (c.name ≡ b.name)
            × IsKnown b)
  unfolding connect mlx_backend ollama_backend new_mlx new_ollama
  connect-cases b = elim (Bool-cases (b.type == "mlx")) [
    | inl mlx_type ↦
        inr (
          mlx_of lower net codecs b,
          rw mlx_type refl,
          refl,
          inl ((eq_iff b.type "mlx").0 mlx_type),
        )
    | inr other ↦ elim (Bool-cases (b.type == "ollama")) [
      | inl ollama_type ↦ inr (
        ollama_of lower net codecs b,
        rw (other, ollama_type) refl,
        refl,
        inr ((eq_iff b.type "ollama").0 ollama_type),
      )
      | inr unknown ↦ inl (
        rw (other, unknown) refl,
        (λ k. ground (arith, eq_iff b.type "mlx", eq_iff b.type "ollama")),
      )
    ]
  ]

  -- The connected backends `cs`, under the names of the configured ones `bs`.
  abbrev pub IsConnected : List Config.Backend → List ChatBackend → Type 0
  IsConnected [] [] = Unit {0}
  IsConnected [] (c ∷ cs) = ⊥
  IsConnected (b ∷ bs) [] = ⊥
  IsConnected (b ∷ bs) (c ∷ cs) = (c.name ≡ b.name) × IsKnown b × IsConnected bs cs

  abbrev pub IsUnknownIn : List Config.Backend → Exit → Type 0
  IsUnknownIn bs e = (b : Config.Backend) × In b bs × (¬ IsKnown b) × (e ≡ unknown_type b)

  abbrev pub IsRegistered : List Config.Backend → ChatRegistry → Result Exit ChatRegistry → Type 0
  IsRegistered bs reg (err e) = IsUnknownIn bs e
  IsRegistered bs reg (ok reg') =
      (cs : List ChatBackend) × IsConnected bs cs × (reg' ≡ register_all name_of reg cs)

  next-IsRegistered :
      (b : Config.Backend) (bs : List Config.Backend) (c : ChatBackend) (reg : ChatRegistry)
      (result : Result Exit ChatRegistry)
      → c.name ≡ b.name
      → IsKnown b
      → IsRegistered bs (register name_of reg c) result
      → IsRegistered (b ∷ bs) reg result
  unfolding register_all
  next-IsRegistered b bs c reg (err e) n k (b', m, unknown, same) = (b', inr m, unknown, same)
  next-IsRegistered b bs c reg (ok reg') n k (cs, connected, same) =
      (c ∷ cs, (n, k, connected), same)

  pub register_backends-IsRegistered :
      (bs : List Config.Backend) (reg : ChatRegistry)
      → IsRegistered bs reg (register_backends lower net codecs bs reg)
  unfolding register_all
  register_backends-IsRegistered [] reg = ([], tt, refl)
  register_backends-IsRegistered (b ∷ bs) reg = elim (connect-cases b) [
    | inl (e, unknown) ↦ rw (register_backends, e) (b, inl refl, unknown, refl)
    | inr (c, e, named, known) ↦
        rw (register_backends, e)
          (next-IsRegistered b bs c reg _ named known
            (register_backends-IsRegistered bs (register name_of reg c)))
  ]
