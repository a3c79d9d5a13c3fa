-- ===== src/Server/Guarded.antt =====
-- No request without a valid key reaches a handler under /v1/.
use inferencia.Common.{
  ℕ, ◌≡◌, ◌≢◌, refl, ap, ◌∙◌, ◌⊎◌, inl, inr, String, Bool, true, false, Option, none, some, List,
  [], ◌∷◌, ◌==◌, eq_iff, starts_with, if◌then◌else◌, All, Bool-cases,
}
use inferencia.ApiError.{Error}
use inferencia.KeyStore.{KeyStore}
use inferencia.Middleware.{Handler}
use inferencia.Middleware.Observation.{first_status}
use inferencia.Middleware.Refusal.{HasKey, stack-same, stack-IsDenied}
use inferencia.Middleware.Stack.{Incoming, Exchange}
use inferencia.Server.{
  Endpoint, Guard, unguarded, api_limited, tts_limited, Route, Found, found, wrong_method,
  not_found, look_up, missed, allows, World, site, guarded, dispatched, answered, serve,
}

-- A route under /v1/ stands behind the stack.
abbrev pub IsBehindStack : Route → Type 0
IsBehindStack r = starts_with r.path "/v1/" ≡ true → r.guard ≢ unguarded

abbrev pub IsGuarded : Found → Type 0
IsGuarded (found r) = r.guard ≢ unguarded
IsGuarded wrong_method = Unit {0}
IsGuarded not_found = Unit {0}

missed-IsGuarded : (f : Found) → IsGuarded f → IsGuarded (missed f)
missed-IsGuarded (found r) g = g
missed-IsGuarded wrong_method g = g
missed-IsGuarded not_found g = g

either_found : (b : Bool) (f g : Found) → IsGuarded f → IsGuarded g → IsGuarded (if b then f else g)
either_found true f g p q = p
either_found false f g p q = q

look_up-IsGuarded :
    (rs : List Route) (method path : String)
    → All IsBehindStack rs
    → starts_with path "/v1/" ≡ true
    → IsGuarded (look_up rs method path)
look_up-IsGuarded [] method path all v1 = tt
look_up-IsGuarded (r ∷ rs) method path all v1 =
    let rest = look_up-IsGuarded rs method path all.1 v1 in
    elim (Bool-cases (r.path == path)) [
      | inl e ↦ rw e (
          either_found (allows r method) _ _
            (all.0 (ap (λ p. starts_with p "/v1/") ((eq_iff r.path path).0 e) ∙ v1))
            (missed-IsGuarded _ rest))
      | inr e ↦ rw e rest
    ]

module _ (size : Error → ℕ) (ks : KeyStore) (redirect : Incoming → Option Exchange)
    (random : Option (List ℕ)) (req : Incoming) (w : World) (h : ¬ HasKey ks req.inner) where
  -- A 401, or a 404 or 405 where there is no such route.
  abbrev IsDenied : Exchange → Type 0
  IsDenied x =
      (first_status 200 x.events ≡ 401)
      ⊎ (first_status 200 x.events ≡ 404)
      ⊎ (first_status 200 x.events ≡ 405)

  -- The redirect, or such a status without a panic; and the limiters are as before.
  abbrev pub IsRefused : Exchange × World → Type 0
  IsRefused (x, w') =
      ((redirect req ≡ some x) ⊎ ((redirect req ≡ none) × IsDenied x × (x.panic ≡ none)))
      × (w'.api ≡ w.api)
      × (w'.tts ≡ w.tts)

  module _ (pages pages' : Endpoint → Incoming → Exchange)
      (handlers handlers' : Endpoint → Handler Exchange) where
    guarded-IsRefused :
        (g : Guard) (e : Endpoint)
        → redirect req ≡ none
        → g ≢ unguarded
        → IsRefused (guarded size ks redirect pages handlers g e random req w)
          × (guarded size ks redirect pages handlers g e random req w
              ≡ guarded size ks redirect pages' handlers' g e random req w)
    guarded-IsRefused unguarded e clean ne = absurd (ne refl)
    guarded-IsRefused api_limited e clean ne =
        let (status, returned, same) =
          stack-IsDenied size random ks req (site w.api w) h (handlers e) in
        (
          (inr (clean, inl status, returned), same, refl),
          rw (stack-same size random ks req (site w.api w) h (handlers e) (handlers' e)) refl,
        )
    guarded-IsRefused tts_limited e clean ne =
        let (status, returned, same) =
          stack-IsDenied size random ks req (site w.tts w) h (handlers e) in
        (
          (inr (clean, inl status, returned), refl, same),
          rw (stack-same size random ks req (site w.tts w) h (handlers e) (handlers' e)) refl,
        )

    dispatched-IsRefused :
        (f : Found)
        → redirect req ≡ none
        → IsGuarded f
        → IsRefused (dispatched size ks redirect pages handlers f random req w)
          × (dispatched size ks redirect pages handlers f random req w
              ≡ dispatched size ks redirect pages' handlers' f random req w)
    dispatched-IsRefused (found r) clean g = guarded-IsRefused r.guard r.endpoint clean g
    dispatched-IsRefused wrong_method clean g =
        ((inr (clean, inr (inr refl), refl), refl, refl), refl)
    dispatched-IsRefused not_found clean g = ((inr (clean, inr (inl refl), refl), refl, refl), refl)

    answered-IsRefused :
        (o : Option Exchange) (routes : List Route)
        → redirect req ≡ o
        → All IsBehindStack routes
        → starts_with req.path "/v1/" ≡ true
        → IsRefused (answered size ks redirect pages handlers o routes random req w)
          × (answered size ks redirect pages handlers o routes random req w
              ≡ answered size ks redirect pages' handlers' o routes random req w)
    answered-IsRefused none routes e all v1 =
        dispatched-IsRefused (look_up routes req.method req.path) e
          (look_up-IsGuarded routes req.method req.path all v1)
    answered-IsRefused (some x) routes e all v1 = ((inl e, refl, refl), refl)

    -- Where every route under /v1/ stands behind the stack.
    pub serve-IsRefused :
        (routes : List Route)
        → All IsBehindStack routes
        → starts_with req.path "/v1/" ≡ true
        → IsRefused (serve size ks redirect pages handlers routes random req w)
          × (serve size ks redirect pages handlers routes random req w
              ≡ serve size ks redirect pages' handlers' routes random req w)
    unfolding serve
    serve-IsRefused routes all v1 = answered-IsRefused (redirect req) routes refl all v1
