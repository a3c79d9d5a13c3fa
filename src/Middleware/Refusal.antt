-- ===== src/Middleware/Refusal.antt =====
-- What the stack does with a request that carries no valid key.
use inferencia.Common.{ℕ, ◌≡◌, refl, String, Option, none, some, List}
use inferencia.ApiError.{Error}
use inferencia.KeyStore
use inferencia.KeyStore.{KeyStore, InvalidKey}
use inferencia.RateLimiter.{RateLimiter}
use inferencia.Middleware.{
  Request, Handler, extract_bearer_token, deny, missing, invalid, checked, authenticated, auth,
  rate_limit,
}
use inferencia.Middleware.Protection.{protected}
use inferencia.Middleware.Observation.{first_status}
use inferencia.Middleware.Stack.{
  Incoming, Exchange, Site, stack, request_id, recover, metrics, logging,
}

abbrev pub HasKey : KeyStore → Request → Type 0
HasKey ks req =
    (key : String) × (extract_bearer_token req.authorization ≡ some key)
    × (KeyStore.validate ks key ≡ none)

abbrev pub refusal : Option String → Error
refusal none = missing
refusal (some key) = invalid

module _ {R : Type 0} (ks : KeyStore) (next : Handler R) (req : Request) (rl : RateLimiter)
    (h : ¬ HasKey ks req) where
  checked-denied :
      (key : String) (v : Option InvalidKey)
      → extract_bearer_token req.authorization ≡ some key
      → KeyStore.validate ks key ≡ v
      → checked v key (rate_limit next) req rl ≡ deny invalid rl
  checked-denied key none e v = absurd (h (key, e, v))
  checked-denied key (some i) e v = refl

  authenticated-denied :
      (token : Option String)
      → extract_bearer_token req.authorization ≡ token
      → authenticated ks token (rate_limit next) req rl ≡ deny (refusal token) rl
  authenticated-denied none e = refl
  authenticated-denied (some key) e = checked-denied key (KeyStore.validate ks key) e refl

  protected-denied :
      protected ks next req rl ≡ deny (refusal (extract_bearer_token req.authorization)) rl
  unfolding auth
  protected-denied = authenticated-denied (extract_bearer_token req.authorization) refl

refusal-status : (token : Option String) → (refusal token).status ≡ 401
refusal-status none = refl
refusal-status (some key) = refl

module _ (size : Error → ℕ) (random : Option (List ℕ)) (ks : KeyStore) (req : Incoming) (s : Site)
    (h : ¬ HasKey ks req.inner) where
  -- Whatever the handlers, the response and the state are the same.
  pub stack-same :
      (next next' : Handler Exchange)
      → stack size random ks next req s ≡ stack size random ks next' req s
  unfolding stack request_id recover metrics logging
  stack-same next next' =
      rw
        (
          protected-denied ks next req.inner s.limiter h,
          protected-denied ks next' req.inner s.limiter h,
        )
        refl

  abbrev pub IsDenied : Exchange × Site → Type 0
  IsDenied (x, s') = (first_status 200 x.events ≡ 401) × (x.panic ≡ none) × (s'.limiter ≡ s.limiter)

  pub stack-IsDenied : (next : Handler Exchange) → IsDenied (stack size random ks next req s)
  unfolding stack request_id recover metrics logging
  stack-IsDenied next =
      rw (protected-denied ks next req.inner s.limiter h)
        (refusal-status (extract_bearer_token req.inner.authorization), refl, refl)
