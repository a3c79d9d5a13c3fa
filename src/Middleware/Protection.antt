-- ===== src/Middleware/Protection.antt =====
-- The authentication and the rate limit before a handler, stacked as the server stacks them.
use inferencia.Common.{
  ℕ, Bool, true, err, ◌≡◌, refl, ◌⊎◌, inl, inr, String, false, Option, none, some, [], ◌∷◌, ◌==◌,
  arith, eq_iff,
}
use inferencia.ApiError.{rate_limited}
use inferencia.KeyStore
use inferencia.KeyStore.{KeyStore, InvalidKey}
use inferencia.RateLimiter.{RateLimiter, allow}
use inferencia.Middleware.{
  Request, Reply, Handler, chain, extract_bearer_token, deny, missing, invalid, checked,
  authenticated, auth, limited, rate_limit,
}

-- The order of `server.New` and of main.go; what stands outside it does not touch the key.
abbrev pub protected : {R : Type 0} → KeyStore → Handler R → Handler R
protected ks next = chain next (auth ks ∷ rate_limit ∷ [])

extract_bearer_token-ne-nil :
    (h key : String) → extract_bearer_token h ≡ some key → (key == "") ≡ false
unfolding extract_bearer_token
extract_bearer_token-ne-nil h key e = ground (arith, eq_iff key "")

module _ {R : Type 0} (next : Handler R) (req : Request) where
  abbrev pub IsDecided : (ℕ × Bool) × RateLimiter → Reply R × RateLimiter → Type 0
  IsDecided ((remaining, passes), rl) result =
      ((passes ≡ false) × (result.0.outcome ≡ err rate_limited) × (result.1 ≡ rl))
      ⊎ ((passes ≡ true)
          × (result.0.outcome ≡ (next req rl).0.outcome)
          × (result.1 ≡ (next req rl).1))

  limited-IsDecided :
      (burst : ℕ) (d : (ℕ × Bool) × RateLimiter) → IsDecided d (limited burst d next req)
  limited-IsDecided burst ((remaining, false), rl) = inl (refl, refl, refl)
  limited-IsDecided burst ((remaining, true), rl) = inr (refl, refl, refl)

module _ {R : Type 0} (ks : KeyStore) (next : Handler R) (req : Request) (rl : RateLimiter) where
  -- The header carries a key that the store accepts.
  abbrev pub IsAuthorized : String → Type 0
  IsAuthorized key =
      (extract_bearer_token req.authorization ≡ some key) × (KeyStore.validate ks key ≡ none)

  abbrev pub IsRejected : Reply R × RateLimiter → Type 0
  IsRejected result =
      ((key : String) → ¬ IsAuthorized key)
      × ((result ≡ deny missing rl) ⊎ (result ≡ deny invalid rl))

  -- For an accepted key: 429 without the handler if the limiter refuses; otherwise what the
  -- handler does with the key in its context.
  abbrev pub IsLimited : Reply R × RateLimiter → Type 0
  IsLimited result =
      (key : String) × IsAuthorized key
      × IsDecided next (record req { api_key = key }) (allow rl key req.at) result

  checked_outcome :
      (key : String) (v : Option InvalidKey)
      → extract_bearer_token req.authorization ≡ some key
      → KeyStore.validate ks key ≡ v
      → IsRejected (checked v key (rate_limit next) req rl)
        ⊎ IsLimited (checked v key (rate_limit next) req rl)
  unfolding rate_limit
  checked_outcome key none e v = inr (
    key,
    (e, v),
    rw (extract_bearer_token-ne-nil _ key e)
        (limited-IsDecided next (record req { api_key = key }) rl.burst (allow rl key req.at)),
  )
  checked_outcome key (some i) e v = inl ((λ k a. absurd cc), inr refl)

  authenticated_outcome :
      (token : Option String)
      → extract_bearer_token req.authorization ≡ token
      → IsRejected (authenticated ks token (rate_limit next) req rl)
        ⊎ IsLimited (authenticated ks token (rate_limit next) req rl)
  authenticated_outcome none e = inl ((λ k a. absurd cc), inl refl)
  authenticated_outcome (some key) e = checked_outcome key (KeyStore.validate ks key) e refl

  -- Without a key that the store accepts, the answer is one of the two errors 401 and the limiter
  -- and the handler see nothing; with one, a request that Allow refuses for
  -- that key gets the error 429 and the handler sees nothing, and one that it passes gets what the
  -- handler does with the key in its context; the limiter's state is Allow's, then the handler's.
  pub protected_outcome :
      IsRejected (protected ks next req rl) ⊎ IsLimited (protected ks next req rl)
  unfolding auth
  protected_outcome = authenticated_outcome (extract_bearer_token req.authorization) refl
