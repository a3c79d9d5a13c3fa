-- ===== src/ApiError/Classes.antt =====
-- Which error of the API each backend error becomes.
use inferencia.ApiError.Phrases.{
  Mentions, overload_phrases, lowered, IsLate, IsUnconnected, or_iff, is_status_iff,
  is_client_timeout_iff, is_connection_unavailable_iff, is_overload_message_iff,
}
use inferencia.Common.{
  ℕ, ◌↔◌, ◌≡◌, refl, ◌⊎◌, inl, inr, String, Char, Bool, true, false, ◌||◌, Option, none, some,
  arith, ℤ, pos, negsuc, if◌then◌else◌,
}
use inferencia.ApiError.{
  Error, GoError, backend_timeout, backend_overloaded, backend_unavailable, is_client_timeout,
  is_connection_unavailable, is_overload_message, upstream_http_status, is_status,
  from_backend_error,
}

-- The error that `from_backend_error` chooses, from what it tests: a timeout, no connection, a
-- status of a busy backend, the status 504, and a message of overload.
abbrev chosen : String → Bool → Bool → Bool → Bool → Bool → Error
chosen backend timeout unavailable busy gateway overload =
    if timeout
    then backend_timeout backend
    else if unavailable
    then backend_unavailable backend
    else if busy
    then backend_overloaded backend
    else if gateway
    then backend_timeout backend
    else if overload
    then backend_overloaded backend
    else backend_unavailable backend

abbrev HasTimedOut : Bool → Bool → Bool → Type 0
HasTimedOut timeout unavailable gateway =
    (timeout ≡ true) ⊎ ((unavailable ≡ false) × (gateway ≡ true))

abbrev HasBusy : Bool → Bool → Bool → Type 0
HasBusy unavailable busy overload = (unavailable ≡ false) × ((busy ≡ true) ⊎ (overload ≡ true))

false_iff : {P : Type 0} (b : Bool) → (b ≡ true) ↔ P → (b ≡ false) ↔ (¬ P)
false_iff true (to, from) = ((λ h. absurd cc), (λ np. absurd (np (to refl))))
false_iff false (to, from) = ((λ h p. let e = from p in absurd cc), (λ np. refl))

-- One of three classes, each with its error.
abbrev pub IsOneOf : String → Type 0 → Type 0 → Error → Type 0
IsOneOf backend TimedOut Busy e =
    (TimedOut × (e ≡ backend_timeout backend))
    ⊎ (((¬ TimedOut) × Busy × (e ≡ backend_overloaded backend))
        ⊎ ((¬ TimedOut) × (¬ Busy) × (e ≡ backend_unavailable backend)))

chosen-IsOneOf :
    (backend : String) (t u b g o : Bool)
    → (b ≡ true → g ≡ false)
    → IsOneOf backend (HasTimedOut t u g) (HasBusy u b o) (chosen backend t u b g o)
chosen-IsOneOf backend true u b g o h = inl (inl refl, refl)
chosen-IsOneOf backend false true b g o h =
    inr (inr ((λ x. ground arith), (λ x. ground arith), refl))
chosen-IsOneOf backend false false true g o h =
    inr (inl ((λ x. ground (arith, h refl)), (refl, inl refl), refl))
chosen-IsOneOf backend false false false true o h = inl (inr (refl, refl), refl)
chosen-IsOneOf backend false false false false true h =
    inr (inl ((λ x. ground arith), (refl, inr refl), refl))
chosen-IsOneOf backend false false false false false h =
    inr (inr ((λ x. ground arith), (λ x. ground arith), refl))

abbrev is_busy : Option ℤ → Bool
is_busy s = is_status 429 s || is_status 502 s || is_status 503 s

busy_not_gateway : (s : Option ℤ) → is_busy s ≡ true → is_status 504 s ≡ false
busy_not_gateway none h = refl
busy_not_gateway (some (pos m)) h = ground arith
busy_not_gateway (some (negsuc m)) h = refl

-- The classes may be replaced by equivalent ones.
IsOneOf-iff :
    {T T' B B' : Type 0} (backend : String) (e : Error)
    → T ↔ T'
    → B ↔ B'
    → IsOneOf backend T B e
    → IsOneOf backend T' B' e
IsOneOf-iff backend e (t, t') (b, b') (inl (h, same)) = inl (t h, same)
IsOneOf-iff backend e (t, t') (b, b') (inr (inl (n, h, same))) =
    inr (inl ((λ h'. n (t' h')), b h, same))
IsOneOf-iff backend e (t, t') (b, b') (inr (inr (n, m, same))) =
    inr (inr ((λ h'. n (t' h')), (λ h'. m (b' h')), same))

sum_iff : {A A' B B' : Type 0} → A ↔ A' → B ↔ B' → (A ⊎ B) ↔ (A' ⊎ B')
sum_iff (a, a') (b, b') = (
  (λ h. elim h [ inl x ↦ inl (a x) | inr x ↦ inr (b x) ]),
  (λ h. elim h [ inl x ↦ inl (a' x) | inr x ↦ inr (b' x) ]),
)

product_iff : {A A' B B' : Type 0} → A ↔ A' → B ↔ B' → (A × B) ↔ (A' × B')
product_iff (a, a') (b, b') = ((λ (x, y). (a x, b y)), (λ (x, y). (a' x, b' y)))

either_iff :
    {A B : Type 0} (a b : Bool) → (a ≡ true) ↔ A → (b ≡ true) ↔ B → (a || b ≡ true) ↔ (A ⊎ B)
either_iff a b ha hb =
    let (to, from) = or_iff a b in
    let (to', from') = sum_iff ha hb in ((λ h. to' (to h)), (λ h. from (from' h)))

module _ (lower : Char → Char) (err : GoError) where
  -- The code reads this status in the text.
  abbrev pub HasStatus : ℕ → Type 0
  HasStatus n = upstream_http_status lower err ≡ some (pos n)

  abbrev pub IsTimedOut : Type 0
  IsTimedOut = IsLate lower err ⊎ ((¬ IsUnconnected lower err) × HasStatus 504)

  abbrev pub IsBusy : Type 0
  IsBusy =
      (¬ IsUnconnected lower err)
      × (((HasStatus 429 ⊎ HasStatus 502) ⊎ HasStatus 503)
          ⊎ Mentions (lowered lower err) overload_phrases)

  connected_iff : (is_connection_unavailable lower err ≡ false) ↔ (¬ IsUnconnected lower err)
  connected_iff = false_iff _ (is_connection_unavailable_iff lower err)

  IsTimedOut_iff :
      HasTimedOut
        (err.is_deadline_exceeded || is_client_timeout lower err)
        (is_connection_unavailable lower err)
        (is_status 504 (upstream_http_status lower err))
      ↔ IsTimedOut
  IsTimedOut_iff =
      sum_iff
        (either_iff err.is_deadline_exceeded _ ((λ h. h), (λ h. h))
          (is_client_timeout_iff lower err))
        (product_iff connected_iff (is_status_iff 504 (upstream_http_status lower err)))

  IsBusy_iff :
      HasBusy
        (is_connection_unavailable lower err)
        (is_busy (upstream_http_status lower err))
        (is_overload_message lower err.text)
      ↔ IsBusy
  IsBusy_iff =
      let s = upstream_http_status lower err in
      product_iff connected_iff (
        sum_iff
          (either_iff _ _ (either_iff _ _ (is_status_iff 429 s) (is_status_iff 502 s))
            (is_status_iff 503 s))
          (is_overload_message_iff lower err))

  -- An error of a backend becomes 504 backend_timeout if the deadline passed or its text, in lower
  -- case, has one of the four phrases of a timeout, or if the connection did not fail and the text
  -- gives the status 504; else 503 backend_overloaded if the connection did not fail and the text
  -- gives 429, 502 or 503 or has one of the four phrases of an overload; else 503
  -- backend_unavailable. The connection failed if the error is no timeout of the network and is an
  -- error of a network operation or its text has one of five phrases.
  pub from_backend_error-IsOneOf :
      (backend : String)
      → (e : Error) × (from_backend_error lower backend (some err) ≡ some e)
        × IsOneOf backend IsTimedOut IsBusy e
  unfolding from_backend_error
  from_backend_error-IsOneOf backend = (
    _,
    refl,
    IsOneOf-iff backend _ IsTimedOut_iff IsBusy_iff (
        chosen-IsOneOf backend (err.is_deadline_exceeded || is_client_timeout lower err)
          (is_connection_unavailable lower err) (is_busy (upstream_http_status lower err))
          (is_status 504 (upstream_http_status lower err)) (is_overload_message lower err.text)
          (busy_not_gateway (upstream_http_status lower err))),
  )
