-- ===== src/ApiError/Phrases.antt =====
-- The phrases of an error's text that internal/apierror/classify.go goes by.
use inferencia.Common.{
  ◌≡◌, ◌≢◌, refl, ◌↔◌, ◌⊎◌, inl, inr, String, Char, Bool, true, false, ◌||◌, Option, none, some,
  List, [], ◌∷◌, In, any, contains, to_lower, Bool-cases, arith, ℕ, ℤ, pos, negsuc, if◌then◌else◌,
}
use mathlib.Core.Bool.{or-true}
use inferencia.ApiError.{
  GoError, net_error_timed_out, is_status, is_client_timeout, is_connection_unavailable,
  is_overload_message,
}

pub or_iff : (a b : Bool) → (a || b ≡ true) ↔ ((a ≡ true) ⊎ (b ≡ true))
or_iff true b = ((λ h. inl refl), (λ h. refl))
or_iff false b = ((λ h. inr h), (λ h. elim h [ inl e ↦ absurd cc | inr e ↦ e ]))

four_tests : (a b c d : Bool) → a || b || c || d ≡ (a || (b || (c || (d || false))))
four_tests true b c d = refl
four_tests false true c d = refl
four_tests false false true d = refl
four_tests false false false true = refl
four_tests false false false false = refl

-- A text has one of some phrases.
abbrev pub Mentions : String → List String → Type 0
Mentions msg phrases = (p : String) × In p phrases × (contains msg p ≡ true)

abbrev pub timeout_phrases : List String
timeout_phrases =
    "client.timeout exceeded" ∷ "context deadline exceeded" ∷ "i/o timeout"
    ∷ "timeout awaiting response headers" ∷ []

abbrev pub connection_phrases : List String
connection_phrases =
    "connection refused" ∷ "no such host" ∷ "network is unreachable" ∷ "connection reset"
    ∷ "dial tcp" ∷ []

abbrev pub overload_phrases : List String
overload_phrases = "server busy" ∷ "too many requests" ∷ "overloaded" ∷ "rate limit" ∷ []

Mentions-any : (msg : String) (ps : List String) → any (contains msg) ps ≡ true ↔ Mentions msg ps
Mentions-any msg [] = ((λ h. absurd cc), (λ (p, m, h). absurd m))
Mentions-any msg (q ∷ ps) =
    let (to, from) = Mentions-any msg ps in
    (
      (λ h. elim (Bool-cases (contains msg q)) [
        | inl e ↦ (q, inl refl, e)
        | inr e ↦ let (p, m, found) = to (rw e at h) in (p, inr m, found)
      ]),
      (λ (p, m, h). elim m [
        | inl same ↦ rw (← same, h) refl
        | inr later ↦ rw (from (p, later, h)) (or-true (contains msg q))
      ]),
    )

five_tests : (a b c d e : Bool) → a || b || c || d || e ≡ (a || (b || (c || (d || (e || false)))))
five_tests true b c d e = refl
five_tests false true c d e = refl
five_tests false false true d e = refl
five_tests false false false true e = refl
five_tests false false false false true = refl
five_tests false false false false false = refl

pub is_status_iff : (n : ℕ) (s : Option ℤ) → (is_status n s ≡ true) ↔ (s ≡ some (pos n))
is_status_iff n none = ((λ h. absurd cc), (λ h. absurd cc))
is_status_iff n (some (pos m)) = ((λ h. ground arith), (λ h. ground arith))
is_status_iff n (some (negsuc m)) = ((λ h. absurd cc), (λ h. ground arith))

unconnected_iff :
    {M : Type 0} (lower : Char → Char) (n : Option Bool) (op mentions : Bool)
    → (mentions ≡ true) ↔ M
    → ((if net_error_timed_out lower n then false else if op then true else mentions) ≡ true)
      ↔ ((n ≢ some true) × ((op ≡ true) ⊎ M))
unconnected_iff lower none true mentions h = ((λ e. ((λ x. cc), inl refl)), (λ e. refl))
unconnected_iff lower none false mentions (to, from) =
    ((λ e. ((λ x. cc), inr (to e))), (λ (_, e). elim e [ inl x ↦ absurd cc | inr m ↦ from m ]))
unconnected_iff lower (some true) op mentions h = ((λ e. absurd cc), (λ (n, _). absurd (n refl)))
unconnected_iff lower (some false) true mentions h =
    ((λ e. ((λ x. ground arith), inl refl)), (λ e. refl))
unconnected_iff lower (some false) false mentions (to, from) = (
  (λ e. ((λ x. ground arith), inr (to e))),
  (λ (_, e). elim e [ inl x ↦ absurd cc | inr m ↦ from m ]),
)

module _ (lower : Char → Char) (err : GoError) where
  -- The text of the error, in lower case.
  abbrev pub lowered : String
  lowered = to_lower lower err.text

  -- The deadline passed, or the text has one of the four phrases of a timeout.
  abbrev pub IsLate : Type 0
  IsLate = (err.is_deadline_exceeded ≡ true) ⊎ Mentions lowered timeout_phrases

  -- The error is no timeout of the network, and it is an error of an operation of the network or
  -- the text has one of the five phrases of a failed connection.
  abbrev pub IsUnconnected : Type 0
  IsUnconnected =
      (err.net_timeout ≢ some true)
      × ((err.is_op_error ≡ true) ⊎ Mentions lowered connection_phrases)

  pub is_client_timeout_iff :
      (is_client_timeout lower err ≡ true) ↔ Mentions lowered timeout_phrases
  unfolding is_client_timeout
  is_client_timeout_iff =
      rw (four_tests (contains lowered "client.timeout exceeded") _ _ _)
        (Mentions-any lowered timeout_phrases)

  pub is_overload_message_iff :
      (is_overload_message lower err.text ≡ true) ↔ Mentions lowered overload_phrases
  unfolding is_overload_message
  is_overload_message_iff =
      rw (four_tests (contains lowered "server busy") _ _ _) (Mentions-any lowered overload_phrases)

  pub is_connection_unavailable_iff : (is_connection_unavailable lower err ≡ true) ↔ IsUnconnected
  unfolding is_connection_unavailable
  is_connection_unavailable_iff = unconnected_iff lower err.net_timeout err.is_op_error _ (
      rw (five_tests (contains lowered "connection refused") _ _ _ _)
        (Mentions-any lowered connection_phrases))
