-- ===== src/Middleware/Tests.antt =====
-- A store with one key, a limiter of two requests, and responses.
use inferencia.Common.{◌≡◌, refl, ◌⊎◌, String, ◌∷◌, [], ok, some, none, ℕ}
use inferencia.ApiError.{Error}
use inferencia.Middleware.Stack.{Exchange, Incoming, Site, stack, generate_id}
use inferencia.Middleware.Containment.{IsContained, stack-IsContained}
use inferencia.KeyStore.{KeyStore}
use inferencia.RateLimiter.{RateLimiter}
use inferencia.Middleware.{Request, Handler, extract_bearer_token, mask_key, new_status_writer}
use inferencia.Middleware.Protection.{protected, IsRejected, IsLimited, protected_outcome}
use inferencia.Middleware.Observation.{header, body, run, run-new_status_writer}

abbrev one_key : KeyStore
one_key = record { keys = ("sk-one", tt) ∷ [] }

abbrev two : RateLimiter
two = record { buckets = []; num = 1; den = 1; burst = 2 }

abbrev hello : Handler String
hello req rl = (record { headers = []; outcome = ok req.api_key }, rl)

abbrev request : Request
request = record { authorization = "bearer  sk-one "; api_key = ""; at = 5 }

token_of_request : extract_bearer_token "bearer  sk-one " ≡ some "sk-one"
unfolding extract_bearer_token
token_of_request = refl

masked : mask_key "sk-0123456789" ≡ "...23456789"
unfolding mask_key
masked = refl

protected_outcome_example :
    IsRejected one_key hello request two (protected one_key hello request two)
    ⊎ IsLimited one_key hello request two (protected one_key hello request two)
protected_outcome_example = protected_outcome one_key hello request two

run-new_status_writer_example :
    ((run new_status_writer (body 3 ∷ header 404 ∷ body 4 ∷ header 500 ∷ [])).status ≡ 404)
    × ((run new_status_writer (body 3 ∷ header 404 ∷ body 4 ∷ header 500 ∷ [])).bytes ≡ 7)
run-new_status_writer_example =
    run-new_status_writer (body 3 ∷ header 404 ∷ body 4 ∷ header 500 ∷ [])

abbrev size : Error → ℕ
size e = 100

-- The handler writes a part of the response and panics.
abbrev boom : Handler Exchange
boom req rl = (
  record {
    headers = [];
    outcome = ok (record {
      headers = [];
      events = header 200 ∷ body 5 ∷ [];
      panic = some "index out of range";
    });
  },
  rl,
)

abbrev incoming : Incoming
incoming = record {
  method = "POST";
  path = "/v1/embeddings";
  remote_addr = "10.0.0.1:5000";
  user_agent = "curl";
  request_id_header = "req-7";
  context_id = "";
  inner = request;
}

abbrev quiet : Site
quiet = record { limiter = two; lines = []; counts = []; in_flight = 4 }

stack-IsContained_example :
    IsContained size none one_key boom incoming quiet (stack size none one_key boom incoming quiet)
stack-IsContained_example = stack-IsContained size none one_key boom incoming quiet refl

fallback : generate_id none ≡ "696e666572656e6369612d66616c6c62"
unfolding generate_id
fallback = refl
