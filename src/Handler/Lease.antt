-- ===== src/Handler/Lease.antt =====
-- Every handler gives back the backend it took, and none calls a nil backend.
use inferencia.Common.{
  ◌≡◌, ◌≢◌, refl, inl, inr, String, Char, Bool, true, false, Option, none, some, List, Result, ok,
  err, IsRange, if◌then◌else◌, eqb, length,
}
use inferencia.LoadBalancer.{in_flight}
use inferencia.ApiError
use inferencia.ApiError.{GoError}
use inferencia.Backend.{Registry, HealthChecker, primary_healthy}
use inferencia.Backend.Consistency.{IsConsistent}
use inferencia.Backend.Selection.{primary_healthy-IsPicked, release-primary_healthy}
use inferencia.Handler.{
  Response, crashed, failed, written, lease, models, embeddings, chat_completions, chat_response,
  with_model, is_missing, answer, EmbedRequest, ChatRequest,
}

module _ {B A S : Type 0} where
  -- No panic, and every in-flight count as it was.
  abbrev pub IsReturned : Registry B → Response A S × Registry B → Type 0
  IsReturned r result =
      (result.0 ≢ crashed) × ((other : String) → in_flight result.1.lb other ≡ in_flight r.lb other)

module _ (lower : Char → Char) {B A S : Type 0} (name_of : B → String) (r : Registry B)
    (c : IsConsistent name_of r) (hc : HealthChecker) (entries : List (String × B))
    (range : IsRange entries r.backends) where
  lease-IsReturned :
      (respond : B → Response A S)
      → ((b : B) → respond b ≢ crashed)
      → IsReturned r (lease lower name_of hc entries respond (primary_healthy r hc entries))
  lease-IsReturned respond safe = elim (primary_healthy-IsPicked name_of r c hc entries range) [
    | inl (_, e) ↦ rw e ((λ x. cc), (λ other. refl))
    | inr (inl (_, _, e)) ↦ rw e ((λ x. cc), (λ other. refl))
    | inr (inr (r', name, b, e, p)) ↦
        rw e (safe b, (λ other. release-primary_healthy name_of r c hc entries range r' b other e))
  ]

  written-ne-crashed :
      (o : Option ApiError.Error) → written lower {A = A} {S = S} name_of hc entries o ≢ crashed
  written-ne-crashed none x = cc
  written-ne-crashed (some e) x = cc

  answer-ne-crashed :
      (b : B) (result : Result GoError A)
      → answer lower {S = S} name_of hc entries b result ≢ crashed
  answer-ne-crashed b (ok a) e = cc
  answer-ne-crashed b (err e) x = written-ne-crashed _ x

  models-IsReturned :
      (list_models : B → Result GoError A)
      → IsReturned r (models lower {S = S} name_of hc entries list_models r)
  unfolding models
  models-IsReturned list_models = lease-IsReturned _ (λ b. answer-ne-crashed b (list_models b))

  untouched : (e : ApiError.Error) → IsReturned {A = A} {S = S} r (failed e, r)
  untouched e = ((λ x. cc), (λ other. refl))

  guarded :
      (b : Bool) (x y : Response A S × Registry B)
      → IsReturned r x
      → IsReturned r y
      → IsReturned r (if b then x else y)
  guarded true x y p q = p
  guarded false x y p q = q

  embeddings-IsReturned :
      (create : B → EmbedRequest → Result GoError A) (embed : Result String EmbedRequest)
      → IsReturned r (embeddings lower {S = S} name_of hc entries create embed r)
  unfolding embeddings
  embeddings-IsReturned create (err msg) = untouched _
  embeddings-IsReturned create (ok req) =
      guarded (is_missing req.input) _ _ (untouched _)
        (lease-IsReturned _ (λ b. answer-ne-crashed b (create b req)))

  either-ne-crashed :
      (t : Bool) (x y : Response A S) → x ≢ crashed → y ≢ crashed → (if t then x else y) ≢ crashed
  either-ne-crashed true x y p q = p
  either-ne-crashed false x y p q = q

  chat_response-ne-crashed :
      (chat : B → ChatRequest → Result GoError A) (stream : B → ChatRequest → S) (req : ChatRequest)
      (b : B)
      → chat_response lower name_of hc entries chat stream req b ≢ crashed
  chat_response-ne-crashed chat stream req b =
      either-ne-crashed req.stream _ _ (λ x. cc) (answer-ne-crashed b (chat b req))

  chat-IsReturned :
      (chat : B → ChatRequest → Result GoError A) (stream : B → ChatRequest → S)
      (ask : Result String ChatRequest)
      → IsReturned r (chat_completions lower name_of hc entries chat stream ask r)
  unfolding chat_completions
  chat-IsReturned chat stream (err msg) = untouched _
  chat-IsReturned chat stream (ok req) =
      guarded (eqb (length req.messages) 0) _ _ (untouched _)
        (lease-IsReturned _ (chat_response-ne-crashed chat stream (with_model req)))

  -- Whatever is requested and whatever the backends answer, on a consistent registry and with no
  -- other request meanwhile: models, embeddings and chat completions never call a nil backend, and
  -- leave the in-flight count of every name as it was before the request.
  pub handlers-IsReturned :
      (list_models : B → Result GoError A) (create : B → EmbedRequest → Result GoError A)
      (chat : B → ChatRequest → Result GoError A) (stream : B → ChatRequest → S)
      (embed : Result String EmbedRequest) (ask : Result String ChatRequest)
      → (IsReturned r (models lower {S = S} name_of hc entries list_models r)
          × IsReturned r (embeddings lower {S = S} name_of hc entries create embed r)
          × IsReturned r (chat_completions lower name_of hc entries chat stream ask r))
  handlers-IsReturned list_models create chat stream embed ask = (
    models-IsReturned list_models,
    embeddings-IsReturned create embed,
    chat-IsReturned chat stream ask,
  )
