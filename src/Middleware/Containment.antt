-- ===== src/Middleware/Containment.antt =====
-- What the whole stack guarantees, for handlers that return and for handlers that panic.
use inferencia.Common.{
  ℕ, ◌≡◌, refl, ap, ◌⊎◌, inl, inr, String, Option, none, some, List, [], ◌∷◌, ◌++◌, ◌==◌, arith,
  if◌then◌else◌, itoa,
}
use inferencia.ApiError.{Error, internal}
use inferencia.KeyStore.{KeyStore}
use inferencia.Middleware.{Handler, new_status_writer, level_of, normalize_path}
use inferencia.Middleware.Observation.{
  Event, run, header, body, first_status, total, run-new_status_writer,
}
use inferencia.Middleware.Protection.{protected}
use inferencia.Middleware.Stack.{
  request_line, Incoming, Exchange, RequestLine, request, panic_recovered, Site, generate_id,
  request_id, recover, metrics, logging, lift, stack,
}

module _ (size : Error → ℕ) (random : Option (List ℕ)) (ks : KeyStore) (h : Handler Exchange)
    (req : Incoming) (s : Site) where
  abbrev pub id_of : String
  id_of = if req.request_id_header == "" then generate_id random else req.request_id_header

  -- Authentication, limit and handler alone.
  abbrev pub inside : Exchange × Site
  inside = lift size (protected ks h) (record req { context_id = id_of }) s

  -- The log line of a response, without a key.
  abbrev pub line_of : List Event → RequestLine
  line_of es = record {
    level = level_of (first_status 200 es);
    request_id = id_of;
    method = req.method;
    path = req.path;
    status = first_status 200 es;
    bytes = total es;
    remote_addr = req.remote_addr;
    user_agent = req.user_agent;
    api_key = none;
  }

  abbrev pub counted_as : List Event → String × String × String
  counted_as es = (req.method, normalize_path req.path, itoa (first_status 200 es))

  -- The response is the inner one; a line and a count are added.
  abbrev pub IsObserved : Exchange × Site → Type 0
  IsObserved (x, s') =
      (inside.0.panic ≡ none)
      × (x.headers ≡ ("X-Request-ID", id_of) ∷ inside.0.headers)
      × (x.events ≡ inside.0.events)
      × (s'.lines ≡ s.lines ++ (request (line_of inside.0.events) ∷ []))
      × (s'.counts ≡ s.counts ++ (counted_as inside.0.events ∷ []))

  -- An error 500 follows what was written; only the panic is logged, and nothing is counted.
  abbrev pub IsRecovered : Exchange × Site → Type 0
  IsRecovered (x, s') =
      (value : String) × (inside.0.panic ≡ some value)
      × (x.events
          ≡ inside.0.events ++ (header 500 ∷ body (size (internal "Internal server error.")) ∷ []))
      × (s'.lines ≡ s.lines ++ (panic_recovered value req.method req.path ∷ []))
      × (s'.counts ≡ s.counts)

  abbrev pub IsContained : Exchange × Site → Type 0
  IsContained (x, s') =
      (x.panic ≡ none)
      × (s'.in_flight ≡ s.in_flight)
      × (s'.limiter ≡ inside.1.limiter)
      × (IsObserved (x, s') ⊎ IsRecovered (x, s'))

  request_line-line_of :
      req.inner.api_key ≡ ""
      → request_line (record req { context_id = id_of }) (run new_status_writer inside.0.events)
        ≡ line_of inside.0.events
  request_line-line_of e =
      let (status, bytes) = run-new_status_writer inside.0.events in rw (status, bytes, e) refl

  outcome :
      (o : Option String)
      → inside.0.panic ≡ o
      → req.inner.api_key ≡ ""
      → IsContained (stack size random ks h req s)
  unfolding stack request_id recover metrics logging
  outcome none returned e =
      rw (recover, metrics, logging, returned)
        (
          returned,
          omega arith,
          refl,
          inl (
            refl,
            refl,
            refl,
            ap (λ l. s.lines ++ (request l ∷ [])) (request_line-line_of e),
            ap (λ n. s.counts ++ ((req.method, normalize_path req.path, itoa n) ∷ []))
                (run-new_status_writer inside.0.events).0,
          ),
        )
  outcome (some value) panicked e =
      rw (recover, metrics, logging, panicked)
        (refl, omega arith, refl, inr (value, refl, refl, refl, refl))

  -- On a request without a key in its context, whatever the handler does: no panic leaves the
  -- stack, the gauge of requests in flight is as before, and the limiter is as authentication,
  -- limit and handler left it. If they return, then the response is theirs, one line is logged and
  -- one request counted, with the first status that they wrote or 200, and the line shows no key.
  -- If they panic, then an error 500 follows what they wrote, the panic is logged, and there is
  -- no line and no count of the request.
  pub stack-IsContained : req.inner.api_key ≡ "" → IsContained (stack size random ks h req s)
  stack-IsContained e = outcome inside.0.panic refl e
