-- ===== src/Handler/Stream.antt =====
-- internal/handler/chat.go: `handleStream`, and the function `send` that it hands to the backend.
use inferencia.Common.{
  ℕ, ◌+◌, String, Bool, true, false, Option, none, some, join_text, List, [], ◌∷◌,
}
use inferencia.ApiError.{GoError, internal}
use inferencia.Handler.{Response, failed, streamed}

-- The number of events that the handler was asked to send, and the text that was written.
pub record Connection : Type 0 where
  pub calls : ℕ
  pub text : String

-- `data: ...` and an empty line; the code writes the end mark in the same form.
abbrev pub event : String → String
event payload = join_text "data: " (join_text payload "\n\n")

abbrev disconnected : GoError → GoError
disconnected e = record e { text = join_text "client disconnected: " e.text }

-- The request's context and the client's connection answer each call: with `r.Context().Err()`,
-- and with the error of writing.
unfoldable pub send :
    (ℕ → Option GoError) → (ℕ → Option GoError) → Connection → String → Option GoError × Connection
send cancelled broken conn payload = elim (cancelled conn.calls) [
  | some e ↦ (some e, record conn { calls = conn.calls + 1 })
  | none ↦ elim (broken conn.calls) [
    | some e ↦ (some (disconnected e), record conn { calls = conn.calls + 1 })
    | none ↦ (none, record { calls = conn.calls + 1; text = join_text conn.text (event payload) })
  ]
]

abbrev pub fresh : Connection
fresh = record { calls = 0; text = "" }

abbrev pub stream_headers : List (String × String)
stream_headers =
    ("Content-Type", "text/event-stream")
    ∷ ("Cache-Control", "no-cache")
    ∷ ("Connection", "keep-alive")
    ∷ ("X-Accel-Buffering", "no")
    ∷ []

-- The answer to a client that can, or cannot, be flushed to, where `stream` is the backend's
-- method with its request; an error of the backend is logged only.
unfoldable pub handle_stream :
    {A : Type 0}
    → Bool
    → (Connection → Option GoError × Connection)
    → Response A (List (String × String) × Connection)
handle_stream false stream = failed (internal "Streaming not supported by this server.")
handle_stream true stream = streamed (stream_headers, (stream fresh).1)
