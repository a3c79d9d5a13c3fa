-- ===== src/Server/Ending.antt =====
-- The end of `main` in cmd/inferencia/main.go after a signal, and `Shutdown` of
-- internal/server/server.go.
use inferencia.Common.{
  String, Bool, false, Option, none, some, List, [], ◌∷◌, ◌++◌, ◌≡◌, refl, inl, inr, Option-cases,
}
use inferencia.Watchdog.Loop.{Monitor, stop}

-- A line of the log: its message, and the error that it reports.
abbrev pub Line : Type 0
Line = String × Option String

-- What runs besides the requests: `P` are the library's tracing providers.
pub record Running (P : Type 0) : Type 0 where
  pub monitor : Monitor
  pub tracer : Option P
  pub exporting : Bool
  pub serving : Bool
  pub lines : List Line

abbrev failed : Option String → List Line
failed none = []
failed (some e) = ("server shutdown error", some e) ∷ []

module _ {P : Type 0} where
  -- `result` is that of `srv.Shutdown`, which closes the listeners and waits for the open requests.
  unfoldable pub shut_down_server : Option String → Running P → Running P
  shut_down_server result s = record s {
    serving = false;
    lines = s.lines ++ (("shutting down server", none) ∷ failed result);
  }

  abbrev pub stop_tracer : Running P → Running P
  stop_tracer s = elim s.tracer [ none ↦ s | some provider ↦ record s { exporting = false } ]

  abbrev pub log_line : String → Running P → Running P
  log_line message s = record s { lines = s.lines ++ ((message, none) ∷ []) }

  unfoldable pub end_main : Option String → Running P → Running P
  end_main result s =
      let received = log_line "shutdown signal received" s in
      let stopped = record received { monitor = stop received.monitor } in
      log_line "server stopped" (shut_down_server result (stop_tracer stopped))

  pub end_main-stop :
      (result : Option String) (s : Running P) → (end_main result s).monitor ≡ stop s.monitor
  unfolding end_main shut_down_server
  end_main-stop result s = elim (Option-cases s.tracer) [
    | inl e ↦ rw e refl
    | inr (provider, e) ↦ rw e refl
  ]
