-- ===== src/Gateway/Handlers.antt =====
-- A handler of internal/handler that runs alone, as a step of the gateway that begins a request and one
-- that ends it.
use inferencia.Common.{◌≡◌, ◌⊎◌, String, Char, some, List, ◌∷◌}
use inferencia.Backend
use inferencia.Watchdog.{is_healthy}
use inferencia.Handler.{Response}
use inferencia.Gateway.{Gateway, begin_chat, end_chat}

abbrev pub checker : {B : Type 0} → Gateway B → Backend.HealthChecker
checker g = some (is_healthy g.watchdog)

module _ {B A : Type 0} (S : Type 0) (lower : Char → Char) (name_of : B → String)
    (entries : List (String × B)) (g : Gateway B) where
  -- The registry is that of `g`, or that after a request has begun and, if it took a backend, ended;
  -- the other open requests are still open.
  abbrev pub IsAlone : Response A S × Backend.Registry B → Type 0
  IsAlone result =
      (result.1 ≡ g.chat)
      ⊎ ((result.1 ≡ (begin_chat name_of entries g).chat)
          × ((begin_chat name_of entries g).chat_open ≡ g.chat_open))
      ⊎ ((name : String) × ((begin_chat name_of entries g).chat_open ≡ name ∷ g.chat_open)
          × (result.1 ≡ (end_chat name (begin_chat name_of entries g)).chat)
          × ((end_chat name (begin_chat name_of entries g)).chat_open ≡ g.chat_open))
