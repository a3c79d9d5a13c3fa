-- ===== src/Gateway.antt =====
-- The requests of internal/handler for chat, embeddings and models beside the checks of
-- internal/watchdog/watchdog.go. Here a request takes a backend with `PrimaryHealthy` and gives it back
-- with its deferred `ReleaseBackend`, each in one step, as where no other request runs meanwhile;
-- Gateway/Requests has the steps of both that other requests may come between.
pub mod Handlers
pub mod Requests
pub mod Accounts
pub mod Choice
pub mod Alone
mod Tests
use inferencia.Common.{
  String, Option, none, some, List, [], ◌∷◌, ◌==◌, if◌then◌else◌, Result, ok, err,
}
use inferencia.Backend
use inferencia.Backend.{primary_healthy}
use inferencia.Watchdog.{Watchdog, is_healthy}

-- The list without the first occurrence of a name.
abbrev pub remove : String → List String → List String
remove name [] = []
remove name (x ∷ xs) = if x == name then xs else x ∷ remove name xs

-- The registry, the names that the running requests have yet to give back, and the watchdog.
pub record Gateway (B : Type 0) : Type 0 where
  pub chat : Backend.Registry B
  pub chat_open : List String
  pub watchdog : Watchdog

module _ {B : Type 0} (name_of : B → String) where
  -- A request asks for a backend, and then has to give it back.
  abbrev took_chat : Gateway B → Result Backend.Error (Option B) × Backend.Registry B → Gateway B
  took_chat g (err e, r) = record g { chat = r }
  took_chat g (ok none, r) = record g { chat = r }
  took_chat g (ok (some b), r) = record g { chat = r; chat_open = name_of b ∷ g.chat_open }

  unfoldable pub begin_chat : List (String × B) → Gateway B → Gateway B
  begin_chat entries g = took_chat g (primary_healthy g.chat (some (is_healthy g.watchdog)) entries)

module _ {B : Type 0} where
  unfoldable pub end_chat : String → Gateway B → Gateway B
  end_chat name g = record g {
    chat = Backend.release_backend g.chat name;
    chat_open = remove name g.chat_open;
  }
