-- ===== src/Server/Access.antt =====
-- Who reaches a handler of the server that `main` sets up.
use inferencia.Common.{ℕ, ◌≡◌, sym, ◌∙◌, Bool, true, Option, some, List, starts_with, All}
use mathlib.Core.Option.{some_inj}
use inferencia.Config.{Config}
use inferencia.ApiError.{Error}
use inferencia.KeyStore.{KeyStore}
use inferencia.Middleware.{Handler}
use inferencia.Middleware.Refusal.{HasKey}
use inferencia.Middleware.Stack.{Incoming, Exchange}
use inferencia.Server.{Endpoint, HttpServer, World, serve}
use inferencia.Server.Guarded.{IsBehindStack, IsRefused, serve-IsRefused}
use inferencia.Server.Process.{set_up}
use inferencia.Server.Boot.{routes_of, set_up-IsSetUp}

routes-behind :
    (cfg : Config) (serves : Bool) (srv : HttpServer)
    → set_up cfg serves ≡ some srv
    → All IsBehindStack (routes_of srv.handler)
routes-behind cfg serves srv e =
    let (srv', e', set) = set_up-IsSetUp cfg serves in
    let same : srv' ≡ srv = some_inj.0 (sym e' ∙ e) in rw (← same) set.0

-- On the server that `main` sets up, with or without speech: a request under /v1/ without a key
-- that the store accepts gets the redirect of Go's mux if the mux redirects it to a clean path, and
-- else is refused with a 401, 404 or 405 and without a panic; both limiters are as before, and no
-- handler plays a part: with any others, the response and all state would be the same.
pub serve-set_up-IsRefused :
    (cfg : Config) (serves : Bool) (srv : HttpServer) (size : Error → ℕ) (ks : KeyStore)
    (redirect : Incoming → Option Exchange) (random : Option (List ℕ)) (req : Incoming) (w : World)
    (h : ¬ HasKey ks req.inner) (pages pages' : Endpoint → Incoming → Exchange)
    (handlers handlers' : Endpoint → Handler Exchange)
    → set_up cfg serves ≡ some srv
    → starts_with req.path "/v1/" ≡ true
    → IsRefused size ks redirect random req w h
        (serve size ks redirect pages handlers (routes_of srv.handler) random req w)
      × (serve size ks redirect pages handlers (routes_of srv.handler) random req w
          ≡ serve size ks redirect pages' handlers' (routes_of srv.handler) random req w)
serve-set_up-IsRefused cfg serves srv size ks redirect random req w h pages pages' handlers
      handlers' e =
    serve-IsRefused size ks redirect random req w h pages pages' handlers handlers'
      (routes_of srv.handler) (routes-behind cfg serves srv e)
