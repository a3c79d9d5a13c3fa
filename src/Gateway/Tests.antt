-- ===== src/Gateway/Tests.antt =====
-- Requests that overlap, on two backends.
use inferencia.Common.{
  ◌≤◌, ◌≡◌, refl, sym, ◌∙◌, ◌≢◌, inl, String, Char, List, [], ◌∷◌, ok, In, Result, pos, some,
}
use inferencia.ApiError.{GoError}
use inferencia.LoadBalancer.{LoadBalancer, acquire, in_flight, select, new_load_balancer}
use inferencia.Backend.{Registry, new_registry, register, healthy_order}
use inferencia.Backend.Consistency.{register_all}
use inferencia.Backend.Tests.{self, two, visits, visits-IsRange}
use inferencia.Watchdog.{Config, Watchdog, new_watchdog, is_healthy}
use inferencia.Gateway.{Gateway, begin_chat}
use inferencia.Gateway.Requests.{
  Phase, listed, Hall, new_hall, first, enter, list, Reach, here, next,
}
use inferencia.Gateway.Accounts.{holders, IsListed, reachable-picks}
use inferencia.Gateway.Choice.{ChatLists}

abbrev three : Config
three = record { interval = 30; fail_threshold = pos 3; request_timeout = 5 }

abbrev start : Watchdog
start = new_watchdog three

abbrev registered : Registry String
registered = register_all self new_registry ("mlx" ∷ "ollama" ∷ [])

registered-two : registered ≡ two
unfolding register_all register new_registry new_load_balancer
registered-two = refl

abbrev order : List String
order = healthy_order registered (some (is_healthy start)) visits

-- Two requests have come and have their lists.
abbrev ready : Phase
ready = listed (start ∷ []) order

abbrev both_ready : Hall
both_ready = record { lb = new_load_balancer; requests = ready ∷ ready ∷ []; watchdog = start }

order_lem : order ≡ "mlx" ∷ "ollama" ∷ []
unfolding register_all register new_registry new_load_balancer is_healthy new_watchdog healthy_order
order_lem = refl

order-ne_nil : order ≢ []
order-ne_nil e = let e' : ◌≡◌ {A = List String} ("mlx" ∷ "ollama" ∷ []) [] = sym order_lem ∙ e in cc

listed_now : ChatLists self registered (some (is_healthy start)) order
listed_now = (visits, rw registered-two visits-IsRange, refl)

both_reached : Reach (ChatLists self registered) (new_hall three) both_ready
unfolding new_hall
both_reached =
    next
      (next
        (next (next here enter) (
          list (start ∷ []) (is_healthy start) order _ (λ name. (start, inl refl, refl)) listed_now
            order-ne_nil first))
        enter)
      (list (start ∷ []) (is_healthy start) order _ (λ name. (start, inl refl, refl)) listed_now
        order-ne_nil first)

-- Where a request holds `ollama`, two that pick before either has acquired both pick `mlx`.
abbrev one_open : LoadBalancer
one_open = acquire new_load_balancer "ollama"

both_pick_mlx :
    (select one_open order).0 ∷ (select (select one_open order).1 order).0 ∷ [] ≡ "mlx" ∷ "mlx" ∷ []
unfolding select acquire in_flight new_load_balancer register_all register new_registry is_healthy
    new_watchdog healthy_order
both_pick_mlx = refl

reachable-picks_example :
    IsListed (ChatLists self registered) (start ∷ []) order
    × In (select both_ready.lb order).0 order
    × ((other : String)
        → In other order
        → holders (select both_ready.lb order).0 both_ready.requests
          ≤ holders other both_ready.requests)
reachable-picks_example =
    reachable-picks (ChatLists self registered) three both_ready (start ∷ []) order both_reached
      (inl refl)

-- A first request, beside which nothing happens.
abbrev calm : Hall
calm = record { lb = registered.lb; requests = []; watchdog = start }

-- One request holds a backend while another handler runs.
abbrev busy : Gateway String
busy = begin_chat self visits (record { chat = two; chat_open = []; watchdog = start })

abbrev same : Char → Char
same c = c

-- The list of models of a backend, while another request runs.
abbrev listed_models : String → Result GoError String
listed_models b = ok b
