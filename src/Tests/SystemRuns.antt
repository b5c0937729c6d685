-- ===== src/Tests/SystemRuns.antt =====
-- The theorems on the tasks of a process at concrete runs, and two tasks that race on one route.
use telegram_socks_ws_proxy.Ws.Types.{WsError, status_code}
use telegram_socks_ws_proxy.Telegram.Catalog.{ws_domains}
use telegram_socks_ws_proxy.Routing.Client.{connect_ws_route, conclude}
use telegram_socks_ws_proxy.Routing.Backoff.{disable_404, record_failure}
use telegram_socks_ws_proxy.Routing.System.{attempting, concluded}
use telegram_socks_ws_proxy.Base.{
  ℕ, ◌≡◌, refl, arith, true, false, none, some, List, [], ◌∷◌, ◌++◌, ◌⊎◌,
}
use telegram_socks_ws_proxy.Base.Stream.{Stream}
use telegram_socks_ws_proxy.Routing.Backoff.{
  keeps, ws_failure_cooldown, WsState, probe_now, begin_probe,
}
use telegram_socks_ws_proxy.Routing.System.{
  accepted, advance, System, fresh, with_client, moved, ◌⟶*◌, tick, accept, act, no_step, and_then,
}
use telegram_socks_ws_proxy.Routing.System.Invariant.{
  IsSound, IsSoundSystem, reachable-IsSoundSystem,
}
use telegram_socks_ws_proxy.Routing.System.Table.{
  IsSoundTable, reachable-IsSoundTable, reachable-free,
}
use telegram_socks_ws_proxy.Routing.System.Closed.{IsClosed, IsElsewhere, run-IsClosed}
use telegram_socks_ws_proxy.Routing.System.Alone.{rounds}
use telegram_socks_ws_proxy.Routing.System.Served.{rounds-concluded}
use telegram_socks_ws_proxy.Routing.Client.Attempts.{any, connects}
use telegram_socks_ws_proxy.Base.Text.{eq_str}
use telegram_socks_ws_proxy.Base.Utf8.{Str}
use telegram_socks_ws_proxy.Tests.RoutingRuns
use telegram_socks_ws_proxy.Tests.Toy.{toy}
use telegram_socks_ws_proxy.Tests.RoutingRuns.{client, idle, second_connects, shared}

abbrev go : System → System
go σ = moved toy none σ 0 (advance toy none second_connects σ.now σ.shared (σ.clients 0))

abbrev arrives : Stream → System → System
arrives s σ = record σ { clients = with_client 0 (accepted s) σ.clients }

abbrev served : System
served = go (go (go (go (go (go (arrives client (fresh 0)))))))

abbrev six : {σ : System} → ◌⟶*◌ toy none σ (go (go (go (go (go (go σ))))))
six = and_then (act 0 second_connects) (
    and_then (act 0 second_connects) (
      and_then (act 0 second_connects) (
        and_then (act 0 second_connects)
          (and_then (act 0 second_connects) (and_then (act 0 second_connects) no_step)))))

abbrev serving : ◌⟶*◌ toy none (fresh 0) served
serving = and_then (accept 0 client refl) six

reachable-IsSoundSystem_example : IsSoundSystem served
reachable-IsSoundSystem_example = reachable-IsSoundSystem toy none 0 served serving

reachable-IsSoundTable_example : IsSoundTable 0 served.shared.backoff
reachable-IsSoundTable_example = reachable-IsSoundTable toy none 0 served serving

reachable-free_example :
    ((begin_probe (2, false) 60_000_000_000 served.shared.backoff).1 ≡ probe_now)
    ⊎ (served.shared.backoff.states (2, false) ≡ some WsState.disabled_404)
reachable-free_example =
    reachable-free toy none 0 served (2, false) 60_000_000_000 serving (omega arith)

-- Another client recorded a failure at 0.
abbrev cooling : WsState
cooling = WsState.cooldown ws_failure_cooldown

abbrev closed_to_all : System
closed_to_all = record (fresh 0) {
  shared = record shared { backoff = record { states = λ k. some cooling } };
}

elsewhere : (i : ℕ) → IsElsewhere (2, false) (closed_to_all.clients i)
unfolding IsElsewhere
elsewhere i = tt

closed-IsSoundSystem : IsSoundSystem closed_to_all
unfolding IsSound
closed-IsSoundSystem = (λ ip entry h. cc, λ i. tt)

abbrev turned_away : System
turned_away = go (go (go (go (go (go (arrives client (record closed_to_all { now = 9 })))))))

still_cooling : keeps 9 cooling ≡ true
unfolding keeps
still_cooling = refl

run-IsClosed_example : IsClosed (2, false) cooling turned_away
run-IsClosed_example =
    run-IsClosed toy none (2, false) cooling tt closed_to_all turned_away
      (and_then (tick 9) (and_then (accept 0 client refl) six)) closed-IsSoundSystem still_cooling
      (refl, elsewhere)

second_reached : any (λ d. connects (second_connects d)) (ws_domains 2 false) ≡ true
unfolding ws_domains eq_str
second_reached = refl

rounds-concluded_example :
    (front : List Str) × (domain : Str) × (back : List Str) × (ws_domains 2 false
      ≡ front ++ (domain ∷ back))
    × (any (λ d. connects (second_connects d)) front ≡ false)
    × (second_connects domain ≡ none)
    × ((rounds toy none second_connects 0 6 shared (accepted client)).0
        ≡ concluded (2, false) RoutingRuns.resolved (some domain))
    × ((t : ℕ)
        → (begin_probe
            (2, false)
            t
            (rounds toy none second_connects 0 6 shared (accepted client)).1.backoff).1
          ≡ probe_now)
rounds-concluded_example =
    rounds-concluded toy none second_connects 0 shared client (2, false) RoutingRuns.resolved
      RoutingRuns.attempted second_reached

-- Two tasks attempt one route. All its domains answer 404 to the first, and time out for the second, whose cooldown
-- replaces the disablement.
abbrev racing : System
racing = record (fresh 0) {
  clients = λ i.
      attempting (2, false) 0
        (record { packet = []; info = record { dc = some 2; is_media = false }; patched = false });
}

abbrev answered_with : ℕ → WsError → System → System
answered_with i e σ =
    moved toy none σ i (advance toy none (λ d. some e) σ.now σ.shared (σ.clients i))

disabled_by_the_first :
    (answered_with 0 (WsError.http_status 404 none) racing).shared.backoff.states (2, false)
    ≡ some WsState.disabled_404
unfolding advance connect_ws_route conclude disable_404 ws_domains status_code
disabled_by_the_first = refl

reopened_by_the_second :
    (answered_with 1 WsError.timeout
        (answered_with 0 (WsError.http_status 404 none) racing)).shared.backoff.states
      (2, false)
    ≡ some (WsState.cooldown ws_failure_cooldown)
unfolding advance connect_ws_route conclude record_failure ws_domains status_code
reopened_by_the_second = refl
