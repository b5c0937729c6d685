-- ===== src/Routing/System/Served.antt =====
-- src/modules/routing.rs: a task that no other comes between, on a route with a domain that connects.
use telegram_socks_ws_proxy.Base.{
  ℕ, zero, suc, ◌≡◌, refl, ap, ◌∙◌, true, false, Option, none, some, List, ◌∷◌, ◌++◌,
}
use telegram_socks_ws_proxy.Base.Utf8.{Str}
use telegram_socks_ws_proxy.Base.Stream.{Stream}
use telegram_socks_ws_proxy.Telegram.Cipher.{Cipher}
use telegram_socks_ws_proxy.Telegram.Catalog.{ws_domains}
use telegram_socks_ws_proxy.Ws.Types.{WsError}
use telegram_socks_ws_proxy.Socks.{SocksAuthConfig}
use telegram_socks_ws_proxy.Routing.Backoff.{WsKey, probe_now, begin_probe}
use telegram_socks_ws_proxy.Routing.Resolve.{ResolvedTelegramInit}
use telegram_socks_ws_proxy.Routing.Client.{Shared, Fate, route_client, conclude}
use telegram_socks_ws_proxy.Routing.Client.Attempts.{
  any, connects, connect_ws_route-first, decision-clear,
}
use telegram_socks_ws_proxy.Routing.System.{
  Client, accepted, attempting, concluded, advance, with_backoff,
}
use telegram_socks_ws_proxy.Routing.System.Alone.{task_of, rounds, rounds-route_client}

module _ (c : Cipher) (auth : Option SocksAuthConfig) (answer : Str → Option WsError)
    (now : ℕ) where
  -- One round more.
  rounds-suc :
      (n : ℕ) (shared : Shared) (x : Client)
      → rounds c auth answer now (suc n) shared x
        ≡ advance c auth answer now
            (rounds c auth answer now n shared x).1
            (rounds c auth answer now n shared x).0
  unfolding rounds
  rounds-suc zero shared x = refl
  rounds-suc (suc n) shared x =
      rounds-suc n (advance c auth answer now shared x).1 (advance c auth answer now shared x).0

  attempted :
      (shared : Shared) (s : Stream) (key : WsKey) (r : ResolvedTelegramInit)
      → (route_client c auth now shared s).0 ≡ Fate.attempt key r
      → rounds c auth answer now 6 shared (accepted s)
        ≡ advance c auth answer now (route_client c auth now shared s).1 (attempting key now r)
  attempted shared s key r h =
      rounds-suc 5 shared (accepted s)
      ∙ ap (λ p. advance c auth answer now p.1 p.0)
          (rounds-route_client c auth answer now shared s
            ∙ ap (λ f. (task_of now f, (route_client c auth now shared s).1)) h)

  -- Six steps of a task that no other comes between, and that `route_client` sends to the route of a
  -- key: if one of the route's domains connects, the task is bridged with the first one that does,
  -- and the route is free for whoever asks for it next, whenever that is.
  pub rounds-concluded :
      (shared : Shared) (s : Stream) (key : WsKey) (r : ResolvedTelegramInit)
      → (route_client c auth now shared s).0 ≡ Fate.attempt key r
      → any (λ d. connects (answer d)) (ws_domains key.0 key.1) ≡ true
      → (front : List Str) × (domain : Str) × (back : List Str) × (ws_domains key.0 key.1
          ≡ front ++ (domain ∷ back))
        × (any (λ d. connects (answer d)) front ≡ false)
        × (answer domain ≡ none)
        × ((rounds c auth answer now 6 shared (accepted s)).0 ≡ concluded key r (some domain))
        × ((t : ℕ)
            → (begin_probe key t (rounds c auth answer now 6 shared (accepted s)).1.backoff).1
              ≡ probe_now)
  unfolding advance conclude
  rounds-concluded shared s key r h reached =
      let (front, domain, back, b, split, before, here, found) =
        connect_ws_route-first answer key.0 key.1 reached in
      let after = (route_client c auth now shared s).1 in
      let ends =
        attempted shared s key r h
        ∙ ap
            (λ o. (
              concluded key r (conclude key now o after.backoff).0,
              with_backoff after (conclude key now o after.backoff).1,
            ))
            found in
      (
        front,
        domain,
        back,
        split,
        before,
        here,
        ap (λ p. p.0) ends,
        λ t.
            ap (λ (p : Client × Shared). (begin_probe key t p.1.backoff).1) ends
            ∙ decision-clear key now t after.backoff,
      )
