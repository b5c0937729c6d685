-- ===== src/Main.antt =====
-- src/main.rs, src/runtime/shutdown.rs and the waiting of src/runtime/server.rs: what the program announces, and its life
-- from the accepting of connections to its end. What happens to it is a list of events, each with its moment in
-- nanoseconds. An event at the very moment at which the wait for the shutdown is over comes too late.
pub mod Life
use telegram_socks_ws_proxy.Base.{
  ℕ, ◌+◌, leb, if◌then◌else◌, Bool, true, false, Option, none, some, List, [], ◌∷◌, ◌++◌, map,
}
use telegram_socks_ws_proxy.Base.Utf8.{Str, codes}
use telegram_socks_ws_proxy.Base.Decimal.{to_string}
use telegram_socks_ws_proxy.Net.Ip.{IpAddr}
use telegram_socks_ws_proxy.Listen.{host_is_unspecified}
use telegram_socks_ws_proxy.Config.{CliConfig, telegram_socks_proxy_links}

abbrev pub note : Bool → List Str
note unspecified =
    if unspecified then codes "links are announced from detected local addresses" ∷ [] else []

-- The lines that `main` logs before it starts the server.
unfoldable pub announce : Option (List IpAddr) → CliConfig → List Str
unfolding telegram_socks_proxy_links host_is_unspecified to_string
announce interfaces cli =
    codes "starting tg-ws-proxy-rs"
    ∷ (codes "listening on " ++ (cli.host ++ (codes ":" ++ to_string cli.port)))
    ∷ (map (λ link. codes "telegram socks proxy link: " ++ link)
          (telegram_socks_proxy_links interfaces cli.host cli.port)
        ++ note (host_is_unspecified cli.host))

-- `Duration::from_millis(200)`
abbrev pub shutdown_delay : ℕ
shutdown_delay = 200_000_000

-- `wait_for_shutdown_signal` is over: `deadline` is the end of its sleep, once a signal has come.
abbrev pub is_over : Option ℕ → ℕ → Bool
is_over none t = false
is_over (some deadline) t = leb deadline t

-- Only the first signal counts.
abbrev pub sleeping : Option ℕ → ℕ → Option ℕ
sleeping none t = some (t + shutdown_delay)
sleeping (some deadline) t = some deadline

pub data Event {ℓ κ} (E : Type ℓ) (A : Type κ) : Type (ℓ ⊔ κ) where
  -- `accept` of a listener, and whether the connection comes or an error, with which its loop returns
  accepted : A → Event E A
  accept_failed : E → Event E A
  -- SIGTERM or SIGINT
  signal : Event E A

-- How `main` comes out, and `running` if it does not.
pub data Exit {ℓ} (E : Type ℓ) : Type ℓ where
  running server_exited shutdown : Exit E
  server_error : E → Exit E

module _ {ℓ κ} {E : Type ℓ} {A : Type κ} where
  abbrev pub at_last : Option ℕ → List A × Exit E
  at_last none = ([], running)
  at_last (some deadline) = ([], shutdown)

  -- The `select!` of `main`, over the server that waits for the first of its loops to return, and the wait for a signal:
  -- the connections that are handed to `route_client`, and how it comes out.
  unfoldable pub select : Option ℕ → List (ℕ × Event E A) → List A × Exit E
  select deadline [] = at_last deadline
  select deadline ((t, accepted stream) ∷ events) =
      let (served, exit) = select deadline events in
      if is_over deadline t then ([], shutdown) else (stream ∷ served, exit)
  select deadline ((t, accept_failed e) ∷ events) =
      if is_over deadline t then ([], shutdown) else ([], server_error e)
  select deadline ((t, signal) ∷ events) =
      let later = select (sleeping deadline t) events in
      if is_over deadline t then ([], shutdown) else later

  -- With no listener `join_next` has nothing to wait for.
  unfoldable pub run_main {μ} : {L : Type μ} → List L → List (ℕ × Event E A) → List A × Exit E
  unfolding select
  run_main [] events = ([], server_exited)
  run_main (listener ∷ listeners) events = select none events
